-- ===== src/Telemetry.antt =====
-- telemetry.rs: the times of the phases of a start, and their export. A time is what `elapsed_us`
-- gives at a call: the microseconds since the recorder was made, as a `u64`.
pub mod Recorded
pub mod Payload
pub mod Quoted
pub mod Endpoint
pub mod Export
use marstack_container.Prelude.{ℕ, ◌+◌, ◌%◌, ◌^◌, Option, none, some, List, [], ◌∷◌, ◌++◌, map}
use marstack_container.Std.Text.{Text, codes}
use marstack_container.Sync.{Phase}

pub record Recorder : Type 0 where
  pub wall_origin : ℕ
  pub recorded : List Phase
  pub current : Option (Text × ℕ)

unfoldable pub new : ℕ → Recorder
new wall = record { wall_origin = wall; recorded = []; current = none }

-- The phase that is open ends at the time.
unfoldable pub end_phase : ℕ → Option (Text × ℕ) → List Phase
end_phase now none = []
end_phase now (some (name, start)) = record { name = name; start_us = start; end_us = now } ∷ []

unfoldable pub end : ℕ → Recorder → Recorder
unfolding end_phase
end now r = record r { recorded = r.recorded ++ end_phase now r.current; current = none }

-- `begin` reads the time twice: for the end of the open phase, and for the start of the next.
unfoldable pub begin : Text → ℕ → ℕ → Recorder → Recorder
unfolding end
begin name ended started r = record (end ended r) { current = some (name, started) }

-- The phases of another recorder, later by an offset. A sum of `u64` wraps.
unfoldable pub shift : Text → ℕ → Phase → Phase
shift prefix offset p = record {
  name = prefix ++ codes "." ++ p.name;
  start_us = (offset + p.start_us) % 2 ^ 64;
  end_us = (offset + p.end_us) % 2 ^ 64;
}

unfoldable pub absorb : Text → ℕ → List Phase → Recorder → Recorder
unfolding shift
absorb prefix offset phases r = record r {
  recorded = r.recorded ++ map (shift prefix offset) phases;
}

unfoldable pub take : ℕ → Recorder → List Phase × Recorder
unfolding end
take now r = ((end now r).recorded, record (end now r) { recorded = [] })
