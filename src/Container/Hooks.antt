-- ===== src/Container/Hooks.antt =====
-- container/hooks.rs: the lifecycle hooks of a bundle, run in order with the state on their input.
use marstack_container.Prelude.{
  ℕ, zero, suc, ◌+◌, ◌*◌, Bool, true, false, Option, none, some, List, [], ◌∷◌, ◌==◌, leb,
  if◌then◌else◌,
}
use marstack_container.Prelude.Int.{ℤ, is_nonpos, to_ℕ}
use marstack_container.Std.Text.{Text}
use marstack_container.Std.FilePath.{display}
use marstack_container.Spec.{Hook, Hooks}
use marstack_container.Error.{ok, err, invalid, io}
use marstack_container.Exec.{Exec, raise, guard, ignore, ◌>>=◌, ◌>>◌}
use marstack_container.Os.{Os, Command, done, failed, call}
use marstack_container.State.{OciState, Json}

pub data Phase : Type 0 where
  prestart create_runtime create_container start_container poststart poststop : Phase

unfoldable pub is_fatal : Phase → Bool
is_fatal poststart = false
is_fatal poststop = false
is_fatal _ = true

unfoldable pub select : Phase → Hooks → Option (List Hook)
select prestart h = h.prestart
select create_runtime h = h.create_runtime
select create_container h = h.create_container
select start_container h = h.start_container
select poststart h = h.poststart
select poststop h = h.poststop

-- The hooks of a phase, none where nothing is configured.
unfoldable pub hooks_of : Option Hooks → Phase → List Hook
unfolding select
hooks_of none phase = []
hooks_of (some hooks) phase = elim (select phase hooks) [ none ↦ [] | some list ↦ list ]

-- libc::EPIPE.
abbrev pub epipe : ℕ
epipe = 32

-- `entry.split_once('=')`.
unfoldable pub split_once : ℕ → Text → Option (Text × Text)
split_once c [] = none
split_once c (x ∷ xs) =
    let rest = split_once c xs in
    if x == c then some ([], xs) else elim rest [ none ↦ none | some (k, v) ↦ some (x ∷ k, v) ]

unfoldable pub env_pairs : List Text → List (Text × Text)
unfolding split_once
env_pairs [] = []
env_pairs (e ∷ es) = elim (split_once b'=' e) [ none ↦ env_pairs es | some p ↦ p ∷ env_pairs es ]

abbrev list_of : {A : Type 0} → Option (List A) → List A
list_of none = []
list_of (some xs) = xs

-- The first argument is the name that the hook sees; without one it is its path, as text.
unfoldable pub command_of : Hook → List Text → Command
command_of hook [] = record {
  program = hook.path;
  arg0 = display hook.path;
  args = [];
  env = env_pairs (list_of hook.env);
}
command_of hook (a ∷ as') = record {
  program = hook.path;
  arg0 = a;
  args = as';
  env = env_pairs (list_of hook.env);
}

-- The time, in milliseconds, that a positive timeout gives the hook.
unfoldable pub budget : Option ℤ → Option ℕ
budget none = none
budget (some seconds) = if is_nonpos seconds then none else some (to_ℕ seconds * 1_000)

module _ (os : Os) where
  unfoldable pub kill_and_reap : ℕ → Exec os.World (Unit {0})
  kill_and_reap child = do
    ignore (call os "" (os.kill_child child))
    ignore (call os "" (os.wait child))

  unfoldable pub timed_out : ℕ → Exec os.World Bool
  unfolding kill_and_reap
  timed_out child = do kill_and_reap child; raise (invalid "timed out")

  -- One poll, and another after a sleep. The rounds are bounded by the deadline: every round
  -- takes at least the sleep's ten milliseconds.
  unfoldable pub poll : ℕ → ℕ → ℕ → Exec os.World Bool
  unfolding timed_out
  poll zero deadline child w = timed_out child w
  poll (suc n) deadline child w =
      let (answer, w') = os.try_wait child w in
      let rest = poll n deadline child (os.sleep 10 w') in
      elim answer [
        | failed e ↦ (err (io "poll the hook" e), w')
        | done (some success) ↦ (ok success, w')
        | done none ↦ if leb deadline (os.instant w') then timed_out child w' else rest
      ]

  unfoldable pub await : Option ℕ → ℕ → Exec os.World Bool
  unfolding poll
  await none child w = call os "wait for the hook" (os.wait child) w
  await (some millis) child w = poll (suc millis) (os.instant w + millis) child w

  -- A hook that never reads its input closes the pipe, which is no error.
  unfoldable pub feed : ℕ → Text → Exec os.World (Unit {0})
  unfolding kill_and_reap
  feed child payload w =
      let (answer, w') = os.write_stdin child payload w in
      elim answer [
        | done _ ↦ (ok tt, w')
        | failed e ↦
            if e == epipe
            then (ok tt, w')
            else ((kill_and_reap child
                  >> raise (io "write the container state to the hook's stdin" e))
                w')
      ]

  unfoldable pub one : Hook → Text → Exec os.World (Unit {0})
  unfolding command_of await feed
  one hook payload = do
    child ← call os "spawn hook" (os.spawn (command_of hook (list_of hook.args)))
    feed child payload
    success ← await (budget hook.timeout) child
    guard success (invalid "exited with a failure")

  -- The hooks that are left; the failure of a fatal phase ends the loop.
  unfoldable pub run_from : Phase → Text → List Hook → Exec os.World (Unit {0})
  run_from phase payload [] w = (ok tt, w)
  run_from phase payload (hook ∷ hooks) w =
      let (outcome, w') = one hook payload w in
      let rest = run_from phase payload hooks w' in
      elim outcome [
        | ok _ ↦ rest
        | err e ↦ if is_fatal phase then (err (invalid "hook failed"), w') else rest
      ]

  unfoldable pub run : Json → Option Hooks → Phase → OciState → Exec os.World (Unit {0})
  unfolding run_from hooks_of
  run js hooks phase state = run_from phase (js.to_vec state) (hooks_of hooks phase)
