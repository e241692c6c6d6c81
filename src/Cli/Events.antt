-- ===== src/Cli/Events.antt =====
-- commands/events.rs: the statistics of a container, once or until it has stopped.
pub mod Followed
pub mod Interval
use marstack_container.Prelude.{
  ℕ, zero, suc, ◌*◌, ◌%◌, ◌^◌, ◌==◌, Option, none, some, [], ◌∷◌, if◌then◌else◌,
}
use marstack_container.Std.Text.{Text, codes, trim, strip_prefix}
use marstack_container.Std.Decimal.{parse_unsigned, u64_bound}
use marstack_container.Error.{Result, ok, err, invalid}
use marstack_container.Exec.{Exec, lift, look, ◌>>=◌, ◌>>◌}
use marstack_container.Os.{Os}
use marstack_container.Paths.{Layout}
use marstack_container.Cgroup.V2.{Cgroup, read}
use marstack_container.Cgroup.Events
use marstack_container.Cgroup.Events.{MemoryEvents, CpuStat}
use marstack_container.State.{
  Container, Json, created, running, paused, stopped, load, status, status_eq, require, cgroup_of,
}
use marstack_container.Cli.Args.{EventsArgs}

pub record Memory : Type 0 where
  pub usage : ℕ
  pub peak : ℕ
  pub limit_events : ℕ
  pub oom_kill : ℕ

pub record Cpu : Type 0 where
  pub usage_usec : ℕ
  pub nr_periods : ℕ
  pub nr_throttled : ℕ
  pub throttled_usec : ℕ

pub record Pids : Type 0 where
  pub current : ℕ

pub record Stats : Type 0 where
  pub memory : Memory
  pub cpu : Cpu
  pub pids : Pids

pub record Event : Type 0 where
  pub kind : Text
  pub id : Text
  pub stats : Option Stats

-- `s.strip_suffix(…)`: the text up to the suffix, if it ends so.
unfoldable pub strip_suffix : Text → Text → Option Text
strip_suffix suffix [] = elim suffix [ [] ↦ some [] | _ ↦ none ]
strip_suffix suffix (c ∷ cs) =
    let rest = strip_suffix suffix cs in
    elim (strip_prefix suffix (c ∷ cs)) [
      | some left ↦ elim left [
        | [] ↦ some []
        | _ ↦ elim rest [ none ↦ none | some front ↦ some (c ∷ front) ]
      ]
      | none ↦ elim rest [ none ↦ none | some front ↦ some (c ∷ front) ]
    ]

-- The number and the milliseconds that its unit has.
unfoldable pub unit_of : Text → Text × ℕ
unfolding strip_suffix
unit_of trimmed = elim (strip_suffix (codes "ms") trimmed) [
  | some rest ↦ (rest, 1)
  | none ↦ elim (strip_suffix (codes "s") trimmed) [
    | some rest ↦ (rest, 1_000)
    | none ↦ elim (strip_suffix (codes "m") trimmed) [
      | some rest ↦ (rest, 60_000)
      | none ↦ (trimmed, 1_000)
    ]
  ]
]

-- A positive number of a unit, in milliseconds. The product of `u64` wraps.
unfoldable pub interval_of : ℕ → Option ℕ → Result ℕ
interval_of multiplier none = err (invalid "cannot parse the interval")
interval_of multiplier (some n) =
    if n == 0 then err (invalid "the interval must be positive") else ok (n * multiplier % 2 ^ 64)

unfoldable pub parse_interval : Text → Result ℕ
unfolding unit_of interval_of
parse_interval text =
    let (value, multiplier) = unit_of (trim text) in
    interval_of multiplier (parse_unsigned u64_bound value)

-- `unwrap_or_default()`.
abbrev pub or_value : {A : Type 0} → A → Result A → A
or_value d (ok a) = a
or_value d (err e) = d

abbrev pub number_or_0 : Option ℕ → ℕ
number_or_0 none = 0
number_or_0 (some n) = n

module _ (os : Os) where
  unfoldable pub single_value : Cgroup → Text → os.World → ℕ
  single_value cgroup file w = elim (read os cgroup file w) [
    | err e ↦ 0
    | ok text ↦ number_or_0 (parse_unsigned u64_bound (trim text))
  ]

  -- A file that cannot be read has no counters, which is as if each of them were 0.
  unfoldable pub sample : Container → os.World → Event
  unfolding single_value
  sample container w =
      let cgroup = cgroup_of container in
      let memory = Events.memory_events (or_value [] (read os cgroup (codes "memory.events") w)) in
      let cpu = Events.cpu_stat (or_value [] (read os cgroup (codes "cpu.stat") w)) in
      record {
        kind = codes "stats";
        id = container.state.id;
        stats = some (record {
          memory = record {
            usage = single_value cgroup (codes "memory.current") w;
            peak = single_value cgroup (codes "memory.peak") w;
            limit_events = memory.max;
            oom_kill = memory.oom_kill;
          };
          cpu = record {
            usage_usec = cpu.usage_usec;
            nr_periods = cpu.nr_periods;
            nr_throttled = cpu.nr_throttled;
            throttled_usec = cpu.throttled_usec;
          };
          pids = record { current = single_value cgroup (codes "pids.current") w };
        });
      }

  unfoldable pub exit_event : Container → Event
  exit_event container = record { kind = codes "exit"; id = container.state.id; stats = none }

  module _ (print : Event → os.World → os.World) where
    -- The rounds that are left; none where they run out before the container stops.
    unfoldable pub follow : ℕ → ℕ → Container → Exec os.World (Option (Unit {0}))
    unfolding sample exit_event
    follow zero interval container w = (ok none, w)
    follow (suc n) interval container w =
        let rest = follow n interval container (os.sleep interval (print (sample container w) w)) in
        if status_eq (status os container w) stopped
        then (ok (some tt), print (exit_event container) w)
        else rest

    unfoldable pub run : Json → ℕ → Layout → EventsArgs → Exec os.World (Option (Unit {0}))
    unfolding parse_interval follow
    run js fuel layout args = do
      container ← look (load os js layout args.id)
      look (require os container (created ∷ running ∷ paused ∷ []))
      if args.stats
          then (λ w. (ok (some tt), print (sample container w) w))
          else (lift (parse_interval args.interval) >>= λ interval. follow fuel interval container)
