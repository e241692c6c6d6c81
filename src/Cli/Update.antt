-- ===== src/Cli/Update.antt =====
-- commands/lifecycle.rs: `update` takes its limits from a JSON document or from its options. cli.rs:
-- the options, as the parser of arguments gives them.
use marstack_container.Prelude.{
  ℕ, Bool, true, false, not, ◌||◌, Option, none, some, [], ◌∷◌, if◌then◌else◌,
}
use marstack_container.Prelude.Int.{ℤ, int_eq, pos}
use marstack_container.Std.Text.{Text, codes}
use marstack_container.Std.FilePath.{FilePath, normal, path_eq}
use marstack_container.Spec.{LinuxResources}
use marstack_container.Error.{Result, ok, err, invalid, json, unimplemented, ◌>>=◌}
use marstack_container.Exec.{Exec}
use marstack_container.Os.{Os, io_ctx}
use marstack_container.Paths.{Layout}
use marstack_container.State.{Json}
use marstack_container.Container.Commands

pub record UpdateArgs : Type 0 where
  pub resources : Option FilePath
  pub memory : Option ℤ
  pub memory_swap : Option ℤ
  pub cpu_quota : Option ℤ
  pub cpu_period : Option ℕ
  pub cpu_share : Option ℕ
  pub cpuset_cpus : Option Text
  pub cpuset_mems : Option Text
  pub pids_limit : Option ℤ
  pub id : Text

-- `is_some()`.
abbrev pub given {ℓ} : {A : Type ℓ} → Option A → Bool
given none = false
given (some x) = true

unfoldable pub touches_memory : UpdateArgs → Bool
touches_memory args = given args.memory || given args.memory_swap

unfoldable pub touches_cpu : UpdateArgs → Bool
touches_cpu args =
    given args.cpu_quota
    || given args.cpu_period
    || given args.cpu_share
    || given args.cpuset_cpus
    || given args.cpuset_mems

-- The document that the options build.
unfoldable pub built : UpdateArgs → LinuxResources
unfolding touches_memory touches_cpu
built args = record {
  memory =
      if touches_memory args
      then some (record { limit = args.memory; reservation = none; swap = args.memory_swap })
      else none;
  cpu =
      if touches_cpu args
      then some (record {
        shares = args.cpu_share;
        quota = args.cpu_quota;
        period = args.cpu_period;
        cpus = args.cpuset_cpus;
        mems = args.cpuset_mems;
      })
      else none;
  pids_limit = args.pids_limit;
  block_io = none;
  unified = none;
}

unfoldable pub from_flags : UpdateArgs → Result LinuxResources
unfolding built
from_flags args =
    if touches_memory args || touches_cpu args || given args.pids_limit
    then ok (built args)
    else err (invalid "update needs at least one limit, or --resources with a JSON document")

unfoldable pub reject_unsupported : ℤ → Bool → Result (Unit {0})
reject_unsupported preserve_fds no_pivot =
    if not (int_eq preserve_fds (pos 0))
    then err (unimplemented "--preserve-fds")
    else if no_pivot
    then err (unimplemented "--no-pivot")
    else ok tt

module _ (os : Os) (js : Json) where
  -- The document at a path, or from the standard input where the path is a dash.
  unfoldable pub read_resources : FilePath → os.World → Result LinuxResources
  read_resources path w = do
    text ←
        (if path_eq path (normal (codes "-") ∷ [])
          then io_ctx "read resources from stdin" (os.read_stdin w)
          else io_ctx "read" (os.read_to_string path w))
    elim (js.resources_from_str text) [ none ↦ err json | some r ↦ ok r ]

  unfoldable pub update_resources : UpdateArgs → os.World → Result LinuxResources
  unfolding from_flags read_resources
  update_resources args w = elim args.resources [
    | none ↦ from_flags args
    | some path ↦ read_resources path w
  ]

  unfoldable pub update : Layout → UpdateArgs → Exec os.World (Unit {0})
  unfolding update_resources
  update layout args w = elim (update_resources args w) [
    | err e ↦ (err e, w)
    | ok r ↦ Commands.update os js layout args.id r w
  ]
