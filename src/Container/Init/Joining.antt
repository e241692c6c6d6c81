-- ===== src/Container/Init/Joining.antt =====
-- container/init.rs: the first stage, which joins and makes the namespaces and forks the init.
use marstack_container.Prelude.{ℕ, Option, none, some, List, [], ◌∷◌, ◌++◌}
use marstack_container.Prelude.Int.{ℤ, pos}
use marstack_container.Std.Text.{Text, codes}
use marstack_container.Std.Decimal.{int_to_string, to_string}
use marstack_container.Std.FilePath.{FilePath, root_dir, normal}
use marstack_container.Error.{Error, ok, err}
use marstack_container.Exec.{Exec, when, ignore, for_each, ◌>>=◌, ◌>>◌}
use marstack_container.Os.{Os, call, nix_call, plain_call}
use marstack_container.Syscall.{unshare, setns, setresgid, setresuid}
use marstack_container.Spec.{
  NamespaceType, LinuxTimeOffset, mount, pid, network, ipc, uts, user, time,
}
use marstack_container.Bundle.Load.{time_offsets}
use marstack_container.Bundle.Validate.{namespace_type_eq}
use marstack_container.Namespace.{CloneFlags, Join}
use marstack_container.Sync.{Codec, Phase, request_user_mapping, init_pid, send, expect}
use marstack_container.Sync
use marstack_container.Container.Create.{Plan}

abbrev pub unshare_order : List NamespaceType
unshare_order = user ∷ mount ∷ uts ∷ ipc ∷ pid ∷ network ∷ time ∷ []

abbrev pub offsets_file : FilePath
offsets_file =
    root_dir ∷ normal (codes "proc") ∷ normal (codes "self") ∷ normal (codes "timens_offsets") ∷ []

abbrev pub or_zero : Option ℤ → ℤ
or_zero none = pos 0
or_zero (some n) = n

abbrev pub or_0 : Option ℕ → ℕ
or_0 none = 0
or_0 (some n) = n

-- A line for each clock.
unfoldable pub offsets_text : List (Text × LinuxTimeOffset) → Text
offsets_text [] = []
offsets_text ((clock, offset) ∷ offsets) =
    clock
    ++ codes " "
    ++ int_to_string (or_zero offset.secs)
    ++ codes " "
    ++ to_string (or_0 offset.nanosecs)
    ++ codes "\n"
    ++ offsets_text offsets

module _ (os : Os) where
  unfoldable pub join_one : Join → Exec os.World (Unit {0})
  join_one (kind, path) = do
    handle ← nix_call os "open to join it" (os.open_path path)
    nix_call os "setns" (os.sys (setns kind handle))

  unfoldable pub join_existing : List Join → Exec os.World (Unit {0})
  unfolding join_one
  join_existing join = for_each join_one join

  unfoldable pub write_time_offsets : List (Text × LinuxTimeOffset) → Exec os.World (Unit {0})
  unfolding offsets_text
  write_time_offsets [] w = (ok tt, w)
  write_time_offsets (o ∷ offsets) w =
      call os "write /proc/self/timens_offsets" (os.write offsets_file (offsets_text (o ∷ offsets)))
        w

  -- One round of the loop over the namespaces that can be made.
  unfoldable pub unshare_one :
      CloneFlags → List (Text × LinuxTimeOffset) → NamespaceType → Exec os.World (Unit {0})
  unfolding write_time_offsets
  unshare_one flags offsets kind = when (flags kind) (do
    plain_call os (os.sys (unshare kind))
    when (namespace_type_eq kind time) (write_time_offsets offsets))

  unfoldable pub become_root_in_namespace : Exec os.World (Unit {0})
  become_root_in_namespace = do
    nix_call os "setresgid(0,0,0)" (os.sys (setresgid 0))
    nix_call os "setresuid(0,0,0)" (os.sys (setresuid 0))

module _ (os : Os) (codec : Codec) where
  -- The mapping is written by the runtime, from outside the new user namespace.
  unfoldable pub map_user : Exec os.World (Unit {0})
  unfolding become_root_in_namespace
  map_user = do
    send os codec request_user_mapping
    expect os codec (codes "UserMappingDone")
    become_root_in_namespace os

  -- Up to the fork; the parent's side tells the child's number and exits with 0.
  unfoldable pub stage_one : List Phase → Plan → Exec os.World (Unit {0})
  unfolding join_existing unshare_one map_user
  stage_one phases plan = do
    join_existing os plan.join
    for_each (unshare_one os plan.unshare_flags (time_offsets plan.bundle)) unshare_order
    when (plan.unshare_flags user) map_user
    child ← plain_call os os.fork
    send os codec (init_pid child phases)

  -- The exit code; an error is told by its text.
  unfoldable pub intermediate : (Error → Text) → List Phase → Plan → os.World → ℕ × os.World
  unfolding stage_one
  intermediate to_string phases plan w =
      let (result, w') = stage_one phases plan w in
      elim result [
        | ok _ ↦ (0, w')
        | err e ↦ let (r, w'') = ignore (send os codec (Sync.failed (to_string e))) w' in (1, w'')
      ]
