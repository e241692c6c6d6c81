-- ===== src/Container/Userns.antt =====
-- container/userns.rs: the id maps of a user namespace, written from outside of it.
use marstack_container.Prelude.{
  Bool, not, ◌||◌, Option, none, some, List, [], ◌∷◌, ◌++◌, is_empty, if◌then◌else◌,
}
use marstack_container.Prelude.Int.{ℤ}
use marstack_container.Std.Text.{Text, codes}
use marstack_container.Std.Decimal.{to_string, int_to_string}
use marstack_container.Std.FilePath
use marstack_container.Std.FilePath.{FilePath, root_dir, normal, components}
use marstack_container.Spec.{LinuxIdMapping}
use marstack_container.Error.{Result, ok, err, invalid, io}
use marstack_container.Exec.{Exec, look, when, guard, ◌>>=◌, ◌>>◌}
use marstack_container.Os.{Os, done, failed, call}

pub record Mappings : Type 0 where
  pub uid : List LinuxIdMapping
  pub gid : List LinuxIdMapping

-- One line of a map: the first id inside, the first id outside, and how many there are.
unfoldable pub render_one : LinuxIdMapping → Text
render_one m =
    to_string m.container_id
    ++ (b' ' ∷ (to_string m.host_id ++ (b' ' ∷ (to_string m.size ++ codes "\n"))))

unfoldable pub render : List LinuxIdMapping → Text
unfolding render_one
render [] = []
render (m ∷ ms) = render_one m ++ render ms

-- `/proc/{pid}/{file}`.
unfoldable pub proc_file : ℤ → Text → FilePath
proc_file pid file =
    root_dir ∷ normal (codes "proc") ∷ normal (int_to_string pid) ∷ normal file ∷ []

-- The arguments after the pid.
unfoldable pub helper_ids : List LinuxIdMapping → List Text
helper_ids [] = []
helper_ids (m ∷ ms) =
    to_string m.container_id ∷ to_string m.host_id ∷ to_string m.size ∷ helper_ids ms

abbrev pub helper_dirs : List Text
helper_dirs =
    codes "/usr/bin"
    ∷ codes "/bin"
    ∷ codes "/usr/sbin"
    ∷ codes "/sbin"
    ∷ codes "/usr/local/bin"
    ∷ []

module _ (os : Os) where
  unfoldable pub deny_setgroups : ℤ → Bool → Exec os.World (Unit {0})
  unfolding proc_file
  deny_setgroups pid privileged =
      when (not privileged)
        (call os "write deny" (os.write (proc_file pid (codes "setgroups")) (codes "deny")))

  unfoldable pub locate_in : List Text → Text → os.World → Option FilePath
  locate_in [] helper w = none
  locate_in (dir ∷ dirs) helper w =
      let candidate = FilePath.join (components dir) (components helper) in
      let rest = locate_in dirs helper w in if os.is_file candidate w then some candidate else rest

  unfoldable pub locate : Text → os.World → Result FilePath
  unfolding locate_in
  locate helper w = elim (locate_in helper_dirs helper w) [
    | none ↦ err (invalid "the helper is not installed")
    | some binary ↦ ok binary
  ]

  unfoldable pub run_helper : Text → ℤ → List LinuxIdMapping → Exec os.World (Unit {0})
  unfolding locate helper_ids
  run_helper helper pid mappings = do
    binary ← look (locate helper)
    success ← call os "run" (os.output binary (int_to_string pid ∷ helper_ids mappings))
    guard success (invalid "the helper exited with a failure")

  -- A write that fails falls back to the helper, unless the runtime is privileged.
  unfoldable pub write_one : ℤ → Text → List LinuxIdMapping → Bool → Text → Exec os.World (Unit {0})
  unfolding proc_file render run_helper
  write_one pid file mappings privileged helper w =
      let (answer, w') = os.write (proc_file pid file) (render mappings) w in
      elim answer [
        | done _ ↦ (ok tt, w')
        | failed e ↦
            if privileged then (err (io "write" e), w') else run_helper helper pid mappings w'
      ]

  unfoldable pub write : ℤ → Mappings → Bool → Exec os.World (Unit {0})
  unfolding deny_setgroups write_one
  write pid mappings privileged = do
    guard (not (is_empty mappings.uid || is_empty mappings.gid))
        (invalid "a user namespace needs both linux.uidMappings and linux.gidMappings")
    deny_setgroups pid privileged
    write_one pid (codes "uid_map") mappings.uid privileged (codes "newuidmap")
    write_one pid (codes "gid_map") mappings.gid privileged (codes "newgidmap")
