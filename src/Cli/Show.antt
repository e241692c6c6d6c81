-- ===== src/Cli/Show.antt =====
-- commands/list.rs, commands/ps.rs and commands/spec.rs: what is known of containers, printed, and a
-- first config.json. What serde_json makes of a value, and the padding of a column, are the
-- parameter `Printer`.
use marstack_container.Prelude.{
  ℕ, Bool, true, false, List, [], ◌∷◌, ◌++◌, map, is_empty, if◌then◌else◌,
}
use marstack_container.Prelude.Int.{ℤ}
use marstack_container.Std.Text.{Text, codes, join, text_eq}
use marstack_container.Std.Decimal.{int_to_string}
use marstack_container.Std.FilePath
use marstack_container.Std.FilePath.{FilePath, normal}
use marstack_container.Error.{ok, io, invalid, unimplemented}
use marstack_container.Exec.{Exec, raise, look, gets, guard, for_each, ◌>>=◌, ◌>>◌}
use marstack_container.Os.{Os, Answer, call}
use marstack_container.Paths.{Layout}
use marstack_container.Cgroup.V2.{procs}
use marstack_container.State.{
  Container, Json, OciState, Status, creating, created, running, stopped, paused, display, load,
  status, oci_state, require, cgroup_of,
}
use marstack_container.State.Listed.{list}
use marstack_container.Cli.Args.{ListArgs, ListFormat, list_table, list_json, PsArgs, SpecArgs}
use marstack_container.Cli.Events.{Event}

pub record Printer (os : Os) : Type 0 where
  -- `println!`.
  pub println : Text → os.World → os.World
  pub states_text : List OciState → Text
  pub pids_text : List ℤ → Text
  pub event_text : Event → Text
  -- `{:<width}`.
  pub padded : ℕ → Text → Text
  -- The state of one container, on a line that may not be written.
  pub print_state : OciState → os.World → Answer (Unit {0}) × os.World
  -- The features, and the default config.json of the package oci_spec with the version and the host
  -- name of this runtime.
  pub features : Text
  pub default_spec : Text

unfoldable pub row : (ℕ → Text → Text) → Text → Text → Text → Text → Text → Text
row padded id pid state bundle time =
    padded 24 id ++ (padded 8 pid ++ (padded 10 state ++ (padded 32 bundle ++ time)))

-- A stopped container has no process.
unfoldable pub shown_pid : Status → ℤ → Text
shown_pid stopped pid = codes "0"
shown_pid creating pid = int_to_string pid
shown_pid created pid = int_to_string pid
shown_pid running pid = int_to_string pid
shown_pid paused pid = int_to_string pid

module _ (os : Os) (printer : Printer os) where
  unfoldable pub print_line : Text → Exec os.World (Unit {0})
  print_line line w = (ok tt, printer.println line w)

  unfoldable pub print_row : Container → Exec os.World (Unit {0})
  unfolding row shown_pid print_line
  print_row c = do
    s ← gets (status os c)
    print_line (
        row printer.padded c.state.id (shown_pid s c.state.pid) (display s)
          (FilePath.display c.state.bundle) c.state.created)

  unfoldable pub list_as : ListFormat → List Container → Exec os.World (Unit {0})
  unfolding print_row print_line row
  list_as list_json found = do
    rows ← gets (λ w. map (λ c. oci_state os c w) found)
    print_line (printer.states_text rows)
  list_as list_table found = do
    print_line (
        row printer.padded (codes "ID") (codes "PID") (codes "STATUS") (codes "BUNDLE")
          (codes "CREATED"))
    for_each print_row found

  unfoldable pub list_run : Json → Layout → ListArgs → Exec os.World (Unit {0})
  unfolding list_as print_line
  list_run js layout args = do
    found ← look (list os js layout)
    if args.quiet
        then for_each (λ (c : Container). print_line c.state.id) found
        else list_as args.format found

  -- The arguments of ps: the options, or -f, and the processes.
  unfoldable pub ps_args : List ℤ → List Text → List Text
  ps_args pids options =
      (if is_empty options then codes "-f" ∷ [] else options)
      ++ codes "-p" ∷ join (codes ",") (map int_to_string pids) ∷ []

  unfoldable pub table : List ℤ → List Text → Exec os.World (Unit {0})
  unfolding ps_args print_line
  table pids options =
      if is_empty pids
      then print_line (codes "no processes in the container cgroup")
      else (call os "run ps to describe the container's processes"
            (os.output (normal (codes "ps") ∷ []) (ps_args pids options))
          >>= λ success. guard success (invalid "ps exited with a failure"))

  unfoldable pub ps_run : Json → Layout → PsArgs → Exec os.World (Unit {0})
  unfolding table print_line
  ps_run js layout args = do
    c ← look (load os js layout args.id)
    look (require os c (created ∷ running ∷ paused ∷ []))
    pids ← look (procs os (cgroup_of c))
    if text_eq args.format (codes "json")
        then print_line (printer.pids_text pids)
        else if text_eq args.format (codes "table")
        then table pids args.ps_options
        else raise (invalid "unknown ps format, expected table or json")

  -- EEXIST.
  abbrev pub eexist : ℕ
  eexist = 17

  -- A config.json that is there is not written over.
  unfoldable pub spec_run : SpecArgs → Bool → Exec os.World (Unit {0})
  spec_run args rootless = do
    guard (if rootless then false else true) (unimplemented "spec --rootless")
    call os "create bundle dir" (os.create_dir_all args.bundle)
    let path = FilePath.join args.bundle (normal (codes "config.json") ∷ [])
    present ← gets (os.exists path)
    guard (if present then false else true) (io "already exists" eexist)
    call os "create" (os.create_file path)
    call os "write" (os.write path (printer.default_spec ++ 10 ∷ []))
