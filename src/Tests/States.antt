-- ===== src/Tests/States.antt =====
-- The state of the sample container, its store, its id, and hooks.
use marstack_container.Prelude.{◌≡◌, refl, some, [], ◌∷◌, ◌++◌, arith}
use marstack_container.Prelude.Int.{pos}
use marstack_container.Std.Text
use marstack_container.Std.Text.{Text, codes}
use marstack_container.Std.FilePath
use marstack_container.Std.FilePath.{root_dir, normal}
use marstack_container.Std.Decimal
use marstack_container.Error.{ok}
use marstack_container.Paths
use marstack_container.Paths.{container_dir, state_file, exec_fifo, state_file_name, exec_fifo_name}
use marstack_container.Paths.Confined.{validate_id-confines}
use marstack_container.State
use marstack_container.State.{
  created, running, stopped, paused, status, alive, start_time, oci_state, load, save, cgroup_of,
  fifo_of, stat_path, OciState,
}
use marstack_container.State.StartTime.{parse_start_time}
use marstack_container.State.Store.{load-save}
use marstack_container.Container.Hooks.{poll}
use marstack_container.Container.HookRuns.{poll-enough}
use marstack_container.Tests.Machine
use marstack_container.Tests.Machine.{Machine, machine, machine_files, machine_clock}
use marstack_container.Tests.Samples.{host, box, box_id, box_state, run_mars, json}

validate_id-confines_example :
    (container_dir run_mars box_id ≡ run_mars.root ++ normal box_id ∷ [])
    × (state_file run_mars box_id ≡ run_mars.root ++ (normal box_id ∷ normal state_file_name ∷ []))
    × (exec_fifo run_mars box_id ≡ run_mars.root ++ (normal box_id ∷ normal exec_fifo_name ∷ []))
unfolding Paths.validate_id Text.text_eq
validate_id-confines_example = validate_id-confines run_mars box_id (λ e. cc e) refl

-- The pid was given to a process that started later.
abbrev recycled : Machine
recycled =
    (machine.write (stat_path (pos 42))
      (codes "42 (sh) S 1 1 1 1 1 1 1 1 1 1 1 1 1 1 1 1 1 1 900 0 0") host).1

recycled_time : start_time machine (pos 42) recycled ≡ ok 900
unfolding State.start_time Machine.write FilePath.path_eq Text.text_eq Decimal.int_to_string
    parse_start_time Text.split_whitespace Text.is_whitespace Decimal.parse_unsigned
recycled_time = refl

abbrev saved : Machine
saved = (save machine json run_mars box_state host).1

box_is_read_back : json.from_str (json.to_string_pretty box_state) ≡ some box_state
unfolding Text.text_eq
box_is_read_back = refl

host_saves : save machine json run_mars box_state host ≡ (ok tt, saved)
unfolding State.save Machine.write Machine.rename
host_saves = refl

load-save_example : load machine json run_mars box_id saved ≡ ok box
load-save_example =
    load-save machine machine_files json run_mars box_state host saved box_is_read_back host_saves

poll-enough_example : poll machine 2_001 1_005 7 host ≡ poll machine 1_001 1_005 7 host
poll-enough_example =
    poll-enough machine machine_clock 1_000 2_000 1_005 7 host (omega arith) (omega arith)
