-- ===== src/Tests/Runs.antt =====
-- Runs of the commands on the sample container, and what they lead to.
use marstack_container.Prelude.{◌≡◌, refl, none, true, false}
use marstack_container.Std.Text
use marstack_container.Std.Text.{codes}
use marstack_container.Std.FilePath
use marstack_container.Std.Decimal
use marstack_container.Std.Map
use marstack_container.Error.{ok}
use marstack_container.Exec
use marstack_container.Spec.{LinuxResources}
use marstack_container.Paths
use marstack_container.Paths.{container_dir, state_file}
use marstack_container.Bundle.Load
use marstack_container.Cgroup.V2
use marstack_container.Cgroup.V2.{is_frozen, freeze}
use marstack_container.Cgroup.Events
use marstack_container.State
use marstack_container.State.{
  Container, created, running, stopped, paused, status, alive, load, display, fifo_of, cgroup_of,
}
use marstack_container.State.StartTime
use marstack_container.Container.Commands
use marstack_container.Container.Commands.{
  start, kill, pause, update, delete, kill_all, signal_procs, run_hooks,
}
use marstack_container.Container.Fifo
use marstack_container.Container.Hooks
use marstack_container.Container.Hooks.{poststart}
use marstack_container.Tests.Machine
use marstack_container.Tests.Machine.{Machine, machine, machine_files}
use marstack_container.Tests.Samples.{host, box, box_id, box_cgroup, run_mars, json}

abbrev pub no_limits : LinuxResources
no_limits = record { memory = none; cpu = none; pids_limit = none; block_io = none; unified = none }

pub no_other : machine.is_file (state_file run_mars (codes "other")) host ≡ false
unfolding State.load FilePath.path_eq Paths.state_file FilePath.join FilePath.components
    Text.text_eq State.require State.status State.alive State.start_time Paths.exec_fifo
    Decimal.int_to_string StartTime.parse_start_time Text.split_whitespace Text.is_whitespace
    Decimal.parse_unsigned V2.is_frozen Events.parse_flat_keyed Events.value_of V2.attach
    V2.file_path V2.read Paths.container_dir StartTime.after_last StartTime.start_field
    State.cgroup_of State.display State.fifo_of State.stat_path State.status_eq Map.collect Map.get
    Text.join Text.lines Text.split Text.split_onto Text.words_onto
no_other = refl

abbrev pub started : Machine
started = (start machine json run_mars box_id host).1

pub host_starts : start machine json run_mars box_id host ≡ (ok tt, started)
unfolding Commands.start Fifo.release Machine.erase State.load FilePath.path_eq Paths.state_file
    FilePath.join FilePath.components Text.text_eq State.require State.status State.alive
    State.start_time Paths.exec_fifo Decimal.int_to_string StartTime.parse_start_time
    Text.split_whitespace Text.is_whitespace Decimal.parse_unsigned V2.is_frozen
    Events.parse_flat_keyed Events.value_of V2.attach V2.file_path V2.read Paths.container_dir
    StartTime.after_last StartTime.start_field State.cgroup_of State.display State.fifo_of
    State.stat_path State.status_eq Map.collect Map.get Text.join Text.lines Text.split
    Text.split_onto Text.words_onto Commands.run_hooks Commands.container_hooks Load.load Hooks.run
host_starts = refl

abbrev pub deleted : Machine
deleted = (delete machine json run_mars box_id true host).1

pub host_loads : load machine json run_mars box_id host ≡ ok box
unfolding State.load FilePath.path_eq Paths.state_file FilePath.join FilePath.components
    Text.text_eq
host_loads = refl

pub host_deletes : delete machine json run_mars box_id true host ≡ (ok tt, deleted)
unfolding Commands.delete Commands.force_stop Commands.signal_one Commands.wait_dead
    Commands.clean_up V2.procs V2.parse_pids V2.destroy V2.remove_attempts V2.remove_parent
    Exec.for_each Machine.remove_dir Machine.erase Machine.erase_all FilePath.parent
    FilePath.starts_with Decimal.parse_i32 Text.trim State.remove State.oci_state State.load
    FilePath.path_eq Paths.state_file FilePath.join FilePath.components Text.text_eq State.require
    State.status State.alive State.start_time Paths.exec_fifo Decimal.int_to_string
    StartTime.parse_start_time Text.split_whitespace Text.is_whitespace Decimal.parse_unsigned
    V2.is_frozen Events.parse_flat_keyed Events.value_of V2.attach V2.file_path V2.read
    Paths.container_dir StartTime.after_last StartTime.start_field State.cgroup_of State.display
    State.fifo_of State.stat_path State.status_eq Map.collect Map.get Text.join Text.lines
    Text.split Text.split_onto Text.words_onto Commands.run_hooks Commands.container_hooks Load.load
    Hooks.run
host_deletes = refl

abbrev pub frozen : Machine
frozen = (pause machine json run_mars box_id true host).1

pub host_pauses : pause machine json run_mars box_id true host ≡ (ok tt, frozen)
unfolding Commands.pause State.load FilePath.path_eq Paths.state_file FilePath.join
    FilePath.components Text.text_eq State.require State.status State.alive State.start_time
    Paths.exec_fifo Decimal.int_to_string StartTime.parse_start_time Text.split_whitespace
    Text.is_whitespace Decimal.parse_unsigned V2.is_frozen Events.parse_flat_keyed Events.value_of
    V2.attach V2.file_path V2.read Paths.container_dir StartTime.after_last StartTime.start_field
    State.cgroup_of State.display State.fifo_of State.stat_path State.status_eq Map.collect Map.get
    Text.join Text.lines Text.split Text.split_onto Text.words_onto V2.freeze V2.wait_frozen
    V2.write Machine.write Machine.events_of
host_pauses = refl

pub started_loads : load machine json run_mars box_id started ≡ ok box
unfolding Commands.start Fifo.release Machine.erase State.load FilePath.path_eq Paths.state_file
    FilePath.join FilePath.components Text.text_eq State.require State.status State.alive
    State.start_time Paths.exec_fifo Decimal.int_to_string StartTime.parse_start_time
    Text.split_whitespace Text.is_whitespace Decimal.parse_unsigned V2.is_frozen
    Events.parse_flat_keyed Events.value_of V2.attach V2.file_path V2.read Paths.container_dir
    StartTime.after_last StartTime.start_field State.cgroup_of State.display State.fifo_of
    State.stat_path State.status_eq Map.collect Map.get Text.join Text.lines Text.split
    Text.split_onto Text.words_onto Commands.run_hooks Commands.container_hooks Load.load Hooks.run
started_loads = refl

pub started_fifo : machine.exists (fifo_of box) started ≡ false
unfolding Commands.start Fifo.release Machine.erase State.load FilePath.path_eq Paths.state_file
    FilePath.join FilePath.components Text.text_eq State.require State.status State.alive
    State.start_time Paths.exec_fifo Decimal.int_to_string StartTime.parse_start_time
    Text.split_whitespace Text.is_whitespace Decimal.parse_unsigned V2.is_frozen
    Events.parse_flat_keyed Events.value_of V2.attach V2.file_path V2.read Paths.container_dir
    StartTime.after_last StartTime.start_field State.cgroup_of State.display State.fifo_of
    State.stat_path State.status_eq Map.collect Map.get Text.join Text.lines Text.split
    Text.split_onto Text.words_onto Commands.run_hooks Commands.container_hooks Load.load Hooks.run
started_fifo = refl

pub started_runs : status machine box started ≡ running
unfolding Commands.start Fifo.release Machine.erase State.load FilePath.path_eq Paths.state_file
    FilePath.join FilePath.components Text.text_eq State.require State.status State.alive
    State.start_time Paths.exec_fifo Decimal.int_to_string StartTime.parse_start_time
    Text.split_whitespace Text.is_whitespace Decimal.parse_unsigned V2.is_frozen
    Events.parse_flat_keyed Events.value_of V2.attach V2.file_path V2.read Paths.container_dir
    StartTime.after_last StartTime.start_field State.cgroup_of State.display State.fifo_of
    State.stat_path State.status_eq Map.collect Map.get Text.join Text.lines Text.split
    Text.split_onto Text.words_onto Commands.run_hooks Commands.container_hooks Load.load Hooks.run
started_runs = refl

pub host_created : status machine box host ≡ created
unfolding State.load FilePath.path_eq Paths.state_file FilePath.join FilePath.components
    Text.text_eq State.require State.status State.alive State.start_time Paths.exec_fifo
    Decimal.int_to_string StartTime.parse_start_time Text.split_whitespace Text.is_whitespace
    Decimal.parse_unsigned V2.is_frozen Events.parse_flat_keyed Events.value_of V2.attach
    V2.file_path V2.read Paths.container_dir StartTime.after_last StartTime.start_field
    State.cgroup_of State.display State.fifo_of State.stat_path State.status_eq Map.collect Map.get
    Text.join Text.lines Text.split Text.split_onto Text.words_onto
host_created = refl

-- The process has died.
abbrev pub dead : Machine
dead = (machine.kill box.state.pid 9 host).1

pub dead_loads : load machine json run_mars box_id dead ≡ ok box
unfolding Machine.erase State.load FilePath.path_eq Paths.state_file FilePath.join
    FilePath.components Text.text_eq State.require State.status State.alive State.start_time
    Paths.exec_fifo Decimal.int_to_string StartTime.parse_start_time Text.split_whitespace
    Text.is_whitespace Decimal.parse_unsigned V2.is_frozen Events.parse_flat_keyed Events.value_of
    V2.attach V2.file_path V2.read Paths.container_dir StartTime.after_last StartTime.start_field
    State.cgroup_of State.display State.fifo_of State.stat_path State.status_eq Map.collect Map.get
    Text.join Text.lines Text.split Text.split_onto Text.words_onto
dead_loads = refl

pub dead_stopped : status machine box dead ≡ stopped
unfolding Machine.erase State.load FilePath.path_eq Paths.state_file FilePath.join
    FilePath.components Text.text_eq State.require State.status State.alive State.start_time
    Paths.exec_fifo Decimal.int_to_string StartTime.parse_start_time Text.split_whitespace
    Text.is_whitespace Decimal.parse_unsigned V2.is_frozen Events.parse_flat_keyed Events.value_of
    V2.attach V2.file_path V2.read Paths.container_dir StartTime.after_last StartTime.start_field
    State.cgroup_of State.display State.fifo_of State.stat_path State.status_eq Map.collect Map.get
    Text.join Text.lines Text.split Text.split_onto Text.words_onto
dead_stopped = refl

abbrev pub froze : Machine
froze = (freeze machine box_cgroup true host).1

abbrev pub signalled : Machine
signalled = (signal_procs machine box_cgroup 15 froze).1

abbrev pub thawed : Machine
thawed = (freeze machine box_cgroup false signalled).1

pub host_thawed : is_frozen machine box_cgroup host ≡ false
unfolding Commands.signal_procs Commands.signal_one V2.procs V2.parse_pids Exec.for_each
    Machine.erase Decimal.parse_i32 Text.trim State.load FilePath.path_eq Paths.state_file
    FilePath.join FilePath.components Text.text_eq State.require State.status State.alive
    State.start_time Paths.exec_fifo Decimal.int_to_string StartTime.parse_start_time
    Text.split_whitespace Text.is_whitespace Decimal.parse_unsigned V2.is_frozen
    Events.parse_flat_keyed Events.value_of V2.attach V2.file_path V2.read Paths.container_dir
    StartTime.after_last StartTime.start_field State.cgroup_of State.display State.fifo_of
    State.stat_path State.status_eq Map.collect Map.get Text.join Text.lines Text.split
    Text.split_onto Text.words_onto V2.freeze V2.wait_frozen V2.write Machine.write
    Machine.events_of
host_thawed = refl

pub host_freezes : freeze machine box_cgroup true host ≡ (ok tt, froze)
unfolding Commands.signal_procs Commands.signal_one V2.procs V2.parse_pids Exec.for_each
    Machine.erase Decimal.parse_i32 Text.trim State.load FilePath.path_eq Paths.state_file
    FilePath.join FilePath.components Text.text_eq State.require State.status State.alive
    State.start_time Paths.exec_fifo Decimal.int_to_string StartTime.parse_start_time
    Text.split_whitespace Text.is_whitespace Decimal.parse_unsigned V2.is_frozen
    Events.parse_flat_keyed Events.value_of V2.attach V2.file_path V2.read Paths.container_dir
    StartTime.after_last StartTime.start_field State.cgroup_of State.display State.fifo_of
    State.stat_path State.status_eq Map.collect Map.get Text.join Text.lines Text.split
    Text.split_onto Text.words_onto V2.freeze V2.wait_frozen V2.write Machine.write
    Machine.events_of
host_freezes = refl

pub froze_signals : signal_procs machine box_cgroup 15 froze ≡ (ok tt, signalled)
unfolding Commands.signal_procs Commands.signal_one V2.procs V2.parse_pids Exec.for_each
    Machine.erase Decimal.parse_i32 Text.trim State.load FilePath.path_eq Paths.state_file
    FilePath.join FilePath.components Text.text_eq State.require State.status State.alive
    State.start_time Paths.exec_fifo Decimal.int_to_string StartTime.parse_start_time
    Text.split_whitespace Text.is_whitespace Decimal.parse_unsigned V2.is_frozen
    Events.parse_flat_keyed Events.value_of V2.attach V2.file_path V2.read Paths.container_dir
    StartTime.after_last StartTime.start_field State.cgroup_of State.display State.fifo_of
    State.stat_path State.status_eq Map.collect Map.get Text.join Text.lines Text.split
    Text.split_onto Text.words_onto V2.freeze V2.wait_frozen V2.write Machine.write
    Machine.events_of
froze_signals = refl

pub signalled_thaws : freeze machine box_cgroup false signalled ≡ (ok tt, thawed)
unfolding Commands.signal_procs Commands.signal_one V2.procs V2.parse_pids Exec.for_each
    Machine.erase Decimal.parse_i32 Text.trim State.load FilePath.path_eq Paths.state_file
    FilePath.join FilePath.components Text.text_eq State.require State.status State.alive
    State.start_time Paths.exec_fifo Decimal.int_to_string StartTime.parse_start_time
    Text.split_whitespace Text.is_whitespace Decimal.parse_unsigned V2.is_frozen
    Events.parse_flat_keyed Events.value_of V2.attach V2.file_path V2.read Paths.container_dir
    StartTime.after_last StartTime.start_field State.cgroup_of State.display State.fifo_of
    State.stat_path State.status_eq Map.collect Map.get Text.join Text.lines Text.split
    Text.split_onto Text.words_onto V2.freeze V2.wait_frozen V2.write Machine.write
    Machine.events_of
signalled_thaws = refl
