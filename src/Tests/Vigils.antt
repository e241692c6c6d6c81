-- ===== src/Tests/Vigils.antt =====
-- The other runs on the small machine: a supervision, an overlay, id maps, a second process in a
-- container, an update, and paths that are masked.
use marstack_container.Prelude.{ℕ, ◌≡◌, refl, true, false, none, some, List, [], ◌∷◌}
use marstack_container.Prelude.Int.{pos}
use marstack_container.Std.Text.{Text, codes, text_eq}
use marstack_container.Std.FilePath.{FilePath, root_dir, normal}
use marstack_container.Exec
use marstack_container.Error.{ok, err, sync_closed}
use marstack_container.Paths.{container_dir, state_file}
use marstack_container.Cgroup.V2.{mount_point}
use marstack_container.State.{stat_path}
use marstack_container.Bundle.Load.{Bundle}
use marstack_container.Sync.{Codec, Message, init_pid, init_ready}
use marstack_container.Container.Create.{CreateOptions}
use marstack_container.Container.Spawn.{create}
use marstack_container.Tests.Births.{codec}
use marstack_container.Rootfs.Harden.{mask_paths, readonly_paths}
use marstack_container.Tests.Cradle.{Cradle, cradle}
use marstack_container.Tests.Samples.{box_id, run_mars, json}
use marstack_container.Container.Spawn
use marstack_container.Container.Run
use marstack_container.Container.ExecTarget
use marstack_container.Container.ExecTarget.{ExecOptions}
use marstack_container.Container.ExecRun
use marstack_container.Container.ExecRun.{exec}
use marstack_container.Cli.Update
use marstack_container.Cli.Update.{UpdateArgs, built, from_flags}
use marstack_container.Spec.{LinuxResources}
use marstack_container.Container.Run.{supervise}
use marstack_container.Container.Supervised.{Arrives}
use marstack_container.Container.Userns
use marstack_container.Container.Userns.{Mappings}
use marstack_container.Syscall.{WaitStatus, exited}
use marstack_container.Container.Reaped.{Told}
use marstack_container.Rootfs.Overlay.{Layers}
use marstack_container.Rootfs.Overlay.Prepare.{prepare}
use marstack_container.Rootfs.Overlay.Mount.{mount_data}
use marstack_container.Container.Create
use marstack_container.Sync
use marstack_container.Cgroup.V2
use marstack_container.State
use marstack_container.State.StartTime
use marstack_container.Paths
use marstack_container.Bundle.Load
use marstack_container.Rootfs.Overlay
use marstack_container.Std.FilePath
use marstack_container.Std.Text
use marstack_container.Std.Map
use marstack_container.Std.Decimal
use marstack_container.Tests.Cradle
use marstack_container.Cgroup.Events

-- SIGTERM comes, and SIGCHLD when another child and the init have ended.
abbrev pub vigil : Cradle
vigil = record {
  place = [];
  text = [];
  packets = [];
  signals = 15 ∷ 17 ∷ [];
  ended = exited (pos 7) 0 ∷ exited (pos 42) 300 ∷ [];
}

abbrev pub dawn : Cradle
dawn = record { place = []; text = []; packets = []; signals = []; ended = [] }

pub vigil_ends : supervise cradle 2 (pos 42) vigil ≡ (ok (some 44), dawn)
unfolding supervise marstack_container.Container.Commands.signal_one
vigil_ends = refl

abbrev left : List ℕ → List WaitStatus → Cradle
left signals ended = record {
  place = [];
  text = [];
  packets = [];
  signals = signals;
  ended = ended;
}

pub vigil-Arrives : Arrives cradle 1 (pos 42) 44 vigil dawn
unfolding Run.code_of Run.attend marstack_container.Container.Commands.signal_one
vigil-Arrives =
    let last = exited (pos 42) 300 ∷ [] in
    let told : Told cradle 0 (pos 42) 44 (left [] last) dawn = (exited (pos 42) 300, refl, refl) in
    let both = exited (pos 7) 0 ∷ last in
    let later : Told cradle 1 (pos 42) 44 (left [] both) dawn =
      (exited (pos 7) 0, left [] last, refl, refl, (λ e. cc e), told) in
    (left (17 ∷ []) both, refl, (left [] both, 1, refl, later))

-- Two layers, with an upper and a work directory.
abbrev pub layered : Layers
layered = record {
  lower = codes "/layers/b" ∷ codes "/layers/a" ∷ [];
  upper = some (codes "/layers/upper");
  work = some (codes "/layers/work");
}

pub layered_prepares : prepare cradle layered dawn ≡ (ok tt, dawn)
unfolding prepare marstack_container.Exec.for_each FilePath.starts_with FilePath.components text_eq
    marstack_container.Rootfs.Overlay.Prepare.check_disjoint FilePath.path_eq
layered_prepares = refl

abbrev pub layered_data : Text
layered_data = codes "lowerdir=/layers/b:/layers/a,upperdir=/layers/upper,workdir=/layers/work"

pub layered_mounts : mount_data layered ≡ ok (layered_data, none)
unfolding mount_data Overlay.options marstack_container.Error.traverse Overlay.escape Text.contains
    Overlay.option_part marstack_container.Rootfs.Overlay.Mount.utf8_bytes Text.join
    Overlay.escape_text
layered_mounts = refl

abbrev pub one_id : Mappings
one_id = record {
  uid = record { container_id = 0; host_id = 1_000; size = 1 } ∷ [];
  gid = record { container_id = 0; host_id = 1_000; size = 1 } ∷ [];
}

abbrev pub mapped : Cradle
mapped = (Userns.write cradle (pos 41) one_id false dawn).1

pub one_id_maps : Userns.write cradle (pos 41) one_id false dawn ≡ (ok tt, mapped)
unfolding Userns.write Cradle.put
one_id_maps = refl

-- A running container, whose state is the file that was written last, and a second process in it.
abbrev pub alive : Cradle
alive = record {
  place = state_file run_mars box_id;
  text = box_id;
  packets = [];
  signals = [];
  ended = [];
}

abbrev pub shell : ExecOptions
shell = record {
  argv = codes "/bin/sh" ∷ [];
  env = [];
  cwd = none;
  process = none;
  user = some (codes "1000:100");
  additional_gids = [];
  console_socket = none;
  tty = false;
  detach = true;
  pid_file = none;
  ignore_paused = false;
}

pub shell_runs : exec cradle json codec 3 run_mars box_id shell alive ≡ (ok (some 0), alive)
unfolding marstack_container.Container.Signals.block_forwardable ExecRun.ns_name ExecRun.ns_path
    ExecRun.check_status ExecRun.check_terminal ExecRun.is_shared ExecRun.is_foreign
    ExecRun.collect_from ExecRun.collect ExecRun.single_threaded ExecRun.open_cgroup_procs
    ExecRun.place ExecRun.join_all ExecRun.set_ids ExecRun.enter ExecRun.attend_child
    ExecRun.fork_in ExecRun.exec_in ExecRun.exec ExecRun.run_child ExecTarget.split_once
    ExecTarget.parse_id ExecTarget.parse_user ExecTarget.cwd_of ExecTarget.target_argv
    ExecTarget.add_env ExecTarget.base_env ExecTarget.or_root ExecTarget.target_cwd
    ExecTarget.target_user ExecTarget.target_groups ExecTarget.target_terminal
    ExecTarget.read_process ExecTarget.target_from ExecTarget.resolve_target Spawn.plan_of
    Spawn.or_undo Spawn.abandon Spawn.spawn Spawn.build_in Spawn.lay_out Spawn.build Spawn.with_hint
    Spawn.refuse Spawn.create_new Spawn.create Create.overlay_of Create.id_mappings
    Create.creating_state Create.check_console Create.reap_ended Create.is_vacant Create.wait_vacant
    Create.teardown Create.prepare_merged Create.write_pid_file Create.prepare_overlay
    Create.apply_resources Create.init_of Create.map_users Create.settle_users Create.persisted_of
    Create.run_created Create.record_init Create.handshake Sync.is_wanted Sync.expected Sync.decode
    Sync.send Sync.recv Sync.expect V2.normalise V2.relative_path V2.attach V2.file_path
    V2.missing_from V2.parse_pids V2.read V2.write V2.is_frozen V2.procs V2.add_process
    V2.wait_frozen V2.freeze V2.remove_attempts V2.remove_parent V2.destroy V2.read_list V2.delegate
    V2.make_level V2.create_levels V2.create Events.parse_line Events.parse_lines
    Events.parse_flat_keyed Events.value_of Events.memory_events Events.cpu_stat State.status_eq
    State.display State.stat_path State.cgroup_of State.fifo_of State.start_time State.alive
    State.status State.oci_state State.require State.load State.save State.remove
    StartTime.after_last StartTime.start_field StartTime.parse_start_time Paths.container_dir
    Paths.state_file Paths.exec_fifo Paths.pid_file Paths.all_id_chars Paths.validate_id Load.load
    Load.annotations Load.rootfs Load.namespaces Load.resources Load.cgroups_path Load.hooks
    Load.terminal Load.readonly_rootfs Load.env Load.argv Load.search_path Load.to_cstrings
    Load.search_dirs Load.resolve_executable FilePath.component_eq FilePath.path_eq
    FilePath.starts_with FilePath.strip_prefix FilePath.is_absolute FilePath.piece FilePath.pieces
    FilePath.from_pieces FilePath.components FilePath.join FilePath.pop FilePath.parent
    FilePath.component_text FilePath.display Text.text_eq Text.contains Text.strip_prefix
    Text.split_onto Text.split Text.join Text.is_whitespace Text.words_onto Text.split_whitespace
    Text.trim_start Text.trim_end Text.trim Text.strip_return Text.lines_of Text.lines
    Text.to_ascii_uppercase Text.is_ascii_alphanumeric Map.get Map.collect_onto Map.collect
    Decimal.digits Decimal.to_string Decimal.is_digit Decimal.digits_value Decimal.parse_digits
    Decimal.parse_unsigned Decimal.int_to_string Decimal.parse_i32 Cradle.look_up Cradle.put
    Cradle.move_text Exec.for_each
shell_runs = refl

abbrev only_period : Text → ℕ → UpdateArgs
only_period id period = record {
  resources = none;
  memory = none;
  memory_swap = none;
  cpu_quota = none;
  cpu_period = some period;
  cpu_share = none;
  cpuset_cpus = none;
  cpuset_mems = none;
  pids_limit = none;
  id = id;
}

-- A memory limit and a period.
abbrev pub memory_only : UpdateArgs
memory_only = record (only_period box_id 50_000) { memory = some (pos 4_096) }

abbrev pub memory_document : LinuxResources
memory_document = built memory_only

pub memory_accepted : from_flags memory_only ≡ ok memory_document
unfolding Update.from_flags
memory_accepted = refl

abbrev pub kernel_paths : List Text
kernel_paths = codes "/proc/kcore" ∷ codes "/proc/acpi" ∷ []

pub kernel_paths_mask : mask_paths cradle kernel_paths dawn ≡ (ok tt, dawn)
unfolding mask_paths Exec.for_each
kernel_paths_mask = refl

pub kernel_paths_lock : readonly_paths cradle kernel_paths dawn ≡ (ok tt, dawn)
unfolding readonly_paths Exec.for_each
kernel_paths_lock = refl
