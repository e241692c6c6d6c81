-- ===== src/Tests/Births.antt =====
-- A container created on the machine: its bundle, the packets of its init, and the runs.
use marstack_container.Prelude.{◌≡◌, refl, false, none, some, List, [], ◌∷◌, if◌then◌else◌}
use marstack_container.Prelude.Int.{pos}
use marstack_container.Std.Text.{Text, codes, text_eq}
use marstack_container.Std.FilePath.{FilePath, root_dir, normal}
use marstack_container.Error.{ok, err, sync_closed}
use marstack_container.Paths.{container_dir, state_file}
use marstack_container.Cgroup.V2.{mount_point}
use marstack_container.State.{stat_path}
use marstack_container.Bundle.Load.{Bundle}
use marstack_container.Sync.{Codec, Message, init_pid, init_ready}
use marstack_container.Container.Create.{CreateOptions}
use marstack_container.Container.Spawn.{create}
use marstack_container.Tests.Cradle.{Cradle, cradle}
use marstack_container.Tests.Samples.{run_mars, json}
use marstack_container.Container.Spawn
use marstack_container.Rootfs.Overlay.{Layers}
use marstack_container.Container.Create
use marstack_container.Container.Fifo
use marstack_container.Container.Hooks
use marstack_container.Sync
use marstack_container.Cgroup.V2
use marstack_container.State
use marstack_container.State.StartTime
use marstack_container.Paths
use marstack_container.Bundle.Load
use marstack_container.Rootfs.Overlay
use marstack_container.Namespace
use marstack_container.Std.FilePath
use marstack_container.Std.Text
use marstack_container.Std.Map
use marstack_container.Std.Decimal
use marstack_container.Tests.Cradle

abbrev bundle_dir : FilePath
bundle_dir = root_dir ∷ normal (codes "bundle") ∷ []

abbrev root_path : FilePath
root_path = root_dir ∷ normal (codes "rootfs") ∷ []

abbrev pub bundle : Bundle
bundle = record {
  dir = bundle_dir;
  spec = record {
    version = codes "1.0.2";
    root = some (record { path = root_path; readonly = none });
    process = none;
    hostname = none;
    domainname = none;
    mounts = none;
    hooks = none;
    annotations = none;
    linux = none;
    solaris = false;
    windows = false;
    vm = false;
    zos = false;
  };
}

abbrev pub options : CreateOptions
options = record { id = codes "new"; pid_file = none; console_socket = none; rootless = false }

-- The packets are one letter long.
abbrev pub codec : Codec
codec = record {
  to_vec = λ m. codes "x";
  from_slice = λ t.
      if text_eq t (codes "i")
      then some (init_pid (pos 42) [])
      else if text_eq t (codes "r")
      then some (init_ready [])
      else none;
}

abbrev pub asleep : List Text → Cradle
asleep packets = record { place = []; text = []; packets = packets; signals = []; ended = [] }

-- The init says its pid and then that it is ready.
abbrev pub nursery : Cradle
nursery = asleep (codes "i" ∷ codes "r" ∷ [])

abbrev pub born : Cradle
born = (create cradle json codec run_mars bundle options nursery).1

pub nursery_creates : create cradle json codec run_mars bundle options nursery ≡ (ok tt, born)
unfolding Spawn.spawn Spawn.create Create.overlay_of Create.handshake Fifo.create Hooks.run
    Sync.send Sync.expect V2.relative_path V2.write V2.add_process V2.make_level V2.create_levels
    V2.create State.start_time State.save StartTime.parse_start_time Paths.state_file
    Load.annotations Load.rootfs Load.namespaces Load.resources Load.cgroups_path Load.hooks
    Load.terminal Overlay.from_annotations Namespace.layout FilePath.path_eq FilePath.components
    FilePath.join Text.text_eq Text.is_whitespace Text.split_whitespace Map.get
    Decimal.int_to_string Decimal.parse_i32 Cradle.look_up Cradle.put Cradle.move_text
    marstack_container.Container.Signals.block_forwardable
nursery_creates = refl

-- The init dies before it says anything.
abbrev pub stillborn : Cradle
stillborn = (create cradle json codec run_mars bundle options (asleep [])).1

pub nursery_fails :
    create cradle json codec run_mars bundle options (asleep []) ≡ (err sync_closed, stillborn)
unfolding Spawn.spawn Spawn.create Create.overlay_of Create.handshake Fifo.create Hooks.run
    Sync.send Sync.expect V2.relative_path V2.write V2.add_process V2.make_level V2.create_levels
    V2.create State.start_time State.save StartTime.parse_start_time Paths.state_file
    Load.annotations Load.rootfs Load.namespaces Load.resources Load.cgroups_path Load.hooks
    Load.terminal Overlay.from_annotations Namespace.layout FilePath.path_eq FilePath.components
    FilePath.join Text.text_eq Text.is_whitespace Text.split_whitespace Map.get
    Decimal.int_to_string Decimal.parse_i32 Cradle.look_up Cradle.put Cradle.move_text
    marstack_container.Container.Signals.block_forwardable
nursery_fails = refl
