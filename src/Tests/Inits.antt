-- ===== src/Tests/Inits.antt =====
-- The init of a sample container, from its fork to its program.
use marstack_container.Prelude.{
  ℕ, ◌≡◌, refl, Bool, true, false, Option, none, some, List, [], ◌∷◌, ◌==◌, if◌then◌else◌,
}
use marstack_container.Prelude.Int.{pos}
use marstack_container.Std.Text.{Text, codes, text_eq}
use marstack_container.Std.FilePath.{FilePath, root_dir, normal}
use marstack_container.Error.{ok}
use marstack_container.Os.{done}
use marstack_container.Spec.{
  Process, LinuxSeccomp, NamespaceType, user, mount, act_errno, act_allow, native, cmp_eq,
}
use marstack_container.State.{creating}
use marstack_container.Bundle.Load.{Bundle}
use marstack_container.Sync.{Codec, Message, cgroup_applied, user_mapping_done}
use marstack_container.Container.Create.{Plan}
use marstack_container.Container.Console.{Pty}
use marstack_container.Container.Seccomp.{Scmp, Added, added, refused, build}
use marstack_container.Container.Init.Joining.{stage_one}
use marstack_container.Container.Init.Main.{container_init}
use marstack_container.Tests.Cradle.{Cradle, cradle}
use marstack_container.Tests.Births.{bundle}
use marstack_container.Tests.Vigils.{dawn}
use marstack_container.Tests.Samples.{json}
use marstack_container.Tests.Privileges.{cradle_caps, killer, kernel_number}

-- The packets are one letter long.
abbrev pub init_codec : Codec
init_codec = record {
  to_vec = λ m. codes "x";
  from_slice = λ t.
      if text_eq t (codes "c")
      then some (cgroup_applied (pos 42))
      else if text_eq t (codes "u")
      then some user_mapping_done
      else none;
}

abbrev pub cradle_pty : Pty cradle
cradle_pty = record {
  openpty = λ w. (done (9, 10), w);
  ptsname_r = λ m w. done (codes "/dev/pts/0\0");
  send_fd = λ s t h w. (done tt, w);
  close = λ h w. w;
  setsid = λ w. (done tt, w);
  tiocsctty = λ h w. (done tt, w);
  dup2 = λ a b w. (done tt, w);
}

unfoldable pub syscall_number : Text → Option ℕ
syscall_number name =
    if text_eq name (codes "read")
    then some 0
    else if text_eq name (codes "bpf")
    then some 321
    else none

-- A filter is the numbers of its rules; bpf is refused as redundant.
abbrev pub cradle_scmp : Scmp cradle
cradle_scmp = record {
  Filter = List ℕ;
  new = λ default. some [];
  add_arch = λ arch f. some f;
  set_filter_attr = λ attribute value f. some f;
  from_name = syscall_number;
  add_rule = λ verdict n f. if n == 321 then (refused (some 13), f) else (added, n ∷ f);
  add_rule_conditional = λ verdict n cs f. (added, n ∷ f);
  load = λ f w. (done tt, w);
}

-- Deny by default, with a rule of an unknown syscall, one that says the default again, and two that
-- are added.
abbrev pub profile : LinuxSeccomp
profile = record {
  default_action = act_errno;
  default_errno_ret = none;
  architectures = some (native ∷ []);
  flags = none;
  syscalls = some (
      record {
        names = codes "read" ∷ codes "no_such_call" ∷ [];
        action = act_allow;
        errno_ret = none;
        args = none;
      }
      ∷ record { names = codes "bpf" ∷ []; action = act_errno; errno_ret = none; args = none }
      ∷ record {
        names = codes "bpf" ∷ [];
        action = act_allow;
        errno_ret = none;
        args = some (record { index = 0; value = 3; value_two = none; op = cmp_eq } ∷ []);
      }
      ∷ []);
}

abbrev pub servant : Process
servant = record {
  terminal = none;
  args = some (codes "/bin/sh" ∷ []);
  cwd = root_dir ∷ [];
  env = none;
  rlimits = none;
  user = record { uid = 1_000; gid = 1_000; additional_gids = none; umask = some 18 };
  oom_score_adj = none;
  no_new_privileges = some true;
  capabilities = some killer;
}

abbrev pub cell : Bundle
cell = record bundle {
  spec = record bundle.spec {
    process = some servant;
    hostname = some (codes "cell");
    linux = some (record {
      namespaces = none;
      uid_mappings = none;
      gid_mappings = none;
      resources = none;
      cgroups_path = none;
      rootfs_propagation = none;
      masked_paths = some (codes "/proc/kcore" ∷ []);
      readonly_paths = none;
      sysctl = none;
      devices = none;
      seccomp = some profile;
      time_offsets = none;
    });
  };
}

abbrev pub both : NamespaceType → Bool
both mount = true
both user = true
both _ = false

abbrev pub plan : Plan
plan = record {
  bundle = cell;
  rootfs = root_dir ∷ normal (codes "rootfs") ∷ [];
  overlay = none;
  unshare_flags = both;
  join = [];
  cgroup_ns = true;
  fifo = 6;
  console = some 8;
  state = record {
    version = codes "1.0.2";
    id = codes "cell";
    status = creating;
    pid = none;
    bundle = root_dir ∷ [];
    annotations = none;
  };
}

-- The same without a user namespace, so that the devices are made.
abbrev pub only_mount : NamespaceType → Bool
only_mount mount = true
only_mount _ = false

abbrev pub rooted : Plan
rooted = record plan { unshare_flags = only_mount }

-- The shell is there, and the packets are to come.
abbrev pub waking : List Text → Cradle
waking packets = record dawn {
  place = root_dir ∷ normal (codes "bin") ∷ normal (codes "sh") ∷ [];
  packets = packets;
}

pub profile_builds : build cradle cradle_scmp profile ≡ ok (321 ∷ 0 ∷ [], 2)
unfolding build syscall_number text_eq marstack_container.Error.traverse
profile_builds = refl

pub stage_one_runs :
    stage_one cradle init_codec [] plan (waking (codes "u" ∷ [])) ≡ (ok tt, waking [])
unfolding stage_one marstack_container.Exec.for_each
    marstack_container.Bundle.Validate.namespace_type_eq marstack_container.Sync.send
    marstack_container.Sync.expect text_eq
stage_one_runs = refl

pub init_runs :
    container_init cradle json init_codec cradle_pty cradle_caps cradle_scmp [] rooted
      (waking (codes "c" ∷ []))
    ≡ (ok tt, waking [])
unfolding container_init text_eq syscall_number kernel_number marstack_container.Sync.send
    marstack_container.Sync.expect marstack_container.Rootfs.Harden.make_root_private
    marstack_container.Rootfs.Harden.make_mount_point marstack_container.Rootfs.Mounts.apply
    marstack_container.Exec.for_each marstack_container.Rootfs.Devices.create
    marstack_container.Std.FilePath.join marstack_container.Std.FilePath.components
    marstack_container.Std.FilePath.parent marstack_container.Std.FilePath.display
    marstack_container.Bundle.Load.devices marstack_container.Bundle.Load.mounts
    marstack_container.Bundle.Load.env marstack_container.Bundle.Load.argv
    marstack_container.Bundle.Load.seccomp marstack_container.Bundle.Load.sysctl
    marstack_container.Bundle.Load.masked_paths marstack_container.Bundle.Load.readonly_paths
    marstack_container.Bundle.Load.readonly_rootfs marstack_container.Bundle.Load.rootfs_propagation
    marstack_container.Bundle.Load.resolve_executable marstack_container.Bundle.Load.to_cstrings
    marstack_container.Container.Hooks.run marstack_container.Rootfs.Harden.pivot
    marstack_container.Rootfs.Harden.set_propagation marstack_container.Container.Console.setup
    marstack_container.Rootfs.Sysctl.apply marstack_container.Rootfs.Harden.mask_paths
    marstack_container.Rootfs.Harden.readonly_paths
    marstack_container.Rootfs.Harden.remount_readonly_mounts
    marstack_container.Container.Process.apply_limits
    marstack_container.Container.Process.apply_oom_score_adj
    marstack_container.Container.Process.apply_umask
    marstack_container.Container.Process.drop_privileges
    marstack_container.Container.Capabilities.drop_bounding
    marstack_container.Container.Capabilities.apply
    marstack_container.Container.Capabilities.set_no_new_privs
    marstack_container.Container.Seccomp.apply marstack_container.Container.Fifo.park
    marstack_container.Error.traverse marstack_container.Std.Text.contains
    marstack_container.Tests.Cradle.look_up marstack_container.Std.FilePath.path_eq
init_runs = refl
