-- ===== src/Spec.antt =====
-- The fields of config.json that the runtime reads, as oci_spec::runtime names them: an accessor
-- of that package is a field, and a section that is only tested for presence is a truth value.
use marstack_container.Prelude.{ℕ, Bool, Option, List}
use marstack_container.Prelude.Int.{ℤ}
use marstack_container.Std.Text.{Text}
use marstack_container.Std.FilePath.{FilePath}

pub data NamespaceType : Type 0 where
  mount pid network ipc uts user cgroup time : NamespaceType

pub record Namespace : Type 0 where
  pub typ : NamespaceType
  pub path : Option FilePath

pub record LinuxMemory : Type 0 where
  pub limit : Option ℤ
  pub reservation : Option ℤ
  pub swap : Option ℤ

pub record LinuxCpu : Type 0 where
  pub shares : Option ℕ
  pub quota : Option ℤ
  pub period : Option ℕ
  pub cpus : Option Text
  pub mems : Option Text

pub record ThrottleDevice : Type 0 where
  pub major : ℤ
  pub minor : ℤ
  pub rate : ℕ

pub record LinuxBlockIo : Type 0 where
  pub weight : Option ℕ
  pub throttle_read_bps_device : Option (List ThrottleDevice)
  pub throttle_write_bps_device : Option (List ThrottleDevice)
  pub throttle_read_iops_device : Option (List ThrottleDevice)
  pub throttle_write_iops_device : Option (List ThrottleDevice)

pub record LinuxResources : Type 0 where
  pub memory : Option LinuxMemory
  pub cpu : Option LinuxCpu
  pub pids_limit : Option ℤ
  pub block_io : Option LinuxBlockIo
  pub unified : Option (List (Text × Text))

pub record LinuxIdMapping : Type 0 where
  pub container_id : ℕ
  pub host_id : ℕ
  pub size : ℕ

-- `LinuxDeviceType`: a, b, c, u and p.
pub data LinuxDeviceType : Type 0 where
  all_kinds block char unbuffered fifo : LinuxDeviceType

pub record LinuxDevice : Type 0 where
  pub path : FilePath
  pub typ : LinuxDeviceType
  pub major : ℤ
  pub minor : ℤ
  pub file_mode : Option ℕ
  pub uid : Option ℕ
  pub gid : Option ℕ

pub data SeccompAction : Type 0 where
  act_kill act_kill_thread act_kill_process act_trap act_errno act_trace act_allow act_log
        act_notify :
      SeccompAction

pub data Arch : Type 0 where
  native x86 x86_64 x32 arm aarch64 mips mips64 mips64n32 mipsel mipsel64 mipsel64n32 ppc ppc64
        ppc64le s390 s390x parisc parisc64 riscv64 :
      Arch
  -- Any other, which libseccomp does not have.
  other_arch : Arch

pub data SeccompFilterFlag : Type 0 where
  flag_log flag_tsync flag_spec_allow flag_wait_killable_recv : SeccompFilterFlag

pub data SeccompOperator : Type 0 where
  cmp_ne cmp_lt cmp_le cmp_eq cmp_ge cmp_gt cmp_masked_eq : SeccompOperator

pub record SeccompArg : Type 0 where
  pub index : ℕ
  pub value : ℕ
  pub value_two : Option ℕ
  pub op : SeccompOperator

pub record SeccompSyscall : Type 0 where
  pub names : List Text
  pub action : SeccompAction
  pub errno_ret : Option ℕ
  pub args : Option (List SeccompArg)

pub record LinuxSeccomp : Type 0 where
  pub default_action : SeccompAction
  pub default_errno_ret : Option ℕ
  pub architectures : Option (List Arch)
  pub flags : Option (List SeccompFilterFlag)
  pub syscalls : Option (List SeccompSyscall)

pub record LinuxTimeOffset : Type 0 where
  pub secs : Option ℤ
  pub nanosecs : Option ℕ

pub record Linux : Type 0 where
  pub namespaces : Option (List Namespace)
  pub uid_mappings : Option (List LinuxIdMapping)
  pub gid_mappings : Option (List LinuxIdMapping)
  pub resources : Option LinuxResources
  pub cgroups_path : Option FilePath
  pub rootfs_propagation : Option Text
  pub masked_paths : Option (List Text)
  pub readonly_paths : Option (List Text)
  pub sysctl : Option (List (Text × Text))
  pub devices : Option (List LinuxDevice)
  pub seccomp : Option LinuxSeccomp
  pub time_offsets : Option (List (Text × LinuxTimeOffset))

pub data RlimitType : Type 0 where
  cpu_limit fsize data_limit stack core rss nproc nofile memlock as_limit locks : RlimitType
  sigpending msgqueue nice rtprio rttime : RlimitType

pub record Rlimit : Type 0 where
  pub typ : RlimitType
  pub soft : ℕ
  pub hard : ℕ

-- The names of the capabilities of each set.
pub record LinuxCapabilities : Type 0 where
  pub bounding_names : Option (List Text)
  pub effective_names : Option (List Text)
  pub inheritable_names : Option (List Text)
  pub permitted_names : Option (List Text)
  pub ambient_names : Option (List Text)

pub record User : Type 0 where
  pub uid : ℕ
  pub gid : ℕ
  pub additional_gids : Option (List ℕ)
  pub umask : Option ℕ

pub record Process : Type 0 where
  pub terminal : Option Bool
  pub args : Option (List Text)
  pub cwd : FilePath
  pub env : Option (List Text)
  pub rlimits : Option (List Rlimit)
  pub user : User
  pub oom_score_adj : Option ℤ
  pub no_new_privileges : Option Bool
  pub capabilities : Option LinuxCapabilities

pub record Root : Type 0 where
  pub path : FilePath
  pub readonly : Option Bool

pub record Mount : Type 0 where
  pub destination : FilePath
  pub typ : Option Text
  pub source : Option FilePath
  pub options : Option (List Text)

pub record Hook : Type 0 where
  pub path : FilePath
  pub args : Option (List Text)
  pub env : Option (List Text)
  pub timeout : Option ℤ

pub record Hooks : Type 0 where
  pub prestart : Option (List Hook)
  pub create_runtime : Option (List Hook)
  pub create_container : Option (List Hook)
  pub start_container : Option (List Hook)
  pub poststart : Option (List Hook)
  pub poststop : Option (List Hook)

pub record Spec : Type 0 where
  pub version : Text
  pub root : Option Root
  pub process : Option Process
  pub hostname : Option Text
  pub domainname : Option Text
  pub mounts : Option (List Mount)
  pub hooks : Option Hooks
  pub annotations : Option (List (Text × Text))
  pub linux : Option Linux
  pub solaris : Bool
  pub windows : Bool
  pub vm : Bool
  pub zos : Bool
