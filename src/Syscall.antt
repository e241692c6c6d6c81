-- ===== src/Syscall.antt =====
-- The system calls of the runtime that answer nothing but success or an error number, and the sets
-- of flags of `mount(2)`. A handle is the number of a file descriptor.
use marstack_container.Prelude.{ℕ, Bool, true, false, Option, List, any}
use marstack_container.Prelude.Int.{ℤ}
use marstack_container.Std.Text.{Text}
use marstack_container.Std.FilePath.{FilePath}
use marstack_container.Spec.{NamespaceType, RlimitType}

pub data MsFlag : Type 0 where
  ms_rdonly ms_nosuid ms_nodev ms_noexec ms_synchronous ms_remount ms_mandlock ms_dirsync : MsFlag
  ms_noatime ms_nodiratime ms_bind ms_rec ms_unbindable ms_private ms_slave ms_shared : MsFlag
  ms_relatime ms_strictatime : MsFlag

pub MsFlag-discrete : Discrete MsFlag
MsFlag-discrete = hlevel

unfoldable pub flag_eq : MsFlag → MsFlag → Bool
unfolding MsFlag-discrete
flag_eq a b = elim (MsFlag-discrete a b) [ yes h ↦ true | no h ↦ false ]

abbrev pub Flags : Type 0
Flags = MsFlag → Bool

-- `MsFlags::A | MsFlags::B`.
unfoldable pub flags_of : List MsFlag → Flags
flags_of fs f = any (flag_eq f) fs

-- The arguments of `mount(2)`.
pub record MountCall : Type 0 where
  pub source : Option FilePath
  pub target : FilePath
  pub fstype : Option Text
  pub flags : Flags
  pub data_text : Option Text

-- The type of a node that `mknod(2)` makes.
pub data NodeKind : Type 0 where
  char_node block_node fifo_node : NodeKind

-- What `waitpid(2)` tells: a process and its exit code or the signal that ended it, that no child
-- has ended yet, or another change of a child.
pub data WaitStatus : Type 0 where
  exited signaled : ℤ → ℕ → WaitStatus
  still_alive other_change : WaitStatus

pub data Syscall : Type 0 where
  chdir : FilePath → Syscall
  fchdir : ℕ → Syscall
  pivot_root umount_detach : FilePath → Syscall
  mkfifo set_permissions : FilePath → ℕ → Syscall
  mknod : FilePath → NodeKind → ℕ → ℕ → ℕ → Syscall
  chown : FilePath → Option ℕ → Option ℕ → Syscall
  unshare : NamespaceType → Syscall
  setns : NamespaceType → ℕ → Syscall
  sethostname setdomainname : Text → Syscall
  setrlimit : RlimitType → ℕ → ℕ → Syscall
  umask setgid setuid setresgid setresuid : ℕ → Syscall
  setgroups : List ℕ → Syscall
  keep_caps : Bool → Syscall
  set_no_new_privs set_child_subreaper socketpair : Syscall
  block_signals : List ℕ → Syscall
  unblock_all : Syscall
  write_handle : ℕ → Text → Syscall
  execve : FilePath → List Text → List Text → Syscall
