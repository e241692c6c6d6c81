-- ===== src/Rootfs/Devices.antt =====
-- rootfs/devices.rs: the device nodes of a container.
pub mod Provided
use marstack_container.Prelude.{
  ℕ, ◌^◌, ◌%◌, ◌-◌, ◌+◌, ◌||◌, ◌==◌, Bool, true, false, not, Option, none, some, List, [], ◌∷◌,
  if◌then◌else◌,
}
use marstack_container.Prelude.Int.{ℤ, pos, negsuc}
use marstack_container.Std.Text.{Text, codes}
use marstack_container.Std.FilePath
use marstack_container.Std.FilePath.{FilePath, root_dir, components, parent}
use marstack_container.Error.{invalid, nix}
use marstack_container.Exec.{Exec, pure, raise, gets, when, guard, for_each, ◌>>=◌, ◌>>◌}
use marstack_container.Os.{Os, Answer, done, failed, call, nix_call}
use marstack_container.Syscall
use marstack_container.Syscall.{NodeKind, char_node, block_node, fifo_node, set_permissions}
use marstack_container.Spec.{LinuxDevice, LinuxDeviceType, all_kinds, block, char, unbuffered, fifo}
use marstack_container.Rootfs.Mounts.{resolve}
use marstack_container.Rootfs.Harden.{plain}

pub record DefaultDevice : Type 0 where
  pub path : Text
  pub major : ℕ
  pub minor : ℕ
  pub mode : ℕ

-- Read and write for all, 0o666.
abbrev pub rw_all : ℕ
rw_all = 438

abbrev default_device : Text → ℕ → ℕ → DefaultDevice
default_device path major minor = record {
  path = path;
  major = major;
  minor = minor;
  mode = rw_all;
}

unfoldable pub default_devices : List DefaultDevice
default_devices =
    default_device (codes "dev/null") 1 3
    ∷ default_device (codes "dev/zero") 1 5
    ∷ default_device (codes "dev/full") 1 7
    ∷ default_device (codes "dev/tty") 5 0
    ∷ default_device (codes "dev/random") 1 8
    ∷ default_device (codes "dev/urandom") 1 9
    ∷ []

unfoldable pub symlinks : List (Text × Text)
symlinks =
    (codes "/proc/self/fd", codes "dev/fd")
    ∷ (codes "/proc/self/fd/0", codes "dev/stdin")
    ∷ (codes "/proc/self/fd/1", codes "dev/stdout")
    ∷ (codes "/proc/self/fd/2", codes "dev/stderr")
    ∷ []

unfoldable pub sflag_for : LinuxDeviceType → NodeKind
sflag_for block = block_node
sflag_for fifo = fifo_node
sflag_for char = char_node
sflag_for unbuffered = char_node
sflag_for all_kinds = char_node

-- `as u64` of an `i64`.
unfoldable pub as_u64 : ℤ → ℕ
as_u64 (pos n) = n % 2 ^ 64
as_u64 (negsuc n) = 2 ^ 64 - (n + 1)

-- EPERM and EOVERFLOW: the node may not be made here.
unfoldable pub is_refusal : ℕ → Bool
is_refusal e = e == 1 || e == 75

-- `unwrap_or` of an optional number.
unfoldable pub mode_of : Option ℕ → ℕ
mode_of none = rw_all
mode_of (some mode) = mode

unfoldable pub is_given : Option ℕ → Bool
is_given none = false
is_given (some n) = true

-- The mode that `mknod` is given is cut to its twelve bits.
abbrev pub node_call : FilePath → NodeKind → ℕ → ℕ → ℕ → Syscall.Syscall
node_call target kind mode major minor = Syscall.mknod target kind (mode % 2 ^ 12) major minor

abbrev pub host_bind : FilePath → FilePath → Syscall.MountCall
host_bind target host = plain (some host) target (Syscall.flags_of (Syscall.ms_bind ∷ []))

module _ (os : Os) where
  -- The node of the host, bound over a file.
  unfoldable pub bind : FilePath → FilePath → Exec os.World (Unit {0})
  bind target host = do
    provided ← gets (os.exists host)
    guard provided (invalid "the host has no such device")
    present ← gets (os.exists target)
    when (not present) (call os "create a bind target" (os.create_file target))
    nix_call os "bind" (os.mount (host_bind target host))

  -- The rest of `node` from the answer of `mknod`.
  unfoldable pub made : FilePath → FilePath → ℕ → Answer (Unit {0}) → Exec os.World (Unit {0})
  unfolding bind is_refusal
  made target host mode (done u) = call os "chmod" (os.sys (set_permissions target mode))
  made target host mode (failed e) =
      if is_refusal e then bind target host else raise (nix "mknod" e)

  unfoldable pub make_node : FilePath → FilePath → NodeKind → ℕ → ℕ → ℕ → Exec os.World (Unit {0})
  unfolding made
  make_node target host kind mode major minor w =
      let (answer, w') = os.sys (node_call target kind mode major minor) w in
      made target host mode answer w'

  unfoldable pub make_parent : FilePath → Exec os.World (Unit {0})
  make_parent target = elim (parent target) [
    | none ↦ pure tt
    | some dir ↦ call os "create" (os.create_dir_all dir)
  ]

  -- A node that is there is left as it is; in a user namespace none is made.
  unfoldable pub node : FilePath → FilePath → NodeKind → ℕ → ℕ → ℕ → Bool → Exec os.World (Unit {0})
  unfolding bind make_node make_parent
  node target host kind mode major minor user_namespace =
      let fresh =
        if user_namespace then bind target host else make_node target host kind mode major minor in
      gets (os.link_exists target) >>= λ present.
      if present then pure tt else (make_parent target >> fresh)

  unfoldable pub default_node : FilePath → Bool → DefaultDevice → Exec os.World (Unit {0})
  unfolding node
  default_node rootfs user_namespace device =
      node (FilePath.join rootfs (components device.path)) (root_dir ∷ components device.path)
        char_node device.mode device.major device.minor user_namespace

  unfoldable pub link_one : FilePath → Text × Text → Exec os.World (Unit {0})
  link_one rootfs (source, link) = do
    let target = FilePath.join rootfs (components link)
    present ← gets (os.link_exists target)
    when (not present) (call os "symlink" (os.symlink (components source) target))

  unfoldable pub extra_node : FilePath → Bool → LinuxDevice → Exec os.World (Unit {0})
  unfolding node sflag_for as_u64 mode_of is_given
  extra_node rootfs user_namespace device = do
    let target = resolve rootfs device.path
    node target device.path (sflag_for device.typ) (mode_of device.file_mode) (as_u64 device.major)
        (as_u64 device.minor) user_namespace
    when (is_given device.uid || is_given device.gid)
        (nix_call os "chown" (os.sys (Syscall.chown target device.uid device.gid)))

  unfoldable pub create : FilePath → List LinuxDevice → Bool → Exec os.World (Unit {0})
  unfolding default_devices symlinks default_node link_one extra_node
  create rootfs extra user_namespace = do
    for_each (default_node rootfs user_namespace) default_devices
    for_each (link_one rootfs) symlinks
    for_each (extra_node rootfs user_namespace) extra
