-- ===== src/Rootfs/Harden.antt =====
-- rootfs/harden.rs: paths that are masked or made read-only. rootfs/pivot.rs: the change of root.
pub mod Masked
use marstack_container.Prelude.{
  Bool, true, false, not, ◌&&◌, ◌||◌, Option, none, some, List, [], ◌∷◌, if◌then◌else◌,
}
use marstack_container.Std.Text.{Text, codes, text_eq}
use marstack_container.Std.FilePath.{FilePath, root_dir, cur_dir, components}
use marstack_container.Std.Map.{Map, get}
use marstack_container.Spec.{Mount}
use marstack_container.Error.{Result, ok, err, invalid}
use marstack_container.Exec.{Exec, pure, lift, gets, for_each, ◌>>=◌, ◌>>◌}
use marstack_container.Os.{Os, nix_call}
use marstack_container.Syscall
use marstack_container.Syscall.{
  MsFlag, Flags, MountCall, flag_eq, flags_of, fchdir, chdir, umount_detach, ms_rdonly, ms_nosuid,
  ms_nodev, ms_noexec, ms_remount, ms_bind, ms_rec, ms_unbindable, ms_private, ms_slave, ms_shared,
}
use marstack_container.Rootfs.Mounts.{parse_options}
use marstack_container.Bundle.Validate.{flatten}

-- A mount without a file system type or data.
abbrev pub plain : Option FilePath → FilePath → Flags → MountCall
plain source target flags = record {
  source = source;
  target = target;
  fstype = none;
  flags = flags;
  data_text = none;
}

abbrev pub slash : FilePath
slash = root_dir ∷ []

-- An empty read-only tmpfs over a directory, and /dev/null over anything else.
unfoldable pub mask_call : Bool → FilePath → MountCall
mask_call true path = record {
  source = some (components (codes "tmpfs"));
  target = path;
  fstype = some (codes "tmpfs");
  flags = flags_of (ms_rdonly ∷ []);
  data_text = some (codes "size=0k");
}
mask_call false path = plain (some (components (codes "/dev/null"))) path (flags_of (ms_bind ∷ []))

unfoldable pub bind_call : FilePath → MountCall
bind_call path = plain (some path) path (flags_of (ms_bind ∷ ms_rec ∷ []))

unfoldable pub remount_call : FilePath → MountCall
remount_call path =
    plain (some path) path
      (flags_of (ms_bind ∷ ms_rec ∷ ms_remount ∷ ms_rdonly ∷ ms_nosuid ∷ ms_nodev ∷ ms_noexec ∷ []))

abbrev pub or_empty : Option Text → Text
or_empty none = []
or_empty (some t) = t

-- A tmpfs whose options make it read-only.
unfoldable pub is_readonly_tmpfs : Mount → Bool
is_readonly_tmpfs m =
    (parse_options (flatten m.options)).flags ms_rdonly && text_eq (or_empty m.typ) (codes "tmpfs")

-- The flag of a propagation's name.
unfoldable pub propagation_flags : Map MsFlag
propagation_flags =
    (codes "shared", ms_shared)
    ∷ (codes "slave", ms_slave)
    ∷ (codes "private", ms_private)
    ∷ (codes "unbindable", ms_unbindable)
    ∷ []

unfoldable pub propagation_flag : Text → Result MsFlag
unfolding propagation_flags
propagation_flag requested = elim (get requested propagation_flags) [
  | none ↦ err (invalid "linux.rootfsPropagation is not known")
  | some flag ↦ ok flag
]

module _ (os : Os) where
  -- A path where nothing is, is passed over.
  unfoldable pub mask_one : FilePath → Exec os.World (Unit {0})
  unfolding mask_call
  mask_one path = gets (os.link_is_dir path) >>= λ found. elim found [
    | none ↦ pure tt
    | some directory ↦ nix_call os "mask" (os.mount (mask_call directory path))
  ]

  unfoldable pub mask_paths : List Text → Exec os.World (Unit {0})
  unfolding mask_one
  mask_paths = for_each (λ path. mask_one (components path))

  unfoldable pub readonly_one : FilePath → Exec os.World (Unit {0})
  unfolding bind_call remount_call
  readonly_one path = gets (os.link_is_dir path) >>= λ found. elim found [
    | none ↦ pure tt
    | some directory ↦
        nix_call os "bind onto itself" (os.mount (bind_call path))
        >> nix_call os "remount read-only" (os.mount (remount_call path))
  ]

  unfoldable pub readonly_paths : List Text → Exec os.World (Unit {0})
  unfolding readonly_one
  readonly_paths = for_each (λ path. readonly_one (components path))

  unfoldable pub readonly_rootfs : Exec os.World (Unit {0})
  readonly_rootfs =
      nix_call os "remount / read-only"
        (os.mount (plain none slash (flags_of (ms_bind ∷ ms_remount ∷ ms_rdonly ∷ []))))

  unfoldable pub remount_one : Mount → Exec os.World (Unit {0})
  unfolding is_readonly_tmpfs
  remount_one m =
      let flags = (parse_options (flatten m.options)).flags in
      if is_readonly_tmpfs m
      then nix_call os "remount the tmpfs read-only"
          (os.mount (plain none m.destination (λ f. flag_eq f ms_remount || flags f)))
      else pure tt

  unfoldable pub remount_readonly_mounts : List Mount → Exec os.World (Unit {0})
  unfolding remount_one
  remount_readonly_mounts = for_each remount_one

  unfoldable pub make_root_private : Exec os.World (Unit {0})
  make_root_private =
      nix_call os "remount / private"
        (os.mount (plain none slash (flags_of (ms_private ∷ ms_rec ∷ []))))

  unfoldable pub make_mount_point : FilePath → Exec os.World (Unit {0})
  unfolding bind_call
  make_mount_point rootfs = nix_call os "bind onto itself" (os.mount (bind_call rootfs))

  -- The new root is put over the old one, which is then detached by its handle.
  unfoldable pub pivot : FilePath → Exec os.World (Unit {0})
  pivot rootfs = do
    let here = cur_dir ∷ []
    oldroot ← nix_call os "open /" (os.open_path slash)
    newroot ← nix_call os "open rootfs" (os.open_path rootfs)
    nix_call os "chdir into the new root" (os.sys (fchdir newroot))
    nix_call os "pivot_root" (os.sys (Syscall.pivot_root here))
    nix_call os "chdir back to the old root" (os.sys (fchdir oldroot))
    nix_call os "mark the old root private"
        (os.mount (plain none here (flags_of (ms_private ∷ ms_rec ∷ []))))
    nix_call os "detach the old root" (os.sys (umount_detach here))
    nix_call os "chdir to the new /" (os.sys (chdir slash))

  unfoldable pub set_propagation : Option Text → Exec os.World (Unit {0})
  unfolding propagation_flag
  set_propagation none = pure tt
  set_propagation (some requested) = do
    flag ← lift (propagation_flag requested)
    nix_call os "apply rootfsPropagation"
        (os.mount (plain none slash (flags_of (flag ∷ ms_rec ∷ []))))
