-- ===== src/Rootfs/Mounts.antt =====
-- rootfs/mounts.rs: the mounts of a bundle. A set of mount flags is its membership test.
pub mod Resolved
pub mod LastOption
use marstack_container.Prelude.{
  ℕ, Bool, true, false, not, ◌&&◌, ◌||◌, Option, none, some, List, [], ◌∷◌, ◌++◌, any, is_empty,
  if◌then◌else◌,
}
use marstack_container.Std.Text.{Text, codes, text_eq, join}
use marstack_container.Std.FilePath
use marstack_container.Std.FilePath.{
  FilePath, root_dir, cur_dir, parent_dir, normal, path_eq, parent, pop,
}
use marstack_container.Std.Map.{Map, get}
use marstack_container.Error.{Result, ok, err}
use marstack_container.Exec.{Exec, pure, gets, when, for_each, ◌>>=◌, ◌>>◌}
use marstack_container.Os.{Os, call}
use marstack_container.Syscall.{
  MsFlag, Flags, flag_eq, MountCall, ms_rdonly, ms_nosuid, ms_nodev, ms_noexec, ms_synchronous,
  ms_remount, ms_mandlock, ms_dirsync, ms_noatime, ms_nodiratime, ms_bind, ms_rec, ms_unbindable,
  ms_private, ms_slave, ms_shared, ms_relatime, ms_strictatime,
}
use marstack_container.Spec.{Mount}

pub record Options : Type 0 where
  pub flags : Flags
  pub data_text : Text

-- What an option does to the flags: nothing, `|=`, or `&= !`.
pub data Change : Type 0 where
  keep : Change
  set : List MsFlag → Change
  clear : MsFlag → Change

unfoldable pub change_table : Map Change
change_table =
    (codes "defaults", keep)
    ∷ (codes "ro", set (ms_rdonly ∷ []))
    ∷ (codes "rw", clear ms_rdonly)
    ∷ (codes "suid", clear ms_nosuid)
    ∷ (codes "nosuid", set (ms_nosuid ∷ []))
    ∷ (codes "dev", clear ms_nodev)
    ∷ (codes "nodev", set (ms_nodev ∷ []))
    ∷ (codes "exec", clear ms_noexec)
    ∷ (codes "noexec", set (ms_noexec ∷ []))
    ∷ (codes "sync", set (ms_synchronous ∷ []))
    ∷ (codes "async", clear ms_synchronous)
    ∷ (codes "dirsync", set (ms_dirsync ∷ []))
    ∷ (codes "remount", set (ms_remount ∷ []))
    ∷ (codes "mand", set (ms_mandlock ∷ []))
    ∷ (codes "nomand", clear ms_mandlock)
    ∷ (codes "atime", clear ms_noatime)
    ∷ (codes "noatime", set (ms_noatime ∷ []))
    ∷ (codes "diratime", clear ms_nodiratime)
    ∷ (codes "nodiratime", set (ms_nodiratime ∷ []))
    ∷ (codes "relatime", set (ms_relatime ∷ []))
    ∷ (codes "norelatime", clear ms_relatime)
    ∷ (codes "strictatime", set (ms_strictatime ∷ []))
    ∷ (codes "nostrictatime", clear ms_strictatime)
    ∷ (codes "bind", set (ms_bind ∷ []))
    ∷ (codes "rbind", set (ms_bind ∷ ms_rec ∷ []))
    ∷ (codes "unbindable", set (ms_unbindable ∷ []))
    ∷ (codes "runbindable", set (ms_unbindable ∷ ms_rec ∷ []))
    ∷ (codes "private", set (ms_private ∷ []))
    ∷ (codes "rprivate", set (ms_private ∷ ms_rec ∷ []))
    ∷ (codes "shared", set (ms_shared ∷ []))
    ∷ (codes "rshared", set (ms_shared ∷ ms_rec ∷ []))
    ∷ (codes "slave", set (ms_slave ∷ []))
    ∷ (codes "rslave", set (ms_slave ∷ ms_rec ∷ []))
    ∷ []

-- The change of a known option; any other option is data.
unfoldable pub change_of : Text → Option Change
unfolding change_table
change_of option = get option change_table

unfoldable pub change : Change → Flags → Flags
unfolding flag_eq
change keep flags = flags
change (set fs) flags = λ f. any (flag_eq f) fs || flags f
change (clear g) flags = λ f. not (flag_eq f g) && flags f

-- The loop over the options, with the flags and the data so far.
unfoldable pub parse_from : Flags → List Text → List Text → Options
parse_from flags data_text [] = record { flags = flags; data_text = join (codes ",") data_text }
parse_from flags data_text (o ∷ os) = elim (change_of o) [
  | none ↦ parse_from flags (data_text ++ o ∷ []) os
  | some c ↦ parse_from (change c flags) data_text os
]

unfoldable pub parse_options : List Text → Options
unfolding parse_from
parse_options options = parse_from (λ f. false) [] options

-- The loop over the components of the destination.
unfoldable pub resolve_from : FilePath → FilePath → FilePath → FilePath
resolve_from rootfs out [] = out
resolve_from rootfs out (normal part ∷ cs) =
    resolve_from rootfs (FilePath.join out (normal part ∷ [])) cs
resolve_from rootfs out (parent_dir ∷ cs) =
    resolve_from rootfs (if path_eq out rootfs then out else pop out) cs
resolve_from rootfs out (root_dir ∷ cs) = resolve_from rootfs out cs
resolve_from rootfs out (cur_dir ∷ cs) = resolve_from rootfs out cs

unfoldable pub resolve : FilePath → FilePath → FilePath
unfolding resolve_from
resolve rootfs destination = resolve_from rootfs rootfs destination

unfoldable pub effective_fstype : Text → Bool → Text
effective_fstype requested unified_host =
    if text_eq requested (codes "cgroup") && unified_host then codes "cgroup2" else requested

-- `clone().unwrap_or_else(…)`.
abbrev or_else {ℓ} : {A : Type ℓ} → A → Option A → A
or_else d none = d
or_else d (some a) = a

module _ (os : Os) where
  unfoldable pub link_ptmx : FilePath → Exec os.World (Unit {0})
  link_ptmx rootfs = do
    let ptmx = FilePath.join rootfs (normal (codes "dev") ∷ normal (codes "ptmx") ∷ [])
    present ← gets (os.link_exists ptmx)
    when present (call os "remove" (os.remove_file ptmx))
    call os "symlink" (os.symlink (normal (codes "pts") ∷ normal (codes "ptmx") ∷ []) ptmx)

  -- A file is bound over a file, anything else is mounted on a directory.
  unfoldable pub make_target : Bool → FilePath → Exec os.World (Unit {0})
  make_target false destination = call os "create" (os.create_dir_all destination)
  make_target true destination = do
    elim (parent destination) [
      | none ↦ pure tt
      | some dir ↦ call os "create" (os.create_dir_all dir)
    ]
    present ← gets (os.exists destination)
    when (not present) (call os "create" (os.create_file destination))

  unfoldable pub apply_one : FilePath → Mount → Bool → Exec os.World (Unit {0})
  unfolding make_target link_ptmx
  apply_one rootfs m unified_host = do
    let destination = resolve rootfs m.destination
    let fstype = effective_fstype (or_else (codes "none") m.typ) unified_host
    let source = or_else (normal (codes "none") ∷ []) m.source
    let options = parse_options (or_else [] m.options)
    source_is_file ← gets (os.is_file source)
    make_target (options.flags ms_bind && source_is_file) destination
    call os "mount" (
        os.mount (record {
          source = some source;
          target = destination;
          fstype = some fstype;
          flags = options.flags;
          data_text = if is_empty options.data_text then none else some options.data_text;
        }))
    when (text_eq fstype (codes "devpts")) (link_ptmx rootfs)

  -- Every mount in order, up to the first that fails.
  unfoldable pub apply : FilePath → List Mount → Exec os.World (Unit {0})
  unfolding apply_one
  apply rootfs mounts = do
    unified ← gets os.cgroup2_mounted
    for_each (λ m. apply_one rootfs m unified) mounts
