-- ===== src/Rootfs/Overlay/Prepare.antt =====
-- rootfs/overlay.rs: the checks of the layers' directories before the mount.
use marstack_container.Prelude.{
  ℕ, Bool, not, ◌||◌, Option, none, some, List, ◌==◌, ltb, length, if◌then◌else◌,
}
use marstack_container.Std.Text.{Text}
use marstack_container.Std.FilePath.{FilePath, components, path_eq, starts_with}
use marstack_container.Error.{Result, ok, err, overlay}
use marstack_container.Exec.{Exec, look, lift, guard, for_each, pure, raise, ◌>>=◌, ◌>>◌}
use marstack_container.Os.{Os, io_ctx, call}
use marstack_container.Rootfs.Overlay.{Layers}

abbrev pub min_readonly_lower : ℕ
min_readonly_lower = 2

-- One of the trees is the other or lies in it.
unfoldable pub overlaps : FilePath → FilePath → Bool
overlaps lower upper = path_eq lower upper || starts_with upper lower || starts_with lower upper

unfoldable pub check_not_nested : FilePath → FilePath → Result (Unit {0})
check_not_nested upper work =
    if starts_with work upper
    then err (overlay "workdir is inside upperdir")
    else if starts_with upper work
    then err (overlay "upperdir is inside workdir")
    else ok tt

module _ (os : Os) where
  unfoldable pub check_same_filesystem : FilePath → FilePath → Exec os.World (Unit {0})
  check_same_filesystem upper work = do
    upper_dev ← look (λ w. io_ctx "stat upperdir" (os.device upper w))
    work_dev ← look (λ w. io_ctx "stat workdir" (os.device work w))
    guard (upper_dev == work_dev) (overlay "workdir is on another device")

  unfoldable pub check_lower : Text → Exec os.World (Unit {0})
  check_lower dir = do
    present ← look (λ w. ok (os.is_dir (components dir) w))
    guard present (overlay "lower layer does not exist or is not a directory")

  unfoldable pub check_disjoint : FilePath → Text → Exec os.World (Unit {0})
  unfolding overlaps
  check_disjoint upper dir = do
    lower ← look (λ w. io_ctx "resolve lower layer" (os.canonicalize (components dir) w))
    guard (not (overlaps lower upper)) (overlay "lower layer overlaps the upper layer")

  unfoldable pub prepare_writable : List Text → Text → Text → Exec os.World (Unit {0})
  unfolding check_same_filesystem check_not_nested
  prepare_writable dirs upper_text work_text = do
    call os "create upperdir" (os.create_dir_all (components upper_text))
    call os "create workdir" (os.create_dir_all (components work_text))
    upper ← look (λ w. io_ctx "resolve upperdir" (os.canonicalize (components upper_text) w))
    work ← look (λ w. io_ctx "resolve workdir" (os.canonicalize (components work_text) w))
    check_same_filesystem upper work
    lift (check_not_nested upper work)
    for_each (check_disjoint upper) dirs

  -- The choice between a writable overlay and a read-only one.
  unfoldable pub prepare_kind : List Text → Option Text → Option Text → Exec os.World (Unit {0})
  unfolding prepare_writable
  prepare_kind dirs (some upper) (some work) = prepare_writable dirs upper work
  prepare_kind dirs none none =
      if ltb (length dirs) min_readonly_lower
      then raise (overlay "a read-only overlay needs at least 2 lower layers")
      else pure tt
  prepare_kind dirs (some upper) none = raise (overlay "upperdir requires workdir")
  prepare_kind dirs none (some work) = raise (overlay "workdir was set without upperdir")

  unfoldable pub prepare : Layers → Exec os.World (Unit {0})
  unfolding prepare_kind check_lower
  prepare l = do for_each check_lower l.lower; prepare_kind l.lower l.upper l.work
