-- ===== src/Rootfs/Sysctl.antt =====
-- rootfs/sysctl.rs: kernel parameters of the container's namespaces. The map of settings is given
-- by its entries, in the order of its iteration.
use marstack_container.Prelude.{
  ◌≡◌, refl, sym, ◌∙◌, not, false, List, [], ◌∷◌, ◌++◌, arith, All, is_empty,
}
use marstack_container.Std.Text.{Text, codes}
use marstack_container.Std.FilePath
use marstack_container.Std.FilePath.{
  FilePath, Component, root_dir, cur_dir, parent_dir, normal, components, IsNormal,
}
use marstack_container.Error.{Result, ok, err, invalid, guard, ◌>>◌, >>=-eq-ok, ok-injective}
use marstack_container.Exec.{Exec, lift, for_each, continue}
use marstack_container.Os.{Os, call}
use marstack_container.Rootfs.Overlay.{replace}

abbrev pub base : FilePath
base = root_dir ∷ normal (codes "proc") ∷ normal (codes "sys") ∷ []

-- The loop over the components, which refuses the first that is not a name.
unfoldable pub only_names : FilePath → Result (Unit {0})
only_names [] = ok tt
only_names (normal s ∷ cs) = only_names cs
only_names (_ ∷ cs) = err (invalid "sysctl key resolves outside")

unfoldable pub resolve : Text → Result FilePath
unfolding only_names
resolve key = do
  guard (not (is_empty key)) (invalid "an empty sysctl key")
  let relative = components (replace b'.' (codes "/") key)
  only_names relative
  ok (FilePath.join base relative)

module _ (os : Os) where
  unfoldable pub apply : List (Text × Text) → Exec os.World (Unit {0})
  apply settings =
      for_each
        (λ (s : Text × Text) w.
          continue (lift (resolve s.0) w) (λ target. call os "write sysctl" (os.write target s.1)))
        settings

only_names-All_IsNormal : (cs : FilePath) → only_names cs ≡ ok tt → All IsNormal cs
unfolding only_names
only_names-All_IsNormal [] h = tt
only_names-All_IsNormal (normal s ∷ cs) h = (tt, only_names-All_IsNormal cs h)
only_names-All_IsNormal (root_dir ∷ cs) h = cc
only_names-All_IsNormal (cur_dir ∷ cs) h = cc
only_names-All_IsNormal (parent_dir ∷ cs) h = cc

join_of_names : (cs : FilePath) → All IsNormal cs → FilePath.join base cs ≡ base ++ cs
unfolding FilePath.join FilePath.is_absolute
join_of_names [] h = refl
join_of_names (normal s ∷ cs) h = refl
join_of_names (root_dir ∷ cs) h = absurd h.0
join_of_names (cur_dir ∷ cs) h = absurd h.0
join_of_names (parent_dir ∷ cs) h = absurd h.0

-- When a key resolves, it is not empty and the target is /proc/sys with the components of the key,
-- its dots made separators, below it, and all of these are ordinary names.
pub resolve-base :
    (key : Text) (target : FilePath)
    → resolve key ≡ ok target
    → (is_empty key ≡ false)
      × (target ≡ base ++ components (replace b'.' (codes "/") key))
      × All IsNormal (components (replace b'.' (codes "/") key))
unfolding resolve
resolve-base key target h =
    let relative = components (replace b'.' (codes "/") key) in
    let (_, given, h1) =
      >>=-eq-ok (guard (not (is_empty key)) (invalid "an empty sysctl key"))
        (λ _. only_names relative >> ok (FilePath.join base relative)) h in
    let (_, names, h2) =
      >>=-eq-ok (only_names relative) (λ _. ok (FilePath.join base relative)) h1 in
    let normals = only_names-All_IsNormal relative (cc names) in
    (ground arith, sym (ok-injective h2) ∙ join_of_names relative normals, normals)
