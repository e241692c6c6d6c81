-- ===== src/Cgroup/Confined.antt =====
-- A cgroup made for a container lies below the mount point, and is found there again.
use marstack_container.Prelude.{
  ◌≡◌, refl, ◌≢◌, ◌∙◌, sym, ap, append_assoc, append-nil, Bool, true, false, Option, none, some, [],
  ◌∷◌, ◌++◌, arith, All,
}
use marstack_container.Std.Text.{Text, text_eq}
use marstack_container.Std.FilePath
use marstack_container.Std.FilePath.{
  IsNormal, FilePath, Component, root_dir, cur_dir, parent_dir, normal, components, starts_with,
  starts_with-append, join-normal, append-ne-nil,
}
use marstack_container.Error.{Result, ok, err}
use marstack_container.Exec.{bind-eq-ok}
use marstack_container.Os.{Os}
use marstack_container.Paths.{validate_id}
use marstack_container.Paths.Confined.{components-validate_id}
use marstack_container.Cgroup.V2.{
  Cgroup, mount_point, normalise, relative_path, attach, create, create_levels, make_level,
}

normalise-IsNormal : (p : FilePath) → All IsNormal (normalise p)
unfolding normalise
normalise-IsNormal [] = tt
normalise-IsNormal (normal s ∷ cs) = (tt, normalise-IsNormal cs)
normalise-IsNormal (root_dir ∷ cs) = normalise-IsNormal cs
normalise-IsNormal (cur_dir ∷ cs) = normalise-IsNormal cs
normalise-IsNormal (parent_dir ∷ cs) = normalise-IsNormal cs

join_of_normals :
    (base p : FilePath) → base ≢ [] → All IsNormal p → FilePath.join base p ≡ base ++ p
unfolding FilePath.join
join_of_normals [] p h n = absurd (h refl)
join_of_normals (b ∷ bs) [] h n = refl
join_of_normals (b ∷ bs) (normal s ∷ cs) h n = refl
join_of_normals (b ∷ bs) (root_dir ∷ cs) h n = absurd n.0
join_of_normals (b ∷ bs) (cur_dir ∷ cs) h n = absurd n.0
join_of_normals (b ∷ bs) (parent_dir ∷ cs) h n = absurd n.0

relative_path-IsNormal :
    (path : Option FilePath) (id : Text)
    → validate_id id ≡ ok tt
    → All IsNormal (relative_path path id)
unfolding relative_path components text_eq FilePath.join
relative_path-IsNormal none id h = rw (components-validate_id id h) (tt, (tt, tt))
relative_path-IsNormal (some []) id h = rw (components-validate_id id h) (tt, (tt, tt))
relative_path-IsNormal (some (c ∷ cs)) id h = normalise-IsNormal (c ∷ cs)

normalise_of_normals : (p : FilePath) → All IsNormal p → normalise p ≡ p
unfolding normalise
normalise_of_normals [] n = refl
normalise_of_normals (normal s ∷ cs) n = ap (λ r. normal s ∷ r) (normalise_of_normals cs n.1)
normalise_of_normals (root_dir ∷ cs) n = absurd n.0
normalise_of_normals (cur_dir ∷ cs) n = absurd n.0
normalise_of_normals (parent_dir ∷ cs) n = absurd n.0

-- The levels that are created are the named components, in order.
create_levels-path :
    (os : Os) (current parts : FilePath) (w : os.World) {path : FilePath} {w' : os.World}
    → current ≢ []
    → create_levels os current parts w ≡ (ok path, w')
    → path ≡ current ++ normalise parts
unfolding create_levels normalise
create_levels-path os current [] w ne h = cc (append-nil current)
create_levels-path os current (normal s ∷ parts) w ne h =
    let next = FilePath.join current (normal s ∷ []) in
    let (_, v, _, rest) =
      bind-eq-ok (make_level os current next) (λ _. create_levels os next parts) w h in
    let e : next ≡ current ++ normal s ∷ [] = join-normal current s ne in
    create_levels-path os next parts v (λ p. append-ne-nil current (normal s) (sym e ∙ p)) rest
    ∙ ap (λ (q : FilePath). q ++ normalise parts) e
    ∙ append_assoc current (normal s ∷ []) (normalise parts)
create_levels-path os current (root_dir ∷ parts) w ne h = create_levels-path os current parts w ne h
create_levels-path os current (cur_dir ∷ parts) w ne h = create_levels-path os current parts w ne h
create_levels-path os current (parent_dir ∷ parts) w ne h =
    create_levels-path os current parts w ne h

create-levels :
    (os : Os) (relative : FilePath) (w : os.World) {cg : Cgroup} {w' : os.World}
    → create os relative w ≡ (ok cg, w')
    → (p : FilePath) × (v : os.World) × (create_levels os mount_point relative w ≡ (ok p, v))
      × (cg ≡ record { path = p; relative = relative })
unfolding create
create-levels os relative w {cg} {w'} h =
    go (os.cgroup2_mounted w) refl (create_levels os mount_point relative w) refl
  where
    go :
        (b : Bool)
        → os.cgroup2_mounted w ≡ b
        → (r : Result FilePath × os.World) → create_levels os mount_point relative w ≡ r
        → (p : FilePath) × (v : os.World) × (create_levels os mount_point relative w ≡ (ok p, v))
          × (cg ≡ record { path = p; relative = relative })
    go false e r er = ground arith
    go true e (err x, v) er = ground arith
    go true e (ok p, v) er = (p, v, er, ground arith)

-- Whatever cgroupsPath is given, with a validated id, a creation that succeeds makes the mount
-- point with the named components of the path below it, and a later attach by the stored relative
-- path finds the same cgroup.
pub create-confined :
    (os : Os) (path : Option FilePath) (id : Text) (w : os.World) {cg : Cgroup} {w' : os.World}
    → validate_id id ≡ ok tt
    → create os (relative_path path id) w ≡ (ok cg, w')
    → (starts_with cg.path mount_point ≡ true)
      × (cg.path ≡ mount_point ++ relative_path path id)
      × All IsNormal (relative_path path id)
      × (attach cg.relative ≡ cg)
unfolding create attach
create-confined os path id w {cg} valid h =
    let relative = relative_path path id in
    let normals = relative_path-IsNormal path id valid in
    let (p, v, made, e) = create-levels os relative w h in
    let below : p ≡ mount_point ++ relative =
      create_levels-path os mount_point relative w (λ e. cc e) made
      ∙ ap (λ (q : FilePath). mount_point ++ q) (normalise_of_normals relative normals) in
    let placed : cg.path ≡ mount_point ++ relative = ap (λ (c : Cgroup). c.path) e ∙ below in
    let found : FilePath.join mount_point relative ≡ p =
      join_of_normals mount_point relative (λ e. cc e) normals ∙ sym below in
    (
      rw placed (starts_with-append mount_point relative),
      placed,
      normals,
      rw e (λ i. record { path = found i; relative = relative }),
    )
