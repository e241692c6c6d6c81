-- ===== src/Rootfs/Overlay/Fits.antt =====
-- The option string that is mounted: its length, and the directory its paths are relative to.
use marstack_container.Prelude.{
  ◌≡◌, inl, inr, refl, true, Bool-cases, Option-cases, append-nil, Option, none, some, List, [],
  ◌∷◌, ◌++◌, arith, All, ap, ◌∙◌, append_assoc, init,
}
use marstack_container.Std.Text.{Text}
use marstack_container.Std.FilePath.{
  FilePath, Component, root_dir, cur_dir, parent_dir, normal, components, parent, is_absolute,
  component_eq, eq_of_component_eq,
}
use marstack_container.Error.{ok}
use marstack_container.Rootfs.Overlay.{Layers, options}
use marstack_container.Rootfs.Overlay.Mount.{
  all_dirs, shared_prefix, shared_from, shared_of, absolute_only, common_parent, strip,
}

-- The path begins with the base.
abbrev pub Within : FilePath → FilePath → Type 0
Within base p = (rest : FilePath) × (p ≡ base ++ rest)

Within-trans : (a b p : FilePath) → Within a b → Within b p → Within a p
Within-trans a b p (q, e) (r, f) = (q ++ r, f ∙ ap (λ t. t ++ r) e ∙ append_assoc a q r)

-- The shared components begin both paths.
shared_prefix-Within :
    (a b : FilePath) → Within (shared_prefix a b) a × Within (shared_prefix a b) b
unfolding shared_prefix
shared_prefix-Within [] b = (([], refl), (b, refl))
shared_prefix-Within (c ∷ cs) [] = ((c ∷ cs, refl), ([], refl))
shared_prefix-Within (c ∷ cs) (d ∷ ds) =
    let ((p, e), (q, f)) = shared_prefix-Within cs ds in
    elim (Bool-cases (component_eq c d)) [
      | inl same ↦ rw same ((p, cc e), (q, cc (eq_of_component_eq c d same, f)))
      | inr other ↦ rw other ((c ∷ cs, refl), (d ∷ ds, refl))
    ]

init-Within : (c : Component) (cs : FilePath) → Within (init (c ∷ cs)) (c ∷ cs)
init-Within c [] = (c ∷ [], refl)
init-Within c (d ∷ ds) = let (rest, e) = init-Within d ds in (rest, ap (λ t. c ∷ t) e)

some-Within : {x q p : FilePath} → some x ≡ some q → Within x p → Within q p
some-Within h (rest, e) = (rest, ground arith)

parent-Within : (p q : FilePath) → parent p ≡ some q → Within q p
unfolding parent
parent-Within [] q h = cc
parent-Within (root_dir ∷ []) q h = cc
parent-Within (root_dir ∷ d ∷ ds) q h = some-Within h (init-Within root_dir (d ∷ ds))
parent-Within (cur_dir ∷ cs) q h = some-Within h (init-Within cur_dir cs)
parent-Within (parent_dir ∷ cs) q h = some-Within h (init-Within parent_dir cs)
parent-Within (normal s ∷ cs) q h = some-Within h (init-Within (normal s) cs)

-- The directory lies in the base.
abbrev pub Inside : FilePath → Text → Type 0
Inside base dir = Within base (components dir)

shared_from-Within :
    (shared base : FilePath) (dirs : List Text)
    → shared_from shared dirs ≡ some base
    → Within base shared × All (Inside base) dirs
unfolding shared_from
shared_from-Within shared base [] h = (([], ground (arith, append-nil base)), tt)
shared_from-Within shared base (dir ∷ dirs) h = elim (Option-cases (parent (components dir))) [
  | inl alone ↦ absurd (ground arith)
  | inr (candidate, found) ↦
      let (left, right) = shared_prefix-Within shared candidate in
      let (within, rest) =
        shared_from-Within (shared_prefix shared candidate) base dirs (ground arith) in
      let inside = Within-trans base (shared_prefix shared candidate) candidate within right in
      (
        Within-trans base (shared_prefix shared candidate) shared within left,
        (
          Within-trans base candidate (components dir) inside
              (parent-Within (components dir) candidate found),
          rest,
        ),
      )
]

shared_of-Inside :
    (base : FilePath) (dirs : List Text) → shared_of dirs ≡ some base → All (Inside base) dirs
unfolding shared_of
shared_of-Inside base [] h = tt
shared_of-Inside base (dir ∷ dirs) h = elim (Option-cases (parent (components dir))) [
  | inl alone ↦ absurd (ground arith)
  | inr (shared, found) ↦
      let (within, rest) = shared_from-Within shared base dirs (ground arith) in
      (
        Within-trans base shared (components dir) within
            (parent-Within (components dir) shared found),
        rest,
      )
]

absolute_only-eq :
    (o : Option FilePath) (base : FilePath)
    → absolute_only o ≡ some base
    → (o ≡ some base) × (is_absolute base ≡ true)
unfolding absolute_only
absolute_only-eq o base h = ground arith

-- A common parent that is found is absolute, and every directory of the layers lies in it.
pub common_parent-Inside :
    (l : Layers) (base : FilePath)
    → common_parent l ≡ some base
    → (is_absolute base ≡ true) × All (Inside base) (all_dirs l)
unfolding common_parent
common_parent-Inside l base h =
    let (found, absolute) = absolute_only-eq (shared_of (all_dirs l)) base h in
    (absolute, shared_of-Inside base (all_dirs l) found)

-- Each text is one of the directories without the base.
abbrev pub Stripped : FilePath → List Text → List Text → Type 0
Stripped base [] [] = Unit
Stripped base [] (t ∷ ts) = ⊥
Stripped base (d ∷ ds) [] = ⊥
Stripped base (d ∷ ds) (t ∷ ts) = (strip base d ≡ some t) × Stripped base ds ts

-- A directory that may be given: it is there without the base exactly if it was given.
abbrev pub StrippedOne : FilePath → Option Text → Option Text → Type 0
StrippedOne base none none = Unit
StrippedOne base none (some t) = ⊥
StrippedOne base (some d) none = ⊥
StrippedOne base (some d) (some t) = strip base d ≡ some t

-- The same layers, each of them without the base.
abbrev pub IsRelative : FilePath → Layers → Layers → Type 0
IsRelative base l r =
    Stripped base l.lower r.lower
    × StrippedOne base l.upper r.upper
    × StrippedOne base l.work r.work

-- What is mounted without a base, and from one.
abbrev pub Mounted : Layers → Text → Option FilePath → Type 0
Mounted l data_text none = options l ≡ ok data_text
Mounted l data_text (some base) =
    (relative : Layers) × IsRelative base l relative
    × (options relative ≡ ok data_text)
    × (is_absolute base ≡ true)
    × All (Inside base) (all_dirs l)
