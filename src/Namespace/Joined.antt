-- ===== src/Namespace/Joined.antt =====
-- What is joined, in which order, and what is made.
use marstack_container.Prelude.{
  refl, leb, ◌≤◌, ◌≡◌, ◌∙◌, ap, Bool, true, false, ◌||◌, none, some, Option-cases, List, [], ◌∷◌,
  ◌++◌, arith, is_empty, All, Bool-cases, inl, inr, if◌then◌else◌, append_assoc, append-nil,
}
use mathlib.Core.List.{Permᴰ}
use mathlib.Core.List.Permᴰ as Permᴰ
use marstack_container.Std.FilePath.{FilePath}
use marstack_container.Error.{ok}
use marstack_container.Os.{Os}
use marstack_container.Spec.{Namespace, NamespaceType}
use marstack_container.Bundle.Validate.{namespace_type_eq}
use marstack_container.Namespace.{
  CloneFlags, Join, Layout, rank, insert, sort_onto, with_flag, layout_from, layout,
}

-- Each entry's rank is at most that of the next.
unfoldable pub Ordered : List Join → Type 0
Ordered [] = Unit
Ordered (x ∷ []) = Unit
Ordered (x ∷ y ∷ ys) = (rank x.0 ≤ rank y.0) × Ordered (y ∷ ys)

insert-Ordered : (x : Join) (ys : List Join) → Ordered ys → Ordered (insert x ys)
unfolding insert Ordered
insert-Ordered x [] h = tt
insert-Ordered x (y ∷ []) h = ground arith
insert-Ordered x (y ∷ z ∷ zs) h = ground (arith, insert-Ordered x (z ∷ zs))

sort_onto-Ordered : (sorted xs : List Join) → Ordered sorted → Ordered (sort_onto sorted xs)
unfolding sort_onto
sort_onto-Ordered sorted [] h = h
sort_onto-Ordered sorted (x ∷ xs) h =
    sort_onto-Ordered (insert x sorted) xs (insert-Ordered x sorted h)

insert-Permᴰ : (x : Join) (ys : List Join) → Permᴰ (x ∷ ys) (insert x ys)
unfolding insert
insert-Permᴰ x [] = Permᴰ.refl (x ∷ [])
insert-Permᴰ x (y ∷ ys) = elim (Bool-cases (leb (rank y.0) (rank x.0))) [
  | inl after ↦ rw after (Permᴰ.trans (Permᴰ.swap refl refl) (Permᴰ.cons refl (insert-Permᴰ x ys)))
  | inr before ↦ rw before (Permᴰ.refl (x ∷ y ∷ ys))
]

sort_onto-Permᴰ : (sorted xs : List Join) → Permᴰ (sorted ++ xs) (sort_onto sorted xs)
unfolding sort_onto
sort_onto-Permᴰ sorted [] = rw (append-nil sorted) (Permᴰ.refl sorted)
sort_onto-Permᴰ sorted (x ∷ xs) = Permᴰ.trans (Permᴰ.middle x sorted xs) (
    Permᴰ.trans (Permᴰ.append_right xs (insert-Permᴰ x sorted))
      (sort_onto-Permᴰ (insert x sorted) xs))

-- The namespaces of a bundle that name a path, and those that do not.
unfoldable pub joins : List Namespace → List Join
joins [] = []
joins (n ∷ ns) = elim n.path [
  | none ↦ joins ns
  | some p ↦ if is_empty p then joins ns else (n.typ, p) ∷ joins ns
]

unfoldable pub creates : NamespaceType → List Namespace → Bool
creates k [] = false
creates k (n ∷ ns) = elim n.path [
  | none ↦ namespace_type_eq k n.typ || creates k ns
  | some p ↦ if is_empty p then namespace_type_eq k n.typ || creates k ns else creates k ns
]

joins-made : (n : Namespace) (ns : List Namespace) → n.path ≡ none → joins (n ∷ ns) ≡ joins ns
unfolding joins
joins-made n ns h = ground arith

joins-empty :
    (n : Namespace) (ns : List Namespace) (p : FilePath)
    → n.path ≡ some p
    → joins (n ∷ ns) ≡ (if is_empty p then joins ns else (n.typ, p) ∷ joins ns)
unfolding joins
joins-empty n ns p h = ground arith

creates-made :
    (n : Namespace) (ns : List Namespace) (k : NamespaceType)
    → n.path ≡ none
    → creates k (n ∷ ns) ≡ (namespace_type_eq k n.typ || creates k ns)
unfolding creates
creates-made n ns k h = ground arith

creates-empty :
    (n : Namespace) (ns : List Namespace) (k : NamespaceType) (p : FilePath)
    → n.path ≡ some p
    → creates k (n ∷ ns)
      ≡ (if is_empty p then namespace_type_eq k n.typ || creates k ns else creates k ns)
unfolding creates
creates-empty n ns k p h = ground arith

module _ (os : Os) (w : os.World) where
  abbrev Parts : CloneFlags → List Join → List Namespace → Layout → Type 0
  Parts create join ns l =
      (l.join ≡ sort_onto [] (join ++ joins ns))
      × ((k : NamespaceType) → l.create k ≡ (create k || creates k ns))
      × All (λ (j : Join). os.exists j.1 w ≡ true) (joins ns)

  made-Parts :
      (create : CloneFlags) (join : List Join) (n : Namespace) (ns : List Namespace) (l : Layout)
      → joins (n ∷ ns) ≡ joins ns
      → ((k : NamespaceType) → creates k (n ∷ ns) ≡ (namespace_type_eq k n.typ || creates k ns))
      → Parts (with_flag n.typ create) join ns l
      → Parts create join (n ∷ ns) l
  unfolding with_flag
  made-Parts create join n ns l ej ec (a, b, c) =
      (rw ej a, (λ k. ground (arith, ec k, b k)), rw ej c)

  joined-Parts :
      (create : CloneFlags) (join : List Join) (n : Namespace) (ns : List Namespace) (l : Layout)
      (p : FilePath)
      → joins (n ∷ ns) ≡ (n.typ, p) ∷ joins ns
      → ((k : NamespaceType) → creates k (n ∷ ns) ≡ creates k ns)
      → os.exists p w ≡ true
      → Parts create (join ++ (n.typ, p) ∷ []) ns l
      → Parts create join (n ∷ ns) l
  joined-Parts create join n ns l p ej ec there (a, b, c) = (
    rw ej (a ∙ ap (sort_onto []) (append_assoc join ((n.typ, p) ∷ []) (joins ns))),
    (λ k. rw (ec k) (b k)),
    rw ej (there, c),
  )

  layout_from-Parts :
      (create : CloneFlags) (join : List Join) (ns : List Namespace) (l : Layout)
      → layout_from os create join ns w ≡ ok l
      → Parts create join ns l
  unfolding layout_from
  layout_from-Parts create join [] l h = (
    unfold joins in ground (arith, append-nil join),
    (λ k. unfold creates in ground arith),
    unfold joins in tt,
  )
  layout_from-Parts create join (n ∷ ns) l h = elim (Option-cases n.path) [
    | inl absent ↦
        made-Parts create join n ns l (joins-made n ns absent) (λ k. creates-made n ns k absent)
          (layout_from-Parts (with_flag n.typ create) join ns l (ground arith))
    | inr (p, given) ↦ elim (Bool-cases (is_empty p)) [
      | inl empty ↦
          made-Parts create join n ns l (rw empty at (joins-empty n ns p given))
            (λ k. rw empty at (creates-empty n ns k p given))
            (layout_from-Parts (with_flag n.typ create) join ns l (ground arith))
      | inr named ↦
          joined-Parts create join n ns l p (rw named at (joins-empty n ns p given))
            (λ k. rw named at (creates-empty n ns k p given)) (ground arith)
            (layout_from-Parts create (join ++ (n.typ, p) ∷ []) ns l (ground arith))
    ]
  ]

  -- When a layout is returned, its joins are a permutation of the entries with a path that is not
  -- empty, each with a rank at most that of the next; all these paths exist; and the flags made are
  -- those of the entries without such a path.
  pub layout-parts :
      (ns : List Namespace) (l : Layout)
      → layout os ns w ≡ ok l
      → Permᴰ (joins ns) l.join
        × Ordered l.join
        × ((k : NamespaceType) → l.create k ≡ creates k ns)
        × All (λ (j : Join). os.exists j.1 w ≡ true) (joins ns)
  unfolding layout
  layout-parts ns l h =
      let (a, b, c) = layout_from-Parts (λ k. false) [] ns l h in
      (
        rw a (sort_onto-Permᴰ [] (joins ns)),
        rw a (sort_onto-Ordered [] (joins ns) (unfold Ordered in tt)),
        b,
        c,
      )
