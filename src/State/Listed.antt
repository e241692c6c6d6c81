-- ===== src/State/Listed.antt =====
-- state.rs: the containers that are listed: those whose state loads, by the time of their creation.
use marstack_container.Prelude.{
  ◌≡◌, ◌⊎◌, refl, sym, ◌==◌, ltb, ltb→lt, ◌<◌, ◌||◌, ◌&&◌, Bool, true, false, List, [], ◌∷◌, arith,
  Bool-cases, inl, inr, if◌then◌else◌,
}
use mathlib.Core.List.{Permᴰ}
use marstack_container.Std.Text.{Text}
use marstack_container.Std.Sort.{sort_onto, IsSorted, sort_onto-Permᴰ, sort_onto-IsSorted}
use marstack_container.Error.{Error, Result, ok, err, ok-injective}
use marstack_container.Os.{Os, Answer, done, failed, io_ctx}
use marstack_container.Paths.{Layout}
use marstack_container.State.{Container, Json, load}

-- `a <= b` of strings: by their bytes, which in UTF-8 is by their characters.
unfoldable pub text_leb : Text → Text → Bool
text_leb [] b = true
text_leb (x ∷ xs) [] = false
text_leb (x ∷ xs) (y ∷ ys) = ltb x y || x == y && text_leb xs ys

unfoldable pub by_creation : Container → Container → Bool
unfolding text_leb
by_creation a b = text_leb a.state.created b.state.created

module _ (os : Os) (js : Json) where
  -- The entries whose state loads; any other is passed over.
  unfoldable pub loaded : Layout → List Text → os.World → List Container
  loaded layout [] w = []
  loaded layout (id ∷ ids) w = elim (load os js layout id w) [
    | err e ↦ loaded layout ids w
    | ok c ↦ c ∷ loaded layout ids w
  ]

  -- There is none where there is no root.
  unfoldable pub list : Layout → os.World → Result (List Container)
  unfolding loaded sort_onto
  list layout w =
      if os.is_dir layout.root w
      then elim (io_ctx "read an entry" (os.read_dir layout.root w)) [
        | err e ↦ err e
        | ok names ↦ ok (sort_onto by_creation [] (loaded layout names w))
      ]
      else ok []

text_leb_total : (a b : Text) → text_leb a b ≡ false → text_leb b a ≡ true
unfolding text_leb
text_leb_total [] b h = absurd (cc h)
text_leb_total (x ∷ xs) [] h = refl
text_leb_total (x ∷ xs) (y ∷ ys) h = ground (arith, text_leb_total xs ys)

by_creation_total : (a b : Container) → by_creation a b ≡ false → by_creation b a ≡ true
unfolding by_creation
by_creation_total a b h = text_leb_total a.state.created b.state.created h

-- The order of texts by their characters: a text is before those that it begins.
abbrev pub Before : Text → Text → Type 0
Before [] b = Unit
Before (x ∷ xs) [] = ⊥
Before (x ∷ xs) (y ∷ ys) = (x < y) ⊎ ((x ≡ y) × Before xs ys)

text_leb-Before : (a b : Text) → text_leb a b ≡ true → Before a b
unfolding text_leb
text_leb-Before [] b h = tt
text_leb-Before (x ∷ xs) [] h = cc h
text_leb-Before (x ∷ xs) (y ∷ ys) h = elim (Bool-cases (ltb x y)) [
  | inl less ↦ inl (ltb→lt x y less)
  | inr more ↦ inr (ground arith, text_leb-Before xs ys (ground arith))
]

-- Each container was created no later than the next.
abbrev pub InOrder : List Container → Type 0
InOrder [] = Unit
InOrder (c ∷ []) = Unit
InOrder (c ∷ d ∷ ds) = Before c.state.created d.state.created × InOrder (d ∷ ds)

IsSorted-InOrder : (cs : List Container) → IsSorted by_creation cs → InOrder cs
unfolding IsSorted by_creation
IsSorted-InOrder [] h = tt
IsSorted-InOrder (c ∷ []) h = tt
IsSorted-InOrder (c ∷ d ∷ ds) (first, rest) =
    (text_leb-Before c.state.created d.state.created first, IsSorted-InOrder (d ∷ ds) rest)

module _ (os : Os) (js : Json) where
  -- The containers of names whose state loads, in the order of the names; a name whose state does
  -- not load has none.
  abbrev pub Gathered : Layout → os.World → List Text → List Container → Type 0
  Gathered layout w [] cs = cs ≡ []
  Gathered layout w (id ∷ ids) cs =
      ((c : Container) × (rest : List Container) × (load os js layout id w ≡ ok c)
        × (cs ≡ c ∷ rest)
        × Gathered layout w ids rest)
      ⊎ ((e : Error) × (load os js layout id w ≡ err e) × Gathered layout w ids cs)

  loaded-Gathered :
      (layout : Layout) (ids : List Text) (w : os.World)
      → Gathered layout w ids (loaded os js layout ids w)
  unfolding loaded
  loaded-Gathered layout [] w = refl
  loaded-Gathered layout (id ∷ ids) w =
      go (load os js layout id w) refl (loaded-Gathered layout ids w)
    where
      go :
          (r : Result Container)
          → load os js layout id w ≡ r
          → Gathered layout w ids (loaded os js layout ids w)
          → Gathered layout w (id ∷ ids) (loaded os js layout (id ∷ ids) w)
      go (ok c) e rest = inl (c, loaded os js layout ids w, e, rw (e, loaded) refl, rest)
      go (err f) e rest = inr (f, e, rw (e, loaded) rest)

  -- A listing of a root that is a directory has the containers of its entries whose state loads,
  -- each as often as it is an entry, from the earliest text of a creation's time to the latest, in
  -- the order of texts by their characters. A root that is no directory has none.
  pub list-IsSorted :
      (layout : Layout) (found : List Container) (w : os.World)
      → list os js layout w ≡ ok found
      → ((os.is_dir layout.root w ≡ false) × (found ≡ []))
        ⊎ ((names : List Text) × (os.is_dir layout.root w ≡ true)
            × (os.read_dir layout.root w ≡ done names)
            × InOrder found
            × (cs : List Container) × Gathered layout w names cs
            × Permᴰ cs found)
  unfolding list
  list-IsSorted layout found w h = elim (Bool-cases (os.is_dir layout.root w)) [
    | inr missing ↦ inl (missing, sym (ok-injective (rw missing at h)))
    | inl there ↦ go (os.read_dir layout.root w) refl there (rw there at h)
  ]
    where
      go :
          (a : Answer (List Text))
          → os.read_dir layout.root w ≡ a
          → os.is_dir layout.root w ≡ true
          → elim (io_ctx "read an entry" (os.read_dir layout.root w)) [
            | err e ↦ err e
            | ok names ↦ ok (sort_onto by_creation [] (loaded os js layout names w))
          ]
            ≡ ok found
          → ((os.is_dir layout.root w ≡ false) × (found ≡ []))
            ⊎ ((names : List Text) × (os.is_dir layout.root w ≡ true)
                × (os.read_dir layout.root w ≡ done names)
                × InOrder found
                × (cs : List Container) × Gathered layout w names cs
                × Permᴰ cs found)
      go (failed e) answered there k = absurd (cc (rw answered at k))
      go (done names) answered there k =
          let same = ok-injective (rw answered at k) in
          let sorted =
            sort_onto-IsSorted by_creation by_creation_total [] (loaded os js layout names w)
              (unfold IsSorted in tt) in
          let perm = sort_onto-Permᴰ by_creation [] (loaded os js layout names w) in
          inr (
            names,
            there,
            answered,
            rw same at
                (IsSorted-InOrder (sort_onto by_creation [] (loaded os js layout names w)) sorted),
            loaded os js layout names w,
            loaded-Gathered layout names w,
            rw same at perm,
          )
