-- ===== src/Std/Map.antt =====
-- `HashMap` with text keys as an association list, the newest entry first. Nothing here depends on
-- the order of iteration.
use marstack_container.Prelude.{◌≡◌, refl, Option, none, some, List, [], ◌∷◌, ◌++◌, if◌then◌else◌}
use marstack_container.Std.Text.{Text, text_eq}

abbrev pub Map {ℓ} : Type ℓ → Type ℓ
Map V = List (Text × V)

module _ {ℓ} {V : Type ℓ} where
  unfoldable pub get : Text → Map V → Option V
  get k [] = none
  get k ((j, v) ∷ m) = if text_eq j k then some v else get k m

  -- The pairs of an iterator inserted in turn.
  unfoldable pub collect_onto : Map V → List (Text × V) → Map V
  collect_onto m [] = m
  collect_onto m (p ∷ ps) = collect_onto (p ∷ m) ps

  -- `iter.collect::<HashMap<_, _>>()`: a later pair replaces an earlier one.
  unfoldable pub collect : List (Text × V) → Map V
  unfolding collect_onto
  collect ps = collect_onto [] ps

  collect_onto-append :
      (m : Map V) (ps qs : List (Text × V))
      → collect_onto m (ps ++ qs) ≡ collect_onto (collect_onto m ps) qs
  unfolding collect_onto
  collect_onto-append m [] qs = refl
  collect_onto-append m (p ∷ ps) qs = collect_onto-append (p ∷ m) ps qs

  -- The last pair decides.
  pub get-collect_last :
      (k j : Text) (v : V) (ps : List (Text × V))
      → get k (collect (ps ++ (j, v) ∷ [])) ≡ (if text_eq j k then some v else get k (collect ps))
  unfolding collect get
  get-collect_last k j v ps = rw (collect_onto-append [] ps ((j, v) ∷ []))
