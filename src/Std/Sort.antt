-- ===== src/Std/Sort.antt =====
-- `slice::sort_by`, which is stable, by an order that is a Boolean test.
use marstack_container.Prelude.{
  ◌≡◌, refl, Bool, true, false, List, [], ◌∷◌, ◌++◌, arith, Bool-cases, inl, inr, append-nil,
  if◌then◌else◌,
}
use mathlib.Core.List.{Permᴰ}
use mathlib.Core.List.Permᴰ as Permᴰ

module _ {A : Type 0} (le : A → A → Bool) where
  -- Before the first that comes after it, and after those that are equal.
  unfoldable pub insert : A → List A → List A
  insert x [] = x ∷ []
  insert x (y ∷ ys) = let rest = insert x ys in if le y x then y ∷ rest else x ∷ y ∷ ys

  unfoldable pub sort_onto : List A → List A → List A
  unfolding insert
  sort_onto sorted [] = sorted
  sort_onto sorted (x ∷ xs) = sort_onto (insert x sorted) xs

  -- Each element may stand before the next.
  unfoldable pub IsSorted : List A → Type 0
  IsSorted [] = Unit
  IsSorted (x ∷ []) = Unit
  IsSorted (x ∷ y ∷ ys) = (le x y ≡ true) × IsSorted (y ∷ ys)

  below-insert :
      (d c e : A) (es : List A)
      → le d c ≡ true
      → le d e ≡ true
      → IsSorted (insert c (e ∷ es))
      → IsSorted (d ∷ insert c (e ∷ es))
  unfolding insert IsSorted
  below-insert d c e es p q r = elim (Bool-cases (le e c)) [
    | inl after ↦ ground (arith, after, p, q, r)
    | inr before ↦ ground (arith, before, p, q, r)
  ]

  insert-Permᴰ : (x : A) (ys : List A) → Permᴰ (x ∷ ys) (insert x ys)
  unfolding insert
  insert-Permᴰ x [] = Permᴰ.refl (x ∷ [])
  insert-Permᴰ x (y ∷ ys) = elim (Bool-cases (le y x)) [
    | inl after ↦
        rw after (Permᴰ.trans (Permᴰ.swap refl refl) (Permᴰ.cons refl (insert-Permᴰ x ys)))
    | inr before ↦ rw before (Permᴰ.refl (x ∷ y ∷ ys))
  ]

  pub sort_onto-Permᴰ : (sorted xs : List A) → Permᴰ (sorted ++ xs) (sort_onto sorted xs)
  unfolding sort_onto
  sort_onto-Permᴰ sorted [] = rw (append-nil sorted) (Permᴰ.refl sorted)
  sort_onto-Permᴰ sorted (x ∷ xs) = Permᴰ.trans (Permᴰ.middle x sorted xs) (
      Permᴰ.trans (Permᴰ.append_right xs (insert-Permᴰ x sorted))
        (sort_onto-Permᴰ (insert x sorted) xs))

  module _ (total : (x y : A) → le x y ≡ false → le y x ≡ true) where
    insert-IsSorted : (x : A) (ys : List A) → IsSorted ys → IsSorted (insert x ys)
    unfolding insert IsSorted
    insert-IsSorted x [] h = tt
    insert-IsSorted x (y ∷ []) h = elim (Bool-cases (le y x)) [
      | inl after ↦ rw after (after, tt)
      | inr before ↦ rw before (total y x before, tt)
    ]
    insert-IsSorted x (y ∷ z ∷ zs) h = elim (Bool-cases (le y x)) [
      | inl after ↦ rw after (below-insert y x z zs after h.0 (insert-IsSorted x (z ∷ zs) h.1))
      | inr before ↦ rw before (total y x before, h)
    ]

    pub sort_onto-IsSorted : (sorted xs : List A) → IsSorted sorted → IsSorted (sort_onto sorted xs)
    unfolding sort_onto
    sort_onto-IsSorted sorted [] h = h
    sort_onto-IsSorted sorted (x ∷ xs) h =
        sort_onto-IsSorted (insert x sorted) xs (insert-IsSorted x sorted h)
