-- ===== src/Std/Words.antt =====
-- Words written with a space before each are read back by `split_whitespace`.
use marstack_container.Prelude.{
  ◌≡◌, refl, Bool, true, false, List, [], ◌∷◌, ◌++◌, append-nil, arith, All, is_empty,
  if◌then◌else◌, Bool-cases, inl, inr,
}
use marstack_container.Std.Text.{Text, split_whitespace, words_onto, is_whitespace}

unfoldable pub spaced : List Text → Text
spaced [] = []
spaced (w ∷ ws) = b' ' ∷ (w ++ spaced ws)

-- Text with no white space.
abbrev pub is_solid : Text → Bool
is_solid [] = true
is_solid (c ∷ cs) = if is_whitespace c then false else is_solid cs

abbrev pub IsWord : Text → Type 0
IsWord w = (is_solid w ≡ true) × (is_empty w ≡ false)

words_onto-append :
    (w t : Text)
    → is_solid w ≡ true
    → words_onto (w ++ t) ≡ (w ++ (words_onto t).0, (words_onto t).1)
unfolding words_onto
words_onto-append [] t h = refl
words_onto-append (c ∷ cs) t h = elim (Bool-cases (is_whitespace c)) [
  | inl space ↦ cc (rw space at h)
  | inr solid ↦ rw (solid, words_onto-append cs t (rw solid at h))
]

space_is_whitespace : is_whitespace b' ' ≡ true
unfolding is_whitespace
space_is_whitespace = refl

words_onto-spaced : (ws : List Text) → All IsWord ws → words_onto (spaced ws) ≡ ([], ws)
unfolding words_onto spaced
words_onto-spaced [] h = refl
words_onto-spaced (w ∷ ws) h = ground (
  arith,
  words_onto-append w (spaced ws) h.0.0,
  words_onto-spaced ws h.1,
  append-nil w,
  space_is_whitespace,
)

pub split_whitespace-spaced : (ws : List Text) → All IsWord ws → split_whitespace (spaced ws) ≡ ws
unfolding split_whitespace
split_whitespace-spaced ws h = rw (words_onto-spaced ws h)
