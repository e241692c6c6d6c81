-- ===== src/Std/Text.antt =====
-- `str` and `String` as lists of code points, with the methods of `str` that the program calls.
use Prim.Native.Char.{code}
use Prim.Native.String.{String}
use marstack_container.Prelude.{
  ℕ, ◌-◌, ◌≡◌, refl, ◌≢◌, ◌↔◌, Bool, true, false, ◌&&◌, ◌||◌, Option, none, some, List, [], ◌∷◌,
  ◌++◌, arith, leb, ◌==◌, if◌then◌else◌, is_empty,
}

abbrev pub Text : Type 0
Text = List ℕ

-- A literal. `String` has its own `[]` and `∷`.
abbrev pub codes : String → Text
codes String.[] = []
codes (String.◌∷◌ c s) = code c ∷ codes s

unfoldable pub text_eq : Text → Text → Bool
text_eq [] [] = true
text_eq [] (y ∷ ys) = false
text_eq (x ∷ xs) [] = false
text_eq (x ∷ xs) (y ∷ ys) = x == y && text_eq xs ys

pub text_eq_self : (s : Text) → text_eq s s ≡ true
unfolding text_eq
text_eq_self [] = refl
text_eq_self (x ∷ xs) = ground (arith, text_eq_self xs)

pub eq_of_text_eq : (s t : Text) → text_eq s t ≡ true → s ≡ t
unfolding text_eq
eq_of_text_eq [] [] h = refl
eq_of_text_eq [] (y ∷ ys) h = cc
eq_of_text_eq (x ∷ xs) [] h = cc
eq_of_text_eq (x ∷ xs) (y ∷ ys) h = ground (arith, eq_of_text_eq xs ys)

pub text_eq_iff : (s t : Text) → (text_eq s t ≡ true) ↔ (s ≡ t)
text_eq_iff s t = (eq_of_text_eq s t, λ e. rw e (text_eq_self t))

pub text_eq-false : (s t : Text) → s ≢ t → text_eq s t ≡ false
text_eq-false s t h = go (text_eq s t) refl
  where
    go : (b : Bool) → text_eq s t ≡ b → b ≡ false
    go true e = absurd (h (eq_of_text_eq s t e))
    go false e = refl

-- `s.contains(c)`.
unfoldable pub contains : ℕ → Text → Bool
contains c [] = false
contains c (x ∷ xs) = x == c || contains c xs

-- `s.strip_prefix(p)`.
unfoldable pub strip_prefix : Text → Text → Option Text
strip_prefix [] s = some s
strip_prefix (p ∷ ps) [] = none
strip_prefix (p ∷ ps) (x ∷ xs) = let rest = strip_prefix ps xs in if p == x then rest else none

-- The first piece of `s.split(c)` and the pieces after it.
unfoldable pub split_onto : ℕ → Text → Text × List Text
split_onto c [] = ([], [])
split_onto c (x ∷ xs) =
    let (piece, rest) = split_onto c xs in if x == c then ([], piece ∷ rest) else (x ∷ piece, rest)

-- `s.split(c)`, which has at least one piece.
unfoldable pub split : ℕ → Text → List Text
unfolding split_onto
split c s = let (piece, rest) = split_onto c s in piece ∷ rest

-- `pieces.join(sep)`.
unfoldable pub join : Text → List Text → Text
join sep [] = []
join sep (p ∷ []) = p
join sep (p ∷ q ∷ ps) = p ++ (sep ++ join sep (q ∷ ps))

-- The Unicode property White_Space.
unfoldable pub is_whitespace : ℕ → Bool
is_whitespace c =
    leb 9 c && leb c 13
    || c == 32
    || c == 0x85
    || c == 0xa0
    || c == 0x1680
    || leb 0x2000 c && leb c 0x200a
    || c == 0x2028
    || c == 0x2029
    || c == 0x202f
    || c == 0x205f
    || c == 0x3000

-- The word that `s` begins with, and the words after it.
unfoldable pub words_onto : Text → Text × List Text
words_onto [] = ([], [])
words_onto (x ∷ xs) =
    let (word, rest) = words_onto xs in
    if is_whitespace x then ([], if is_empty word then rest else word ∷ rest) else (x ∷ word, rest)

-- `s.split_whitespace()`.
unfoldable pub split_whitespace : Text → List Text
unfolding words_onto
split_whitespace s = let (word, rest) = words_onto s in if is_empty word then rest else word ∷ rest

-- `s.trim_start()`.
unfoldable pub trim_start : Text → Text
trim_start [] = []
trim_start (x ∷ xs) = let rest = trim_start xs in if is_whitespace x then rest else x ∷ xs

-- `s.trim_end()`: a space stays if something stays after it.
unfoldable pub trim_end : Text → Text
trim_end [] = []
trim_end (x ∷ xs) =
    let rest = trim_end xs in if is_empty rest && is_whitespace x then [] else x ∷ rest

-- `s.trim()`.
unfoldable pub trim : Text → Text
unfolding trim_start trim_end
trim s = trim_end (trim_start s)

-- A line without the carriage return before its line feed.
unfoldable pub strip_return : Text → Text
strip_return [] = []
strip_return (x ∷ []) = if x == 13 then [] else x ∷ []
strip_return (x ∷ y ∷ xs) = x ∷ strip_return (y ∷ xs)

-- The pieces between line feeds as lines: a last empty piece is none.
unfoldable pub lines_of : List Text → List Text
unfolding strip_return
lines_of [] = []
lines_of (p ∷ []) = if is_empty p then [] else p ∷ []
lines_of (p ∷ q ∷ ps) = strip_return p ∷ lines_of (q ∷ ps)

-- `s.lines()`.
unfoldable pub lines : Text → List Text
unfolding split lines_of
lines s = lines_of (split 10 s)

-- `to_ascii_uppercase` of one character.
unfoldable pub to_ascii_uppercase : ℕ → ℕ
to_ascii_uppercase c = if leb b'a' c && leb c b'z' then c - 32 else c

-- `c.is_ascii_alphanumeric()`.
unfoldable pub is_ascii_alphanumeric : ℕ → Bool
is_ascii_alphanumeric c =
    leb b'0' c && leb c b'9' || leb b'A' c && leb c b'Z' || leb b'a' c && leb c b'z'
