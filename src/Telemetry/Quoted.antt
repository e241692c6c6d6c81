-- ===== src/Telemetry/Quoted.antt =====
-- A value in the text of a trace is read back from it, and ends where it was meant to.
use marstack_container.Prelude.{
  ℕ, ◌≡◌, refl, ◌∙◌, ap, ◌==◌, ltb, ◌≤◌, ◌⊎◌, inl, inr, All, Option, none, some, [], ◌∷◌, ◌++◌,
  arith, append_assoc, if◌then◌else◌,
}
use marstack_container.Std.Text.{Text, codes}
use marstack_container.Telemetry.Payload.{escape}

-- A reader of a JSON string, after its opening quote: the value, and the text after the closing
-- quote. It refuses control characters that are not escaped, as JSON does. Of the escapes it knows
-- the three that are used.
unescaped : ℕ → Option ℕ
unescaped c =
    if c == b'n'
    then some 10
    else if c == b'"'
    then some b'"'
    else if c == b'\\'
    then some b'\\'
    else none

abbrev pub put_first : ℕ → Option (Text × Text) → Option (Text × Text)
put_first c none = none
put_first c (some (value, rest)) = some (c ∷ value, rest)

abbrev put_unescaped : Option ℕ → Option (Text × Text) → Option (Text × Text)
put_unescaped none read = none
put_unescaped (some c) read = put_first c read

unfoldable pub read_string : Text → Option (Text × Text)
unfolding unescaped
read_string [] = none
read_string (c ∷ []) = if c == b'"' then some ([], []) else none
read_string (c ∷ d ∷ cs) =
    let escaped = put_unescaped (unescaped d) (read_string cs) in
    let plain = if ltb c 32 then none else put_first c (read_string (d ∷ cs)) in
    if c == b'"' then some ([], d ∷ cs) else if c == b'\\' then escaped else plain

-- One character, escaped.
escaped_char : ℕ → Text
escaped_char c =
    if c == b'\\'
    then codes "\\\\"
    else if c == b'"'
    then codes "\\\""
    else if c == 10
    then codes "\\n"
    else c ∷ []

escape-cons : (c : ℕ) (cs : Text) → escape (c ∷ cs) ≡ escaped_char c ++ escape cs
unfolding escape escaped_char
escape-cons c cs = ground arith

-- A line feed, or a character that is no control character.
abbrev pub IsPlain : ℕ → Type 0
IsPlain c = (c ≡ 10) ⊎ (32 ≤ c)

read_string-char :
    (c : ℕ) (rest : Text) (d : ℕ) (cs : Text)
    → rest ≡ d ∷ cs
    → IsPlain c
    → read_string (escaped_char c ++ rest) ≡ put_first c (read_string rest)
unfolding read_string escaped_char
read_string-char c rest d cs e (inl feed) = rw (e, feed) (ground arith)
read_string-char c rest d cs e (inr shown) = rw e (ground arith)

append-cons : (xs : Text) (q : ℕ) (rest : Text) → (d : ℕ) × (cs : Text) × (xs ++ q ∷ rest ≡ d ∷ cs)
append-cons [] q rest = (q, rest, refl)
append-cons (x ∷ xs) q rest = (x, xs ++ q ∷ rest, refl)

-- A value whose only control characters are line feeds, escaped and followed by a quote, is read
-- back as it was by a reader that refuses control characters, and what follows the quote is left.
pub read_string-escape :
    (value rest : Text)
    → All IsPlain value
    → read_string (escape value ++ b'"' ∷ rest) ≡ some (value, rest)
unfolding read_string escape
read_string-escape [] [] h = refl
read_string-escape [] (d ∷ cs) h = refl
read_string-escape (c ∷ cs) rest (first, others) =
    let (d, ds, e) = append-cons (escape cs) b'"' rest in
    ap (λ t. read_string (t ++ b'"' ∷ rest)) (escape-cons c cs)
    ∙ ap read_string (append_assoc (escaped_char c) (escape cs) (b'"' ∷ rest))
    ∙ read_string-char c (escape cs ++ b'"' ∷ rest) d ds e first
    ∙ ap (put_first c) (read_string-escape cs rest others)
