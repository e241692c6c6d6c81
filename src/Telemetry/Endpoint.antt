-- ===== src/Telemetry/Endpoint.antt =====
-- telemetry.rs: where a trace is sent.
use marstack_container.Prelude.{
  ℕ, zero, suc, ◌≡◌, ap, inl, inr, refl, ◌==◌, true, false, Option, none, some, [], ◌∷◌, ◌++◌,
  arith, is_empty, length, if◌then◌else◌, Bool-cases,
}
use marstack_container.Std.Text.{Text, codes, contains, strip_prefix, trim}
use marstack_container.Error.{Result, ok, err, invalid, ok-injective}

-- `s.trim_start_matches(prefix)`: every copy of the prefix goes. A prefix that is not empty is there
-- no more often than the text has characters.
unfoldable pub trim_matches : ℕ → Text → Text → Text
trim_matches zero prefix s = s
trim_matches (suc fuel) prefix s = elim (strip_prefix prefix s) [
  | none ↦ s
  | some rest ↦ trim_matches fuel prefix rest
]

unfoldable pub trim_start_matches : Text → Text → Text
unfolding trim_matches
trim_start_matches prefix s = trim_matches (length s) prefix s

-- The text before the first slash, and from it on.
unfoldable pub at_slash : Text → Text × Option Text
at_slash [] = ([], none)
at_slash (c ∷ cs) =
    let (before, path) = at_slash cs in
    if c == b'/' then ([], some (c ∷ cs)) else (c ∷ before, path)

abbrev pub or_default : Option Text → Text
or_default none = codes "/v1/traces"
or_default (some path) = path

unfoldable pub with_port : Text → Text
with_port authority = if contains b':' authority then authority else authority ++ codes ":4318"

unfoldable pub split_endpoint : Text → Result (Text × Text)
unfolding trim_start_matches at_slash with_port
split_endpoint endpoint =
    let trimmed =
      trim_start_matches (codes "https://")
        (trim_start_matches (codes "http://") (trim endpoint)) in
    let (authority, path) = at_slash trimmed in
    if is_empty authority
    then err (invalid "has no host; expected something like localhost:4318")
    else ok (with_port authority, or_default path)

-- `endpoint`: the explicit one, or that of the environment, if it is not blank.
unfoldable pub chosen : Option Text → Option Text → Option Text
chosen (some e) environment = some e
chosen none environment = environment

unfoldable pub endpoint : Option Text → Option Text → Option Text
unfolding chosen
endpoint explicit environment = elim (chosen explicit environment) [
  | none ↦ none
  | some value ↦ if is_empty (trim value) then none else some value
]

contains-append :
    (c : ℕ) (s t : Text) → contains c s ≡ false → contains c t ≡ false → contains c (s ++ t) ≡ false
unfolding contains
contains-append c [] t h k = k
contains-append c (x ∷ xs) t h k = ground (arith, contains-append c xs t)

contains-append_right : (c : ℕ) (s t : Text) → contains c t ≡ true → contains c (s ++ t) ≡ true
unfolding contains
contains-append_right c [] t k = k
contains-append_right c (x ∷ xs) t k = ground (arith, contains-append_right c xs t k)

-- A path starts with a slash.
abbrev pub StartsWithSlash : Text → Type 0
StartsWithSlash path = (rest : Text) × (path ≡ b'/' ∷ rest)

at_slash-parts :
    (s : Text)
    → (contains b'/' (at_slash s).0 ≡ false) × StartsWithSlash (or_default (at_slash s).1)
unfolding at_slash contains
at_slash-parts [] = (refl, (codes "v1/traces", refl))
at_slash-parts (c ∷ cs) = elim (Bool-cases (c == b'/')) [
  | inl slash ↦ rw slash (refl, (cs, ground arith))
  | inr other ↦ let (plain, starts) = at_slash-parts cs in rw other (ground arith, starts)
]

with_port-parts :
    (authority : Text)
    → contains b'/' authority ≡ false
    → (contains b'/' (with_port authority) ≡ false) × (contains b':' (with_port authority) ≡ true)
unfolding with_port
with_port-parts authority h = elim (Bool-cases (contains b':' authority)) [
  | inl given ↦ rw given (h, given)
  | inr missing ↦ rw missing (
    contains-append b'/' authority (codes ":4318") h (unfold contains in refl),
    contains-append_right b':' authority (codes ":4318") (unfold contains in refl),
  )
]

-- An endpoint that is accepted is split in a host with a port, in which there is no slash, and a
-- path that starts with one.
pub split_endpoint-parts :
    (text authority path : Text)
    → split_endpoint text ≡ ok (authority, path)
    → (contains b'/' authority ≡ false) × (contains b':' authority ≡ true) × StartsWithSlash path
unfolding split_endpoint
split_endpoint-parts text authority path h =
    let trimmed =
      trim_start_matches (codes "https://") (trim_start_matches (codes "http://") (trim text)) in
    let (plain, starts) = at_slash-parts trimmed in
    let (whole, port) = with_port-parts (at_slash trimmed).0 plain in
    elim (Bool-cases (is_empty (at_slash trimmed).0)) [
      | inl blank ↦ absurd (cc (rw blank at h))
      | inr given ↦
          let same = ok-injective (rw given at h) in
          let host = ap (λ (p : Text × Text). p.0) same in
          let end = ap (λ (p : Text × Text). p.1) same in
          (rw host at whole, rw host at port, rw end at starts)
    ]
