-- ===== src/State/StartTime.antt =====
-- state.rs: the start time in the text of /proc/<pid>/stat.
use marstack_container.Prelude.{
  ℕ, ◌≡◌, refl, false, Option, none, some, List, [], ◌∷◌, ◌++◌, arith, ◌==◌, if◌then◌else◌,
  get_elem?, All, ◌||◌, ◌<◌,
}
use marstack_container.Std.Text.{Text, codes, split_whitespace, contains}
use marstack_container.Std.Decimal.{parse_unsigned, u64_bound, to_string, parse_unsigned-to_string}
use marstack_container.Std.Words.{spaced, IsWord, split_whitespace-spaced}

-- `&s[s.rfind(c)? + 1..]`.
unfoldable pub after_last : ℕ → Text → Option Text
after_last c [] = none
after_last c (x ∷ xs) = elim (after_last c xs) [
  | some t ↦ some t
  | none ↦ if x == c then some xs else none
]

-- `tail.split_whitespace().nth(19)?.parse().ok()`.
unfoldable pub start_field : Text → Option ℕ
start_field tail = elim (get_elem? (split_whitespace tail) 19) [
  | none ↦ none
  | some word ↦ parse_unsigned u64_bound word
]

-- Field 22 of the line: the twentieth word after the command name, which ends at the last `)`.
unfoldable pub parse_start_time : Text → Option ℕ
unfolding after_last start_field
parse_start_time stat = elim (after_last b')' stat) [ none ↦ none | some tail ↦ start_field tail ]

after_last-absent : (c : ℕ) (s : Text) → contains c s ≡ false → after_last c s ≡ none
unfolding after_last contains
after_last-absent c [] h = refl
after_last-absent c (x ∷ xs) h = ground (arith, after_last-absent c xs)

after_last-append : (c : ℕ) (s t : Text) → contains c t ≡ false → after_last c (s ++ c ∷ t) ≡ some t
unfolding after_last
after_last-append c [] t h = rw (after_last-absent c t h) (ground arith)
after_last-append c (x ∷ xs) t h = rw (after_last-append c xs t h)

contains-append : (c : ℕ) (s t : Text) → contains c (s ++ t) ≡ (contains c s || contains c t)
unfolding contains
contains-append c [] t = refl
contains-append c (x ∷ xs) t = ground (arith, contains-append c xs t)

contains-spaced :
    (c : ℕ) (ws : List Text)
    → (c == b' ') ≡ false
    → All (λ w. contains c w ≡ false) ws
    → contains c (spaced ws) ≡ false
unfolding contains spaced
contains-spaced c [] n h = refl
contains-spaced c (w ∷ ws) n h =
    ground (arith, contains-append c w (spaced ws), contains-spaced c ws n h.1)

-- A line of /proc/<pid>/stat: the pid, the command in parentheses, and the other fields.
abbrev pub stat_line : Text → Text → List Text → Text
stat_line pid command fields = pid ++ (codes " (" ++ command) ++ b')' ∷ spaced fields

-- In a stat line whose later fields are words without a closing parenthesis and whose twentieth
-- field after the command prints a number below 2^64, the start time is that number, whatever the
-- command is called.
parse_start_time-stat_line :
    (pid command : Text) (fields : List Text) (n : ℕ)
    → All IsWord fields
    → All (λ f. contains b')' f ≡ false) fields
    → get_elem? fields 19 ≡ some (to_string n)
    → n < u64_bound
    → parse_start_time (stat_line pid command fields) ≡ some n
unfolding parse_start_time
parse_start_time-stat_line pid command fields n words plain field bound = ground (
  arith,
  after_last-append b')' (pid ++ (codes " (" ++ command)) (spaced fields)
      (contains-spaced b')' fields refl plain),
  split_whitespace-spaced fields words,
  parse_unsigned-to_string n u64_bound bound,
)
