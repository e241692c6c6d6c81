-- ===== src/Cli/Events/Interval.antt =====
-- The texts of intervals: a number of milliseconds, seconds or minutes.
use marstack_container.Prelude.{
  ℕ, zero, suc, ◌*◌, ◌%◌, ◌/◌, ◌^◌, ◌<◌, ◌≡◌, refl, ◌∙◌, ap, sym, true, false, ◌==◌, Option, none,
  some, [], ◌∷◌, ◌++◌, arith, All, All-append, append-nil, Bool-cases, ltb, ltb→lt, inl, inr,
}
use marstack_container.Std.Text.{
  Text, codes, trim, trim_start, trim_end, is_whitespace, strip_prefix,
}
use marstack_container.Std.Decimal.{
  digits, to_string, is_digit, parse_unsigned-to_string, u64_bound,
}
use marstack_container.Error.{ok}
use marstack_container.Cli.Events.{strip_suffix, unit_of, interval_of, parse_interval}

abbrev Digit : ℕ → Type 0
Digit c = is_digit c ≡ true

abbrev NoSpace : ℕ → Type 0
NoSpace c = is_whitespace c ≡ false

digits-Digit : (f n : ℕ) → n < f → All Digit (digits f n)
unfolding digits is_digit
digits-Digit zero n h = tt
digits-Digit (suc f) n h = elim (Bool-cases (ltb n 10)) [
  | inl low ↦ rw low (ground (arith, ltb→lt n 10 low), tt)
  | inr high ↦ rw high (
      All-append Digit (digits f (n / 10)) _ (digits-Digit f (n / 10) (ground arith))
        (ground arith, tt))
]

to_string-Digit : (n : ℕ) → All Digit (to_string n)
unfolding to_string
to_string-Digit n = digits-Digit (suc n) n (omega arith)

Digit-NoSpace : (ds : Text) → All Digit ds → All NoSpace ds
unfolding is_digit is_whitespace
Digit-NoSpace [] h = tt
Digit-NoSpace (c ∷ cs) (d, h) = (ground arith, Digit-NoSpace cs h)

trim_end-NoSpace : (t : Text) → All NoSpace t → trim_end t ≡ t
unfolding trim_end
trim_end-NoSpace [] h = refl
trim_end-NoSpace (c ∷ cs) (shown, h) = ground (arith, trim_end-NoSpace cs h)

trim_start-NoSpace : (t : Text) → All NoSpace t → trim_start t ≡ t
unfolding trim_start
trim_start-NoSpace [] h = refl
trim_start-NoSpace (c ∷ cs) (shown, h) = rw shown refl

trim-NoSpace : (t : Text) → All NoSpace t → trim t ≡ t
unfolding trim
trim-NoSpace t h = ap trim_end (trim_start-NoSpace t h) ∙ trim_end-NoSpace t h

abbrev after : Text → Option Text → Option Text
after ds none = none
after ds (some front) = some (ds ++ front)

after-cons :
    (d : ℕ) (ds : Text) (o : Option Text)
    → elim (after ds o) [ none ↦ none | some front ↦ some (d ∷ front) ] ≡ after (d ∷ ds) o
after-cons d ds none = refl
after-cons d ds (some front) = refl

strip_suffix-cons :
    (c : ℕ) (cs : Text) (d : ℕ) (t : Text)
    → (c == d) ≡ false
    → strip_suffix (c ∷ cs) (d ∷ t)
      ≡ elim (strip_suffix (c ∷ cs) t) [ none ↦ none | some front ↦ some (d ∷ front) ]
unfolding strip_suffix strip_prefix
strip_suffix-cons c cs d t differs = ground arith

-- Digits before a text hide no suffix that starts with another character.
strip_suffix-digits :
    (c : ℕ) (cs ds t : Text)
    → is_digit c ≡ false
    → All Digit ds
    → strip_suffix (c ∷ cs) (ds ++ t) ≡ after ds (strip_suffix (c ∷ cs) t)
unfolding strip_suffix strip_prefix
strip_suffix-digits c cs [] t other h = go (strip_suffix (c ∷ cs) t)
  where
    go : (o : Option Text) → o ≡ after [] o
    go none = refl
    go (some front) = refl
strip_suffix-digits c cs (d ∷ ds) t other (digit, h) =
    let differs : (c == d) ≡ false = elim (Bool-cases (c == d)) [
      | inr other' ↦ other'
      | inl same ↦
          let e : c ≡ d = ground arith in
          let clash : true ≡ false = sym digit ∙ sym (ap is_digit e) ∙ other in absurd (cc clash)
    ] in
    strip_suffix-cons c cs d (ds ++ t) differs
    ∙ ap (λ o. elim o [ none ↦ none | some front ↦ some (d ∷ front) ])
        (strip_suffix-digits c cs ds t other h)
    ∙ after-cons d ds (strip_suffix (c ∷ cs) t)

abbrev pick : Text → Option Text → Option Text → Option Text → Text × ℕ
pick t (some rest) b c = (rest, 1)
pick t none (some rest) c = (rest, 1_000)
pick t none none (some rest) = (rest, 60_000)
pick t none none none = (t, 1_000)

unit_of-pick :
    (t : Text) (a b c : Option Text)
    → strip_suffix (codes "ms") t ≡ a
    → strip_suffix (codes "s") t ≡ b
    → strip_suffix (codes "m") t ≡ c
    → unit_of t ≡ pick t a b c
unfolding unit_of
unit_of-pick t (some rest) b c p q r = ground arith
unit_of-pick t none (some rest) c p q r = ground arith
unit_of-pick t none none (some rest) p q r = ground arith
unit_of-pick t none none none p q r = ground arith

-- The unit of digits and a suffix, by what is stripped from the suffix.
unit_of-digits :
    (ds : Text)
    → All Digit ds
    → (t : Text)
    → unit_of (ds ++ t)
      ≡ pick
          (ds ++ t)
          (after ds (strip_suffix (codes "ms") t))
          (after ds (strip_suffix (codes "s") t))
          (after ds (strip_suffix (codes "m") t))
unfolding is_digit
unit_of-digits ds h t =
    unit_of-pick (ds ++ t) _ _ _ (strip_suffix-digits b'm' (codes "s") ds t refl h)
      (strip_suffix-digits b's' [] ds t refl h) (strip_suffix-digits b'm' [] ds t refl h)

module _ (ds : Text) (h : All Digit ds) where
  unit_of-ms : unit_of (ds ++ codes "ms") ≡ (ds, 1)
  unfolding strip_suffix strip_prefix
  unit_of-ms = unit_of-digits ds h (codes "ms") ∙ ap (λ t. (t, 1)) (append-nil ds)

  unit_of-s : unit_of (ds ++ codes "s") ≡ (ds, 1_000)
  unfolding strip_suffix strip_prefix
  unit_of-s = unit_of-digits ds h (codes "s") ∙ ap (λ t. (t, 1_000)) (append-nil ds)

  unit_of-m : unit_of (ds ++ codes "m") ≡ (ds, 60_000)
  unfolding strip_suffix strip_prefix
  unit_of-m = unit_of-digits ds h (codes "m") ∙ ap (λ t. (t, 60_000)) (append-nil ds)

  unit_of-none : unit_of (ds ++ []) ≡ (ds ++ [], 1_000)
  unfolding strip_suffix strip_prefix
  unit_of-none = unit_of-digits ds h []

interval_of-pos : (m n : ℕ) → 0 < n → interval_of m (some n) ≡ ok (n * m % 2 ^ 64)
unfolding interval_of
interval_of-pos m n h = ground arith

parse_interval-unit :
    (n m : ℕ) (suffix : Text)
    → 0 < n
    → n < 2 ^ 64
    → All NoSpace suffix
    → unit_of (to_string n ++ suffix) ≡ (to_string n, m)
    → parse_interval (to_string n ++ suffix) ≡ ok (n * m % 2 ^ 64)
unfolding parse_interval
parse_interval-unit n m suffix pos low shown e =
    rw
      (
        trim-NoSpace (to_string n ++ suffix) (
            All-append NoSpace (to_string n) suffix
              (Digit-NoSpace (to_string n) (to_string-Digit n)) shown),
        e,
        parse_unsigned-to_string n u64_bound low,
      )
      (interval_of-pos m n pos)

-- A positive number below 2 ^ 64 is read as that number of milliseconds, of seconds or of minutes
-- by the suffix ms, s or m, and as seconds without one. The milliseconds of seconds and of minutes
-- are cut to 64 bits, so that they may be 0.
pub parse_interval-to_string :
    (n : ℕ)
    → 0 < n
    → n < 2 ^ 64
    → (parse_interval (to_string n ++ codes "ms") ≡ ok n)
      × (parse_interval (to_string n ++ codes "s") ≡ ok (n * 1_000 % 2 ^ 64))
      × (parse_interval (to_string n ++ codes "m") ≡ ok (n * 60_000 % 2 ^ 64))
      × (parse_interval (to_string n) ≡ ok (n * 1_000 % 2 ^ 64))
unfolding is_whitespace
parse_interval-to_string n pos low =
    let ds = to_string n in
    let h = to_string-Digit n in
    (
      parse_interval-unit n 1 (codes "ms") pos low (refl, (refl, tt)) (unit_of-ms ds h)
          ∙ ap ok (omega (arith, low)),
      parse_interval-unit n 1_000 (codes "s") pos low (refl, tt) (unit_of-s ds h),
      parse_interval-unit n 60_000 (codes "m") pos low (refl, tt) (unit_of-m ds h),
      ap parse_interval (sym (append-nil ds))
          ∙ parse_interval-unit n 1_000 [] pos low tt
              (unit_of-none ds h ∙ ap (λ t. (t, 1_000)) (append-nil ds)),
    )
