-- ===== src/Rootfs/Mounts/LastOption.antt =====
-- Which mount option decides a flag, and which options are left for the file system.
use marstack_container.Prelude.{
  ◌≡◌, refl, ◌∙◌, Bool, true, false, Option, none, some, Option-cases, inl, inr, List, [], ◌∷◌,
  ◌++◌, arith, All, any, append_assoc, append-nil,
}
use marstack_container.Std.Text.{Text, codes, join}
use marstack_container.Syscall.{MsFlag, Flags, flag_eq}
use marstack_container.Rootfs.Mounts.{
  Change, keep, set, clear, change, change_of, parse_from, parse_options,
}

decides_of : MsFlag → Option Change → Bool
decides_of f none = false
decides_of f (some keep) = false
decides_of f (some (set fs)) = any (flag_eq f) fs
decides_of f (some (clear g)) = flag_eq f g

-- Whether the option says anything of the flag.
unfoldable pub decides : MsFlag → Text → Bool
unfolding decides_of
decides f o = decides_of f (change_of o)

is_set : Option Change → Bool
is_set (some (set fs)) = true
is_set _ = false

-- Whether the option switches flags on.
unfoldable pub switches_on : Text → Bool
unfolding is_set
switches_on o = is_set (change_of o)

change-undecided :
    (f : MsFlag) (c : Change) (flags : Flags)
    → decides_of f (some c) ≡ false
    → change c flags f ≡ flags f
unfolding change decides_of
change-undecided f keep flags h = refl
change-undecided f (set fs) flags h = ground arith
change-undecided f (clear g) flags h = ground arith

change-decided :
    (f : MsFlag) (c : Change) (flags : Flags)
    → decides_of f (some c) ≡ true
    → change c flags f ≡ is_set (some c)
unfolding change decides_of is_set
change-decided f keep flags h = cc
change-decided f (set fs) flags h = ground arith
change-decided f (clear g) flags h = ground arith

parse_from-rest :
    (flags : Flags) (rest os : List Text) (o : Text)
    → change_of o ≡ none
    → parse_from flags rest (o ∷ os) ≡ parse_from flags (rest ++ o ∷ []) os
unfolding parse_from
parse_from-rest flags rest os o h = ground arith

parse_from-change :
    (flags : Flags) (rest os : List Text) (o : Text) (c : Change)
    → change_of o ≡ some c
    → parse_from flags rest (o ∷ os) ≡ parse_from (change c flags) rest os
unfolding parse_from
parse_from-change flags rest os o c h = ground arith

parse_from-undecided :
    (f : MsFlag) (flags : Flags) (rest os : List Text)
    → All (λ o. decides f o ≡ false) os
    → (parse_from flags rest os).flags f ≡ flags f
unfolding decides parse_from
parse_from-undecided f flags rest [] h = refl
parse_from-undecided f flags rest (o ∷ os) h = elim (Option-cases (change_of o)) [
  | inl none_here ↦
      rw (parse_from-rest flags rest os o none_here)
        (parse_from-undecided f flags (rest ++ o ∷ []) os h.1)
  | inr (c, known) ↦ rw (parse_from-change flags rest os o c known) (
      parse_from-undecided f (change c flags) rest os h.1
      ∙ change-undecided f c flags (rw known at h.0))
]

parse_from-last :
    (f : MsFlag) (flags : Flags) (rest before after : List Text) (o : Text)
    → decides f o ≡ true
    → All (λ a. decides f a ≡ false) after
    → (parse_from flags rest (before ++ o ∷ after)).flags f ≡ switches_on o
unfolding decides switches_on
parse_from-last f flags rest [] after o d h = elim (Option-cases (change_of o)) [
  | inl none_here ↦ cc (rw none_here at d)
  | inr (c, known) ↦
      rw (parse_from-change flags rest after o c known, known)
        (parse_from-undecided f (change c flags) rest after h
          ∙ change-decided f c flags (rw known at d))
]
parse_from-last f flags rest (b ∷ bs) after o d h = elim (Option-cases (change_of b)) [
  | inl none_here ↦
      rw (parse_from-rest flags rest (bs ++ o ∷ after) b none_here)
        (parse_from-last f flags (rest ++ b ∷ []) bs after o d h)
  | inr (c, known) ↦
      rw (parse_from-change flags rest (bs ++ o ∷ after) b c known)
        (parse_from-last f (change c flags) rest bs after o d h)
]

-- If an option decides a flag and no later option does, the flag is set exactly when that option
-- switches flags on, whatever stands before it.
parse_options-last :
    (f : MsFlag) (before after : List Text) (o : Text)
    → decides f o ≡ true
    → All (λ a. decides f a ≡ false) after
    → (parse_options (before ++ o ∷ after)).flags f ≡ switches_on o
unfolding parse_options
parse_options-last f before after o d h = parse_from-last f (λ g. false) [] before after o d h

-- The options that set no flag.
unfoldable pub data_options : List Text → List Text
data_options [] = []
data_options (o ∷ os) = elim (change_of o) [ none ↦ o ∷ data_options os | some c ↦ data_options os ]

data_options-rest :
    (o : Text) (os : List Text) → change_of o ≡ none → data_options (o ∷ os) ≡ o ∷ data_options os
unfolding data_options
data_options-rest o os h = ground arith

data_options-change :
    (o : Text) (os : List Text) (c : Change)
    → change_of o ≡ some c
    → data_options (o ∷ os) ≡ data_options os
unfolding data_options
data_options-change o os c h = ground arith

parse_from-data :
    (flags : Flags) (rest os : List Text)
    → (parse_from flags rest os).data_text ≡ join (codes ",") (rest ++ data_options os)
unfolding data_options parse_from
parse_from-data flags rest [] = rw (append-nil rest)
parse_from-data flags rest (o ∷ os) = elim (Option-cases (change_of o)) [
  | inl none_here ↦ rw (
    parse_from-rest flags rest os o none_here,
    data_options-rest o os none_here,
    parse_from-data flags (rest ++ o ∷ []) os,
    append_assoc rest (o ∷ []) (data_options os),
  )
  | inr (c, known) ↦ rw (
    parse_from-change flags rest os o c known,
    data_options-change o os c known,
    parse_from-data (change c flags) rest os,
  )
]

-- The data of a list of options is the options that the table does not know, in order, joined by
-- commas.
pub parse_options-data :
    (options : List Text)
    → (parse_options options).data_text ≡ join (codes ",") (data_options options)
unfolding parse_options
parse_options-data options = parse_from-data (λ f. false) [] options
