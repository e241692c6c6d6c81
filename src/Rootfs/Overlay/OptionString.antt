-- ===== src/Rootfs/Overlay/OptionString.antt =====
-- How overlayfs takes the option string apart: at its commas, since no directory holds one.
use marstack_container.Prelude.{
  ℕ, ◌≡◌, refl, ap, false, Option, none, some, List, [], ◌∷◌, ◌++◌, arith, ◌||◌, All, All-append,
  Bool-cases, inl, inr,
}
use mathlib.Core.Path.{subst}
use marstack_container.Std.Text.{Text, codes, join, contains, split, split_onto}
use marstack_container.Error.{Result, ok, traverse, ◌>>=◌, >>=-eq-ok, ok-injective}
use marstack_container.Rootfs.Overlay.{Layers, escape, escape_text, replace, option_part, options}

abbrev Clean : Text → Type 0
Clean t = contains b',' t ≡ false

contains-append : (c : ℕ) (s t : Text) → contains c (s ++ t) ≡ (contains c s || contains c t)
unfolding contains
contains-append c [] t = refl
contains-append c (x ∷ xs) t = ground (arith, contains-append c xs t)

split_onto-append :
    (c : ℕ) (s t : Text) → contains c s ≡ false → split_onto c (s ++ c ∷ t) ≡ (s, split c t)
unfolding split_onto contains split
split_onto-append c [] t h = ground arith
split_onto-append c (x ∷ xs) t h = ground (arith, split_onto-append c xs t)

split_onto-clean : (c : ℕ) (s : Text) → contains c s ≡ false → split_onto c s ≡ (s, [])
unfolding split_onto contains
split_onto-clean c [] h = refl
split_onto-clean c (x ∷ xs) h = ground (arith, split_onto-clean c xs)

split-join :
    (p : Text) (ps : List Text)
    → All Clean (p ∷ ps)
    → split b',' (join (codes ",") (p ∷ ps)) ≡ p ∷ ps
unfolding join split
split-join p [] h = rw (split_onto-clean b',' p h.0)
split-join p (q ∷ qs) h =
    rw (split_onto-append b',' p (join (codes ",") (q ∷ qs)) h.0)
      (ap (λ r. p ∷ r) (split-join q qs h.1))

replace-Clean : (c : ℕ) (by t : Text) → Clean by → Clean t → Clean (replace c by t)
unfolding replace contains
replace-Clean c by [] b h = refl
replace-Clean c by (x ∷ xs) b h =
    ground (arith, contains-append b',' by (replace c by xs), replace-Clean c by xs)

slashes-Clean : Clean (codes "\\\\")
unfolding contains
slashes-Clean = refl

colon-Clean : Clean (codes "\\:")
unfolding contains
colon-Clean = refl

escape-Clean : (t e : Text) → escape t ≡ ok e → Clean e
unfolding escape escape_text
escape-Clean t e h = elim (Bool-cases (contains b',' t)) [
  | inl comma ↦ cc (rw comma at h)
  | inr clean ↦ ground (
    arith,
    replace-Clean b':' (codes "\\:") (replace b'\\' (codes "\\\\") t) colon-Clean
        (replace-Clean b'\\' (codes "\\\\") t slashes-Clean clean),
  )
]

all-Clean_cons :
    (es : List Text) (u : Text) (us : List Text)
    → ok (u ∷ us) ≡ ok es
    → Clean u
    → All Clean us
    → All Clean es
all-Clean_cons [] u us h c cs = cc
all-Clean_cons (e ∷ es) u us h c cs = subst (All Clean) (ok-injective h) (c, cs)

one-Clean : (es : List Text) (u : Text) → ok (u ∷ []) ≡ ok es → Clean u → All Clean es
one-Clean es u h c = all-Clean_cons es u [] h c tt

traverse-Clean : (ts es : List Text) → traverse escape ts ≡ ok es → All Clean es
unfolding traverse
traverse-Clean [] [] h = tt
traverse-Clean [] (e ∷ es) h = ground arith
traverse-Clean (t ∷ ts) es h =
    let (u, eu, h1) = >>=-eq-ok (escape t) (λ y. traverse escape ts >>= λ ys. ok (y ∷ ys)) h in
    let (us, eus, h2) = >>=-eq-ok (traverse escape ts) (λ ys. ok (u ∷ ys)) h1 in
    all-Clean_cons es u us h2 (escape-Clean t u eu) (traverse-Clean ts us eus)

join-Clean : (es : List Text) → All Clean es → Clean (join (codes ":") es)
unfolding join contains
join-Clean [] h = refl
join-Clean (e ∷ []) h = h.0
join-Clean (e ∷ d ∷ ds) h = ground (
  arith,
  contains-append b',' e (codes ":" ++ join (codes ":") (d ∷ ds)),
  join-Clean (d ∷ ds) h.1,
)

-- A name before the value keeps it clean.
named-Clean : (name e : Text) → Clean name → Clean e → Clean (name ++ e)
named-Clean name e n h = ground (arith, contains-append b',' name e)

option_part-Clean :
    (name : Text) (dir : Option Text) (parts : List Text)
    → Clean name
    → option_part name dir ≡ ok parts
    → All Clean parts
unfolding option_part
option_part-Clean name none [] n h = tt
option_part-Clean name none (p ∷ ps) n h = ground arith
option_part-Clean name (some d) parts n h =
    let (e, ee, h1) = >>=-eq-ok (escape d) (λ e. ok ((name ++ e) ∷ [])) h in
    one-Clean parts (name ++ e) h1 (named-Clean name e n (escape-Clean d e ee))

abbrev whole : List Text → List Text → List Text → Text
whole lower upper work =
    join (codes ",") ((codes "lowerdir=" ++ join (codes ":") lower) ∷ (upper ++ work))

abbrev after_upper : Layers → List Text → List Text → Result Text
after_upper l lower upper =
    option_part (codes "workdir=") l.work >>= λ work. ok (whole lower upper work)

abbrev after_lower : Layers → List Text → Result Text
after_lower l lower = option_part (codes "upperdir=") l.upper >>= λ upper. after_upper l lower upper

names-Clean : Clean (codes "lowerdir=") × Clean (codes "upperdir=") × Clean (codes "workdir=")
unfolding contains
names-Clean = (refl, refl, refl)

of_whole :
    (text : Text) (lower upper work : List Text)
    → ok (whole lower upper work) ≡ ok text
    → {ps : List Text} → split b',' (whole lower upper work) ≡ ps
    → split b',' text ≡ ps
of_whole text lower upper work h e = rw (← ok-injective h) e

-- Cut at its commas, the option string of the layers is exactly the lowerdir option followed by the
-- upperdir and workdir options that are given.
options-split :
    (l : Layers) (text : Text)
    → options l ≡ ok text
    → (lower : List Text) × (upper : List Text) × (work : List Text) × (traverse escape l.lower
        ≡ ok lower)
      × (option_part (codes "upperdir=") l.upper ≡ ok upper)
      × (option_part (codes "workdir=") l.work ≡ ok work)
      × (split b',' text ≡ (codes "lowerdir=" ++ join (codes ":") lower) ∷ (upper ++ work))
unfolding options
options-split l text h =
    let (lower, el, h1) = >>=-eq-ok (traverse escape l.lower) (λ lower. after_lower l lower) h in
    let (upper, eu, h2) =
      >>=-eq-ok (option_part (codes "upperdir=") l.upper) (λ upper. after_upper l lower upper) h1 in
    let (work, ew, h3) =
      >>=-eq-ok (option_part (codes "workdir=") l.work) (λ work. ok (whole lower upper work)) h2 in
    let first =
      named-Clean (codes "lowerdir=") (join (codes ":") lower) names-Clean.0
        (join-Clean lower (traverse-Clean l.lower lower el)) in
    let rest =
      All-append Clean upper work
        (option_part-Clean (codes "upperdir=") l.upper upper names-Clean.1 eu)
        (option_part-Clean (codes "workdir=") l.work work names-Clean.2 ew) in
    (
      lower,
      upper,
      work,
      el,
      eu,
      ew,
      of_whole text lower upper work h3
          (split-join (codes "lowerdir=" ++ join (codes ":") lower) (upper ++ work) (first, rest)),
    )
