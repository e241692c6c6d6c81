-- ===== src/Bundle/Validate/Steps.antt =====
-- What each step of bundle/validate.rs checks, one lemma for each.
use marstack_container.Prelude.{
  ◌≤◌, ◌≡◌, refl, ◌≢◌, ◌↔◌, inl, inr, Bool, true, false, ◌||◌, some, List, [], ◌∷◌, map, arith, any,
  All, Bool-cases, is_empty,
}
use marstack_container.Std.Text.{Text, split, contains}
use marstack_container.Std.Decimal.{parse_unsigned, u64_bound}
use marstack_container.Std.FilePath.{is_absolute}
use marstack_container.Spec.{Process, Namespace, NamespaceType, Rlimit, RlimitType}
use marstack_container.Error.{Result, ok, for_each}
use marstack_container.Bundle.Validate.{
  version, version_of, numeric_part, namespace_types_from, namespace_type_eq, rlimit_type_eq,
  rlimits_from, process_of, env_entry, flatten, is_some, first_arg, NamespaceType-discrete,
  RlimitType-discrete,
}

-- No element equals a later one.
abbrev pub Distinct {ℓ} : {A : Type ℓ} → List A → Type ℓ
Distinct [] = Unit
Distinct (x ∷ xs) = All (λ y. x ≢ y) xs × Distinct xs

-- Three numbers, the first of them 1.
abbrev pub IsVersion : Text → Type 0
IsVersion v =
    (major : Text) × (minor : Text) × (patch : Text) × (split b'.' (numeric_part v)
      ≡ major ∷ minor ∷ patch ∷ [])
    × (parse_unsigned u64_bound major ≡ some 1)
    × (is_some (parse_unsigned u64_bound minor) ≡ true)
    × (is_some (parse_unsigned u64_bound patch) ≡ true)

version_of-parts :
    (parts : List Text)
    → version_of parts ≡ ok tt
    → (a : Text) × (b : Text) × (c : Text) × (parts ≡ a ∷ b ∷ c ∷ [])
      × (parse_unsigned u64_bound a ≡ some 1)
      × (is_some (parse_unsigned u64_bound b) ≡ true)
      × (is_some (parse_unsigned u64_bound c) ≡ true)
unfolding version_of
version_of-parts [] h = cc
version_of-parts (a ∷ []) h = cc
version_of-parts (a ∷ b ∷ []) h = cc
version_of-parts (a ∷ b ∷ c ∷ []) h = (a, b, c, refl, ground arith, ground arith, ground arith)
version_of-parts (a ∷ b ∷ c ∷ d ∷ ds) h = ground arith

pub version-IsVersion : (v : Text) → version v ≡ ok tt → IsVersion v
unfolding version
version-IsVersion v h = version_of-parts (split b'.' (numeric_part v)) h

namespace_type_eq_iff : (a b : NamespaceType) → (namespace_type_eq a b ≡ true) ↔ (a ≡ b)
unfolding namespace_type_eq
namespace_type_eq_iff a b =
    elim (NamespaceType-discrete a b)
      as (λ d. ((elim d [ yes h ↦ true | no h ↦ false ]) ≡ true) ↔ (a ≡ b)) [
        | yes h ↦ ((λ _. h), (λ _. refl))
        | no h ↦ ((λ e. cc), (λ e. absurd (h e)))
      ]

rlimit_type_eq_self : (a : RlimitType) → rlimit_type_eq a a ≡ true
unfolding rlimit_type_eq
rlimit_type_eq_self a =
    elim (RlimitType-discrete a a) as (λ d. (elim d [ yes h ↦ true | no h ↦ false ]) ≡ true) [
      | yes h ↦ refl
      | no h ↦ absurd (h refl)
    ]

module _ {K : Type 0} (eq : K → K → Bool) (eq_self : (k : K) → eq k k ≡ true) where
  -- No key is among those seen.
  abbrev Unseen : List K → List K → Type 0
  Unseen seen ks = All (λ k. any (eq k) seen ≡ false) ks

  Unseen-of_cons :
      (x : K) (seen ks : List K) → Unseen (x ∷ seen) ks → All (λ k. x ≢ k) ks × Unseen seen ks
  Unseen-of_cons x seen [] h = (tt, tt)
  Unseen-of_cons x seen (k ∷ ks) h =
      let rest : All (λ k. x ≢ k) ks × Unseen seen ks = Unseen-of_cons x seen ks h.1 in
      (((λ e. clash e), rest.0), (ground arith, rest.1))
    where
      clash : x ≡ k → ⊥
      clash e = ground (arith, eq_self k)

any-append_cons : (a b c : Bool) → ((a || b) || c) ≡ (b || (a || c))
any-append_cons a b c = ground arith

pub namespace_types_from-Distinct :
    (seen : List NamespaceType) (ns : List Namespace) (types : List NamespaceType)
    → namespace_types_from seen ns ≡ ok types
    → All (λ k. any (namespace_type_eq k) seen ≡ false) (map (λ n. n.typ) ns)
      × Distinct (map (λ n. n.typ) ns)
unfolding namespace_types_from
namespace_types_from-Distinct seen [] types h = (tt, tt)
namespace_types_from-Distinct seen (n ∷ ns) types h =
    elim (Bool-cases (any (namespace_type_eq n.typ) seen)) [
      | inl old ↦ cc (rw old at h)
      | inr new ↦
          (let ih = namespace_types_from-Distinct (n.typ ∷ seen) ns types (rw new at h) in
            let parts =
              Unseen-of_cons namespace_type_eq (λ k. (namespace_type_eq_iff k k).1 refl) n.typ seen
                _ ih.0 in
            ((new, parts.1), (parts.0, ih.1)))
    ]

pub any-namespace_types_from :
    (p : NamespaceType → Bool) (seen : List NamespaceType) (ns : List Namespace)
    (types : List NamespaceType)
    → namespace_types_from seen ns ≡ ok types
    → any p types ≡ (any p (map (λ n. n.typ) ns) || any p seen)
unfolding namespace_types_from
any-namespace_types_from p seen [] types h = ground arith
any-namespace_types_from p seen (n ∷ ns) types h =
    ground (arith, any-namespace_types_from p (n.typ ∷ seen) ns types)

rlimits_from-Distinct :
    (limits : List RlimitType) (rs : List Rlimit)
    → rlimits_from limits rs ≡ ok tt
    → All (λ k. any (rlimit_type_eq k) limits ≡ false) (map (λ r. r.typ) rs)
      × Distinct (map (λ r. r.typ) rs)
      × All (λ r. r.soft ≤ r.hard) rs
unfolding rlimits_from
rlimits_from-Distinct limits [] h = (tt, tt, tt)
rlimits_from-Distinct limits (r ∷ rs) h = elim (Bool-cases (any (rlimit_type_eq r.typ) limits)) [
  | inl old ↦ cc (rw old at h)
  | inr new ↦
      (let ih = rlimits_from-Distinct (r.typ ∷ limits) rs (ground arith) in
        let parts = Unseen-of_cons rlimit_type_eq rlimit_type_eq_self r.typ limits _ ih.0 in
        ((new, parts.1), (parts.0, ih.1), (ground arith, ih.2)))
]

pub for_each-All :
    {A : Type 0} (f : A → Result (Unit {0})) (xs : List A)
    → for_each f xs ≡ ok tt
    → All (λ x. f x ≡ ok tt) xs
unfolding for_each
for_each-All f [] h = tt
for_each-All f (x ∷ xs) h = (ground arith, for_each-All f xs (ground arith))

pub All-map :
    {A : Type 0} (P Q : A → Type 0) (xs : List A) → ((x : A) → P x → Q x) → All P xs → All Q xs
All-map P Q [] f h = tt
All-map P Q (x ∷ xs) f h = (f x h.0, All-map P Q xs f h.1)

pub record IsValidProcess (p : Process) : Type 0 where
  pub program :
      (arg : Text) × (args : List Text) × (flatten p.args ≡ arg ∷ args) × (is_empty arg ≡ false)
  pub cwd_absolute : is_absolute p.cwd ≡ true
  pub env_pairs : All (λ entry. contains b'=' entry ≡ true) (flatten p.env)
  pub rlimits_distinct : Distinct (map (λ r. r.typ) (flatten p.rlimits))
  pub rlimits_ordered : All (λ (r : Rlimit). r.soft ≤ r.hard) (flatten p.rlimits)

first_arg-program :
    (args : List Text)
    → first_arg args ≡ ok tt
    → (a : Text) × (rest : List Text) × (args ≡ a ∷ rest) × (is_empty a ≡ false)
unfolding first_arg
first_arg-program [] h = cc
first_arg-program (a ∷ rest) h = (a, rest, refl, ground arith)

process_of-parts :
    (p : Process)
    → process_of p ≡ ok tt
    → (first_arg (flatten p.args) ≡ ok tt)
      × (is_absolute p.cwd ≡ true)
      × (for_each env_entry (flatten p.env) ≡ ok tt)
      × (rlimits_from [] (flatten p.rlimits) ≡ ok tt)
unfolding process_of
process_of-parts p h = ground arith

env_entry-pair : (e : Text) → env_entry e ≡ ok tt → contains b'=' e ≡ true
unfolding env_entry
env_entry-pair e h = ground arith

pub process_of-IsValidProcess : (p : Process) → process_of p ≡ ok tt → IsValidProcess p
process_of-IsValidProcess p h =
    let parts = process_of-parts p h in
    let limits = rlimits_from-Distinct [] (flatten p.rlimits) parts.3 in
    record {
      program = first_arg-program (flatten p.args) parts.0;
      cwd_absolute = parts.1;
      env_pairs =
          All-map _ _ (flatten p.env) env_entry-pair
            (for_each-All env_entry (flatten p.env) parts.2);
      rlimits_distinct = limits.1;
      rlimits_ordered = limits.2;
    }
