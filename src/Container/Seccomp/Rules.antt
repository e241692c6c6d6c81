-- ===== src/Container/Seccomp/Rules.antt =====
-- Which rules of a configuration a filter has: the rules as one flat list, each of them a verdict
-- on a syscall that libseccomp knows, and the calls that add them one after the other.
use marstack_container.Prelude.{
  ℕ, suc, ◌≡◌, ◌⊎◌, inl, inr, refl, ap, true, false, Option, none, some, List, [], ◌∷◌, ◌++◌, arith,
  Bool-cases, Option-cases,
}
use marstack_container.Std.Text.{Text}
use marstack_container.Error.{Result, ok, traverse, >>=-eq-ok, ◌>>=◌}
use marstack_container.Os.{Os}
use marstack_container.Spec.{SeccompArg, SeccompSyscall, LinuxSeccomp}
use marstack_container.Bundle.Validate.{flatten}
use marstack_container.Container.Seccomp.{
  Scmp, ScmpAction, ScmpAction-discrete, ScmpArgCompare, Added, added, refused, action, action_eq,
  comparator, eacces, is_eacces, add, counted, add_known, add_name, add_syscall, prepare, fold,
  build,
}

pub record Rule : Type 0 where
  pub verdict : ScmpAction
  pub number : ℕ
  pub comparators : List ScmpArgCompare

is_yes-yes : {A : Type 0} (d : Dec A) → elim d [ yes h ↦ true | no h ↦ false ] ≡ true → A
is_yes-yes (yes a) h = a
is_yes-yes (no n) h = absurd (cc h)

action_eq-eq : (a b : ScmpAction) → action_eq a b ≡ true → a ≡ b
unfolding action_eq
action_eq-eq a b h = is_yes-yes (ScmpAction-discrete a b) h

is_eacces-eq : (number : Option ℕ) → is_eacces number ≡ true → number ≡ some eacces
unfolding is_eacces
is_eacces-eq none h = absurd (cc h)
is_eacces-eq (some n) h = ground arith

counted-cases :
    (verdict default : ScmpAction) (n m : ℕ) (answer : Added)
    → counted verdict default n answer ≡ ok m
    → ((answer ≡ added) × (m ≡ suc n))
      ⊎ ((answer ≡ refused (some eacces)) × (verdict ≡ default) × (m ≡ n))
unfolding counted
counted-cases verdict default n m added h = inl (refl, ground arith)
counted-cases verdict default n m (refused number) h =
    elim (Bool-cases (action_eq verdict default)) [
      | inr other ↦ absurd (cc (rw other at h))
      | inl same ↦ elim (Bool-cases (is_eacces number)) [
        | inr else' ↦ absurd (cc (rw (same, else') at h))
        | inl e ↦ inr (
          ap refused (is_eacces-eq number e),
          action_eq-eq verdict default same,
          ground (arith, (let k : ok n ≡ ok m = rw (same, e) at h in k)),
        )
      ]
    ]

-- The rules of one entry, by the names that are known.
unfoldable pub name_rules :
    (Text → Option ℕ) → ScmpAction → Option (List SeccompArg) → List Text → Result (List Rule)
name_rules from_name verdict args [] = ok []
name_rules from_name verdict args (name ∷ names) = elim (from_name name) [
  | none ↦ name_rules from_name verdict args names
  | some number ↦ (do
    comparators ← traverse comparator (flatten args)
    rest ← name_rules from_name verdict args names
    ok (record { verdict = verdict; number = number; comparators = comparators } ∷ rest))
]

unfoldable pub rules : (Text → Option ℕ) → List SeccompSyscall → Result (List Rule)
unfolding name_rules
rules from_name [] = ok []
rules from_name (s ∷ ss) = do
  verdict ← action s.action s.errno_ret
  first ← name_rules from_name verdict s.args s.names
  rest ← rules from_name ss
  ok (first ++ rest)

module _ (os : Os) (scmp : Scmp os) where
  -- The call that adds a rule: added and counted, or refused with EACCES, uncounted, where the
  -- verdict is what the filter does by default.
  abbrev pub Called : ScmpAction → scmp.Filter → ℕ → Rule → scmp.Filter → ℕ → Type 0
  Called default f n r g m =
      ((add os scmp r.verdict r.number r.comparators f ≡ (added, g)) × (m ≡ suc n))
      ⊎ ((add os scmp r.verdict r.number r.comparators f ≡ (refused (some eacces), g))
          × (r.verdict ≡ default)
          × (m ≡ n))

  -- The calls for all rules, from a filter and a count to a filter and a count.
  abbrev pub AllCalled : ScmpAction → scmp.Filter → ℕ → List Rule → scmp.Filter → ℕ → Type 0
  AllCalled default f n [] g m = (f ≡ g) × (n ≡ m)
  AllCalled default f n (r ∷ rs) g m =
      (f' : scmp.Filter) × (n' : ℕ) × Called default f n r f' n' × AllCalled default f' n' rs g m

  AllCalled-append :
      (default : ScmpAction) (rs ss : List Rule) (f f' g : scmp.Filter) (n n' m : ℕ)
      → AllCalled default f n rs f' n'
      → AllCalled default f' n' ss g m
      → AllCalled default f n (rs ++ ss) g m
  AllCalled-append default [] ss f f' g n n' m (e, k) rest = rw (e, k) rest
  AllCalled-append default (r ∷ rs) ss f f' g n n' m (f1, n1, c, more) rest =
      (f1, n1, c, AllCalled-append default rs ss f1 f' g n1 n' m more rest)

  add_known-Called :
      (default verdict : ScmpAction) (args : Option (List SeccompArg)) (number : ℕ)
      (f g : scmp.Filter) (n m : ℕ)
      → add_known os scmp default verdict args number (f, n) ≡ ok (g, m)
      → (cs : List ScmpArgCompare) × (traverse comparator (flatten args) ≡ ok cs)
        × Called default f n (record { verdict = verdict; number = number; comparators = cs }) g m
  unfolding add_known
  add_known-Called default verdict args number f g n m h =
      let (cs, compared, h1) = >>=-eq-ok (traverse comparator (flatten args)) _ h in
      let (answer, f') = add os scmp verdict number cs f in
      let (k, kept, h2) = >>=-eq-ok (counted verdict default n answer) _ h1 in
      (
        cs,
        compared,
        elim (counted-cases verdict default n k answer kept) [
          | inl (a, e) ↦ inl (ground arith, ground arith)
          | inr (a, same, e) ↦ inr (ground arith, same, ground arith)
        ],
      )

  names-AllCalled :
      (default verdict : ScmpAction) (args : Option (List SeccompArg)) (names : List Text)
      (f g : scmp.Filter) (n m : ℕ)
      → fold (add_name os scmp default verdict args) names (f, n) ≡ ok (g, m)
      → (rs : List Rule) × (name_rules scmp.from_name verdict args names ≡ ok rs)
        × AllCalled default f n rs g m
  unfolding fold add_name name_rules
  names-AllCalled default verdict args [] f g n m h = ([], refl, (ground arith, ground arith))
  names-AllCalled default verdict args (name ∷ names) f g n m h =
      elim (Option-cases (scmp.from_name name)) [
        | inl unknown ↦
            let (rs, found, more) =
              names-AllCalled default verdict args names f g n m (rw (unknown, add_name) at h) in
            (rs, rw (unknown, name_rules) found, more)
        | inr (number, known) ↦
            let ((f', n'), first, others) =
              >>=-eq-ok (add_known os scmp default verdict args number (f, n))
                (fold (add_name os scmp default verdict args) names) (rw (known, add_name) at h) in
            let (cs, compared, called) =
              add_known-Called default verdict args number f f' n n' first in
            let (rs, found, more) = names-AllCalled default verdict args names f' g n' m others in
            (
              record { verdict = verdict; number = number; comparators = cs } ∷ rs,
              rw (known, name_rules, compared, found),
              (f', n', called, more),
            )
      ]

  syscalls-AllCalled :
      (default : ScmpAction) (ss : List SeccompSyscall) (f g : scmp.Filter) (n m : ℕ)
      → fold (add_syscall os scmp default) ss (f, n) ≡ ok (g, m)
      → (rs : List Rule) × (rules scmp.from_name ss ≡ ok rs) × AllCalled default f n rs g m
  unfolding fold add_syscall rules
  syscalls-AllCalled default [] f g n m h = ([], refl, (ground arith, ground arith))
  syscalls-AllCalled default (s ∷ ss) f g n m h =
      let ((f', n'), first, others) =
        >>=-eq-ok (add_syscall os scmp default s (f, n)) (fold (add_syscall os scmp default) ss)
          h in
      let (verdict, acted, filled) = >>=-eq-ok (action s.action s.errno_ret) _ first in
      let (rs, found, called) = names-AllCalled default verdict s.args s.names f f' n n' filled in
      let (rest, remaining, more) = syscalls-AllCalled default ss f' g n' m others in
      (
        rs ++ rest,
        rw (acted, found, remaining),
        AllCalled-append default rs rest f f' g n n' m called more,
      )

  -- A filter that is built is the prepared filter of its default action on which the rules of the
  -- configuration whose syscall is known were called one after the other, in order. Each of them
  -- was added, or was refused with EACCES and has the default action as its verdict; the count is
  -- the number of those that were added.
  pub build-AllCalled :
      (spec : LinuxSeccomp) (g : scmp.Filter) (m : ℕ)
      → build os scmp spec ≡ ok (g, m)
      → (default : ScmpAction) × (f : scmp.Filter) × (rs : List Rule) × (action spec.default_action
            spec.default_errno_ret
          ≡ ok default)
        × (prepare os scmp spec default ≡ ok f)
        × (rules scmp.from_name (flatten spec.syscalls) ≡ ok rs)
        × AllCalled default f 0 rs g m
  unfolding build
  build-AllCalled spec g m h =
      let (default, acted, h1) =
        >>=-eq-ok (action spec.default_action spec.default_errno_ret) _ h in
      let (f, prepared, h2) = >>=-eq-ok (prepare os scmp spec default) _ h1 in
      let (rs, found, called) = syscalls-AllCalled default (flatten spec.syscalls) f g 0 m h2 in
      (default, f, rs, acted, prepared, found, called)
