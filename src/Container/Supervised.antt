-- ===== src/Container/Supervised.antt =====
-- The supervision of a container returns the exit code of its init, and returns once that is told.
use marstack_container.Prelude.{
  true, ℕ, zero, suc, ◌≤◌, ◌≡◌, ◌≢◌, refl, ap, ◌+◌, ◌%◌, ◌⊎◌, Option, none, some, arith, ◌==◌,
  ==_iff, Bool-cases, inl, inr,
}
use marstack_container.Prelude.Int.{ℤ, pos, negsuc, int_eq}
use marstack_container.Error.{Result, ok, err}
use marstack_container.Exec.{bind-eq-ok}
use marstack_container.Os.{Os, Answer, done, failed, plain_call}
use marstack_container.Os.Laws.{ReapLaws}
use marstack_container.Syscall.{WaitStatus, exited, signaled, still_alive, other_change}
use marstack_container.Container.Create.{sigchld}
use marstack_container.Container.Run.{code_of, drain, attend, supervise}
use marstack_container.Container.Reaped.{Told, drain-Told}

-- An end of the init that has the exit code: an exit with a code whose low byte it is, or a signal
-- whose number and 128 make it up, as a byte.
abbrev pub Reported : ℤ → ℕ → WaitStatus → Type 0
Reported init code status =
    ((exit : ℕ) × (status ≡ exited init exit) × (code ≡ exit % 256))
    ⊎ ((signal : ℕ) × (status ≡ signaled init signal) × (code ≡ (128 + signal) % 256))

int_eq-eq : (m n : ℤ) → int_eq m n ≡ true → m ≡ n
int_eq-eq (pos m) (pos n) h = let e : m ≡ n = ground (arith, ==_iff m n) in ap pos e
int_eq-eq (pos m) (negsuc n) h = absurd (cc h)
int_eq-eq (negsuc m) (pos n) h = absurd (cc h)
int_eq-eq (negsuc m) (negsuc n) h = let e : m ≡ n = ground (arith, ==_iff m n) in ap negsuc e

code_of-Reported :
    (init : ℤ) (status : WaitStatus) (code : ℕ)
    → code_of init status ≡ some code
    → Reported init code status
unfolding code_of
code_of-Reported init (exited pid exit) code h = elim (Bool-cases (int_eq pid init)) [
  | inl same ↦
      inl (exit, ap (λ p. exited p exit) (int_eq-eq pid init same), ground (arith, rw same at h))
  | inr other ↦ absurd (cc (rw other at h))
]
code_of-Reported init (signaled pid signal) code h = elim (Bool-cases (int_eq pid init)) [
  | inl same ↦
      inr (
        signal,
        ap (λ p. signaled p signal) (int_eq-eq pid init same),
        ground (arith, rw same at h),
      )
  | inr other ↦ absurd (cc (rw other at h))
]
code_of-Reported init still_alive code h = absurd (cc h)
code_of-Reported init other_change code h = absurd (cc h)

module _ (os : Os) where
  -- The answer of waitpid that ended the supervision.
  abbrev pub EndedBy : ℤ → ℕ → os.World → Type 0
  EndedBy init code w' =
      (status : WaitStatus) × (u : os.World) × (os.reap u ≡ (done status, w'))
      × Reported init code status

  drain-EndedBy :
      (n : ℕ) (init : ℤ) (code : ℕ) (w w' : os.World)
      → drain os n init w ≡ (ok (some code), w')
      → EndedBy init code w'
  unfolding drain code_of
  drain-EndedBy zero init code w w' h = absurd (ground arith)
  drain-EndedBy (suc n) init code w w' h =
      ask (λ e. drain-EndedBy n init code (os.reap w).1 w' e) (os.reap w).0 refl
    where
      found :
          (drain os n init (os.reap w).1 ≡ (ok (some code), w') → EndedBy init code w')
          → (status : WaitStatus) (o : Option ℕ) → (os.reap w).0 ≡ done status
          → code_of init status ≡ o
          → status ≢ still_alive
          → EndedBy init code w'
      found later still_alive o a c s = absurd (s refl)
      found later other_change none a c s = later (ground arith)
      found later (exited pid st) none a c s = later (ground arith)
      found later (signaled pid st) none a c s = later (ground arith)
      found later other_change (some x) a c s = absurd (cc c)
      found later (exited pid st) (some x) a c s = (
        exited pid st,
        w,
        ground arith,
        code_of-Reported init (exited pid st) code (ground arith),
      )
      found later (signaled pid st) (some x) a c s = (
        signaled pid st,
        w,
        ground arith,
        code_of-Reported init (signaled pid st) code (ground arith),
      )

      ask :
          (drain os n init (os.reap w).1 ≡ (ok (some code), w') → EndedBy init code w')
          → (a : Answer WaitStatus) → (os.reap w).0 ≡ a
          → EndedBy init code w'
      ask later (failed e) a = absurd (ground arith)
      ask later (done still_alive) a = absurd (ground arith)
      ask later (done other_change) a =
          found later other_change (code_of init other_change) a refl (λ e. cc e)
      ask later (done (exited pid st)) a =
          found later (exited pid st) (code_of init (exited pid st)) a refl (λ e. cc e)
      ask later (done (signaled pid st)) a =
          found later (signaled pid st) (code_of init (signaled pid st)) a refl (λ e. cc e)

  attend-EndedBy :
      (init : ℤ) (code : ℕ) (w w' : os.World)
      → attend os init w ≡ (ok (some code), w')
      → EndedBy init code w'
  unfolding attend
  attend-EndedBy init code w w' h =
      let (signal, v, _, h1) = bind-eq-ok (plain_call os os.sigwait) _ w h in
      elim (Bool-cases (signal == sigchld)) [
        | inl child ↦ drain-EndedBy (suc (os.reapable v)) init code v w' (rw child at h1)
        | inr other ↦ absurd (ground arith)
      ]

  -- An exit code that the supervision returns is that of the init: waitpid had just told that the
  -- init exited with a code whose low byte it is, or that a signal ended the init whose number and
  -- 128 make it up, as a byte.
  pub supervise-EndedBy :
      (n : ℕ) (init : ℤ) (code : ℕ) (w w' : os.World)
      → supervise os n init w ≡ (ok (some code), w')
      → EndedBy init code w'
  unfolding supervise
  supervise-EndedBy zero init code w w' h = absurd (ground arith)
  supervise-EndedBy (suc n) init code w w' h =
      ask (λ e. supervise-EndedBy n init code (attend os init w).1 w' e) (attend os init w).0 refl
    where
      ask :
          (supervise os n init (attend os init w).1 ≡ (ok (some code), w') → EndedBy init code w')
          → (r : Result (Option ℕ)) → (attend os init w).0 ≡ r
          → EndedBy init code w'
      ask later (err e) r = absurd (ground arith)
      ask later (ok none) r = later (ground arith)
      ask later (ok (some c)) r = attend-EndedBy init code w w' (ground arith)

  -- After so many rounds without its end, SIGCHLD arrives and the exit of the init is told, after
  -- so many other changes of children.
  abbrev pub Arrives : ℕ → ℤ → ℕ → os.World → os.World → Type 0
  Arrives zero init code w w' =
      (v : os.World) × (k : ℕ) × (os.sigwait w ≡ (done sigchld, v)) × Told os k init code v w'
  Arrives (suc n) init code w w' =
      (v : os.World) × (attend os init w ≡ (ok none, v)) × Arrives n init code v w'

  module _ (laws : ReapLaws os) where
    Told-reapable :
        (k : ℕ) (init : ℤ) (code : ℕ) (w w' : os.World)
        → Told os k init code w w'
        → k ≤ os.reapable w
    Told-reapable zero init code w w' t = omega arith
    Told-reapable (suc k) init code w w' (status, v, a, c, s, t) =
        omega (arith, Told-reapable k init code v w' t, laws.reap_tells status w v a s)

    attend-Told :
        (init : ℤ) (code k : ℕ) (w v w' : os.World)
        → os.sigwait w ≡ (done sigchld, v)
        → Told os k init code v w'
        → attend os init w ≡ (ok (some code), w')
    unfolding attend
    attend-Told init code k w v w' s t =
        ground (
          arith,
          drain-Told os k (os.reapable v) init code v w' t (Told-reapable k init code v w' t),
        )

    -- If waitpid tells each change of a child once, and after n rounds of forwarding signals and
    -- reaping other children SIGCHLD arrives and the end of the init is told, then the supervision
    -- returns the init's exit code at that point, however many more signals it could wait for.
    pub supervise-Arrives :
        (n more : ℕ) (init : ℤ) (code : ℕ) (w w' : os.World)
        → n ≤ more
        → Arrives n init code w w'
        → supervise os (suc more) init w ≡ (ok (some code), w')
    unfolding supervise
    supervise-Arrives zero more init code w w' le (v, k, s, t) =
        ground (arith, attend-Told init code k w v w' s t)
    supervise-Arrives (suc n) zero init code w w' le t = absurd (omega arith)
    supervise-Arrives (suc n) (suc more) init code w w' le (v, a, t) =
        ground (arith, supervise-Arrives n more init code v w' (omega arith) t)
