-- ===== src/Container/Reaped.antt =====
-- The loops that reap processes end, and the exit code of a container is that of its init.
use marstack_container.Prelude.{ℕ, zero, suc, ◌≤◌, ◌<◌, ◌≡◌, ◌≢◌, refl, ◌∙◌, none, some, arith}
use marstack_container.Prelude.Int.{ℤ}
use marstack_container.Error.{ok}
use marstack_container.Os.{Os, Answer, done, failed}
use marstack_container.Os.Laws.{ReapLaws}
use marstack_container.Syscall.{WaitStatus, exited, signaled, still_alive, other_change}
use marstack_container.Container.Create.{reap_ended}
use marstack_container.Container.Run.{code_of, drain}

module _ (os : Os) where
  -- Where two numbers of rounds agree after a change is told, they agree before it with one more.
  reap_round :
      (n more : ℕ) (w : os.World)
      → ((status : WaitStatus)
          → (os.reap w).0 ≡ done status
          → status ≢ still_alive
          → reap_ended os more (os.reap w).1 ≡ reap_ended os n (os.reap w).1)
      → reap_ended os (suc more) w ≡ reap_ended os (suc n) w
  unfolding reap_ended
  reap_round n more w step = ask (os.reap w).0 refl
    where
      ask :
          (a : Answer WaitStatus)
          → (os.reap w).0 ≡ a
          → reap_ended os (suc more) w ≡ reap_ended os (suc n) w
      ask (failed e) a = ground arith
      ask (done still_alive) a = ground arith
      ask (done other_change) a = ground (arith, step other_change a (λ e. cc e))
      ask (done (exited pid code)) a = ground (arith, step (exited pid code) a (λ e. cc e))
      ask (done (signaled pid signal)) a = ground (arith, step (signaled pid signal) a (λ e. cc e))

  module _ (laws : ReapLaws os) where
    one_less :
        (status : WaitStatus) (w : os.World)
        → (os.reap w).0 ≡ done status
        → status ≢ still_alive
        → os.reapable (os.reap w).1 < os.reapable w
    one_less status w a s = laws.reap_tells status w (os.reap w).1 (λ i. (a i, (os.reap w).1)) s

    -- If waitpid tells each change of a child once, the loop that reaps children gives the same
    -- result with any larger number of rounds than one more than the changes that there are to
    -- tell.
    reap_ended-enough :
        (n more : ℕ) (w : os.World)
        → n ≤ more
        → os.reapable w ≤ n
        → reap_ended os (suc more) w ≡ reap_ended os (suc n) w
    reap_ended-enough zero more w le h =
        reap_round zero more w (λ status a s. absurd (omega (arith, one_less status w a s)))
    reap_ended-enough (suc n) zero w le h = absurd (omega arith)
    reap_ended-enough (suc n) (suc more) w le h = reap_round (suc n) (suc more) w (λ status a s.
        reap_ended-enough n more (os.reap w).1 (omega arith) (omega (arith, one_less status w a s)))

  -- After so many other changes, the exit of the init is told, with its code.
  abbrev pub Told : ℕ → ℤ → ℕ → os.World → os.World → Type 0
  Told zero init code w w' =
      (status : WaitStatus) × (os.reap w ≡ (done status, w')) × (code_of init status ≡ some code)
  Told (suc k) init code w w' =
      (status : WaitStatus) × (v : os.World) × (os.reap w ≡ (done status, v))
      × (code_of init status ≡ none)
      × (status ≢ still_alive)
      × Told k init code v w'

  drain_now :
      (n : ℕ) (init : ℤ) (code : ℕ) (status : WaitStatus) (w w' : os.World)
      → os.reap w ≡ (done status, w')
      → code_of init status ≡ some code
      → drain os (suc n) init w ≡ (ok (some code), w')
  unfolding drain
  drain_now n init code still_alive w w' a c = absurd (unfold code_of in cc c)
  drain_now n init code other_change w w' a c = absurd (unfold code_of in cc c)
  drain_now n init code (exited pid status) w w' a c = ground arith
  drain_now n init code (signaled pid signal) w w' a c = ground arith

  drain_later :
      (n : ℕ) (init : ℤ) (status : WaitStatus) (w v : os.World)
      → os.reap w ≡ (done status, v)
      → code_of init status ≡ none
      → status ≢ still_alive
      → drain os (suc n) init w ≡ drain os n init v
  unfolding drain
  drain_later n init still_alive w v a c s = absurd (s refl)
  drain_later n init other_change w v a c s = ground arith
  drain_later n init (exited pid status) w v a c s = ground arith
  drain_later n init (signaled pid signal) w v a c s = ground arith

  pub drain-Told :
      (k n : ℕ) (init : ℤ) (code : ℕ) (w w' : os.World)
      → Told k init code w w'
      → k ≤ n
      → drain os (suc n) init w ≡ (ok (some code), w')
  drain-Told zero n init code w w' (status, a, c) le = drain_now n init code status w w' a c
  drain-Told (suc k) zero init code w w' t le = absurd (omega arith)
  drain-Told (suc k) (suc n) init code w w' (status, v, a, c, s, t) le =
      drain_later (suc n) init status w v a c s ∙ drain-Told k n init code v w' t (omega arith)
