-- ===== src/Cli/Events/Followed.antt =====
-- The end of the samples.
use marstack_container.Prelude.{
  ℕ, zero, suc, ◌+◌, ◌≤◌, ◌≡◌, inl, inr, refl, ◌∙◌, ap, true, some, arith, Bool-cases,
}
use marstack_container.Error.{ok}
use marstack_container.Os.{Os}
use marstack_container.State.{Container, stopped, status, status_eq}
use marstack_container.Cli.Events.{Event, sample, exit_event, follow}

module _ (os : Os) (print : Event → os.World → os.World) (interval : ℕ)
    (container : Container) where
  -- The world after rounds of samples.
  unfoldable pub rounds : ℕ → os.World → os.World
  rounds zero w = w
  rounds (suc k) w = rounds k (os.sleep interval (print (sample os container w) w))

  -- If the container is stopped after k rounds of samples, then the loop ends, however many more
  -- rounds it has: after the first rounds, at most k, after which it is stopped, it prints the exit
  -- of the container, and nothing after that.
  pub follow-ends :
      (k more : ℕ) (w : os.World)
      → status_eq (status os container (rounds k w)) stopped ≡ true
      → (j : ℕ) × (j ≤ k)
        × (status_eq (status os container (rounds j w)) stopped ≡ true)
        × (follow os print (suc (k + more)) interval container w
            ≡ (ok (some tt), print (exit_event os container) (rounds j w)))
  unfolding follow rounds
  follow-ends zero more w h = (0, omega arith, h, rw h refl)
  follow-ends (suc k) more w h =
      let next = os.sleep interval (print (sample os container w) w) in
      let (j, below, ended, runs) = follow-ends k more next h in
      elim (Bool-cases (status_eq (status os container w) stopped)) [
        | inl now ↦ (0, omega arith, now, rw now refl)
        | inr going ↦ (
          suc j,
          omega arith,
          ended,
          (let e : suc k + more ≡ suc (k + more) = omega arith in
              rw going (ap (λ n. follow os print n interval container next) e ∙ runs)),
        )
      ]
