-- ===== src/Container/HookRuns.antt =====
-- The end of the wait for a hook.
use marstack_container.Prelude.{ℕ, zero, suc, ◌+◌, ◌≤◌, ◌≡◌, arith}
use marstack_container.Os.{Os}
use marstack_container.Os.Laws.{ClockLaws}
use marstack_container.Container.Hooks.{poll}

module _ (os : Os) where
  next_round :
      (laws : ClockLaws os) (n deadline child : ℕ) (w : os.World)
      → deadline ≤ os.instant w + suc n
      → deadline ≤ os.instant (os.sleep 10 (os.try_wait child w).1) + n
  next_round laws n deadline child w h =
      omega (arith, laws.try_wait_advances child w, laws.sleep_advances 10 (os.try_wait child w).1)

  -- With a monotonic clock and sleeps that take their time, polling for a hook gives the same
  -- result with any larger number of rounds than one beyond the milliseconds left until the
  -- deadline.
  pub poll-enough :
      (laws : ClockLaws os) (n more deadline child : ℕ) (w : os.World)
      → n ≤ more
      → deadline ≤ os.instant w + n
      → poll os (suc more) deadline child w ≡ poll os (suc n) deadline child w
  unfolding poll
  poll-enough laws zero more deadline child w le h = ground (arith, laws.try_wait_advances child w)
  poll-enough laws (suc n) zero deadline child w le h = absurd (omega arith)
  poll-enough laws (suc n) (suc more) deadline child w le h = ground (
    arith,
    next_round laws n deadline child w h,
    poll-enough laws n more deadline child (os.sleep 10 (os.try_wait child w).1),
  )
