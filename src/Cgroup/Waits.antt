-- ===== src/Cgroup/Waits.antt =====
-- The two loops of the driver that wait for the kernel: freezing and removing.
use marstack_container.Prelude.{
  ℕ, zero, suc, ◌<◌, ◌≡◌, refl, Bool, true, false, ◌&&◌, arith, if◌then◌else◌, ltb, ◌==◌,
  Bool-cases, inl, inr,
}
use marstack_container.Std.Text.{codes}
use marstack_container.Std.FilePath.{FilePath}
use marstack_container.Error.{Result, ok, err, io}
use marstack_container.Exec.{bind-eq-ok}
use marstack_container.Os.{Os, Answer, done, failed}
use marstack_container.Cgroup.V2.{
  Cgroup, ebusy, bool_eq, write, is_frozen, wait_frozen, freeze, remove_attempts, remove_parent,
  destroy,
}

module _ (os : Os) where
  -- The loop's poll: either the state is reached, or the loop goes on after a sleep.
  poll-frozen :
      (n : ℕ) (cg : Cgroup) (b : Bool) (w w' : os.World)
      → ((v : os.World) → wait_frozen os n cg b v ≡ (ok tt, w') → is_frozen os cg w' ≡ b)
      → (a : Bool) → is_frozen os cg w ≡ a
      → (if bool_eq a b then (ok tt, w) else wait_frozen os n cg b (os.sleep 10 w)) ≡ (ok tt, w')
      → is_frozen os cg w' ≡ b
  poll-frozen n cg true w w' later true e h = ground arith
  poll-frozen n cg false w w' later true e h = later (os.sleep 10 w) h
  poll-frozen n cg true w w' later false e h = later (os.sleep 10 w) h
  poll-frozen n cg false w w' later false e h = ground arith

  wait_frozen-frozen :
      (n : ℕ) (cg : Cgroup) (b : Bool) (w w' : os.World)
      → wait_frozen os n cg b w ≡ (ok tt, w')
      → is_frozen os cg w' ≡ b
  unfolding wait_frozen
  wait_frozen-frozen zero cg b w w' h = cc
  wait_frozen-frozen (suc n) cg b w w' h =
      poll-frozen n cg b w w' (λ v. wait_frozen-frozen n cg b v w') (is_frozen os cg w) refl h

  -- When freeze succeeds, the kernel reports the frozen state that was asked for.
  pub freeze-frozen :
      (cg : Cgroup) (b : Bool) (w w' : os.World)
      → freeze os cg b w ≡ (ok tt, w')
      → is_frozen os cg w' ≡ b
  unfolding freeze
  freeze-frozen cg b w w' h =
      let (_, v, _, waited) =
        bind-eq-ok (write os cg (codes "cgroup.freeze") (if b then codes "1" else codes "0"))
          (λ _. wait_frozen os 500 cg b) w h in
      wait_frozen-frozen 500 cg b v w' waited

  -- One attempt: the directory is gone, another error is final, and a busy one is tried again.
  attempt-removed :
      (n : ℕ) (path : FilePath) (w w' v : os.World)
      → ((u : os.World)
          → 0 < n
          → remove_attempts os n path u ≡ (ok tt, w')
          → (t : os.World) × (os.remove_dir path t ≡ (done tt, w')))
      → (a : Answer (Unit {0})) → os.remove_dir path w ≡ (a, v)
      → (let r : Result (Unit {0}) × os.World = elim a [
        | done _ ↦ (ok tt, v)
        | failed e ↦
            if e == ebusy && ltb 0 n
            then remove_attempts os n path (os.sleep 20 v)
            else (err (io "remove cgroup" e), v)
      ] in
          r ≡ (ok tt, w'))
      → (t : os.World) × (os.remove_dir path t ≡ (done tt, w'))
  attempt-removed n path w w' v again (done u) e h = (w, ground arith)
  attempt-removed n path w w' v again (failed x) e h = elim (Bool-cases (x == ebusy && ltb 0 n)) [
    | inl busy ↦ again (os.sleep 20 v) (ground arith) (rw busy at h)
    | inr final ↦ cc (rw final at h)
  ]

  remove_attempts-removed :
      (n : ℕ) (path : FilePath) (w w' : os.World)
      → 0 < n
      → remove_attempts os n path w ≡ (ok tt, w')
      → (t : os.World) × (os.remove_dir path t ≡ (done tt, w'))
  unfolding remove_attempts
  remove_attempts-removed zero path w w' p h = absurd (omega arith)
  remove_attempts-removed (suc n) path w w' p h =
      let (a, v) = os.remove_dir path w in
      attempt-removed n path w w' v (λ u. remove_attempts-removed n path u w') a refl h

  -- destroy succeeds only after the kernel has removed the directory of the cgroup, and the only
  -- step after that is the attempt on its parent.
  pub destroy-removed :
      (cg : Cgroup) (w w' : os.World)
      → destroy os cg w ≡ (ok tt, w')
      → (before : os.World) × (after : os.World) × (os.remove_dir cg.path before ≡ (done tt, after))
        × (remove_parent os cg after ≡ (ok tt, w'))
  unfolding destroy
  destroy-removed cg w w' h =
      let (_, after, removed, rest) =
        bind-eq-ok (remove_attempts os 50 cg.path) (λ _. remove_parent os cg) w h in
      let (before, gone) = remove_attempts-removed 50 cg.path w after (omega arith) (cc removed) in
      (before, after, gone, rest)
