-- ===== src/Container/Capabilities/Raised.antt =====
-- What an application of capability sets that succeeds has checked and done.
use Prim.Native.String.{String}
use marstack_container.Prelude.{ℕ, ◌≡◌, refl, ◌&&◌, Bool, true, List, All, arith}
use marstack_container.Error.{ok, invalid}
use marstack_container.Exec.{guard, guard-eq-ok, bind-eq-ok, look-bind-eq-ok, for_each-each}
use marstack_container.Os.{Os, Answer, done, failed}
use marstack_container.Spec.{LinuxCapabilities}
use marstack_container.Container.Capabilities
use marstack_container.Container.Capabilities.{
  Caps, effective, permitted, inheritable, ambient, bounding, member, is_subset, difference, valid,
  caps_call, parse, drop_one, drop_bounding, raise_one, set_all, apply,
}

and-true : (a b : Bool) → (a && b) ≡ true → (a ≡ true) × (b ≡ true)
and-true a b h = ground arith

module _ (os : Os) (caps : Caps os) where
  caps_call-eq-ok :
      (context : String) (f : os.World → Answer (Unit {0}) × os.World) (w w' : os.World)
      → caps_call os context f w ≡ (ok tt, w')
      → f w ≡ (done tt, w')
  caps_call-eq-ok context f w w' h = ask (f w).0 refl
    where
      ask : (x : Answer (Unit {0})) → (f w).0 ≡ x → f w ≡ (done tt, w')
      ask (done x) e = ground arith
      ask (failed n) e = absurd (ground arith)

  -- In both sets, and raised.
  abbrev pub IsRaised : List ℕ → List ℕ → ℕ → Type 0
  IsRaised permitted_set inheritable_set c =
      (member c permitted_set ≡ true)
      × (member c inheritable_set ≡ true)
      × (v v' : os.World) × (caps.raise ambient c v ≡ (done tt, v'))

  raise_one-IsRaised :
      (ps is : List ℕ) (c : ℕ) (v v' : os.World)
      → raise_one os caps ps is c v ≡ (ok tt, v')
      → IsRaised ps is c
  unfolding raise_one
  raise_one-IsRaised ps is c v v' h =
      let (_, u, checked, last) =
        bind-eq-ok
          (guard (member c ps && member c is)
            (invalid "an ambient capability that is not in both permitted and inheritable"))
          _ v h in
      let (both, same) = guard-eq-ok (member c ps && member c is) _ v checked in
      let (p, i) = and-true (member c ps) (member c is) both in
      (p, i, u, v', caps_call-eq-ok "raise into ambient" (caps.raise ambient c) u v' last)

  -- The three sets were written one after the other, and the ambient set was cleared after them.
  abbrev pub Replaced : List ℕ → List ℕ → List ℕ → os.World → Type 0
  Replaced ps es is w =
      (w1 w2 w3 w4 : os.World) × (caps.set effective es w ≡ (done tt, w1))
      × (caps.set permitted ps w1 ≡ (done tt, w2))
      × (caps.set inheritable is w2 ≡ (done tt, w3))
      × (caps.clear ambient w3 ≡ (done tt, w4))

  set_all-Replaced :
      (ps es is : List ℕ) (w w' : os.World)
      → set_all os caps ps es is w ≡ (ok tt, w')
      → Replaced ps es is w
  unfolding set_all
  set_all-Replaced ps es is w w' h =
      let (_, w1, s1, h1) =
        bind-eq-ok (caps_call os "set the effective capability set" (caps.set effective es)) _ w
          h in
      let (_, w2, s2, h2) =
        bind-eq-ok (caps_call os "set the permitted capability set" (caps.set permitted ps)) _ w1
          h1 in
      let (_, w3, s3, h3) =
        bind-eq-ok (caps_call os "set the inheritable capability set" (caps.set inheritable is)) _
          w2 h2 in
      (
        w1,
        w2,
        w3,
        w',
        caps_call-eq-ok _ (caps.set effective es) w w1 s1,
        caps_call-eq-ok _ (caps.set permitted ps) w1 w2 s2,
        caps_call-eq-ok _ (caps.set inheritable is) w2 w3 s3,
        caps_call-eq-ok _ (caps.clear ambient) w3 w' h3,
      )

  same-Replaced :
      (ps es is : List ℕ) (u w : os.World) → u ≡ w → Replaced ps es is u → Replaced ps es is w
  same-Replaced ps es is u w e r = rw⁻¹ e r

  -- An application of capability sets that succeeds could read all of them. Each effective
  -- capability is a permitted one. The effective, the permitted and the inheritable set were
  -- written, the ambient set was cleared after them, and then each ambient capability, which is
  -- permitted and inheritable, was raised.
  pub apply-Raised :
      (spec : LinuxCapabilities) (w w' : os.World)
      → Capabilities.apply os caps spec w ≡ (ok tt, w')
      → (ps es is bs : List ℕ) × (parse os caps spec.permitted_names ≡ ok ps)
        × (parse os caps spec.effective_names ≡ ok es)
        × (parse os caps spec.inheritable_names ≡ ok is)
        × (parse os caps spec.ambient_names ≡ ok bs)
        × (is_subset es ps ≡ true)
        × Replaced ps es is w
        × All (IsRaised ps is) bs
  unfolding Capabilities.apply
  apply-Raised spec w w' h =
      let (ps, p, h1) = look-bind-eq-ok (λ v. parse os caps spec.permitted_names) _ w h in
      let (es, e, h2) = look-bind-eq-ok (λ v. parse os caps spec.effective_names) _ w h1 in
      let (is, i, h3) = look-bind-eq-ok (λ v. parse os caps spec.inheritable_names) _ w h2 in
      let (bs, a, h4) = look-bind-eq-ok (λ v. parse os caps spec.ambient_names) _ w h3 in
      let (_, u, checked, h5) =
        bind-eq-ok
          (guard (is_subset es ps) (invalid "an effective capability that is not in permitted")) _ w
          h4 in
      let (below, same) = guard-eq-ok (is_subset es ps) _ w checked in
      let (_, v, replaced, raised) = bind-eq-ok (set_all os caps ps es is) _ u h5 in
      (
        ps,
        es,
        is,
        bs,
        p,
        e,
        i,
        a,
        below,
        same-Replaced ps es is u w same (set_all-Replaced ps es is u v replaced),
        for_each-each (raise_one os caps ps is) (IsRaised ps is) (raise_one-IsRaised ps is) bs v w'
            raised,
      )
