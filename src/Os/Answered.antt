-- ===== src/Os/Answered.antt =====
-- A step of the runtime that succeeds is a call that the system answered.
use Prim.Native.String.{String}
use marstack_container.Prelude.{◌≡◌, refl, arith}
use marstack_container.Error.{ok}
use marstack_container.Os.{Os, Answer, done, failed, call, nix_call, plain_call}

module _ (os : Os) {A : Type 0} (context : String) (f : os.World → Answer A × os.World) where
  pub nix_call-eq-ok :
      {a : A} (w w' : os.World) → nix_call os context f w ≡ (ok a, w') → f w ≡ (done a, w')
  nix_call-eq-ok {a} w w' h = ask (f w).0 refl
    where
      ask : (x : Answer A) → (f w).0 ≡ x → f w ≡ (done a, w')
      ask (done x) e = ground arith
      ask (failed n) e = absurd (ground arith)

  pub call-eq-ok : {a : A} (w w' : os.World) → call os context f w ≡ (ok a, w') → f w ≡ (done a, w')
  call-eq-ok {a} w w' h = ask (f w).0 refl
    where
      ask : (x : Answer A) → (f w).0 ≡ x → f w ≡ (done a, w')
      ask (done x) e = ground arith
      ask (failed n) e = absurd (ground arith)

module _ (os : Os) {A : Type 0} (f : os.World → Answer A × os.World) where
  pub plain_call-eq-ok :
      {a : A} (w w' : os.World) → plain_call os f w ≡ (ok a, w') → f w ≡ (done a, w')
  plain_call-eq-ok {a} w w' h = ask (f w).0 refl
    where
      ask : (x : Answer A) → (f w).0 ≡ x → f w ≡ (done a, w')
      ask (done x) e = ground arith
      ask (failed n) e = absurd (ground arith)
