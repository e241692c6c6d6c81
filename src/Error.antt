-- ===== src/Error.antt =====
-- error.rs: the error type of the runtime, its `Result`, and the chaining of fallible steps.
-- The payloads that a caller can tell apart are kept; a message is its fixed text, without the
-- values that are formatted into it. `errno` numbers the operating system's errors.
use Prim.Native.String.{String}
use marstack_container.Prelude.{ℕ, ◌≡◌, refl, ap, Bool, true, false, List, [], ◌∷◌}
use marstack_container.Std.Text.{Text}
use marstack_container.Std.FilePath.{FilePath}

pub data Error : Type 0 where
  not_found already_exists invalid_id : Text → Error
  bad_state : Text → Text → Text → Error
  missing_config : FilePath → Error
  spec_field invalid overlay : String → Error
  rootfs_missing : FilePath → Error
  executable_not_found nul_byte : Text → Error
  init_failed : Text → Error
  sync : String → Error
  sync_closed : Error
  out_of_scope unimplemented : String → Error
  no_cgroup_v2 : Error
  io nix : String → ℕ → Error
  json : Error
  syscall : ℕ → Error
  spec : Error

pub data Result {ℓ} (A : Type ℓ) : Type ℓ where
  ok : A → Result A
  err : Error → Result A

infixl 5 ◌>>=◌ ◌>>◌
-- `?`: the rest of the function runs on the value, and an error is returned as it is.
abbrev pub ◌>>=◌ {ℓ κ} : {X : Type ℓ} {Y : Type κ} → Result X → (X → Result Y) → Result Y
err failure >>= rest = err failure
ok value >>= rest = rest value

-- `if !test { return Err(e) }`.
abbrev pub guard : Bool → Error → Result (Unit {0})
guard false failure = err failure
guard true failure = ok tt

-- `f()?;`
abbrev pub ◌>>◌ {ℓ} : {Y : Type ℓ} → Result (Unit {0}) → Result Y → Result Y
step >> rest = step >>= λ _. rest

-- `iter().map(f).collect::<Result<Vec<_>>>()`.
unfoldable pub traverse {ℓ κ} :
    {A : Type ℓ} {B : Type κ} → (A → Result B) → List A → Result (List B)
traverse f [] = ok []
traverse f (x ∷ xs) = do y ← f x; ys ← traverse f xs; ok (y ∷ ys)

-- A `for` loop whose body may return an error.
unfoldable pub for_each {ℓ} : {A : Type ℓ} → (A → Result (Unit {0})) → List A → Result (Unit {0})
for_each f [] = ok tt
for_each f (x ∷ xs) = do f x; for_each f xs

abbrev ok_or : {A : Type 0} → A → Result A → A
ok_or d (ok a) = a
ok_or d (err e) = d

pub ok-injective : {A : Type 0} {a b : A} → ok a ≡ ok b → a ≡ b
ok-injective {a = x} h = ap (ok_or x) h

pub >>=-eq-ok {ℓ κ} :
    {X : Type ℓ} {Y : Type κ} (step : Result X) (rest : X → Result Y) {y : Y}
    → (step >>= rest) ≡ ok y
    → (x : X) × (step ≡ ok x) × (rest x ≡ ok y)
>>=-eq-ok (err failure) rest h = cc
>>=-eq-ok (ok value) rest h = (value, refl, h)
