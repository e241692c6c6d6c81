-- ===== src/Container/ExecUser.antt =====
-- The text of a user, UID or UID:GID, is read as the ids that it prints.
use marstack_container.Prelude.{
  ℕ, zero, suc, ◌+◌, ◌<◌, ◌^◌, ◌/◌, ◌%◌, ltb, ◌≡◌, refl, false, some, none, [], ◌∷◌, ◌++◌, arith,
  Bool-cases, inl, inr,
}
use marstack_container.Std.Text.{Text, contains}
use marstack_container.Std.Decimal.{digits, to_string, parse_unsigned-to_string}
use marstack_container.Error.{ok}
use marstack_container.Container.ExecTarget.{split_once, parse_id, parse_user}

contains-append :
    (c : ℕ) (s t : Text) → contains c s ≡ false → contains c t ≡ false → contains c (s ++ t) ≡ false
unfolding contains
contains-append c [] t h k = k
contains-append c (x ∷ xs) t h k = ground (arith, contains-append c xs t)

digits-no_colon : (f n : ℕ) → contains b':' (digits f n) ≡ false
unfolding contains digits
digits-no_colon zero n = refl
digits-no_colon (suc f) n = elim (Bool-cases (ltb n 10)) [
  | inl one ↦ rw one (ground arith)
  | inr more ↦ rw more (
      contains-append b':' (digits f (n / 10)) ((b'0' + n % 10) ∷ []) (digits-no_colon f (n / 10))
        (ground arith))
]

split_once-append :
    (c : ℕ) (s t : Text) → contains c s ≡ false → split_once c (s ++ c ∷ t) ≡ some (s, t)
unfolding contains split_once
split_once-append c [] t h = ground arith
split_once-append c (x ∷ xs) t h = ground (arith, split_once-append c xs t)

split_once-none : (c : ℕ) (s : Text) → contains c s ≡ false → split_once c s ≡ none
unfolding contains split_once
split_once-none c [] h = refl
split_once-none c (x ∷ xs) h = ground (arith, split_once-none c xs)

parse_id-to_string : (n : ℕ) → n < 2 ^ 32 → parse_id (to_string n) ≡ ok n
unfolding parse_id
parse_id-to_string n h = ground (arith, parse_unsigned-to_string n (2 ^ 32) h)

-- Two ids below 2^32 joined by a colon are read as the user and the group, and one alone as the
-- user without a group.
pub parse_user-to_string :
    (uid gid : ℕ)
    → uid < 2 ^ 32
    → gid < 2 ^ 32
    → (parse_user (to_string uid ++ b':' ∷ to_string gid) ≡ ok (some uid, some gid))
      × (parse_user (to_string uid) ≡ ok (some uid, none))
unfolding parse_user to_string
parse_user-to_string uid gid u g = (
  ground (
    arith,
    split_once-append b':' (to_string uid) (to_string gid) (digits-no_colon (suc uid) uid),
    parse_id-to_string uid u,
    parse_id-to_string gid g,
  ),
  ground (
    arith,
    split_once-none b':' (to_string uid) (digits-no_colon (suc uid) uid),
    parse_id-to_string uid u,
  ),
)
