-- ===== src/Cgroup/Weights.antt =====
-- The ranges and orders of the converted limits, and what the kernel reads back from them.
use marstack_container.Prelude.{
  ℕ, ◌-◌, ◌≤◌, ◌<◌, ◌≡◌, refl, some, arith, ltb, Bool-cases, inl, inr, lt→leb_false,
}
use marstack_container.Prelude.Int.{pos, negsuc}
use marstack_container.Std.Decimal.{
  int_to_string, to_string, parse_unsigned, parse_unsigned-to_string, u64_bound,
}
use marstack_container.Cgroup.Values.{
  max_text, limit_value, swap_value, shares_to_weight, blkio_to_io_weight,
}

-- Every number of CPU shares becomes a weight from 1 to 10000.
pub shares_to_weight_bounds : (n : ℕ) → (1 ≤ shares_to_weight n) × (shares_to_weight n ≤ 10_000)
unfolding shares_to_weight
shares_to_weight_bounds n = ground arith

-- More CPU shares never become a smaller weight, the unset 0 aside.
pub shares_to_weight_mono : (a b : ℕ) → 0 < a → a ≤ b → shares_to_weight a ≤ shares_to_weight b
unfolding shares_to_weight
shares_to_weight_mono a b p h = ground arith

-- Every block I/O weight becomes a weight from 1 to 10000.
pub blkio_to_io_weight_bounds :
    (n : ℕ) → (1 ≤ blkio_to_io_weight n) × (blkio_to_io_weight n ≤ 10_000)
unfolding blkio_to_io_weight
blkio_to_io_weight_bounds n = ground arith

-- A larger block I/O weight never becomes a smaller weight.
pub blkio_to_io_weight_mono : (a b : ℕ) → a ≤ b → blkio_to_io_weight a ≤ blkio_to_io_weight b
unfolding blkio_to_io_weight
blkio_to_io_weight_mono a b h = ground arith

-- Every number of CPU shares and every block I/O weight becomes a weight from 1 to 10000, and a
-- larger number that is not 0 never becomes a smaller weight.
pub weights_in_range :
    (a b : ℕ)
    → 0 < a
    → a ≤ b
    → (1 ≤ shares_to_weight a)
      × (shares_to_weight a ≤ shares_to_weight b)
      × (shares_to_weight b ≤ 10_000)
      × (1 ≤ blkio_to_io_weight a)
      × (blkio_to_io_weight a ≤ blkio_to_io_weight b)
      × (blkio_to_io_weight b ≤ 10_000)
weights_in_range a b p h = (
  (shares_to_weight_bounds a).0,
  shares_to_weight_mono a b p h,
  (shares_to_weight_bounds b).1,
  (blkio_to_io_weight_bounds a).0,
  blkio_to_io_weight_mono a b h,
  (blkio_to_io_weight_bounds b).1,
)

swap_of_positive :
    (total limit : ℕ)
    → 0 < total
    → 0 < limit
    → swap_value (pos total) (some (pos limit)) ≡ to_string (total - limit)
unfolding swap_value int_to_string
swap_of_positive total limit p q = elim (Bool-cases (ltb limit total)) [
  | inl above ↦ rw (lt→leb_false total 0 p, lt→leb_false limit 0 q, above)
  | inr below ↦
      rw (lt→leb_false total 0 p, lt→leb_false limit 0 q, below) (rw (none_left (ground arith)))
]
  where
    none_left : total ≤ limit → total - limit ≡ 0
    none_left h = omega arith

-- For a positive limit and a positive swap total below 2^64, the value written for the swap reads
-- back as the total less the limit, and as 0 where the limit is not below it.
pub swap_value-above_limit :
    (total limit : ℕ)
    → 0 < total
    → 0 < limit
    → total < u64_bound
    → parse_unsigned u64_bound (swap_value (pos total) (some (pos limit))) ≡ some (total - limit)
swap_value-above_limit total limit p q h =
    rw (swap_of_positive total limit p q)
      (parse_unsigned-to_string (total - limit) u64_bound (omega arith))

-- For a number below 2^64: a negative limit and 0 are written as max, and the number, if positive,
-- reads back as itself.
pub limit_value-cases :
    (n : ℕ)
    → n < u64_bound
    → (limit_value (negsuc n) ≡ max_text)
      × (limit_value (pos 0) ≡ max_text)
      × (0 < n → parse_unsigned u64_bound (limit_value (pos n)) ≡ some n)
unfolding limit_value
limit_value-cases n h = (
  refl,
  refl,
  λ p. rw (lt→leb_false n 0 p) (unfold int_to_string in parse_unsigned-to_string n u64_bound h),
)
