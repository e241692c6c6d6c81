-- ===== src/Cgroup/Events.antt =====
-- cgroup/events.rs: the flat keyed files of a cgroup, one `key value` pair a line.
use marstack_container.Prelude.{ℕ, ◌≡◌, refl, Option, none, some, List, [], ◌∷◌}
use marstack_container.Std.Text.{Text, codes, lines, split_whitespace, is_whitespace, text_eq}
use marstack_container.Std.Decimal.{parse_unsigned, u64_bound}
use marstack_container.Std.Map.{Map, get, collect}

-- The first two words of a line, the second of them a `u64`; a line without them is passed over.
pair_of : List Text → Option (Text × ℕ)
pair_of [] = none
pair_of (key ∷ []) = none
pair_of (key ∷ value ∷ more) = elim (parse_unsigned u64_bound value) [
  | none ↦ none
  | some n ↦ some (key, n)
]

unfoldable pub parse_line : Text → Option (Text × ℕ)
unfolding pair_of
parse_line line = pair_of (split_whitespace line)

-- `filter_map(parse_line)`.
unfoldable pub parse_lines : List Text → List (Text × ℕ)
unfolding parse_line
parse_lines [] = []
parse_lines (l ∷ ls) = elim (parse_line l) [ none ↦ parse_lines ls | some p ↦ p ∷ parse_lines ls ]

unfoldable pub parse_flat_keyed : Text → Map ℕ
unfolding parse_lines
parse_flat_keyed text = collect (parse_lines (lines text))

-- `map.get(key).copied().unwrap_or(0)`.
unfoldable pub value_of : Text → Map ℕ → ℕ
value_of key m = elim (get key m) [ none ↦ 0 | some n ↦ n ]

pub record MemoryEvents : Type 0 where
  pub low : ℕ
  pub high : ℕ
  pub max : ℕ
  pub oom : ℕ
  pub oom_kill : ℕ

pub record CpuStat : Type 0 where
  pub usage_usec : ℕ
  pub nr_periods : ℕ
  pub nr_throttled : ℕ
  pub throttled_usec : ℕ

-- `memory_events` of the file's text.
unfoldable pub memory_events : Text → MemoryEvents
unfolding value_of parse_flat_keyed
memory_events text =
    let parsed = parse_flat_keyed text in
    record {
      low = value_of (codes "low") parsed;
      high = value_of (codes "high") parsed;
      max = value_of (codes "max") parsed;
      oom = value_of (codes "oom") parsed;
      oom_kill = value_of (codes "oom_kill") parsed;
    }

-- `cpu_stat` of the file's text.
unfoldable pub cpu_stat : Text → CpuStat
unfolding value_of parse_flat_keyed
cpu_stat text =
    let parsed = parse_flat_keyed text in
    record {
      usage_usec = value_of (codes "usage_usec") parsed;
      nr_periods = value_of (codes "nr_periods") parsed;
      nr_throttled = value_of (codes "nr_throttled") parsed;
      throttled_usec = value_of (codes "throttled_usec") parsed;
    }

parse_flat_keyed_events :
    value_of (codes "max") (parse_flat_keyed (codes "low 0\nmalformed\nmax 14\nalso bad-value\n"))
    ≡ 14
unfolding value_of parse_flat_keyed get collect lines split_whitespace is_whitespace parse_unsigned
    text_eq
parse_flat_keyed_events = refl
