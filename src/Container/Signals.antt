-- ===== src/Container/Signals.antt =====
-- container/signal.rs: the signals that are forwarded, and the signal that a name or a number
-- stands for. The signals of the system, with their names, are a table of nix.
use marstack_container.Prelude.{
  ℕ, ◌==◌, Bool, false, none, some, List, [], ◌∷◌, ◌++◌, map, any, if◌then◌else◌,
}
use marstack_container.Prelude.Int.{ℤ, pos, negsuc}
use marstack_container.Std.Text.{Text, codes, trim, strip_prefix, text_eq, to_ascii_uppercase}
use marstack_container.Std.Decimal.{parse_i32}
use marstack_container.Error.{Result, ok, err, invalid}
use marstack_container.Exec.{Exec, ◌>>◌, pure}
use marstack_container.Os.{Os, plain_call}
use marstack_container.Syscall
use marstack_container.Container.Create.{forwarded, sigchld}

-- The names, which all begin with SIG, and the numbers.
abbrev pub Table : Type 0
Table = List (Text × ℕ)

unfoldable pub has_number : Table → ℕ → Bool
has_number table n = any (λ (s : Text × ℕ). s.1 == n) table

-- `Signal::try_from`.
unfoldable pub from_number : Table → ℤ → Result ℕ
unfolding has_number
from_number table (negsuc n) = err (invalid "is not a signal number")
from_number table (pos n) =
    if has_number table n then ok n else err (invalid "is not a signal number")

-- `name.strip_prefix("SIG").unwrap_or(name)`.
unfoldable pub bare_name : Text → Text
unfolding strip_prefix
bare_name upper = elim (strip_prefix (codes "SIG") upper) [ none ↦ upper | some bare ↦ bare ]

-- `candidate.as_str().strip_prefix("SIG") == Some(bare)`.
unfoldable pub is_named : Text → Text → Bool
unfolding strip_prefix text_eq
is_named bare name = elim (strip_prefix (codes "SIG") name) [
  | none ↦ false
  | some rest ↦ text_eq rest bare
]

-- The first signal of the table that has the name.
unfoldable pub find : Text → Table → Result ℕ
unfolding is_named
find bare [] = err (invalid "is not a known signal")
find bare ((name, n) ∷ table) = if is_named bare name then ok n else find bare table

unfoldable pub parse : Table → Text → Result ℕ
unfolding from_number bare_name find
parse table name = elim (parse_i32 (trim name)) [
  | some number ↦ from_number table number
  | none ↦ find (bare_name (map to_ascii_uppercase (trim name))) table
]

module _ (os : Os) where
  -- The forwarded signals and SIGCHLD, which the runtime waits for afterwards.
  unfoldable pub block_forwardable : Exec os.World (List ℕ)
  block_forwardable = do
    let set = forwarded ++ sigchld ∷ []
    plain_call os (os.sys (Syscall.block_signals set))
    pure set

  unfoldable pub unblock_all : Exec os.World (Unit {0})
  unblock_all = plain_call os (os.sys Syscall.unblock_all)
