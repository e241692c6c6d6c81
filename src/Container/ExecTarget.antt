-- ===== src/Container/ExecTarget.antt =====
-- container/exec.rs: what a second process in a container is: its arguments, environment, directory
-- and ids, from the options of the command, a process document, and the bundle.
use marstack_container.Prelude.{
  ℕ, ◌^◌, Bool, Option, none, some, List, [], ◌∷◌, ◌++◌, ◌==◌, is_empty, if◌then◌else◌,
}
use marstack_container.Std.Text.{Text, contains}
use marstack_container.Std.Decimal.{parse_unsigned}
use marstack_container.Std.FilePath.{FilePath, root_dir}
use marstack_container.Spec.{Process}
use marstack_container.Error.{Result, ok, err, invalid, spec_field, json, ◌>>=◌}
use marstack_container.Os.{Os, io_ctx}
use marstack_container.State.{Container, Json}
use marstack_container.Bundle.Validate.{flatten}
use marstack_container.Bundle.Load.{Bundle, env, and_then, or_false}
use marstack_container.Bundle.Load

pub record ExecOptions : Type 0 where
  pub argv : List Text
  pub env : List Text
  pub cwd : Option FilePath
  pub process : Option FilePath
  pub user : Option Text
  pub additional_gids : List ℕ
  pub console_socket : Option FilePath
  pub tty : Bool
  pub detach : Bool
  pub pid_file : Option FilePath
  pub ignore_paused : Bool

pub record Target : Type 0 where
  pub argv : List Text
  pub env : List Text
  pub cwd : FilePath
  pub uid : Option ℕ
  pub gid : Option ℕ
  pub groups : List ℕ
  pub terminal : Bool

-- `text.split_once(c)`.
unfoldable pub split_once : ℕ → Text → Option (Text × Text)
split_once c [] = none
split_once c (x ∷ xs) =
    let rest = split_once c xs in
    if x == c
    then some ([], xs)
    else elim rest [ none ↦ none | some parts ↦ some (x ∷ parts.0, parts.1) ]

-- A `u32`.
unfoldable pub parse_id : Text → Result ℕ
parse_id text = elim (parse_unsigned (2 ^ 32) text) [
  | none ↦ err (invalid "--user must be UID[:GID] as numbers")
  | some n ↦ ok n
]

unfoldable pub parse_user : Text → Result (Option ℕ × Option ℕ)
unfolding split_once parse_id
parse_user text = elim (split_once b':' text) [
  | none ↦ parse_id text >>= λ uid. ok (some uid, none)
  | some parts ↦ (do uid ← parse_id parts.0; gid ← parse_id parts.1; ok (some uid, some gid))
]

-- `Bundle::cwd`.
unfoldable pub cwd_of : Bundle → Option FilePath
cwd_of b = and_then b.spec.process (λ process. some process.cwd)

unfoldable pub target_argv : List Text → Option Process → Result (List Text)
target_argv given (some process) =
    let args = flatten process.args in
    if is_empty args then err (spec_field "process.args") else ok args
target_argv given none = if is_empty given then err (spec_field "process.args") else ok given

-- The loop over the entries of `--env`.
unfoldable pub add_env : List Text → List Text → Result (List Text)
add_env env [] = ok env
add_env env (e ∷ es) =
    let rest = add_env (env ++ e ∷ []) es in
    if contains b'=' e then rest else err (invalid "--env is not in KEY=VALUE form")

unfoldable pub base_env : Option Bundle → Option Process → List Text
base_env bundle (some process) = flatten process.env
base_env none none = []
base_env (some bundle) none = env bundle

-- `a.or_else(b)`.
abbrev or_else : Option FilePath → Option FilePath → Option FilePath
or_else none b = b
or_else (some a) b = some a

-- `filter(…).unwrap_or_else(…)`: an empty path counts as none.
unfoldable pub or_root : Option FilePath → FilePath
or_root none = root_dir ∷ []
or_root (some cwd) = if is_empty cwd then root_dir ∷ [] else cwd

unfoldable pub target_cwd : Option FilePath → Option Bundle → Option Process → FilePath
unfolding cwd_of or_root
target_cwd given bundle process =
    or_root (or_else (or_else given (and_then process (λ p. some p.cwd))) (and_then bundle cwd_of))

unfoldable pub target_user : Option Text → Option Process → Result (Option ℕ × Option ℕ)
unfolding parse_user
target_user (some text) process = parse_user text
target_user none (some process) = ok (some process.user.uid, some process.user.gid)
target_user none none = ok (none, none)

unfoldable pub target_groups : List ℕ → Option Process → List ℕ
target_groups (g ∷ gs) process = g ∷ gs
target_groups [] none = []
target_groups [] (some process) = flatten process.user.additional_gids

unfoldable pub target_terminal : Bool → Option Process → Bool
target_terminal tty none = tty
target_terminal tty (some process) = or_false process.terminal

-- `.ok()`.
abbrev ok_of {ℓ} : {A : Type ℓ} → Result A → Option A
ok_of (ok a) = some a
ok_of (err e) = none

module _ (os : Os) (js : Json) where
  unfoldable pub read_process : Option FilePath → os.World → Result (Option Process)
  read_process none w = ok none
  read_process (some path) w = do
    text ← io_ctx "read" (os.read_to_string path w)
    elim (js.process_from_str text) [ none ↦ err json | some process ↦ ok (some process) ]

  unfoldable pub target_from : Option Bundle → Option Process → ExecOptions → Result Target
  unfolding target_argv add_env base_env target_cwd target_user target_groups target_terminal
  target_from bundle process options = do
    argv ← target_argv options.argv process
    env ← add_env (base_env bundle process) options.env
    user ← target_user options.user process
    ok (record {
      argv = argv;
      env = env;
      cwd = target_cwd options.cwd bundle process;
      uid = user.0;
      gid = user.1;
      groups = target_groups options.additional_gids process;
      terminal = target_terminal options.tty process;
    })

  -- A bundle that cannot be loaded again counts as none.
  unfoldable pub resolve_target : Container → ExecOptions → os.World → Result Target
  unfolding read_process target_from
  resolve_target container options w = do
    process ← read_process options.process w
    target_from (ok_of (Load.load os js.spec_from_str container.state.bundle w)) process options
