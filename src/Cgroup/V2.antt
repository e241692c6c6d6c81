-- ===== src/Cgroup/V2.antt =====
-- cgroup/v2.rs: a cgroup's directory, made with its controllers delegated, frozen, listed, removed.
use marstack_container.Prelude.{
  ℕ, zero, suc, Bool, true, false, not, ◌&&◌, Option, none, some, List, [], ◌∷◌, if◌then◌else◌, ltb,
  ◌==◌, any, is_empty,
}
use marstack_container.Prelude.Int.{ℤ}
use marstack_container.Std.Text.{Text, codes, text_eq, lines, trim, split_whitespace, join}
use marstack_container.Std.Decimal.{int_to_string, parse_i32}
use marstack_container.Std.FilePath
use marstack_container.Std.FilePath.{
  FilePath, Component, root_dir, cur_dir, parent_dir, normal, components, parent, path_eq,
}
use marstack_container.Error.{Result, ok, err, io, invalid, no_cgroup_v2}
use marstack_container.Exec.{Exec, pure, look, ignore, when, ◌>>=◌, ◌>>◌}
use marstack_container.Os.{Os, done, failed, io_ctx, call}
use marstack_container.Cgroup.Events.{parse_flat_keyed, value_of}

abbrev pub mount_point : FilePath
mount_point = root_dir ∷ normal (codes "sys") ∷ normal (codes "fs") ∷ normal (codes "cgroup") ∷ []

abbrev pub default_parent : Text
default_parent = codes "mars"

abbrev wanted : List Text
wanted = codes "memory" ∷ codes "pids" ∷ codes "cpu" ∷ codes "cpuset" ∷ codes "io" ∷ []

-- libc::EBUSY.
abbrev pub ebusy : ℕ
ebusy = 16

pub record Cgroup : Type 0 where
  pub path : FilePath
  pub relative : FilePath

-- Only the named components of a path.
unfoldable pub normalise : FilePath → FilePath
normalise [] = []
normalise (normal part ∷ cs) = normal part ∷ normalise cs
normalise (_ ∷ cs) = normalise cs

unfoldable pub relative_path : Option FilePath → Text → FilePath
unfolding normalise
relative_path none id = FilePath.join (components default_parent) (components id)
relative_path (some path) id =
    if is_empty path
    then FilePath.join (components default_parent) (components id)
    else normalise path

unfoldable pub attach : FilePath → Cgroup
attach relative = record { path = FilePath.join mount_point relative; relative = relative }

-- The file of that name in the cgroup's directory.
unfoldable pub file_path : Cgroup → Text → FilePath
file_path cg file = FilePath.join cg.path (components file)

-- The controllers to switch on: wanted, available, and not enabled yet.
unfoldable pub missing_from : List Text → List Text → List Text → List Text
missing_from available enabled [] = []
missing_from available enabled (c ∷ cs) =
    if any (λ have. text_eq have c) available && not (any (λ have. text_eq have c) enabled)
    then (b'+' ∷ c) ∷ missing_from available enabled cs
    else missing_from available enabled cs

abbrev pub bool_eq : Bool → Bool → Bool
bool_eq true b = b
bool_eq false b = not b

-- The pids in the text of cgroup.procs; a line that is no number is passed over.
unfoldable pub parse_pids : List Text → List ℤ
parse_pids [] = []
parse_pids (l ∷ ls) = elim (parse_i32 (trim l)) [
  | none ↦ parse_pids ls
  | some p ↦ p ∷ parse_pids ls
]

-- `unwrap_or_default` of a list.
abbrev or_empty : Result (List Text) → List Text
or_empty (ok xs) = xs
or_empty (err e) = []

module _ (os : Os) where
  unfoldable pub read : Cgroup → Text → os.World → Result Text
  unfolding file_path
  read cg file w = io_ctx "read" (os.read_to_string (file_path cg file) w)

  unfoldable pub write : Cgroup → Text → Text → Exec os.World (Unit {0})
  unfolding file_path
  write cg file value = call os "write" (os.write (file_path cg file) value)

  unfoldable pub is_frozen : Cgroup → os.World → Bool
  unfolding read
  is_frozen cg w = elim (read cg (codes "cgroup.events") w) [
    | ok text ↦ value_of (codes "frozen") (parse_flat_keyed text) == 1
    | err e ↦ false
  ]

  unfoldable pub procs : Cgroup → os.World → Result (List ℤ)
  unfolding read
  procs cg w = elim (read cg (codes "cgroup.procs") w) [
    | ok text ↦ ok (parse_pids (lines text))
    | err e ↦ err e
  ]

  unfoldable pub add_process : Cgroup → ℤ → Exec os.World (Unit {0})
  add_process cg pid = write cg (codes "cgroup.procs") (int_to_string pid)

  -- The polls that are left; the kernel freezes while the runtime sleeps.
  unfoldable pub wait_frozen : ℕ → Cgroup → Bool → Exec os.World (Unit {0})
  wait_frozen zero cg frozen w = (err (invalid "did not reach the frozen state within 5s"), w)
  wait_frozen (suc n) cg frozen w =
      let rest = wait_frozen n cg frozen (os.sleep 10 w) in
      if bool_eq (is_frozen cg w) frozen then (ok tt, w) else rest

  unfoldable pub freeze : Cgroup → Bool → Exec os.World (Unit {0})
  freeze cg frozen = do
    write cg (codes "cgroup.freeze") (if frozen then codes "1" else codes "0")
    wait_frozen 500 cg frozen

  -- The attempts that are left; only the last one reports that the directory is busy.
  unfoldable pub remove_attempts : ℕ → FilePath → Exec os.World (Unit {0})
  remove_attempts zero path w = (ok tt, w)
  remove_attempts (suc n) path w =
      let (answer, w') = os.remove_dir path w in
      let retry = remove_attempts n path (os.sleep 20 w') in
      elim answer [
        | done _ ↦ (ok tt, w')
        | failed e ↦ if e == ebusy && ltb 0 n then retry else (err (io "remove cgroup" e), w')
      ]

  unfoldable pub remove_parent : Cgroup → Exec os.World (Unit {0})
  remove_parent cg = elim (parent cg.path) [
    | none ↦ pure tt
    | some p ↦ when (not (path_eq p mount_point)) (ignore (call os "" (os.remove_dir p)))
  ]

  unfoldable pub destroy : Cgroup → Exec os.World (Unit {0})
  unfolding remove_parent
  destroy cg = do remove_attempts 50 cg.path; remove_parent cg

  unfoldable pub read_list : FilePath → os.World → Result (List Text)
  read_list path w = elim (io_ctx "read" (os.read_to_string path w)) [
    | ok text ↦ ok (split_whitespace text)
    | err e ↦ err e
  ]

  unfoldable pub delegate : FilePath → Exec os.World (Unit {0})
  unfolding read_list missing_from
  delegate dir = do
    let control = FilePath.join dir (normal (codes "cgroup.subtree_control") ∷ [])
    available ← look (read_list (FilePath.join dir (normal (codes "cgroup.controllers") ∷ [])))
    enabled ← look (λ w. ok (or_empty (read_list control w)))
    let missing = missing_from available enabled wanted
    when (not (is_empty missing))
        (call os "enable controllers" (os.write control (join (codes " ") missing)))

  -- The body of the loop: the controllers of a directory, and the directory below it.
  unfoldable pub make_level : FilePath → FilePath → Exec os.World (Unit {0})
  unfolding delegate
  make_level current next = do
    delegate current
    present ← look (λ w. ok (os.is_dir next w))
    when (not present) (call os "create cgroup" (os.create_dir next))

  -- One level of the hierarchy for each named component.
  unfoldable pub create_levels : FilePath → FilePath → Exec os.World FilePath
  create_levels current [] = pure current
  create_levels current (normal part ∷ parts) =
      let next = FilePath.join current (normal part ∷ []) in
      make_level current next >> create_levels next parts
  create_levels current (_ ∷ parts) = create_levels current parts

  unfoldable pub create : FilePath → Exec os.World Cgroup
  create relative w =
      if os.cgroup2_mounted w
      then (create_levels mount_point relative >>= λ path.
            pure (record { path = path; relative = relative }))
          w
      else (err no_cgroup_v2, w)
