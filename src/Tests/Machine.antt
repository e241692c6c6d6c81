-- ===== src/Tests/Machine.antt =====
-- A machine to run the definitions on: a disk, a list of processes' deaths written on it, and a
-- clock. The cgroup of a directory freezes as soon as it is told to, and a directory stays busy for
-- the first 40 milliseconds.
use marstack_container.Prelude.{
  ℕ, ◌+◌, ◌≡◌, Bool, true, false, Option, none, some, [], ◌∷◌, ◌++◌, arith, ltb, append-nil,
  if◌then◌else◌, List, is_empty, length, zero, suc, ◌/◌,
}
use marstack_container.Prelude.Int.{pos}
use marstack_container.Std.Text.{Text, codes, text_eq}
use marstack_container.Std.FilePath.{
  FilePath, normal, path_eq, path_eq_self, starts_with, starts_with-append,
}
use marstack_container.Os.{Os, Answer, done, failed}
use marstack_container.Os.Laws.{FsLaws, ClockLaws}
use marstack_container.State.{stat_path}
use marstack_container.Syscall.{Syscall, WaitStatus, still_alive}
use mathlib.Core.Option

pub record Machine : Type 0 where
  pub disk : FilePath → Option Text
  pub clock : ℕ
  -- The calls that were made, the last one first, and the packets that wait.
  pub trace : List Syscall
  pub inbox : List Text
  pub sent : List Text
  -- What waitpid has still to tell.
  pub ended : List WaitStatus

abbrev pub is_some : Option Text → Bool
is_some none = false
is_some (some t) = true

abbrev pub contents : Option Text → Answer Text
contents none = failed 2
contents (some t) = done t

-- The file whose text follows what is written to `cgroup.freeze`.
unfoldable pub events_of : FilePath → FilePath
events_of [] = []
events_of (normal s ∷ []) =
    if text_eq s (codes "cgroup.freeze") then normal (codes "cgroup.events") ∷ [] else []
events_of (c ∷ cs) = elim (events_of cs) [ [] ↦ [] | (d ∷ ds) ↦ c ∷ d ∷ ds ]

unfoldable pub write : FilePath → Text → Machine → Answer (Unit {0}) × Machine
write p t m = (
  done tt,
  record m {
    disk = λ q.
        if path_eq q p
        then some t
        else if path_eq q (events_of p)
        then some (codes "populated 1\nfrozen " ++ t)
        else m.disk q;
  },
)

unfoldable pub erase : FilePath → Machine → Machine
erase p m = record m { disk = λ q. if path_eq q p then none else m.disk q }

unfoldable pub erase_all : FilePath → Machine → Machine
erase_all p m = record m { disk = λ q. if starts_with q p then none else m.disk q }

unfoldable pub rename : FilePath → FilePath → Machine → Answer (Unit {0}) × Machine
rename p q m = (
  done tt,
  record m { disk = λ x. if path_eq x q then m.disk p else if path_eq x p then none else m.disk x },
)

unfoldable pub remove_dir : FilePath → Machine → Answer (Unit {0}) × Machine
remove_dir p m = if ltb m.clock 40 then (failed 16, m) else (done tt, erase p m)

abbrev pub take : ℕ → Text → Text
take n [] = []
take zero (c ∷ cs) = []
take (suc n) (c ∷ cs) = c ∷ take n cs

abbrev pub next_packet : ℕ → List Text → Machine → Answer Text × Machine
next_packet n [] m = (done [], m)
next_packet n (t ∷ ts) m = (done (take n t), record m { inbox = ts })

abbrev pub next_ended : List WaitStatus → Machine → Answer WaitStatus × Machine
next_ended [] m = (done still_alive, m)
next_ended (s ∷ ss) m = (done s, record m { ended = ss })

abbrev pub machine : Os
machine = record {
  World = Machine;
  is_file = λ p m. is_some (m.disk p);
  is_dir = λ p m. is_some (m.disk p);
  exists = λ p m. is_some (m.disk p);
  read_to_string = λ p m. contents (m.disk p);
  write = write;
  create_dir = λ p m. write p [] m;
  create_dir_all = λ p m. write p [] m;
  remove_dir = remove_dir;
  remove_dir_all = λ p m. (done tt, erase_all p m);
  remove_file = λ p m. (done tt, erase p m);
  rename = rename;
  read_dir = λ p m. done [];
  kill = λ pid signal m. (done tt, erase (stat_path pid) m);
  sleep = λ n m. record m { clock = m.clock + n };
  cgroup2_mounted = λ m. true;
  open_fifo = λ p m. (done tt, m);
  read_fifo = λ p m. (done (some b'0'), m);
  canonicalize = λ p m. done p;
  spawn = λ c m. (done 7, m);
  write_stdin = λ child t m. (done tt, m);
  wait = λ child m. (done true, m);
  try_wait = λ child m. (done (if ltb m.clock 20 then none else some true), m);
  kill_child = λ child m. (done tt, m);
  create_file = λ p m. write p [] m;
  link_exists = λ p m. is_some (m.disk p);
  symlink = λ p q m. write q [] m;
  mount = λ c m. (done tt, m);
  instant = λ m. m.clock;
  sys = λ c m. (done tt, record m { trace = c ∷ m.trace });
  open_path = λ p m. (done 3, m);
  read_stdin = λ m. done [];
  create_handle = λ p m. (done 5, m);
  link_is_dir = λ p m. Option.map is_empty (m.disk p);
  read_link = λ p m. none;
  device = λ p m. done 1;
  is_root = λ m. true;
  wall_clock = λ m. (1_700_000_000 + m.clock / 1_000, 0);
  fork = λ m. (done (pos 41), m);
  waitpid = λ pid m. (done tt, m);
  reap = λ m. next_ended m.ended m;
  reapable = λ m. length m.ended;
  sigwait = λ m. (done 17, m);
  recv = λ n m. next_packet n m.inbox m;
  send = λ t m. (done tt, record m { sent = t ∷ m.sent });
  output = λ p args m. (done true, m);
  unix_socket = λ m. (done 4, m);
  connect_socket = λ s p m. (done tt, m);
}

starts_with_self : (p : FilePath) → starts_with p p ≡ true
starts_with_self p = rw (append-nil p) at (starts_with-append p [])

pub machine_files : FsLaws machine
unfolding write rename erase erase_all
machine_files = record {
  remove_file_gone = λ p m m' h. ground (arith, path_eq_self p);
  remove_dir_all_gone = λ p m m' h. ground (arith, starts_with_self p);
  write_reads = λ p t m m' h. ground (arith, path_eq_self p);
  rename_moves = λ p q m m' h. ground (arith, path_eq_self q);
}

pub machine_clock : ClockLaws machine
machine_clock = record {
  sleep_advances = λ n m. omega arith;
  try_wait_advances = λ child m. omega arith;
}
