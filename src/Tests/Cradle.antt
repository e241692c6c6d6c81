-- ===== src/Tests/Cradle.antt =====
-- A small machine to create containers on: it keeps the file that was written last and knows the
-- stat file of process 42, every directory is there, and packets wait for the runtime.
use marstack_container.Prelude.{
  ℕ, ◌≡◌, ◌≢◌, ◌<◌, refl, Bool, true, false, Option, none, some, List, [], ◌∷◌, arith,
  if◌then◌else◌, length,
}
use marstack_container.Prelude.Int.{pos}
use marstack_container.Std.Text.{Text}
use marstack_container.Std.FilePath.{FilePath, path_eq, path_eq_self}
use marstack_container.Os.{Os, Answer, done, failed}
use marstack_container.Os.Laws.{FsLaws, ReapLaws}
use marstack_container.State.{stat_path}
use marstack_container.Syscall.{WaitStatus, still_alive}
use marstack_container.Tests.Samples.{stat_text}

pub record Cradle : Type 0 where
  pub place : FilePath
  pub text : Text
  pub packets : List Text
  -- The signals to come, and what waitpid has still to tell.
  pub signals : List ℕ
  pub ended : List WaitStatus

unfoldable pub look_up : FilePath → Cradle → Option Text
look_up p w =
    if path_eq p w.place
    then some w.text
    else if path_eq p (stat_path (pos 42))
    then some stat_text
    else none

abbrev pub is_there : Option Text → Bool
is_there none = false
is_there (some t) = true

abbrev pub text_of : Option Text → Text
text_of none = []
text_of (some t) = t

unfoldable pub put : FilePath → Text → Cradle → Answer (Unit {0}) × Cradle
put p t w = (done tt, record w { place = p; text = t })

unfoldable pub move_text : FilePath → Option Text → Cradle → Answer (Unit {0}) × Cradle
move_text q none w = (failed 2, w)
move_text q (some t) w = (done tt, record w { place = q; text = t })

abbrev pub next_packet : List Text → Cradle → Answer Text × Cradle
next_packet [] w = (done [], w)
next_packet (t ∷ ts) w = (done t, record w { packets = ts })

abbrev pub next_signal : List ℕ → Cradle → Answer ℕ × Cradle
next_signal [] w = (failed 4, w)
next_signal (s ∷ ss) w = (done s, record w { signals = ss })

abbrev pub next_ended : List WaitStatus → Cradle → Answer WaitStatus × Cradle
next_ended [] w = (done still_alive, w)
next_ended (s ∷ ss) w = (done s, record w { ended = ss })

abbrev pub cradle : Os
cradle = record {
  World = Cradle;
  is_file = λ p w. is_there (look_up p w);
  is_dir = λ p w. true;
  exists = λ p w. false;
  read_to_string = λ p w. done (text_of (look_up p w));
  write = put;
  create_dir = λ p w. (done tt, w);
  create_dir_all = λ p w. (done tt, w);
  remove_dir = λ p w. (done tt, w);
  remove_dir_all = λ p w. (done tt, w);
  remove_file = λ p w. (done tt, w);
  rename = λ p q w. move_text q (look_up p w) w;
  read_dir = λ p w. done [];
  kill = λ pid signal w. (done tt, w);
  sleep = λ n w. w;
  cgroup2_mounted = λ w. true;
  open_fifo = λ p w. (done tt, w);
  read_fifo = λ p w. (done (some b'0'), w);
  canonicalize = λ p w. done p;
  spawn = λ c w. (done 7, w);
  write_stdin = λ child t w. (done tt, w);
  wait = λ child w. (done true, w);
  try_wait = λ child w. (done (some true), w);
  kill_child = λ child w. (done tt, w);
  create_file = λ p w. (done tt, w);
  link_exists = λ p w. false;
  symlink = λ p q w. (done tt, w);
  mount = λ c w. (done tt, w);
  instant = λ w. 0;
  sys = λ c w. (done tt, w);
  open_path = λ p w. (done 3, w);
  read_stdin = λ w. done [];
  create_handle = λ p w. (done 5, w);
  link_is_dir = λ p w. some true;
  read_link = λ p w. none;
  device = λ p w. done 1;
  is_root = λ w. true;
  wall_clock = λ w. (1_700_000_000, 5);
  fork = λ w. (done (pos 41), w);
  waitpid = λ pid w. (done tt, w);
  reap = λ w. next_ended w.ended w;
  reapable = λ w. length w.ended;
  sigwait = λ w. next_signal w.signals w;
  recv = λ n w. next_packet w.packets w;
  send = λ t w. (done tt, w);
  output = λ p args w. (done true, w);
  unix_socket = λ w. (done 4, w);
  connect_socket = λ s p w. (done tt, w);
}

move_text-eq :
    (p q : FilePath) (o : Option Text) (w w' : Cradle)
    → look_up p w ≡ o
    → move_text q o w ≡ (done tt, w')
    → (text_of (look_up q w') ≡ text_of o) × (is_there (look_up q w') ≡ is_there o)
unfolding move_text look_up
move_text-eq p q none w w' e h = absurd (ground arith)
move_text-eq p q (some t) w w' e h =
    (ground (arith, path_eq_self q), ground (arith, path_eq_self q))

pub cradle_files : FsLaws cradle
unfolding put look_up
cradle_files = record {
  remove_file_gone = λ p w w' h. refl;
  remove_dir_all_gone = λ p w w' h. refl;
  write_reads = λ p t w w' h. ground (arith, path_eq_self p);
  rename_moves = λ p q w w' h.
      let (same, there) = move_text-eq p q (look_up p w) w w' refl h in
      ((λ i. done (same i)), there);
}

next_ended-fewer :
    (ended : List WaitStatus) (status : WaitStatus) (w w' : Cradle)
    → next_ended ended w ≡ (done status, w')
    → status ≢ still_alive
    → length w'.ended < length ended
next_ended-fewer [] status w w' h s = absurd (s (ground arith))
next_ended-fewer (t ∷ ts) status w w' h s = ground arith

pub cradle_reap : ReapLaws cradle
cradle_reap = record { reap_tells = λ status w w' h s. next_ended-fewer w.ended status w w' h s }
