-- ===== src/Os.antt =====
-- The operating system as the runtime calls it: a type of worlds, what can be observed of one,
-- and calls that return an answer and the world after it. The environment moves a world in the
-- calls that wait; an observation leaves it as it is. A process that the runtime forks is part of
-- the environment: what it does is seen in the answers of later calls.
pub mod Laws
pub mod Answered
use marstack_container.Prelude.{ℕ, Bool, Option, List}
use marstack_container.Prelude.Int.{ℤ}
use marstack_container.Std.Text.{Text}
use marstack_container.Std.FilePath.{FilePath}
use marstack_container.Error.{Result, ok, err, io, nix, syscall}
use marstack_container.Exec.{Exec}
use marstack_container.Syscall.{MountCall, Syscall, WaitStatus}
use Prim.Native.String.{String}

-- The answer of a system call: a value, or an error number.
pub data Answer (A : Type 0) : Type 0 where
  done : A → Answer A
  failed : ℕ → Answer A

-- `.ctx(…)` on an error of `std::io`.
abbrev pub io_ctx : {A : Type 0} → String → Answer A → Result A
io_ctx c (done a) = ok a
io_ctx c (failed e) = err (io c e)

-- `.ctx(…)` on an error of nix.
abbrev pub nix_ctx : {A : Type 0} → String → Answer A → Result A
nix_ctx c (done a) = ok a
nix_ctx c (failed e) = err (nix c e)

-- `std::process::Command` with a cleared environment.
pub record Command : Type 0 where
  pub program : FilePath
  pub arg0 : Text
  pub args : List Text
  pub env : List (Text × Text)

pub record Os : Type 1 where
  pub World : Type 0
  pub is_file : FilePath → World → Bool
  pub is_dir : FilePath → World → Bool
  pub exists : FilePath → World → Bool
  pub read_to_string : FilePath → World → Answer Text
  pub write : FilePath → Text → World → Answer (Unit {0}) × World
  pub create_dir : FilePath → World → Answer (Unit {0}) × World
  pub create_dir_all : FilePath → World → Answer (Unit {0}) × World
  pub remove_dir : FilePath → World → Answer (Unit {0}) × World
  pub remove_dir_all : FilePath → World → Answer (Unit {0}) × World
  pub remove_file : FilePath → World → Answer (Unit {0}) × World
  pub rename : FilePath → FilePath → World → Answer (Unit {0}) × World
  pub read_dir : FilePath → World → Answer (List Text)
  pub kill : ℤ → ℕ → World → Answer (Unit {0}) × World
  pub sleep : ℕ → World → World
  -- `statfs` of the cgroup mount point answers with the magic number of cgroup v2.
  pub cgroup2_mounted : World → Bool
  -- Opening a fifo for reading waits for a writer; the byte read from it is none at its end.
  pub open_fifo : FilePath → World → Answer (Unit {0}) × World
  pub read_fifo : FilePath → World → Answer (Option ℕ) × World
  pub canonicalize : FilePath → World → Answer FilePath
  -- A child process, by a number: its start with piped streams, its input, and its end, which is
  -- whether it succeeded.
  pub spawn : Command → World → Answer ℕ × World
  pub write_stdin : ℕ → Text → World → Answer (Unit {0}) × World
  pub wait : ℕ → World → Answer Bool × World
  pub try_wait : ℕ → World → Answer (Option Bool) × World
  pub kill_child : ℕ → World → Answer (Unit {0}) × World
  -- `File::create`, and whether a symbolic link, or anything else, is there.
  pub create_file : FilePath → World → Answer (Unit {0}) × World
  pub link_exists : FilePath → World → Bool
  pub symlink : FilePath → FilePath → World → Answer (Unit {0}) × World
  pub mount : MountCall → World → Answer (Unit {0}) × World
  -- The monotonic clock, in milliseconds.
  pub instant : World → ℕ
  -- The calls that answer nothing.
  pub sys : Syscall → World → Answer (Unit {0}) × World
  -- Opening a file for its handle.
  pub open_path : FilePath → World → Answer ℕ × World
  -- The rest of the standard input.
  pub read_stdin : World → Answer Text
  -- `File::create` for its handle.
  pub create_handle : FilePath → World → Answer ℕ × World
  -- `symlink_metadata`: whether it is a directory, if anything is there.
  pub link_is_dir : FilePath → World → Option Bool
  pub read_link : FilePath → World → Option FilePath
  -- `metadata(path)?.dev()`.
  pub device : FilePath → World → Answer ℕ
  -- Whether the effective user is root.
  pub is_root : World → Bool
  -- The wall clock: seconds since 1970, and nanoseconds.
  pub wall_clock : World → ℕ × ℕ
  -- The parent's side of `fork`, and the end of a child.
  pub fork : World → Answer ℤ × World
  pub waitpid : ℤ → World → Answer (Unit {0}) × World
  -- `waitpid(None, WNOHANG)`, and how many changes of children there are to be told.
  pub reap : World → Answer WaitStatus × World
  pub reapable : World → ℕ
  -- `sigwait` on the signals that are blocked.
  pub sigwait : World → Answer ℕ × World
  -- The packets of the socket that joins the runtime and the container's init. A packet that is
  -- longer than the buffer is cut to its size.
  pub recv : ℕ → World → Answer Text × World
  pub send : Text → World → Answer (Unit {0}) × World
  -- A program with its arguments in the runtime's own environment, run to its end: whether it
  -- succeeded.
  pub output : FilePath → List Text → World → Answer Bool × World
  -- A stream socket as a handle, and its connection to the address of a path.
  pub unix_socket : World → Answer ℕ × World
  pub connect_socket : ℕ → FilePath → World → Answer (Unit {0}) × World

module _ (os : Os) {A : Type 0} where
  -- A call, with the context of its error.
  abbrev pub call : String → (os.World → Answer A × os.World) → Exec os.World A
  call c f w = let (a, w') = f w in (io_ctx c a, w')

  abbrev pub nix_call : String → (os.World → Answer A × os.World) → Exec os.World A
  nix_call c f w = let (a, w') = f w in (nix_ctx c a, w')

  -- A call of nix whose error is returned as it is.
  abbrev pub plain_call : (os.World → Answer A × os.World) → Exec os.World A
  plain_call f w = let (a, w') = f w in (elim a [ done x ↦ ok x | failed e ↦ err (syscall e) ], w')
