-- ===== src/Container/Fifo.antt =====
-- container/fifo.rs: the fifo on which a created container waits for `start`.
use marstack_container.Prelude.{ℕ, Option, none, some, [], ◌∷◌, ◌==◌}
use marstack_container.Std.Text.{codes}
use marstack_container.Std.Decimal.{to_string}
use marstack_container.Std.FilePath.{FilePath, root_dir, normal}
use marstack_container.Syscall.{mkfifo, set_permissions, write_handle}
use marstack_container.Error.{ok, invalid, init_failed, sync}
use marstack_container.Exec.{Exec, raise, look, gets, when, guard, ◌>>=◌, ◌>>◌}
use marstack_container.Os.{Os, call, nix_call}

abbrev pub handshake : ℕ
handshake = b'0'

abbrev pub mode : ℕ
mode = 0o622

module _ (os : Os) where
  unfoldable pub create : FilePath → Exec os.World ℕ
  create path = do
    stale ← gets (os.exists path)
    when stale (call os "remove a stale fifo" (os.remove_file path))
    nix_call os "mkfifo" (os.sys (mkfifo path mode))
    call os "chmod" (os.sys (set_permissions path mode))
    nix_call os "open with O_PATH" (os.open_path path)

  -- The init's side: the handle is opened again for writing, which waits for a reader.
  unfoldable pub park : ℕ → Exec os.World (Unit {0})
  park handle = do
    let magic =
        root_dir
        ∷ normal (codes "proc")
        ∷ normal (codes "self")
        ∷ normal (codes "fd")
        ∷ normal (to_string handle)
        ∷ []
    writer ← nix_call os "reopen the exec fifo" (os.open_path magic)
    nix_call os "announce readiness on the exec fifo"
        (os.sys (write_handle writer (handshake ∷ [])))

  check_byte : Option ℕ → Exec os.World (Unit {0})
  check_byte none =
      raise (init_failed (codes "the container init closed the exec fifo without writing"))
  check_byte (some b) = guard (b == handshake) (sync "unexpected byte on the exec fifo")

  unfoldable pub release : FilePath → Exec os.World (Unit {0})
  unfolding check_byte
  release path = do
    present ← look (λ w. ok (os.exists path w))
    guard present (invalid "is gone, so the container was already started")
    nix_call os "open the exec fifo" (os.open_fifo path)
    byte ← nix_call os "read the exec fifo handshake" (os.read_fifo path)
    check_byte byte
    call os "remove so start cannot run twice" (os.remove_file path)
