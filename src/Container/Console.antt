-- ===== src/Container/Console.antt =====
-- container/console.rs: the terminal of a container's process. The calls on terminals are the parameter `Pty`.
use marstack_container.Prelude.{ℕ, ◌==◌, ltb, not, Option, none, some, List, [], ◌∷◌, if◌then◌else◌}
use marstack_container.Std.Text.{Text, codes}
use marstack_container.Std.FilePath.{FilePath, root_dir, normal, components}
use marstack_container.Error.{ok, err, invalid}
use marstack_container.Exec.{Exec, gets, when, ◌>>=◌, ◌>>◌}
use marstack_container.Os.{Os, Answer, done, failed, call, nix_call}
use marstack_container.Syscall.{flags_of, ms_bind}
use marstack_container.Rootfs.Harden.{plain}

-- `openpty` answers the master and the slave, `ptsname_r` the bytes of a buffer that starts empty,
-- and `send_fd` sends a text with a handle over a socket.
pub record Pty (os : Os) : Type 0 where
  pub openpty : os.World → Answer (ℕ × ℕ) × os.World
  pub ptsname_r : ℕ → os.World → Answer (List ℕ)
  pub send_fd : ℕ → Text → ℕ → os.World → Answer (Unit {0}) × os.World
  pub close : ℕ → os.World → os.World
  pub setsid : os.World → Answer (Unit {0}) × os.World
  pub tiocsctty : ℕ → os.World → Answer (Unit {0}) × os.World
  pub dup2 : ℕ → ℕ → os.World → Answer (Unit {0}) × os.World

abbrev pub console_path : FilePath
console_path = root_dir ∷ normal (codes "dev") ∷ normal (codes "console") ∷ []

-- The bytes before the first that is 0; none if there is no such byte.
unfoldable pub until_nul : List ℕ → Option Text
until_nul [] = none
until_nul (b ∷ bs) =
    let rest = until_nul bs in
    if b == 0 then some [] else elim rest [ none ↦ none | some name ↦ some (b ∷ name) ]

abbrev pub or_no_text : Option Text → Text
or_no_text none = []
or_no_text (some t) = t

module _ (os : Os) where
  unfoldable pub open_socket : FilePath → Exec os.World ℕ
  open_socket path = do
    stream ← nix_call os "create a socket for the console handover" os.unix_socket
    nix_call os "connect to the console socket" (os.connect_socket stream path)
    (λ w. (ok stream, w))

module _ (os : Os) (pty : Pty os) where
  unfoldable pub pty_name : ℕ → Exec os.World Text
  unfolding until_nul
  pty_name master w = elim (pty.ptsname_r master w) [
    | failed e ↦ (err (invalid "ptsname_r failed for the pty master"), w)
    | done buffer ↦ (ok (or_no_text (until_nul buffer)), w)
  ]

  unfoldable pub send_master : ℕ → ℕ → Text → Exec os.World (Unit {0})
  send_master socket master name =
      nix_call os "send the pty master over SCM_RIGHTS" (pty.send_fd socket name master)

  unfoldable pub bind_console : Text → Exec os.World (Unit {0})
  bind_console name = do
    present ← gets (os.exists console_path)
    when (not present)
        (call os "create /dev/console as a bind target" (os.create_file console_path))
    nix_call os "bind onto /dev/console"
        (os.mount (plain (some (components name)) console_path (flags_of (ms_bind ∷ []))))

  -- The terminal becomes the controlling one, and the standard streams.
  unfoldable pub claim : ℕ → Exec os.World (Unit {0})
  claim slave w =
      let (answer, w') = pty.tiocsctty slave w in
      elim answer [
        | done _ ↦ (ok tt, w')
        | failed e ↦ (err (invalid "ioctl(TIOCSCTTY) failed"), w')
      ]

  unfoldable pub close : ℕ → Exec os.World (Unit {0})
  close handle w = (ok tt, pty.close handle w)

  unfoldable pub adopt : ℕ → Exec os.World (Unit {0})
  unfolding claim close
  adopt slave = do
    nix_call os "setsid to become a session leader" pty.setsid
    claim slave
    nix_call os "dup the pty onto stdin" (pty.dup2 slave 0)
    nix_call os "dup the pty onto stdout" (pty.dup2 slave 1)
    nix_call os "dup the pty onto stderr" (pty.dup2 slave 2)
    when (ltb 2 slave) (close slave)

  unfoldable pub setup : ℕ → Exec os.World (Unit {0})
  unfolding pty_name send_master close bind_console adopt
  setup socket = do
    handles ← nix_call os "openpty inside the container" pty.openpty
    name ← pty_name handles.0
    send_master socket handles.0 name
    close handles.0
    bind_console name
    adopt handles.1
