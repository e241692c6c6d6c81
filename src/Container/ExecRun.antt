-- ===== src/Container/ExecRun.antt =====
-- container/exec.rs: a second process in a container, as the runtime's process and as the process
-- itself see it.
use marstack_container.Prelude.{
  ℕ, Bool, true, false, not, ◌&&◌, Option, none, some, List, [], ◌∷◌, is_empty, ltb, length,
  if◌then◌else◌,
}
use marstack_container.Prelude.Int.{ℤ}
use marstack_container.Std.Text.{Text, codes, contains}
use marstack_container.Std.Decimal.{int_to_string}
use marstack_container.Std.FilePath
use marstack_container.Std.FilePath.{FilePath, root_dir, normal, path_eq}
use marstack_container.Spec.{NamespaceType, mount, pid, network, ipc, uts, user, cgroup, time}
use marstack_container.Error.{Result, ok, err, bad_state, invalid, nul_byte}
use marstack_container.Exec.{
  Exec, pure, lift, look, gets, when, guard, if_some, for_each, ◌>>=◌, ◌>>◌,
}
use marstack_container.Os.{Os, io_ctx, call, nix_call, plain_call}
use marstack_container.Syscall.{
  chdir, setns, setgroups, setgid, setuid, execve, socketpair, write_handle,
}
use marstack_container.Paths.{Layout}
use marstack_container.State.{
  Status, creating, created, running, stopped, paused, display, Container, Json, load, status,
  cgroup_of,
}
use marstack_container.Bundle.Load.{resolve_executable, to_cstrings}
use marstack_container.Sync.{Codec, cgroup_applied, send, expect}
use marstack_container.Container.Signals.{block_forwardable, unblock_all}
use marstack_container.Container.Spawn.{open_console}
use marstack_container.Container.Console.{Pty, setup}
use marstack_container.Container.Run.{supervise}
use marstack_container.Container.ExecTarget.{ExecOptions, Target, resolve_target}

abbrev pub join_order : List NamespaceType
join_order = user ∷ ipc ∷ uts ∷ network ∷ pid ∷ cgroup ∷ mount ∷ []

-- The name under /proc/{pid}/ns.
unfoldable pub ns_name : NamespaceType → Text
ns_name user = codes "user"
ns_name ipc = codes "ipc"
ns_name uts = codes "uts"
ns_name network = codes "net"
ns_name pid = codes "pid"
ns_name cgroup = codes "cgroup"
ns_name mount = codes "mnt"
ns_name time = codes "time"

unfoldable pub ns_path : Text → NamespaceType → FilePath
unfolding ns_name
ns_path process kind =
    root_dir
    ∷ normal (codes "proc")
    ∷ normal process
    ∷ normal (codes "ns")
    ∷ normal (ns_name kind)
    ∷ []

-- A status in which a process can be started in the container.
unfoldable pub check_status : Text → Status → Bool → Result (Unit {0})
check_status id stopped ignore_paused =
    err (bad_state id (display stopped) (codes "created or running"))
check_status id creating ignore_paused =
    err (bad_state id (display creating) (codes "created or running"))
check_status id paused false =
    err (bad_state id (codes "paused") (codes "running; pass --ignore-paused to exec anyway"))
check_status id paused true = ok tt
check_status id created ignore_paused = ok tt
check_status id running ignore_paused = ok tt

unfoldable pub check_terminal : Option FilePath → Bool → Result (Unit {0})
check_terminal none true = err (invalid "no --console-socket was given")
check_terminal (some path) false = err (invalid "--console-socket was given without a terminal")
check_terminal none false = ok tt
check_terminal (some path) true = ok tt

-- `ours.is_some() && ours == target`.
unfoldable pub is_shared : Option FilePath → Option FilePath → Bool
is_shared none target = false
is_shared (some a) none = false
is_shared (some a) (some b) = path_eq a b

abbrev first_of : List Text → Text
first_of [] = []
first_of (a ∷ rest) = a

module _ (os : Os) where
  -- A namespace of the init that is there and is not the runtime's own.
  unfoldable pub is_foreign : ℤ → NamespaceType → os.World → Bool
  unfolding ns_path is_shared
  is_foreign init kind w =
      let theirs = ns_path (int_to_string init) kind in
      os.exists theirs w
      && not (is_shared (os.read_link (ns_path (codes "self") kind) w) (os.read_link theirs w))

  unfoldable pub collect_from : ℤ → List NamespaceType → Exec os.World (List (NamespaceType × ℕ))
  unfolding is_foreign
  collect_from init [] = pure []
  collect_from init (kind ∷ kinds) =
      let rest = collect_from init kinds in
      gets (is_foreign init kind) >>= λ foreign.
      if foreign
      then (nix_call os "open" (os.open_path (ns_path (int_to_string init) kind)) >>= λ handle.
          rest >>= λ joins. pure ((kind, handle) ∷ joins))
      else rest

  unfoldable pub collect : ℤ → Exec os.World (List (NamespaceType × ℕ))
  unfolding collect_from
  collect init = collect_from init join_order

  unfoldable pub single_threaded : Exec os.World (Unit {0})
  single_threaded = do
    let tasks =
        root_dir ∷ normal (codes "proc") ∷ normal (codes "self") ∷ normal (codes "task") ∷ []
    threads ← look (λ w. io_ctx "count our own threads" (os.read_dir tasks w))
    guard (ltb (length threads) 2) (invalid "the runtime has more than one thread")

  unfoldable pub open_cgroup_procs : Container → Exec os.World ℕ
  unfolding cgroup_of
  open_cgroup_procs c =
      call os "open cgroup.procs"
        (os.open_path (FilePath.join (cgroup_of c).path (normal (codes "cgroup.procs") ∷ [])))

  unfoldable pub place : ℕ → ℤ → Exec os.World (Unit {0})
  place procs child =
      call os "write the exec process into the container's cgroup"
        (os.sys (write_handle procs (int_to_string child)))

  abbrev pub open_pid_file : Option FilePath → Exec os.World (Option ℕ)
  open_pid_file none = pure none
  open_pid_file (some path) =
      call os "create the pid file" (os.create_handle path) >>= λ handle. pure (some handle)

  unfoldable pub join_all : List (NamespaceType × ℕ) → Exec os.World (Unit {0})
  join_all joins =
      for_each (λ (j : NamespaceType × ℕ). nix_call os "setns" (os.sys (setns j.0 j.1))) joins

  -- The groups and the ids, in this order; without a group id the groups are left as they are.
  unfoldable pub set_ids : Target → Exec os.World (Unit {0})
  set_ids target = do
    if_some target.gid (λ gid. do
      when (not (is_empty target.groups))
          (nix_call os "set the supplementary groups" (os.sys (setgroups target.groups)))
      nix_call os "setgid" (os.sys (setgid gid)))
    if_some target.uid (λ uid. nix_call os "setuid" (os.sys (setuid uid)))

  -- The process itself, up to its program.
  unfoldable pub enter : Pty os → Target → Option ℕ → Exec os.World (Unit {0})
  unfolding set_ids
  enter pty target console = do
    nix_call os "chdir to /" (os.sys (chdir (root_dir ∷ [])))
    if_some console (setup os pty)
    set_ids target
    nix_call os "chdir" (os.sys (chdir target.cwd))
    program ← look (resolve_executable os (first_of target.argv) target.env true)
    guard (not (contains 0 (FilePath.display program))) (nul_byte (FilePath.display program))
    argv ← lift (to_cstrings target.argv)
    env ← lift (to_cstrings target.env)
    unblock_all os
    plain_call os (os.sys (execve program argv env))

module _ (os : Os) (js : Json) (codec : Codec) where
  -- The runtime's side once the process is forked: it is put into the cgroup before it is told to
  -- go on.
  unfoldable pub attend_child : ℕ → ℕ → Option ℕ → Bool → ℤ → Exec os.World (Option ℕ)
  unfolding place
  attend_child fuel procs pid_file detach child = do
    place os procs child
    send os codec (cgroup_applied child)
    if_some pid_file (λ handle.
        call os "write the exec pid file" (os.sys (write_handle handle (int_to_string child))))
    if detach then pure (some 0) else supervise os fuel child

  -- The namespaces are joined, and the process is forked in them.
  unfoldable pub fork_in :
      ℕ → List (NamespaceType × ℕ) → ℕ → Option ℕ → Bool → Exec os.World (Option ℕ)
  unfolding join_all attend_child
  fork_in fuel joins procs pid_file detach = do
    join_all os joins
    block_forwardable os
    plain_call os (os.sys socketpair)
    child ← plain_call os os.fork
    attend_child fuel procs pid_file detach child

  -- What is opened before the namespaces are joined.
  unfoldable pub exec_in : ℕ → Container → ExecOptions → Exec os.World (Option ℕ)
  unfolding collect open_cgroup_procs fork_in
  exec_in fuel container options = do
    joins ← collect os container.state.pid
    console ← open_console os options.console_socket
    procs ← open_cgroup_procs os container
    pid_file ← open_pid_file os options.pid_file
    fork_in fuel joins procs pid_file options.detach

  unfoldable pub exec : ℕ → Layout → Text → ExecOptions → Exec os.World (Option ℕ)
  unfolding check_status check_terminal single_threaded exec_in
  exec fuel layout id options = do
    container ← look (load os js layout id)
    state ← gets (status os container)
    lift (check_status id state options.ignore_paused)
    target ← look (resolve_target os js container options)
    lift (check_terminal options.console_socket target.terminal)
    single_threaded os
    exec_in fuel container options

  -- The child's side.
  unfoldable pub run_child : Pty os → Target → Option ℕ → Exec os.World (Unit {0})
  unfolding enter
  run_child pty target console = do
    expect os codec (codes "CgroupApplied")
    enter os pty target console
