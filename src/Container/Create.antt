-- ===== src/Container/Create.antt =====
-- container/mod.rs: the creation of a container, as the runtime's process sees it. The processes
-- that it forks are seen in the answers of the socket, and the recorder of the phases' times,
-- which decides nothing, is left out.
use marstack_container.Prelude.{
  ℕ, zero, suc, Bool, true, false, Option, none, some, List, [], ◌∷◌, is_empty, if◌then◌else◌,
}
use marstack_container.Prelude.Int.{ℤ}
use marstack_container.Std.Text.{Text, codes}
use marstack_container.Std.Decimal.{int_to_string}
use marstack_container.Std.FilePath
use marstack_container.Std.FilePath.{FilePath}
use marstack_container.Spec
use marstack_container.Spec.{LinuxResources}
use marstack_container.Error.{Result, ok, err, invalid, overlay, init_failed, sync}
use marstack_container.Exec.{
  Exec, pure, lift, look, gets, guard, ignore, if_some, for_each, ◌>>=◌, ◌>>◌,
}
use marstack_container.Os.{Os, done, failed, call, plain_call, io_ctx}
use marstack_container.Syscall.{still_alive}
use marstack_container.Paths.{Layout}
use marstack_container.Cgroup.V2.{Cgroup, procs, add_process, destroy}
use marstack_container.Cgroup.Apply.{apply}
use marstack_container.State.{creating, Persisted, OciState, Json, save, status, start_time}
use marstack_container.State.Calendar.{rfc3339}
use marstack_container.Bundle.Validate.{flatten}
use marstack_container.Bundle.Load.{Bundle, annotations, hooks, and_then}
use marstack_container.Namespace.{CloneFlags, Join, layout}
use marstack_container.Rootfs.Overlay.{Layers, from_annotations}
use marstack_container.Rootfs.Overlay.Prepare.{prepare}
use marstack_container.Sync.{
  Codec, Message, request_user_mapping, user_mapping_done, init_pid, cgroup_applied, init_ready,
  send, recv, expect,
}
use marstack_container.Sync
use marstack_container.Container.Hooks
use marstack_container.Container.Hooks.{prestart, create_runtime}
use marstack_container.Container.Userns
use marstack_container.Container.Userns.{Mappings}
use marstack_container.Container.Commands.{or_no_pids, sigkill, signal_one}

abbrev pub oci_version : Text
oci_version = codes "1.0.2"

pub record CreateOptions : Type 0 where
  pub id : Text
  pub pid_file : Option FilePath
  pub console_socket : Option FilePath
  pub rootless : Bool

pub record Plan : Type 0 where
  pub bundle : Bundle
  pub rootfs : FilePath
  pub overlay : Option Layers
  pub unshare_flags : CloneFlags
  pub join : List Join
  pub cgroup_ns : Bool
  pub fifo : ℕ
  pub console : Option ℕ
  pub state : OciState

-- `Bundle::overlay` and `Bundle::id_mappings`.
unfoldable pub overlay_of : Bundle → Result (Option Layers)
overlay_of b = from_annotations (annotations b) (FilePath.display b.dir)

unfoldable pub id_mappings : Bundle → Mappings
id_mappings b = record {
  uid = flatten (and_then b.spec.linux (λ linux. linux.uid_mappings));
  gid = flatten (and_then b.spec.linux (λ linux. linux.gid_mappings));
}

-- SIGTERM, SIGINT, SIGQUIT, SIGHUP, SIGUSR1, SIGUSR2, SIGWINCH and SIGCHLD.
abbrev pub forwarded : List ℕ
forwarded = 15 ∷ 2 ∷ 3 ∷ 1 ∷ 10 ∷ 12 ∷ 28 ∷ []

abbrev pub sigchld : ℕ
sigchld = 17

-- The state that the hooks and the init are told.
unfoldable pub creating_state : Bundle → Text → OciState
creating_state b id = record {
  version = oci_version;
  id = id;
  status = creating;
  pid = none;
  bundle = b.dir;
  annotations = if is_empty (annotations b) then none else some (annotations b);
}

-- A console socket is given exactly when the process has a terminal.
unfoldable pub check_console : Option FilePath → Bool → Result (Unit {0})
check_console none true = err (invalid "no --console-socket was given")
check_console (some path) false = err (invalid "--console-socket was given without a terminal")
check_console none false = ok tt
check_console (some path) true = ok tt

module _ (os : Os) where
  -- `waitpid(None, WNOHANG)` until it tells no more, with as many rounds as there is to tell.
  unfoldable pub reap_ended : ℕ → os.World → os.World
  reap_ended zero w = w
  reap_ended (suc n) w =
      let (answer, w') = os.reap w in
      let rest = reap_ended n w' in
      elim answer [ failed e ↦ w' | done status ↦ elim status [ still_alive ↦ w' | _ ↦ rest ] ]

  unfoldable pub is_vacant : Cgroup → os.World → Bool
  is_vacant cgroup w = is_empty (or_no_pids (procs os cgroup w))

  -- The polls that are left.
  unfoldable pub wait_vacant : ℕ → Cgroup → os.World → os.World
  unfolding reap_ended is_vacant
  wait_vacant zero cgroup w = w
  wait_vacant (suc n) cgroup w =
      let w' = reap_ended (suc (os.reapable w)) w in
      let rest = wait_vacant n cgroup (os.sleep 20 w') in if is_vacant cgroup w' then w' else rest

  unfoldable pub teardown : Cgroup → Exec os.World (Unit {0})
  unfolding wait_vacant
  teardown cgroup = do
    pids ← gets (λ w. or_no_pids (procs os cgroup w))
    for_each (λ pid. ignore (signal_one os sigkill pid)) pids
    λ w. (ok tt, wait_vacant 250 cgroup w)

  unfoldable pub prepare_merged : FilePath → Exec os.World (Unit {0})
  prepare_merged path = do
    call os "create overlay mountpoint" (os.create_dir_all path)
    entries ← look (λ w. io_ctx "inspect overlay mountpoint" (os.read_dir path w))
    guard (is_empty entries) (overlay "root.path is not empty")

  unfoldable pub write_pid_file : Option FilePath → ℤ → Exec os.World (Unit {0})
  write_pid_file path pid =
      if_some path (λ p. call os "write pid file" (os.write p (int_to_string pid)))

  -- The directories of an overlay, which needs a mount namespace of its own.
  unfoldable pub prepare_overlay : CloneFlags → FilePath → Layers → Exec os.World (Unit {0})
  unfolding prepare_merged
  prepare_overlay unshare_flags path layers = do
    guard (unshare_flags Spec.mount) (overlay "an overlay rootfs needs a mount namespace")
    prepare os layers
    prepare_merged path

  unfoldable pub apply_resources : Cgroup → Option LinuxResources → Exec os.World (Unit {0})
  apply_resources cgroup none w = (ok tt, w)
  apply_resources cgroup (some r) w =
      let (outcome, w') = apply os cgroup r w in
      let (ignored, destroyed) = destroy os cgroup w' in
      elim outcome [ ok _ ↦ (ok tt, w') | err e ↦ (err e, destroyed) ]

module _ (os : Os) (js : Json) (codec : Codec) where
  -- The pid in the message that must be InitPid.
  unfoldable pub init_of : Message → Result ℤ
  init_of (init_pid pid phases) = ok pid
  init_of (Sync.failed reason) = err (init_failed reason)
  init_of _ = err (sync "expected InitPid")

  unfoldable pub map_users : Plan → ℤ → Exec os.World (Unit {0})
  unfolding id_mappings
  map_users plan intermediate = do
    privileged ← gets os.is_root
    Userns.write os intermediate (id_mappings plan.bundle) privileged
    send os codec user_mapping_done

  -- The id maps are written when the other side asks for them; its next message is then taken.
  unfoldable pub settle_users : Plan → ℤ → Message → Exec os.World Message
  unfolding map_users
  settle_users plan intermediate request_user_mapping = do
    map_users plan intermediate
    recv os codec
  settle_users plan intermediate message = pure message

  unfoldable pub persisted_of : Plan → Cgroup → CreateOptions → ℤ → ℕ → os.World → Persisted
  persisted_of plan cgroup options init started w = record {
    oci_version = oci_version;
    id = options.id;
    pid = init;
    start_time = started;
    bundle = plan.bundle.dir;
    rootfs = plan.rootfs;
    cgroup = cgroup.relative;
    created = rfc3339 (os.wall_clock w);
    rootless = options.rootless;
    annotations = annotations plan.bundle;
  }

  -- The hooks before the init goes on.
  unfoldable pub run_created : Plan → ℤ → Exec os.World (Unit {0})
  run_created plan init = do
    let state = record plan.state { pid = some init }
    Hooks.run os js (hooks plan.bundle) prestart state
    Hooks.run os js (hooks plan.bundle) create_runtime state

  -- The state of a container whose init is ready.
  unfoldable pub record_init : Layout → Plan → Cgroup → CreateOptions → ℤ → Exec os.World (Unit {0})
  unfolding persisted_of write_pid_file
  record_init layout plan cgroup options init = do
    started ← look (start_time os init)
    persisted ← gets (persisted_of plan cgroup options init started)
    save os js layout persisted
    write_pid_file os options.pid_file init

  unfoldable pub handshake : Layout → Plan → Cgroup → CreateOptions → ℤ → Exec os.World (Unit {0})
  unfolding init_of settle_users run_created record_init
  handshake layout plan cgroup options intermediate = do
    first ← recv os codec
    message ← settle_users plan intermediate first
    init ← lift (init_of message)
    plain_call os (os.waitpid intermediate)
    add_process os cgroup init
    run_created plan init
    send os codec (cgroup_applied init)
    expect os codec (codes "InitReady")
    record_init layout plan cgroup options init
