-- ===== src/Container/Init/Main.antt =====
-- container/init.rs: the second stage, `container_init`, from the message that its process is in
-- the cgroup to its program.
use marstack_container.Prelude.{
  ℕ, not, ◌||◌, Option, none, some, List, [], ◌∷◌, is_empty, if◌then◌else◌,
}
use marstack_container.Prelude.Int.{ℤ}
use marstack_container.Std.Text.{Text, codes, contains}
use marstack_container.Std.FilePath
use marstack_container.Std.FilePath.{FilePath, root_dir}
use marstack_container.Error.{Error, Result, ok, err, nul_byte, sync}
use marstack_container.Exec.{Exec, pure, lift, look, when, if_some, guard, ignore, ◌>>=◌, ◌>>◌}
use marstack_container.Os.{Os, nix_call, plain_call}
use marstack_container.Syscall.{unshare, sethostname, setdomainname, chdir, unblock_all, execve}
use marstack_container.Spec.{mount, user, cgroup, Process}
use marstack_container.State.{running, OciState, Json}
use marstack_container.Bundle.Load
use marstack_container.Bundle.Load.{resolve_executable, to_cstrings}
use marstack_container.Rootfs.Overlay.{Layers}
use marstack_container.Rootfs.Overlay.Mount.{mount_at}
use marstack_container.Rootfs.Mounts
use marstack_container.Rootfs.Devices
use marstack_container.Rootfs.Sysctl
use marstack_container.Rootfs.Harden.{
  make_root_private, make_mount_point, pivot, set_propagation, mask_paths, readonly_paths,
  remount_readonly_mounts, readonly_rootfs,
}
use marstack_container.Sync.{Codec, Message, Phase, cgroup_applied, init_ready, send, expect}
use marstack_container.Sync
use marstack_container.Container.Create.{Plan}
use marstack_container.Container.Fifo.{park}
use marstack_container.Container.Hooks
use marstack_container.Container.Hooks.{create_container, start_container}
use marstack_container.Container.Process.{apply_limits, apply_oom_score_adj, apply_umask}
use marstack_container.Container.Capabilities.{Caps}
use marstack_container.Container.Console.{Pty, setup}
use marstack_container.Container.Seccomp.{Scmp}
use marstack_container.Container.Init.Securing.{secure}

-- The number that the init has for the host.
unfoldable pub applied_pid : Message → Result ℤ
applied_pid (cgroup_applied pid) = ok pid
applied_pid _ = err (sync "expected CgroupApplied")

-- What `execve` is given.
pub record Program : Type 0 where
  pub path : FilePath
  pub argv : List Text
  pub env : List Text

abbrev first_of : List Text → Text
first_of [] = []
first_of (a ∷ rest) = a

-- An empty path counts as none.
unfoldable pub start_dir : Option FilePath → FilePath
start_dir none = root_dir ∷ []
start_dir (some dir) = if is_empty dir then root_dir ∷ [] else dir

module _ (os : Os) where
  unfoldable pub mount_root : Option Layers → FilePath → Exec os.World (Unit {0})
  mount_root none rootfs = make_mount_point os rootfs
  mount_root (some layers) rootfs = mount_at os rootfs layers

  -- The program, its arguments and its environment.
  unfoldable pub find_program : Plan → Exec os.World Program
  find_program plan = do
    let env = Load.env plan.bundle
    argv ← lift (Load.argv plan.bundle)
    path ← look (resolve_executable os (first_of argv) env (plan.unshare_flags mount))
    guard (not (contains 0 (FilePath.display path))) (nul_byte (FilePath.display path))
    argv' ← lift (to_cstrings argv)
    env' ← lift (to_cstrings env)
    pure (record { path = path; argv = argv'; env = env' })

  unfoldable pub identify : Plan → Exec os.World (Unit {0})
  identify plan = do
    if_some plan.bundle.spec.hostname (λ name. plain_call os (os.sys (sethostname name)))
    if_some plan.bundle.spec.domainname
        (λ name. nix_call os "setdomainname" (os.sys (setdomainname name)))
    Sysctl.apply os (Load.sysctl plan.bundle)

  unfoldable pub harden : Plan → Exec os.World (Unit {0})
  harden plan = do
    mask_paths os (Load.masked_paths plan.bundle)
    readonly_paths os (Load.readonly_paths plan.bundle)
    remount_readonly_mounts os (Load.mounts plan.bundle)
    when (Load.readonly_rootfs plan.bundle) (readonly_rootfs os)

  unfoldable pub limit : Process → Exec os.World (Unit {0})
  limit p = do apply_limits os p; apply_oom_score_adj os p; apply_umask os p

module _ (os : Os) (js : Json) (pty : Pty os) where
  -- The file system of a mount namespace of its own, up to the change of root.
  unfoldable pub furnish : Plan → OciState → Exec os.World (Unit {0})
  unfolding mount_root
  furnish plan state = do
    make_root_private os
    mount_root os plan.overlay plan.rootfs
    Mounts.apply os plan.rootfs (Load.mounts plan.bundle)
    Devices.create os plan.rootfs (Load.devices plan.bundle)
        (plan.unshare_flags user || not (is_empty plan.join))
    Hooks.run os js plan.bundle.spec.hooks create_container state
    pivot os plan.rootfs
    set_propagation os (Load.rootfs_propagation plan.bundle)
    if_some plan.console (setup os pty)

  unfoldable pub enter_rootfs : Plan → OciState → Exec os.World (Unit {0})
  unfolding furnish
  enter_rootfs plan state =
      if plan.unshare_flags mount
      then furnish plan state
      else Hooks.run os js plan.bundle.spec.hooks create_container state

module _ (os : Os) (js : Json) (codec : Codec) (pty : Pty os) (caps : Caps os)
    (scmp : Scmp os) where
  -- The file system, the names and the limits, up to what the init gives up.
  unfoldable pub set_up : Plan → OciState → Exec os.World Program
  unfolding enter_rootfs identify harden find_program limit start_dir
  set_up plan state = do
    enter_rootfs os js pty plan state
    identify os plan
    when (plan.unshare_flags mount) (harden os plan)
    program ← find_program os plan
    if_some plan.bundle.spec.process (limit os)
    plain_call os (os.sys (chdir (start_dir (Load.cwd plan.bundle))))
    pure program

  -- Ready: the init waits for `start`, and then becomes the program.
  unfoldable pub await_start : List Phase → Plan → OciState → Program → Exec os.World (Unit {0})
  await_start phases plan state program = do
    send os codec (init_ready phases)
    park os plan.fifo
    Hooks.run os js plan.bundle.spec.hooks start_container (record state { status = running })
    plain_call os (os.sys unblock_all)
    plain_call os (os.sys (execve program.path program.argv program.env))

  unfoldable pub container_init : List Phase → Plan → Exec os.World (Unit {0})
  unfolding applied_pid set_up secure await_start
  container_init phases plan = do
    message ← expect os codec (codes "CgroupApplied")
    pid ← lift (applied_pid message)
    when plan.cgroup_ns (plain_call os (os.sys (unshare cgroup)))
    let state = record plan.state { pid = some pid }
    program ← set_up plan state
    secure os caps scmp plan.bundle.spec.process (Load.seccomp plan.bundle)
    await_start phases plan state program

  -- The forked process: an error is told to the runtime, and its exit code is 1. There is none if
  -- the process has become the program.
  unfoldable pub run_init : (Error → Text) → List Phase → Plan → os.World → Option ℕ × os.World
  unfolding container_init
  run_init to_string phases plan w =
      let (result, w') = container_init phases plan w in
      elim result [
        | ok _ ↦ (none, w')
        | err e ↦
            let (r, w'') = ignore (send os codec (Sync.failed (to_string e))) w' in (some 1, w'')
      ]
