-- ===== src/Container/Spawn.antt =====
-- container/mod.rs: the steps of the creation and what is undone when one of them fails.
use marstack_container.Prelude.{ℕ, Bool, false, Option, none, some, List, ◌++◌, if◌then◌else◌}
use marstack_container.Std.Text.{Text, codes}
use marstack_container.Std.FilePath.{FilePath}
use marstack_container.Spec
use marstack_container.Error.{Result, ok, err, already_exists, rootfs_missing}
use marstack_container.Exec.{Exec, pure, lift, look, gets, guard, ignore, if_some, ◌>>=◌, ◌>>◌}
use marstack_container.Os.{Os, call, plain_call}
use marstack_container.Syscall.{set_child_subreaper, socketpair}
use marstack_container.Paths.{Layout, container_dir, state_file, exec_fifo}
use marstack_container.Cgroup.V2
use marstack_container.Cgroup.V2.{Cgroup, relative_path, destroy}
use marstack_container.State.{stopped, status_eq, Json, load, status}
use marstack_container.Bundle.Load.{Bundle, rootfs, namespaces, resources, cgroups_path, terminal}
use marstack_container.Namespace.{CloneFlags, Join, without, with_flag, layout}
use marstack_container.Rootfs.Overlay.{Layers}
use marstack_container.Sync.{Codec}
use marstack_container.Container.Signals.{block_forwardable}
use marstack_container.Container.Console.{open_socket}
use marstack_container.Container.Fifo
use marstack_container.Container.Create.{
  CreateOptions, Plan, overlay_of, creating_state, check_console, teardown, prepare_overlay,
  apply_resources, handshake,
}

-- What `build` hands to `spawn`.
pub record Laid : Type 0 where
  pub rootfs : FilePath
  pub overlay : Option Layers
  pub unshare_flags : CloneFlags
  pub join : List Join
  pub cgroup_ns : Bool

-- `Some(path) => Some(console::open_socket(path)?), None => None`.
abbrev pub open_console : (os : Os) → Option FilePath → Exec os.World (Option ℕ)
open_console os none w = (ok none, w)
open_console os (some path) w =
    let (r, w') = open_socket os path w in
    (elim r [ ok handle ↦ ok (some handle) | err e ↦ err e ], w')

unfoldable pub plan_of : Bundle → CreateOptions → Laid → ℕ → Option ℕ → Plan
unfolding creating_state
plan_of bundle options laid fifo console = record {
  bundle = bundle;
  rootfs = laid.rootfs;
  overlay = laid.overlay;
  unshare_flags = laid.unshare_flags;
  join = laid.join;
  cgroup_ns = laid.cgroup_ns;
  fifo = fifo;
  console = console;
  state = creating_state bundle options.id;
}

-- A failure is returned after an undoing step, whose own result does not count.
unfoldable pub or_undo : {W : Type 0} → Exec W (Unit {0}) → Exec W (Unit {0}) → Exec W (Unit {0})
or_undo m undo w =
    let (outcome, w') = m w in
    let (ignored, undone) = undo w' in elim outcome [ ok _ ↦ (ok tt, w') | err e ↦ (err e, undone) ]

module _ (os : Os) (js : Json) (codec : Codec) where
  -- What is undone when the handshake fails: the fifo, and the processes of the cgroup.
  unfoldable pub abandon : FilePath → Cgroup → Exec os.World (Unit {0})
  abandon path cgroup = do ignore (call os "" (os.remove_file path)); teardown os cgroup

  unfoldable pub spawn : Layout → Bundle → CreateOptions → Laid → Cgroup → Exec os.World (Unit {0})
  unfolding or_undo plan_of abandon
  spawn layout bundle options laid cgroup = do
    let path = exec_fifo layout options.id
    fifo ← Fifo.create os path
    console ← open_console os options.console_socket
    let plan = plan_of bundle options laid fifo console
    plain_call os (os.sys set_child_subreaper)
    block_forwardable os
    plain_call os (os.sys socketpair)
    intermediate ← plain_call os os.fork
    or_undo (handshake os js codec layout plan cgroup options intermediate) (abandon path cgroup)

  -- The part of `build` that has a cgroup to destroy when it fails.
  unfoldable pub build_in :
      Layout → Bundle → CreateOptions → Laid → Cgroup → Exec os.World (Unit {0})
  unfolding apply_resources
  build_in layout bundle options laid cgroup = do
    apply_resources os cgroup (resources bundle)
    or_undo (spawn layout bundle options laid cgroup) (ignore (destroy os cgroup))

  -- What the bundle asks for, with its directories made.
  unfoldable pub lay_out : Bundle → CreateOptions → Exec os.World Laid
  unfolding check_console prepare_overlay
  lay_out bundle options = do
    lift (check_console options.console_socket (terminal bundle))
    parts ← look (layout os (namespaces bundle))
    let cgroup_flag : CloneFlags = with_flag Spec.cgroup (λ k. false)
    let unshare_flags = without parts.create cgroup_flag
    path ← lift (rootfs bundle)
    layers ← lift (overlay_of bundle)
    if_some layers (prepare_overlay os unshare_flags path)
    present ← gets (os.is_dir path)
    guard present (rootfs_missing path)
    pure (record {
      rootfs = path;
      overlay = layers;
      unshare_flags = unshare_flags;
      join = parts.join;
      cgroup_ns = parts.create Spec.cgroup;
    })

  unfoldable pub build : Layout → Bundle → CreateOptions → Exec os.World (Unit {0})
  unfolding lay_out build_in
  build layout bundle options = do
    laid ← lay_out bundle options
    cgroup ← V2.create os (relative_path (cgroups_path bundle) options.id)
    build_in layout bundle options laid cgroup

  unfoldable pub with_hint : Text → Text
  with_hint id =
      id ++ (codes "; it is stopped but not deleted, run `mars delete " ++ (id ++ codes "` first"))

  -- An id that has a state is refused, with a hint where its container is stopped.
  unfoldable pub refuse : Layout → Text → os.World → Result (Unit {0})
  unfolding status_eq with_hint
  refuse layout id w = elim (load os js layout id w) [
    | err e ↦ err e
    | ok existing ↦
        if status_eq (status os existing w) stopped
        then err (already_exists (with_hint id))
        else err (already_exists id)
  ]

  -- The directory is made first and removed again when the building fails.
  unfoldable pub create_new : Layout → Bundle → CreateOptions → Exec os.World (Unit {0})
  unfolding build
  create_new layout bundle options = do
    let dir = container_dir layout options.id
    call os "create" (os.create_dir_all dir)
    or_undo (build layout bundle options) (ignore (call os "" (os.remove_dir_all dir)))

  unfoldable pub create : Layout → Bundle → CreateOptions → Exec os.World (Unit {0})
  unfolding refuse create_new
  create layout bundle options w =
      if os.is_file (state_file layout options.id) w
      then (refuse layout options.id w, w)
      else create_new layout bundle options w
