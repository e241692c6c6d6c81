-- ===== src/Container/Commands.antt =====
-- container/mod.rs: the commands on a container that exists.
use marstack_container.Prelude.{
  ℕ, zero, suc, Bool, true, false, not, Option, none, List, [], ◌∷◌, if◌then◌else◌,
}
use marstack_container.Prelude.Int.{ℤ}
use marstack_container.Std.Text.{Text, codes}
use marstack_container.Spec.{Hooks, LinuxResources}
use marstack_container.Error.{Result, ok, err, not_found, bad_state, syscall}
use marstack_container.Exec.{
  Exec, pure, raise, lift, look, gets, when, ignore, for_each, ◌>>=◌, ◌>>◌,
}
use marstack_container.Os.{Os, done, failed}
use marstack_container.Paths.{Layout}
use marstack_container.Cgroup.V2.{Cgroup, is_frozen, freeze, procs, destroy}
use marstack_container.Cgroup.Apply.{apply}
use marstack_container.State.{
  Status, created, running, stopped, paused, status_eq, display, Container, Json, load, status,
  alive, require, remove, oci_state, cgroup_of, fifo_of,
}
use marstack_container.Bundle.Load.{hooks}
use marstack_container.Bundle.Load
use marstack_container.Container.Fifo.{release}
use marstack_container.Container.Hooks
use marstack_container.Container.Hooks.{poststart, poststop}

-- The number of SIGKILL.
abbrev pub sigkill : ℕ
sigkill = 9

abbrev pub or_no_pids : Result (List ℤ) → List ℤ
or_no_pids (ok pids) = pids
or_no_pids (err e) = []

module _ (os : Os) where
  -- `nix::sys::signal::kill(pid, signal)?`.
  unfoldable pub signal_one : ℕ → ℤ → Exec os.World (Unit {0})
  signal_one signal pid w =
      let (answer, w') = os.kill pid signal w in
      elim answer [ done _ ↦ (ok tt, w') | failed e ↦ (err (syscall e), w') ]

  unfoldable pub signal_procs : Cgroup → ℕ → Exec os.World (Unit {0})
  unfolding signal_one
  signal_procs cgroup signal = do pids ← look (procs os cgroup); for_each (signal_one signal) pids

  -- Every process at once: the cgroup is frozen while the signals are sent, and thawed again,
  -- whatever came of them, if it was not frozen before.
  unfoldable pub kill_all : Cgroup → ℕ → Exec os.World (Unit {0})
  unfolding signal_procs
  kill_all cgroup signal = do
    frozen ← gets (is_frozen os cgroup)
    when (not frozen) (freeze os cgroup true)
    result ← (λ w. let (r, w') = signal_procs cgroup signal w in (ok r, w'))
    when (not frozen) (freeze os cgroup false)
    lift result

  -- The polls that are left; the processes die while the runtime sleeps.
  unfoldable pub wait_dead : ℕ → Container → os.World → os.World
  wait_dead zero c w = w
  wait_dead (suc n) c w =
      let rest = wait_dead n c (os.sleep 10 w) in if alive os c w then rest else w

  unfoldable pub force_stop : Container → Exec os.World (Unit {0})
  unfolding signal_one wait_dead
  force_stop c = do
    let cgroup = cgroup_of c
    frozen ← gets (is_frozen os cgroup)
    when frozen (freeze os cgroup false)
    pids ← gets (λ w. or_no_pids (procs os cgroup w))
    for_each (λ pid. ignore (signal_one sigkill pid)) pids
    λ w. (ok tt, wait_dead 500 c w)

module _ (os : Os) (js : Json) where
  -- The hooks of the container's bundle, none if it cannot be read again.
  unfoldable pub container_hooks : Container → os.World → Option Hooks
  container_hooks c w = elim (Load.load os js.spec_from_str c.state.bundle w) [
    | ok bundle ↦ hooks bundle
    | err e ↦ none
  ]

  unfoldable pub run_hooks : Container → Hooks.Phase → Exec os.World (Unit {0})
  run_hooks c phase w = Hooks.run os js (container_hooks c w) phase (oci_state os c w) w

  unfoldable pub start : Layout → Text → Exec os.World (Unit {0})
  unfolding run_hooks
  start layout id = do
    container ← look (load os js layout id)
    look (require os container (created ∷ []))
    release os (fifo_of container)
    run_hooks container poststart

  unfoldable pub kill : Layout → Text → ℕ → Bool → Exec os.World (Unit {0})
  unfolding signal_one kill_all
  kill layout id signal everything = do
    container ← look (load os js layout id)
    look (require os container (created ∷ running ∷ paused ∷ []))
    if everything
        then kill_all os (cgroup_of container) signal
        else signal_one os signal container.state.pid

  -- The hooks are read before anything is removed; the status they are given is read after it.
  unfoldable pub clean_up : Container → Exec os.World (Unit {0})
  clean_up c = do
    hooks_spec ← gets (container_hooks c)
    ignore (destroy os (cgroup_of c))
    state ← gets (oci_state os c)
    Hooks.run os js hooks_spec poststop state
    remove os c

  unfoldable pub stop_first : Bool → Text → Container → Status → Exec os.World (Unit {0})
  unfolding force_stop
  stop_first force id c stopped = pure tt
  stop_first true id c _ = force_stop os c
  stop_first false id c s =
      raise (bad_state id (display s) (codes "stopped; pass --force to kill it first"))

  -- What `load` found.
  unfoldable pub delete_found : Bool → Text → Result Container → Exec os.World (Unit {0})
  unfolding stop_first clean_up status_eq
  delete_found force id (ok c) = do s ← gets (status os c); stop_first force id c s; clean_up c
  delete_found true id (err (not_found missing)) = pure tt
  delete_found _ id (err e) = raise e

  unfoldable pub delete : Layout → Text → Bool → Exec os.World (Unit {0})
  unfolding delete_found
  delete layout id force w = delete_found force id (load os js layout id w) w

  unfoldable pub pause : Layout → Text → Bool → Exec os.World (Unit {0})
  pause layout id pausing = do
    container ← look (load os js layout id)
    look (require os container (if pausing then created ∷ running ∷ [] else paused ∷ []))
    freeze os (cgroup_of container) pausing

  unfoldable pub update : Layout → Text → LinuxResources → Exec os.World (Unit {0})
  update layout id resources = do
    container ← look (load os js layout id)
    look (require os container (created ∷ running ∷ paused ∷ []))
    apply os (cgroup_of container) resources
