-- ===== src/Tests/Commands.antt =====
-- The theorems on the commands, at the runs on the sample container.
use marstack_container.Prelude.{◌⊎◌, ◌≡◌, ◌≢◌, ◌↔◌, arith, true, false}
use marstack_container.Std.Text
use marstack_container.Std.Text.{codes}
use marstack_container.Error.{Error, ok, err, bad_state}
use marstack_container.Paths.{container_dir}
use marstack_container.Cgroup.V2.{is_frozen, freeze}
use marstack_container.State
use marstack_container.State.{
  Container, created, running, stopped, paused, status, alive, load, display, fifo_of, cgroup_of,
}
use marstack_container.Container.Commands.{start, kill, pause, update, delete, kill_all, run_hooks}
use marstack_container.Container.Hooks.{poststart}
use marstack_container.Container.Guards.{commands-guarded}
use marstack_container.Container.Progress.{
  start-released, delete-removed, pause-status, Signalled, kill_all-thaws,
}
use marstack_container.Tests.Machine.{Machine, machine, machine_files}
use marstack_container.Tests.Samples.{host, box, box_id, box_cgroup, run_mars, json}
use marstack_container.Tests.Runs.{
  no_limits, started, host_starts, deleted, host_loads, host_deletes, frozen, host_pauses,
  started_loads, thawed, host_thawed, host_freezes, froze_signals, signalled_thaws,
}

start-released_example :
    (c : Container) × (v : Machine) × (load machine json run_mars box_id host ≡ ok c)
    × (status machine c host ≡ created)
    × (machine.exists (fifo_of c) v ≡ false)
    × (status machine c v ≢ created)
    × (run_hooks machine json c poststart v ≡ (ok tt, started))
start-released_example =
    start-released machine json run_mars box_id machine_files host started host_starts

delete-removed_example : machine.exists (container_dir run_mars box_id) deleted ≡ false
delete-removed_example =
    delete-removed machine json run_mars box_id machine_files true box host deleted host_loads
      host_deletes

pause-status_example :
    (c : Container) × (load machine json run_mars box_id host ≡ ok c)
    × (is_frozen machine (cgroup_of c) frozen ≡ true)
    × (alive machine c frozen ≡ true → (status machine c frozen ≡ paused) ↔ (true ≡ true))
pause-status_example = pause-status machine json run_mars box_id true host frozen host_pauses

host_kills : kill_all machine box_cgroup 15 host ≡ (ok tt, thawed)
unfolding kill_all
host_kills = ground (arith, host_thawed, host_freezes, froze_signals, signalled_thaws)

kill_all-thaws_example :
    ((e : Error) × (freeze machine box_cgroup true host ≡ (err e, thawed)) × (ok (tt {0}) ≡ err e))
    ⊎ ((v : Machine) × (freeze machine box_cgroup true host ≡ (ok tt, v))
        × (is_frozen machine box_cgroup v ≡ true)
        × Signalled machine box_cgroup 15 (ok tt) v thawed)
kill_all-thaws_example =
    kill_all-thaws machine box_cgroup 15 host thawed (ok tt) host_thawed host_kills

commands-guarded_example :
    ((status machine box started ≡ created)
      ⊎ (start machine json run_mars box_id started ≡ (
        err (bad_state box_id (display (status machine box started)) (codes "created")),
        started,
      )))
    × ((status machine box started ≢ stopped)
        ⊎ (kill machine json run_mars box_id 15 true started ≡ (
          err (
              bad_state box_id
                (display (status machine box started))
                (codes "created or running or paused")),
          started,
        ))
          × (update machine json run_mars box_id no_limits started ≡ (
            err (
                bad_state box_id
                  (display (status machine box started))
                  (codes "created or running or paused")),
            started,
          ))
          × (pause machine json run_mars box_id true started ≡ (
            err (
                bad_state box_id
                  (display (status machine box started))
                  (codes "created or running")),
            started,
          )))
    × ((status machine box started ≡ paused)
        ⊎ (pause machine json run_mars box_id false started ≡ (
          err (bad_state box_id (display (status machine box started)) (codes "paused")),
          started,
        )))
    × ((status machine box started ≡ stopped)
        ⊎ (delete machine json run_mars box_id false started ≡ (
          err (
              bad_state box_id
                (display (status machine box started))
                (codes "stopped; pass --force to kill it first")),
          started,
        )))
unfolding Text.join State.display
commands-guarded_example =
    commands-guarded machine json run_mars box_id started box 15 true no_limits started_loads
