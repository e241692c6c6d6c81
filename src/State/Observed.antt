-- ===== src/State/Observed.antt =====
-- What the status of a container says of the kernel, and what `require` makes of it.
use marstack_container.Prelude.{
  ℕ, ◌≡◌, refl, ◌≢◌, ◌↔◌, ◌⊎◌, true, false, none, some, List, arith, any, map,
}
use marstack_container.Std.Text.{codes, join}
use marstack_container.Error.{ok, err, bad_state}
use marstack_container.Os.{Os}
use marstack_container.Cgroup.V2.{is_frozen}
use marstack_container.State.{
  Status, created, running, stopped, paused, Status-discrete, status_eq, display, Container,
  start_time, alive, status, oci_state, require, cgroup_of, fifo_of,
}

pub status_eq_iff : (a b : Status) → (status_eq a b ≡ true) ↔ (a ≡ b)
unfolding status_eq
status_eq_iff a b =
    elim (Status-discrete a b)
      as (λ d. ((elim d [ yes h ↦ true | no h ↦ false ]) ≡ true) ↔ (a ≡ b)) [
        | yes h ↦ ((λ _. h), (λ _. refl))
        | no h ↦ ((λ e. cc), (λ e. absurd (h e)))
      ]

module _ (os : Os) (c : Container) (w : os.World) where
  -- A container is stopped and not alive, or paused, alive and frozen, or created, alive, not
  -- frozen and with its fifo, or running, alive, not frozen and without its fifo.
  pub status-cases :
      ((status os c w ≡ stopped) × (alive os c w ≡ false))
      ⊎ ((status os c w ≡ paused) × (alive os c w ≡ true) × (is_frozen os (cgroup_of c) w ≡ true))
      ⊎ ((status os c w ≡ created)
          × (alive os c w ≡ true)
          × (is_frozen os (cgroup_of c) w ≡ false)
          × (os.exists (fifo_of c) w ≡ true))
      ⊎ ((status os c w ≡ running)
          × (alive os c w ≡ true)
          × (is_frozen os (cgroup_of c) w ≡ false)
          × (os.exists (fifo_of c) w ≡ false))
  unfolding status
  status-cases = ground arith

  -- If the process with the recorded pid started at another time than the recorded one, the
  -- container is stopped and its reported state names no pid.
  recycled_pid-stopped :
      (t : ℕ)
      → start_time os c.state.pid w ≡ ok t
      → t ≢ c.state.start_time
      → (status os c w ≡ stopped) × ((oci_state os c w).pid ≡ none)
  unfolding status oci_state alive
  recycled_pid-stopped t h ne = ground arith

  -- The reported state names no pid and the container is stopped, or it names the recorded pid and
  -- the container is not stopped.
  pub oci_state-pid :
      ((oci_state os c w).pid ≡ none × (status os c w ≡ stopped))
      ⊎ ((oci_state os c w).pid ≡ some c.state.pid × (status os c w ≢ stopped))
  unfolding oci_state
  oci_state-pid = ground arith

  pub require-err :
      (expected : List Status)
      → any (status_eq (status os c w)) expected ≡ false
      → require os c expected w
        ≡ err (
            bad_state c.state.id
              (display (status os c w))
              (join (codes " or ") (map display expected)))
  unfolding require
  require-err expected h = rw h
