-- ===== src/Container/Run.antt =====
-- container/signal.rs: the runtime that stays with its container forwards signals to it and returns
-- with its exit code. container/mod.rs: `run`, which creates, starts, and stays. The warnings on
-- memory and CPU that it logs at the end are left out.
use marstack_container.Prelude.{
  ℕ, zero, suc, ◌+◌, ◌%◌, ◌^◌, Bool, true, false, not, Option, none, some, ◌==◌, if◌then◌else◌,
}
use marstack_container.Prelude.Int.{ℤ, int_eq}
use marstack_container.Error.{ok, err, syscall}
use marstack_container.Exec.{Exec, pure, lift, look, gets, when, ignore, attempt, ◌>>=◌, ◌>>◌}
use marstack_container.Os.{Os, done, failed, plain_call}
use marstack_container.Syscall.{WaitStatus, exited, signaled, still_alive, other_change}
use marstack_container.Paths.{Layout}
use marstack_container.Cgroup.V2.{destroy}
use marstack_container.State.{Container, Json, load, oci_state, remove, cgroup_of, fifo_of}
use marstack_container.Bundle.Load.{Bundle, hooks}
use marstack_container.Sync.{Codec}
use marstack_container.Container.Signals.{block_forwardable}
use marstack_container.Container.Fifo.{release}
use marstack_container.Container.Hooks
use marstack_container.Container.Hooks.{poststart, poststop}
use marstack_container.Container.Commands.{signal_one}
use marstack_container.Container.Create.{CreateOptions, sigchld}
use marstack_container.Container.Spawn.{create}

-- The error number of a process without children.
abbrev pub echild : ℕ
echild = 10

-- The exit code that a status of the init gives, as a `u8`.
unfoldable pub code_of : ℤ → WaitStatus → Option ℕ
code_of init (exited pid code) = if int_eq pid init then some (code % 2 ^ 8) else none
code_of init (signaled pid signal) = if int_eq pid init then some ((128 + signal) % 2 ^ 8) else none
code_of init still_alive = none
code_of init other_change = none

abbrev pub is_still_alive : WaitStatus → Bool
is_still_alive still_alive = true
is_still_alive _ = false

module _ (os : Os) where
  -- The inner loop, with the rounds that are left: it ends with the exit code of the init, or when
  -- there is no more to tell.
  unfoldable pub drain : ℕ → ℤ → Exec os.World (Option ℕ)
  unfolding code_of
  drain zero init w = (ok none, w)
  drain (suc n) init w =
      let (answer, w') = os.reap w in
      let rest = drain n init w' in
      elim answer [
        | failed e ↦ (if e == echild then ok none else err (syscall e), w')
        | done status ↦
            if is_still_alive status
            then (ok none, w')
            else elim (code_of init status) [ none ↦ rest | some code ↦ (ok (some code), w') ]
      ]

  -- One round of the outer loop: a signal is forwarded, or the children are asked for.
  unfoldable pub attend : ℤ → Exec os.World (Option ℕ)
  unfolding drain
  attend init = do
    signal ← plain_call os os.sigwait
    if signal == sigchld
        then (λ w. drain (suc (os.reapable w)) init w)
        else (ignore (signal_one os signal init) >> pure none)

  -- The outer loop, with the signals that are left to wait for; none where these run out.
  unfoldable pub supervise : ℕ → ℤ → Exec os.World (Option ℕ)
  unfolding attend
  supervise zero init w = (ok none, w)
  supervise (suc n) init w =
      let (outcome, w') = attend init w in
      let rest = supervise n init w' in
      elim outcome [
        | err e ↦ (err e, w')
        | ok found ↦ elim found [ none ↦ rest | some code ↦ (ok (some code), w') ]
      ]

module _ (os : Os) (js : Json) (codec : Codec) where
  -- The end of a run that stays: the outcome is that of the supervision, whatever else fails but
  -- a hook.
  unfoldable pub stay : ℕ → Bundle → Container → Bool → Exec os.World (Option ℕ)
  unfolding supervise
  stay fuel bundle container keep = do
    outcome ← attempt (supervise os fuel container.state.pid)
    state ← gets (oci_state os container)
    Hooks.run os js (hooks bundle) poststop state
    ignore (destroy os (cgroup_of container))
    when (not keep) (ignore (remove os container))
    lift outcome

  -- `exported` is what the caller does once the container is started.
  unfoldable pub run :
      ℕ
      → Layout
      → Bundle
      → CreateOptions
      → Bool
      → Bool
      → Exec os.World (Unit {0})
      → Exec os.World (Option ℕ)
  unfolding stay
  run fuel layout bundle options detach keep exported = do
    block_forwardable os
    create os js codec layout bundle options
    container ← look (load os js layout options.id)
    release os (fifo_of container)
    state ← gets (oci_state os container)
    Hooks.run os js (hooks bundle) poststart state
    exported
    if detach then pure (some 0) else stay fuel bundle container keep
