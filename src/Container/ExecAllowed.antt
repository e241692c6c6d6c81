-- ===== src/Container/ExecAllowed.antt =====
-- When a second process is started in a container, and in which order it is let go on.
use marstack_container.Prelude.{
  ℕ, ◌≡◌, ◌⊎◌, inl, inr, refl, ap, sym, ◌∙◌, Bool, true, false, Option, List, arith,
}
use marstack_container.Prelude.Int.{ℤ}
use marstack_container.Std.Text.{Text}
use marstack_container.Error.{ok}
use marstack_container.Std.Decimal.{int_to_string}
use marstack_container.Exec.{bind-eq-ok, look-bind-eq-ok, Chain, for_each-Chain}
use marstack_container.Os.{Os, plain_call, done}
use marstack_container.Os.Answered.{call-eq-ok, nix_call-eq-ok, plain_call-eq-ok}
use marstack_container.Syscall.{socketpair, setns, write_handle}
use marstack_container.Spec.{NamespaceType}
use marstack_container.Paths.{Layout}
use marstack_container.State.{
  Status, creating, created, running, stopped, paused, Container, Json, load, status,
}
use marstack_container.Sync.{Codec, cgroup_applied, send}
use marstack_container.Container.Signals.{block_forwardable}
use marstack_container.Container.Spawn.{open_console}
use marstack_container.Container.ExecTarget.{ExecOptions, resolve_target}
use marstack_container.Container.ExecRun.{
  check_status, check_terminal, single_threaded, collect, open_cgroup_procs, open_pid_file,
  join_all, place, attend_child, fork_in, exec_in, exec,
}

-- A status that allows a second process.
abbrev pub Allowed : Status → Bool → Type 0
Allowed s ignore_paused = (s ≡ created) ⊎ (s ≡ running) ⊎ ((s ≡ paused) × (ignore_paused ≡ true))

check_status-Allowed :
    (id : Text) (s : Status) (ignore_paused : Bool)
    → check_status id s ignore_paused ≡ ok tt
    → Allowed s ignore_paused
unfolding check_status
check_status-Allowed id stopped b h = absurd (cc h)
check_status-Allowed id creating b h = absurd (cc h)
check_status-Allowed id paused false h = absurd (cc h)
check_status-Allowed id paused true h = inr (inr (refl, refl))
check_status-Allowed id created b h = inl refl
check_status-Allowed id running b h = inr (inl refl)

module _ (os : Os) where
  single_threaded-same : (v w : os.World) → single_threaded os w ≡ (ok tt, v) → v ≡ w
  unfolding single_threaded
  single_threaded-same v w h = ground arith

module _ (os : Os) (js : Json) (codec : Codec) where
  -- The process was written into the opened file, and told to go on right after that.
  abbrev pub Placed : ℕ → ℤ → os.World → Type 0
  Placed procs child w =
      (v u : os.World) × (os.sys (write_handle procs (int_to_string child)) w ≡ (done tt, v))
      × (send os codec (cgroup_applied child) v ≡ (ok tt, u))

  attend_child-Placed :
      (fuel procs : ℕ) (pid_file : Option ℕ) (detach : Bool) (child : ℤ) (code : Option ℕ)
      (w w' : os.World)
      → attend_child os js codec fuel procs pid_file detach child w ≡ (ok code, w')
      → Placed procs child w
  unfolding attend_child place
  attend_child-Placed fuel procs pid_file detach child code w w' h =
      let (_, v, placed, h1) = bind-eq-ok (place os procs child) _ w h in
      let (_, u, told, h2) = bind-eq-ok (send os codec (cgroup_applied child)) _ v h1 in
      (
        v,
        u,
        call-eq-ok os "write the exec process into the container's cgroup"
            (os.sys (write_handle procs (int_to_string child))) w v placed,
        told,
      )

  -- Every handle was used to join its namespace, one after the other.
  abbrev pub Joined : List (NamespaceType × ℕ) → os.World → os.World → Type 0
  Joined = Chain (λ (j : NamespaceType × ℕ) v v'. os.sys (setns j.0 j.1) v ≡ (done tt, v'))

  join_all-Joined :
      (joins : List (NamespaceType × ℕ)) (w w' : os.World)
      → join_all os joins w ≡ (ok tt, w')
      → Joined joins w w'
  unfolding join_all
  join_all-Joined joins w w' h =
      for_each-Chain _ (λ (j : NamespaceType × ℕ) v v'. os.sys (setns j.0 j.1) v ≡ (done tt, v'))
        (λ j v v' k. nix_call-eq-ok os "setns" (os.sys (setns j.0 j.1)) v v' k) joins w w' h

  -- From one world to the next: the namespaces were joined, the signals blocked, the channel made,
  -- the process forked, and the process that was forked put into the cgroup by the opened file.
  abbrev pub Forked : List (NamespaceType × ℕ) → ℕ → os.World → Type 0
  Forked joins procs w =
      (v1 v2 v3 v4 : os.World) × (child : ℤ) × Joined joins w v1
      × ((set : List ℕ) × (block_forwardable os v1 ≡ (ok set, v2)))
      × (os.sys socketpair v2 ≡ (done tt, v3))
      × (os.fork v3 ≡ (done child, v4))
      × Placed procs child v4

  fork_in-Forked :
      (fuel : ℕ) (joins : List (NamespaceType × ℕ)) (procs : ℕ) (pid_file : Option ℕ)
      (detach : Bool) (code : Option ℕ) (w w' : os.World)
      → fork_in os js codec fuel joins procs pid_file detach w ≡ (ok code, w')
      → Forked joins procs w
  unfolding fork_in
  fork_in-Forked fuel joins procs pid_file detach code w w' h =
      let (_, v5, joined, h1) = bind-eq-ok (join_all os joins) _ w h in
      let (set, v6, blocked, h2) = bind-eq-ok (block_forwardable os) _ v5 h1 in
      let (_, v7, paired, h3) = bind-eq-ok (plain_call os (os.sys socketpair)) _ v6 h2 in
      let (child, v8, forked, h4) = bind-eq-ok (plain_call os os.fork) _ v7 h3 in
      (
        v5,
        v6,
        v7,
        v8,
        child,
        join_all-Joined joins w v5 joined,
        (set, blocked),
        plain_call-eq-ok os (os.sys socketpair) v6 v7 paired,
        plain_call-eq-ok os os.fork v7 v8 forked,
        attend_child-Placed fuel procs pid_file detach child code v8 w' h4,
      )

  -- From one world to the next: the namespaces that differ were found, the console and the file of
  -- the cgroup and the pid file were opened, and then the namespaces were joined and the process
  -- forked.
  abbrev pub Entered : Container → ExecOptions → os.World → Type 0
  Entered c options w =
      (joins : List (NamespaceType × ℕ)) × (procs : ℕ) × (v1 v2 v3 v4 : os.World) × (console
        pid_file : Option ℕ)
      × (collect os c.state.pid w ≡ (ok joins, v1))
      × (open_console os options.console_socket v1 ≡ (ok console, v2))
      × (open_cgroup_procs os c v2 ≡ (ok procs, v3))
      × (open_pid_file os options.pid_file v3 ≡ (ok pid_file, v4))
      × Forked joins procs v4

  exec_in-Entered :
      (fuel : ℕ) (c : Container) (options : ExecOptions) (code : Option ℕ) (w w' : os.World)
      → exec_in os js codec fuel c options w ≡ (ok code, w')
      → Entered c options w
  unfolding exec_in
  exec_in-Entered fuel c options code w w' h =
      let (joins, v1, found, h1) = bind-eq-ok (collect os c.state.pid) _ w h in
      let (console, v2, talked, h2) = bind-eq-ok (open_console os options.console_socket) _ v1 h1 in
      let (procs, v3, opened, h3) = bind-eq-ok (open_cgroup_procs os c) _ v2 h2 in
      let (pid_file, v4, noted, h4) = bind-eq-ok (open_pid_file os options.pid_file) _ v3 h3 in
      (
        joins,
        procs,
        v1,
        v2,
        v3,
        v4,
        console,
        pid_file,
        found,
        talked,
        opened,
        noted,
        fork_in-Forked fuel joins procs pid_file options.detach code v4 w' h4,
      )

  -- A second process that was started found the container created, running, or paused with the
  -- option to ignore that, and the runtime with one thread. From one world to the next, the
  -- namespaces that differ were found, the console, the file of the cgroup and the pid file were
  -- opened, the namespaces found were joined, the signals blocked, the channel made and the process
  -- forked, and the number of the process was written into that file of the cgroup before the
  -- process was told to go on.
  pub exec-Entered :
      (fuel : ℕ) (layout : Layout) (id : Text) (options : ExecOptions) (code : Option ℕ)
      (w w' : os.World)
      → exec os js codec fuel layout id options w ≡ (ok code, w')
      → (c : Container) × (load os js layout id w ≡ ok c)
        × Allowed (status os c w) options.ignore_paused
        × (single_threaded os w ≡ (ok tt, w))
        × Entered c options w
  unfolding exec
  exec-Entered fuel layout id options code w w' h =
      let (c, loaded, h1) = look-bind-eq-ok (load os js layout id) _ w h in
      let s = status os c w in
      let (_, allowed, h2) =
        look-bind-eq-ok (λ _. check_status id s options.ignore_paused) _ w h1 in
      let (target, _, h3) = look-bind-eq-ok (resolve_target os js c options) _ w h2 in
      let (_, _, h4) =
        look-bind-eq-ok (λ _. check_terminal options.console_socket target.terminal) _ w h3 in
      let (_, u, single, h5) = bind-eq-ok (single_threaded os) _ w h4 in
      let same = single_threaded-same os u w single in
      (
        c,
        loaded,
        check_status-Allowed id s options.ignore_paused allowed,
        single ∙ ap (λ v. (ok tt, v)) same,
        exec_in-Entered fuel c options code w w'
            (ap (λ v. exec_in os js codec fuel c options v) (sym same) ∙ h5),
      )
