-- ===== src/Container/Init/Entered.antt =====
-- What an init that became its program has done, and in which order.
use marstack_container.Prelude.{◌≡◌, Bool, true, false, some, List, arith}
use marstack_container.Prelude.Int.{ℤ}
use marstack_container.Std.Text.{codes}
use marstack_container.Error.{ok}
use marstack_container.Exec.{TakenIf, when, bind-eq-ok, look-bind-eq-ok}
use marstack_container.Os.{Os, done, plain_call}
use marstack_container.Os.Answered.{plain_call-eq-ok}
use marstack_container.Syscall.{unshare, unblock_all, execve}
use marstack_container.Spec.{cgroup, NamespaceType}
use marstack_container.State.{running, OciState, Json}
use marstack_container.Bundle.Load
use marstack_container.Sync.{
  Codec, Message, Phase, request_user_mapping, cgroup_applied, init_pid, init_ready, send, expect,
}
use marstack_container.Sync
use marstack_container.Container.Create.{Plan}
use marstack_container.Container.Fifo.{park}
use marstack_container.Container.Hooks
use marstack_container.Container.Hooks.{start_container}
use marstack_container.Container.Capabilities.{Caps}
use marstack_container.Container.Console.{Pty}
use marstack_container.Container.Seccomp.{Scmp}
use marstack_container.Container.Init.Securing.{secure}
use marstack_container.Container.Init.Main.{
  Program, applied_pid, set_up, await_start, container_init,
}

applied_pid-eq-ok : (m : Message) (pid : ℤ) → applied_pid m ≡ ok pid → m ≡ cgroup_applied pid
unfolding applied_pid
applied_pid-eq-ok Sync.request_user_mapping pid h = absurd (cc h)
applied_pid-eq-ok Sync.user_mapping_done pid h = absurd (cc h)
applied_pid-eq-ok (Sync.init_pid p ph) pid h = absurd (cc h)
applied_pid-eq-ok (Sync.cgroup_applied p) pid h = ground arith
applied_pid-eq-ok (Sync.init_ready ph) pid h = absurd (cc h)
applied_pid-eq-ok (Sync.failed t) pid h = absurd (cc h)

module _ (os : Os) where
  when_unshare :
      (b : Bool) (kind : NamespaceType) (v u : os.World)
      → when b (plain_call os (os.sys (unshare kind))) v ≡ (ok tt, u)
      → TakenIf b (λ x y. os.sys (unshare kind) x ≡ (done tt, y)) v u
  when_unshare true kind v u h = plain_call-eq-ok os (os.sys (unshare kind)) v u h
  when_unshare false kind v u h = ground arith

module _ (os : Os) (js : Json) (codec : Codec) (pty : Pty os) (caps : Caps os)
    (scmp : Scmp os) where
  -- From the world where everything is given up: the runtime is told, the init waits on the fifo,
  -- the hooks run, the signals are let through, and the program runs.
  abbrev pub Started : List Phase → Plan → OciState → Program → os.World → os.World → Type 0
  Started phases plan state program v w' =
      (v1 v2 v3 v4 : os.World) × (send os codec (init_ready phases) v ≡ (ok tt, v1))
      × (park os plan.fifo v1 ≡ (ok tt, v2))
      × (Hooks.run os js plan.bundle.spec.hooks start_container (record state { status = running })
            v2
          ≡ (ok tt, v3))
      × (os.sys unblock_all v3 ≡ (done tt, v4))
      × (os.sys (execve program.path program.argv program.env) v4 ≡ (done tt, w'))

  await_start-Started :
      (phases : List Phase) (plan : Plan) (state : OciState) (program : Program) (v w' : os.World)
      → await_start os js codec pty caps scmp phases plan state program v ≡ (ok tt, w')
      → Started phases plan state program v w'
  unfolding await_start
  await_start-Started phases plan state program v w' h =
      let (_, v1, told, h1) = bind-eq-ok (send os codec (init_ready phases)) _ v h in
      let (_, v2, parked, h2) = bind-eq-ok (park os plan.fifo) _ v1 h1 in
      let (_, v3, hooked, h3) =
        bind-eq-ok
          (Hooks.run os js plan.bundle.spec.hooks start_container
            (record state { status = running }))
          _ v2 h2 in
      let (_, v4, unblocked, last) = bind-eq-ok (plain_call os (os.sys unblock_all)) _ v3 h3 in
      (
        v1,
        v2,
        v3,
        v4,
        told,
        parked,
        hooked,
        plain_call-eq-ok os (os.sys unblock_all) v3 v4 unblocked,
        plain_call-eq-ok os (os.sys (execve program.path program.argv program.env)) v4 w' last,
      )

  -- An init that became its program was first told that it is in the cgroup, and its number for the
  -- host. After that it made the cgroup namespace if the plan has one, set up its file system, its
  -- names and its limits, and gave up its privileges. Only then did it tell that it is ready, wait
  -- on the fifo for `start`, run the hooks of the start with the state of a running container of
  -- that number, let signals through, and run the program that was found, in this order.
  pub container_init-Started :
      (phases : List Phase) (plan : Plan) (w w' : os.World)
      → container_init os js codec pty caps scmp phases plan w ≡ (ok tt, w')
      → (pid : ℤ) × (program : Program) × (v1 v2 v3 v4 : os.World) × (expect os codec
            (codes "CgroupApplied")
            w
          ≡ (ok (cgroup_applied pid), v1))
        × TakenIf plan.cgroup_ns (λ x y. os.sys (unshare cgroup) x ≡ (done tt, y)) v1 v2
        × (set_up os js codec pty caps scmp plan (record plan.state { pid = some pid }) v2
            ≡ (ok program, v3))
        × (secure os caps scmp plan.bundle.spec.process (Load.seccomp plan.bundle) v3 ≡ (ok tt, v4))
        × Started phases plan (record plan.state { pid = some pid }) program v4 w'
  unfolding container_init
  container_init-Started phases plan w w' h =
      let (m, v1, heard, h1) = bind-eq-ok (expect os codec (codes "CgroupApplied")) _ w h in
      let (pid, read, h2) = look-bind-eq-ok (λ v. applied_pid m) _ v1 h1 in
      let (_, v2, unshared, h3) =
        bind-eq-ok (when plan.cgroup_ns (plain_call os (os.sys (unshare cgroup)))) _ v1 h2 in
      let state = record plan.state { pid = some pid } in
      let (program, v3, ready, h4) =
        bind-eq-ok (set_up os js codec pty caps scmp plan state) _ v2 h3 in
      let (_, v4, secured, h5) =
        bind-eq-ok (secure os caps scmp plan.bundle.spec.process (Load.seccomp plan.bundle)) _ v3
          h4 in
      (
        pid,
        program,
        v1,
        v2,
        v3,
        v4,
        rw (applied_pid-eq-ok m pid read) at heard,
        when_unshare os plan.cgroup_ns cgroup v1 v2 unshared,
        ready,
        secured,
        await_start-Started phases plan state program v4 w' h5,
      )
