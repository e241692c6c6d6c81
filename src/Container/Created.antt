-- ===== src/Container/Created.antt =====
-- What a creation that succeeds has done, up to the state that is on disk.
use marstack_container.Prelude.{
  ◌≢◌, ℕ, ◌≡◌, refl, ap, ◌∙◌, false, Option, none, some, arith, Bool-cases, inl, inr,
}
use marstack_container.Prelude.Int.{ℤ}
use marstack_container.Std.Text.{Text, codes}
use marstack_container.Std.FilePath.{FilePath}
use marstack_container.Error.{ok}
use marstack_container.Exec.{Exec, bind-eq-ok, look-bind-eq-ok, ignore}
use marstack_container.Os.{Os, call, plain_call}
use marstack_container.Os.Laws.{FsLaws}
use marstack_container.Paths.{Layout, container_dir, state_file, exec_fifo}
use marstack_container.Cgroup.V2.{Cgroup, add_process, relative_path, destroy}
use marstack_container.Cgroup.V2
use marstack_container.State.{Persisted, Json, save, start_time}
use marstack_container.State.Store.{Written, save-Written}
use marstack_container.Bundle.Load.{Bundle, resources, cgroups_path}
use marstack_container.Sync.{Codec, Message, cgroup_applied, send, recv, expect}
use marstack_container.Syscall.{set_child_subreaper, socketpair}
use marstack_container.Container.Signals.{block_forwardable}
use marstack_container.Container.Fifo
use marstack_container.Container.Create.{
  CreateOptions, Plan, init_of, settle_users, run_created, record_init, persisted_of,
  write_pid_file, handshake, apply_resources,
}
use marstack_container.Container.Spawn.{
  Laid, plan_of, open_console, refuse, abandon, or_undo, spawn, build_in, lay_out, build,
  create_new, create,
}

module _ {W : Type 0} where
  or_undo-eq-ok :
      (m undo : Exec W (Unit {0})) (w w' : W) → or_undo m undo w ≡ (ok tt, w') → m w ≡ (ok tt, w')
  unfolding or_undo
  or_undo-eq-ok m undo w w' h = ground arith

module _ (os : Os) (js : Json) (codec : Codec) where
  -- The init was put in the cgroup and the hooks of its creation ran, before it was told to go on;
  -- it said that it was ready, and then its state was recorded.
  abbrev pub Recorded : Layout → Plan → Cgroup → CreateOptions → os.World → Type 0
  Recorded layout plan cgroup options w' =
      (init : ℤ) × (v1 v2 v3 v4 v5 : os.World) × (message : Message) × (add_process os cgroup init
          v1
        ≡ (ok tt, v2))
      × (run_created os js codec plan init v2 ≡ (ok tt, v3))
      × (send os codec (cgroup_applied init) v3 ≡ (ok tt, v4))
      × (expect os codec (codes "InitReady") v4 ≡ (ok message, v5))
      × (record_init os js codec layout plan cgroup options init v5 ≡ (ok tt, w'))

  handshake-Recorded :
      (layout : Layout) (plan : Plan) (cgroup : Cgroup) (options : CreateOptions) (intermediate : ℤ)
      (w w' : os.World)
      → handshake os js codec layout plan cgroup options intermediate w ≡ (ok tt, w')
      → Recorded layout plan cgroup options w'
  unfolding handshake
  handshake-Recorded layout plan cgroup options intermediate w w' h =
      let (first, u1, _, h1) = bind-eq-ok (recv os codec) _ w h in
      let (message, u2, _, h2) =
        bind-eq-ok (settle_users os js codec plan intermediate first) _ u1 h1 in
      let (init, _, h3) = look-bind-eq-ok (λ _. init_of os js codec message) _ u2 h2 in
      let (_, v1, _, h4) = bind-eq-ok (plain_call os (os.waitpid intermediate)) _ u2 h3 in
      let (_, v2, added, h5) = bind-eq-ok (add_process os cgroup init) _ v1 h4 in
      let (_, v3, ran, h6) = bind-eq-ok (run_created os js codec plan init) _ v2 h5 in
      let (_, v4, told, h7) = bind-eq-ok (send os codec (cgroup_applied init)) _ v3 h6 in
      let (ready, v5, heard, h8) = bind-eq-ok (expect os codec (codes "InitReady")) _ v4 h7 in
      (init, v1, v2, v3, v4, v5, ready, added, ran, told, heard, h8)

  spawn-Recorded :
      (layout : Layout) (bundle : Bundle) (options : CreateOptions) (laid : Laid) (cgroup : Cgroup)
      (w w' : os.World)
      → spawn os js codec layout bundle options laid cgroup w ≡ (ok tt, w')
      → (fifo : ℕ) × (console : Option ℕ) × Recorded layout
          (plan_of bundle options laid fifo console)
          cgroup
          options
          w'
  unfolding spawn
  spawn-Recorded layout bundle options laid cgroup w w' h =
      let path = exec_fifo layout options.id in
      let (fifo, u1, _, h1) = bind-eq-ok (Fifo.create os path) _ w h in
      let (console, u2, _, h2) = bind-eq-ok (open_console os options.console_socket) _ u1 h1 in
      let (_, u3, _, h3) = bind-eq-ok (plain_call os (os.sys set_child_subreaper)) _ u2 h2 in
      let (_, u4, _, h4) = bind-eq-ok (block_forwardable os) _ u3 h3 in
      let (_, u5, _, h5) = bind-eq-ok (plain_call os (os.sys socketpair)) _ u4 h4 in
      let (intermediate, u6, _, h6) = bind-eq-ok (plain_call os os.fork) _ u5 h5 in
      let plan = plan_of bundle options laid fifo console in
      (
        fifo,
        console,
        handshake-Recorded layout plan cgroup options intermediate u6 w' (
            or_undo-eq-ok (handshake os js codec layout plan cgroup options intermediate)
              (abandon os js codec path cgroup) u6 w' h6),
      )

  -- A container that was created: what its state was recorded from.
  abbrev pub Created : Layout → Bundle → CreateOptions → os.World → Type 0
  Created layout bundle options w' =
      (laid : Laid) × (cgroup : Cgroup) × (fifo : ℕ) × (console : Option ℕ) × Recorded layout
        (plan_of bundle options laid fifo console) cgroup options w'

  build-Created :
      (layout : Layout) (bundle : Bundle) (options : CreateOptions) (w w' : os.World)
      → build os js codec layout bundle options w ≡ (ok tt, w')
      → Created layout bundle options w'
  unfolding build build_in
  build-Created layout bundle options w w' h =
      let (laid, u1, _, h1) = bind-eq-ok (lay_out os js codec bundle options) _ w h in
      let (cgroup, u2, _, h2) =
        bind-eq-ok (V2.create os (relative_path (cgroups_path bundle) options.id)) _ u1 h1 in
      let (_, u3, _, h3) = bind-eq-ok (apply_resources os cgroup (resources bundle)) _ u2 h2 in
      let spawned =
        or_undo-eq-ok (spawn os js codec layout bundle options laid cgroup)
          (ignore (destroy os cgroup)) u3 w' h3 in
      let (fifo, console, recorded) =
        spawn-Recorded layout bundle options laid cgroup u3 w' spawned in
      (laid, cgroup, fifo, console, recorded)

  refuse-fails :
      (layout : Layout) (id : Text) (w : os.World) → refuse os js codec layout id w ≢ ok tt
  unfolding refuse
  refuse-fails layout id w e = ground arith

  -- A creation that succeeds found no state of its id. The init was put in the cgroup and the hooks
  -- of its creation ran before it was told to go on, and its state was recorded only after it had
  -- said that it was ready.
  pub create-Created :
      (layout : Layout) (bundle : Bundle) (options : CreateOptions) (w w' : os.World)
      → create os js codec layout bundle options w ≡ (ok tt, w')
      → (os.is_file (state_file layout options.id) w ≡ false) × Created layout bundle options w'
  unfolding create create_new
  create-Created layout bundle options w w' h =
      elim (Bool-cases (os.is_file (state_file layout options.id) w)) [
        | inl there ↦ absurd (refuse-fails layout options.id w (ground arith))
        | inr absent ↦
            let dir = container_dir layout options.id in
            let new : create_new os js codec layout bundle options w ≡ (ok tt, w') =
              rw absent at h in
            let (_, v, _, h1) = bind-eq-ok (call os "create" (os.create_dir_all dir)) _ w new in
            let built =
              or_undo-eq-ok (build os js codec layout bundle options)
                (ignore (call os "" (os.remove_dir_all dir))) v w' h1 in
            (absent, build-Created layout bundle options v w' built)
      ]

  no_pid_file :
      (path : Option FilePath) (pid : ℤ) (w w' : os.World)
      → path ≡ none
      → write_pid_file os path pid w ≡ (ok tt, w')
      → w ≡ w'
  unfolding write_pid_file
  no_pid_file none pid w w' e h = ground arith
  no_pid_file (some p) pid w w' e h = absurd (cc e)

  -- If the file calls keep the documented laws and no pid file is asked for, then after a creation
  -- that succeeds the state file of the id is the JSON text of a state with that id, the bundle's
  -- directory, the version of the specification, a pid, and the time at which that process started.
  pub create-Written :
      (laws : FsLaws os) (layout : Layout) (bundle : Bundle) (options : CreateOptions)
      (w w' : os.World)
      → options.pid_file ≡ none
      → create os js codec layout bundle options w ≡ (ok tt, w')
      → (state : Persisted) × (v : os.World) × Written os js layout state w'
        × (state.id ≡ options.id)
        × (state.bundle ≡ bundle.dir)
        × (state.rootless ≡ options.rootless)
        × (state.oci_version ≡ codes "1.0.2")
        × (start_time os state.pid v ≡ ok state.start_time)
  unfolding record_init persisted_of plan_of
  create-Written laws layout bundle options w w' no_pid h =
      let (_, created) = create-Created layout bundle options w w' h in
      let (laid, cgroup, fifo, console, steps) = created in
      let (init, v1, v2, v3, v4, v5, message, _, _, _, _, recorded) = steps in
      let plan = plan_of bundle options laid fifo console in
      let (started, found, h1) = look-bind-eq-ok (start_time os init) _ v5 recorded in
      let state = persisted_of os js codec plan cgroup options init started v5 in
      let (_, v6, saved, h2) = bind-eq-ok (save os js layout state) _ v5 h1 in
      let same = no_pid_file options.pid_file init v6 w' no_pid h2 in
      let written =
        save-Written os laws js layout state v5 w' (saved ∙ ap (λ v. (ok tt, v)) same) in
      (state, v5, written, refl, refl, refl, refl, found)
