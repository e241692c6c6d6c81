-- ===== src/Container/Progress.antt =====
-- What a command that succeeds has done.
use marstack_container.Prelude.{
  ℕ, ◌≡◌, ◌≢◌, ◌↔◌, ◌⊎◌, refl, ap, inl, inr, Bool, true, false, [], ◌∷◌, arith, Bool-cases,
  if◌then◌else◌,
}
use marstack_container.Std.Text.{Text, codes, join}
use marstack_container.Std.FilePath.{FilePath}
use marstack_container.Error.{Error, Result, ok, err, bad_state}
use marstack_container.Exec.{look-bind-eq-ok, look, bind-eq-ok, continue, lift, ◌>>=◌, ◌>>◌}
use marstack_container.Os.{Os, done}
use marstack_container.Os.Laws.{FsLaws}
use marstack_container.Paths.{Layout, container_dir}
use marstack_container.Cgroup.V2.{Cgroup, is_frozen, freeze, destroy}
use marstack_container.Cgroup.Waits.{freeze-frozen}
use marstack_container.State.{
  display, Status, created, running, paused, Container, Json, load, status, alive, require, remove,
  oci_state, cgroup_of, fifo_of,
}
use marstack_container.State.Observed.{status_eq_iff}
use marstack_container.Container.Fifo.{release}
use marstack_container.Container.Hooks
use marstack_container.Container.Hooks.{poststart, poststop}
use marstack_container.Container.Commands.{
  start, kill_all, signal_procs, delete, delete_found, stop_first, clean_up, container_hooks,
  run_hooks, pause,
}
use marstack_container.Container.Guards.{start-needs_created}

module _ (os : Os) where
  -- `release` ends with the removal of the fifo.
  pub release-removed :
      (path : FilePath) (w w' : os.World)
      → release os path w ≡ (ok tt, w')
      → (os.exists path w ≡ true)
        × (before : os.World) × (os.remove_file path before ≡ (done tt, w'))
  unfolding release
  release-removed path w w' h =
      (ground arith, (os.read_fifo path (os.open_fifo path w).1).1, ground arith)

  not_created :
      (c : Container) (v : os.World) → os.exists (fifo_of c) v ≡ false → status os c v ≢ created
  unfolding status
  not_created c v gone e = ground arith

  created_only :
      (c : Container) (w : os.World) {s : Status}
      → require os c (created ∷ []) w ≡ ok s
      → status os c w ≡ created
  unfolding require
  created_only c w h = ground (arith, status_eq_iff (status os c w) created)

  paused_iff :
      (c : Container) (w : os.World) (pausing : Bool)
      → alive os c w ≡ true
      → is_frozen os (cgroup_of c) w ≡ pausing
      → (status os c w ≡ paused) ↔ (pausing ≡ true)
  unfolding status
  paused_iff c w pausing lives frozen = ground arith

  remove-gone :
      (laws : FsLaws os) (c : Container) (w w' : os.World)
      → remove os c w ≡ (ok tt, w')
      → os.exists (container_dir c.layout c.state.id) w' ≡ false
  unfolding remove
  remove-gone laws c w w' h = elim (Bool-cases (os.exists (container_dir c.layout c.state.id) w)) [
    | inl there ↦ laws.remove_dir_all_gone (container_dir c.layout c.state.id) w w' (ground arith)
    | inr gone ↦ ground arith
  ]

  clean_up-removed :
      (js : Json) (laws : FsLaws os) (c : Container) (w w' : os.World)
      → clean_up os js c w ≡ (ok tt, w')
      → os.exists (container_dir c.layout c.state.id) w' ≡ false
  unfolding clean_up
  clean_up-removed js laws c w w' h =
      let destroyed = (destroy os (cgroup_of c) w).1 in
      let (_, v, _, removed) =
        bind-eq-ok (Hooks.run os js (container_hooks os js c w) poststop (oci_state os c destroyed))
          (λ _. remove os c) destroyed h in
      remove-gone laws c v w' removed

module _ (os : Os) (js : Json) (layout : Layout) (id : Text) where
  -- If the file calls keep the documented laws and start succeeds, then the container was loaded
  -- and created, and in the world where the poststart hooks began its fifo was gone and it was no
  -- longer created.
  pub start-released :
      (laws : FsLaws os) (w w' : os.World)
      → start os js layout id w ≡ (ok tt, w')
      → (c : Container) × (v : os.World) × (load os js layout id w ≡ ok c)
        × (status os c w ≡ created)
        × (os.exists (fifo_of c) v ≡ false)
        × (status os c v ≢ created)
        × (run_hooks os js c poststart v ≡ (ok tt, w'))
  unfolding start
  start-released laws w w' h =
      let (c, loaded, h1) =
        look-bind-eq-ok (load os js layout id)
          (λ c.
            look (require os c (created ∷ []))
            >> (release os (fifo_of c) >> run_hooks os js c poststart))
          w h in
      let (s, required, h2) =
        look-bind-eq-ok (require os c (created ∷ []))
          (λ _. release os (fifo_of c) >> run_hooks os js c poststart) w h1 in
      let (u, v, released, h3) =
        bind-eq-ok (release os (fifo_of c)) (λ _. run_hooks os js c poststart) w h2 in
      let (_, before, removed) = release-removed os (fifo_of c) w v released in
      let gone : os.exists (fifo_of c) v ≡ false =
        laws.remove_file_gone (fifo_of c) before v removed in
      (c, v, loaded, created_only os c w required, gone, not_created os c v gone, h3)

  -- On a loaded container whose fifo is gone, start reports the wrong state and leaves the world as
  -- it is.
  pub start-again :
      (c : Container) (w : os.World)
      → load os js layout id w ≡ ok c
      → os.exists (fifo_of c) w ≡ false
      → start os js layout id w
        ≡ (err (bad_state c.state.id (display (status os c w)) (codes "created")), w)
  unfolding join display
  start-again c w h gone = start-needs_created os js layout id w c h (not_created os c w gone)

  -- If the file calls keep the documented laws, the id loaded as a container and delete succeeded,
  -- then the directory of the container is gone.
  pub delete-removed :
      (laws : FsLaws os) (force : Bool) (c : Container) (w w' : os.World)
      → load os js layout id w ≡ ok c
      → delete os js layout id force w ≡ (ok tt, w')
      → os.exists (container_dir c.layout c.state.id) w' ≡ false
  unfolding delete delete_found
  delete-removed laws force c w w' h d =
      let (_, v, _, cleaned) =
        bind-eq-ok (stop_first os js force id c (status os c w)) (λ _. clean_up os js c) w
          (rw h at d) in
      clean_up-removed os js laws c v w' cleaned

  -- A pause or resume that succeeds leaves the cgroup of the loaded container in the state that was
  -- asked for, so that a container still alive is then paused exactly when a pause was asked for.
  pub pause-status :
      (pausing : Bool) (w w' : os.World)
      → pause os js layout id pausing w ≡ (ok tt, w')
      → (c : Container) × (load os js layout id w ≡ ok c)
        × (is_frozen os (cgroup_of c) w' ≡ pausing)
        × (alive os c w' ≡ true → (status os c w' ≡ paused) ↔ (pausing ≡ true))
  unfolding pause
  pause-status pausing w w' h =
      let (c, loaded, h1) =
        look-bind-eq-ok (load os js layout id)
          (λ c.
            look (require os c (if pausing then created ∷ running ∷ [] else paused ∷ []))
            >> freeze os (cgroup_of c) pausing)
          w h in
      let (s, required, h2) =
        look-bind-eq-ok (require os c (if pausing then created ∷ running ∷ [] else paused ∷ []))
          (λ _. freeze os (cgroup_of c) pausing) w h1 in
      let frozen = freeze-frozen os (cgroup_of c) pausing w w' h2 in
      (c, loaded, frozen, λ lives. paused_iff os c w' pausing lives frozen)

module _ (os : Os) where
  -- From a frozen cgroup: the signals were sent, with the result s, and after that the cgroup was
  -- asked to thaw. It did, and the result is s; or that failed, and its error is the result.
  abbrev pub Signalled : Cgroup → ℕ → Result (Unit {0}) → os.World → os.World → Type 0
  Signalled cg signal r v w' =
      (s : Result (Unit {0})) × (u : os.World) × (signal_procs os cg signal v ≡ (s, u))
      × (((freeze os cg false u ≡ (ok tt, w')) × (is_frozen os cg w' ≡ false) × (r ≡ s))
          ⊎ ((e : Error) × (freeze os cg false u ≡ (err e, w')) × (r ≡ err e)))

  Signalled-thaws :
      (cg : Cgroup) (signal : ℕ) (v w' : os.World) (r : Result (Unit {0}))
      → ((λ x. let (s, y) = signal_procs os cg signal x in (ok s, y)) >>= λ s.
            freeze os cg false >> lift s)
          v
        ≡ (r, w')
      → Signalled cg signal r v w'
  Signalled-thaws cg signal v w' r h = go (freeze os cg false u).0 refl h
    where
      s : Result (Unit {0})
      s = (signal_procs os cg signal v).0

      u : os.World
      u = (signal_procs os cg signal v).1

      go :
          (t : Result (Unit {0}))
          → (freeze os cg false u).0 ≡ t
          → continue (freeze os cg false u) (λ _. lift s) ≡ (r, w')
          → Signalled cg signal r v w'
      go (ok tt) thawed k =
          let end : freeze os cg false u ≡ (ok tt, w') = ground arith in
          (s, u, refl, inl (end, freeze-frozen os cg false u w' end, ground arith))
      go (err e) stuck k = (s, u, refl, inr (e, ground arith, ground arith))

  -- A kill of every process of a cgroup that is not frozen freezes it before any signal is sent; if
  -- that fails, its error is the result and no signal is sent. Whatever came of the signals, it
  -- then asks the cgroup to thaw. If it does, the cgroup is not frozen, and the result is that of
  -- the signals; if that fails, its error is the result.
  pub kill_all-thaws :
      (cg : Cgroup) (signal : ℕ) (w w' : os.World) (r : Result (Unit {0}))
      → is_frozen os cg w ≡ false
      → kill_all os cg signal w ≡ (r, w')
      → ((e : Error) × (freeze os cg true w ≡ (err e, w')) × (r ≡ err e))
        ⊎ ((v : os.World) × (freeze os cg true w ≡ (ok tt, v))
            × (is_frozen os cg v ≡ true)
            × Signalled cg signal r v w')
  unfolding kill_all
  kill_all-thaws cg signal w w' r thawed h = go (freeze os cg true w).0 refl (rw thawed at h)
    where
      go :
          (t : Result (Unit {0}))
          → (freeze os cg true w).0 ≡ t
          → continue (freeze os cg true w) (λ _.
            (λ x. let (s, y) = signal_procs os cg signal x in (ok s, y)) >>= λ s.
            freeze os cg false >> lift s)
            ≡ (r, w')
          → ((e : Error) × (freeze os cg true w ≡ (err e, w')) × (r ≡ err e))
            ⊎ ((v : os.World) × (freeze os cg true w ≡ (ok tt, v))
                × (is_frozen os cg v ≡ true)
                × Signalled cg signal r v w')
      go (err e) stuck k = inl (e, ground arith, ground arith)
      go (ok tt) froze k =
          let v = (freeze os cg true w).1 in
          let start : freeze os cg true w ≡ (ok tt, v) = ap (λ t. (t, v)) froze in
          inr (
            v,
            start,
            freeze-frozen os cg true w v start,
            Signalled-thaws cg signal v w' r (rw start at k),
          )
