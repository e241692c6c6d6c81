-- ===== src/Container/Undone.antt =====
-- What is undone when a creation fails, and the end of the loop that reaps processes.
use marstack_container.Prelude.{ℕ, ◌≡◌, refl, ◌⊎◌, inl, inr, false, Option, none, some, arith}
use marstack_container.Std.FilePath.{FilePath}
use marstack_container.Error.{Error, Result, ok, err}
use marstack_container.Exec.{Exec, ignore, continue, ◌>>=◌}
use marstack_container.Os.{Os, Answer, done, failed, call}
use marstack_container.Os.Laws.{FsLaws}
use marstack_container.Spec.{LinuxResources}
use marstack_container.Cgroup.Apply.{apply}
use marstack_container.Paths.{Layout, container_dir, state_file}
use marstack_container.Cgroup.V2
use marstack_container.Cgroup.V2.{Cgroup, destroy, relative_path}
use marstack_container.State.{Json}
use marstack_container.Bundle.Load.{Bundle, resources, cgroups_path}
use marstack_container.Sync.{Codec}
use marstack_container.Container.Create.{CreateOptions, apply_resources}
use marstack_container.Container.Spawn.{
  Laid, or_undo, spawn, build_in, lay_out, build, create_new, create,
}

module _ {W : Type 0} where
  or_undo-eq-err :
      (m undo : Exec W (Unit {0})) (w w' : W) (e : Error)
      → or_undo m undo w ≡ (err e, w')
      → (v : W) × (m w ≡ (err e, v)) × (w' ≡ (undo v).1)
  unfolding or_undo
  or_undo-eq-err m undo w w' e h = ((m w).1, ground arith, ground arith)

module _ {W A B : Type 0} where
  -- A chain that fails has failed at its first step, or succeeded there and failed after it.
  bind-eq-err :
      (m : Exec W A) (f : A → Exec W B) (w w' : W) (e : Error)
      → (m >>= f) w ≡ (err e, w')
      → (m w ≡ (err e, w')) ⊎ ((a : A) × (v : W) × (m w ≡ (ok a, v)) × (f a v ≡ (err e, w')))
  bind-eq-err m f w w' e h = split (m w) refl h
    where
      split :
          (p : Result A × W)
          → m w ≡ p
          → continue p f ≡ (err e, w')
          → (m w ≡ (err e, w')) ⊎ ((a : A) × (v : W) × (m w ≡ (ok a, v)) × (f a v ≡ (err e, w')))
      split (ok a, v) s h = inr (a, v, s, h)
      split (err d, v) s h = inl (cc (s, h))

module _ (os : Os) where
  dir_failed :
      (dir : FilePath) (w w' : os.World) (e : Error)
      → call os "create" (os.create_dir_all dir) w ≡ (err e, w')
      → (n : ℕ) × (os.create_dir_all dir w ≡ (failed n, w'))
  dir_failed dir w w' e h = ask (os.create_dir_all dir w).0 refl
    where
      ask :
          (a : Answer (Unit {0}))
          → (os.create_dir_all dir w).0 ≡ a
          → (n : ℕ) × (os.create_dir_all dir w ≡ (failed n, w'))
      ask (done u) s = absurd (ground arith)
      ask (failed n) s = (n, ground arith)

module _ (os : Os) (js : Json) (codec : Codec) where
  -- The world is the one after an attempt to destroy the cgroup.
  abbrev pub Destroyed : Cgroup → os.World → Type 0
  Destroyed cgroup w' = (v : os.World) × (w' ≡ (destroy os cgroup v).1)

  apply_resources-undone :
      (cgroup : Cgroup) (r : Option LinuxResources) (w w' : os.World) (e : Error)
      → apply_resources os cgroup r w ≡ (err e, w')
      → Destroyed cgroup w'
  unfolding apply_resources
  apply_resources-undone cgroup none w w' e h = absurd (cc h)
  apply_resources-undone cgroup (some r) w w' e h = ((apply os cgroup r w).1, ground arith)

  build_in-undone :
      (layout : Layout) (bundle : Bundle) (options : CreateOptions) (laid : Laid) (cgroup : Cgroup)
      (w w' : os.World) (e : Error)
      → build_in os js codec layout bundle options laid cgroup w ≡ (err e, w')
      → Destroyed cgroup w'
  unfolding build_in
  build_in-undone layout bundle options laid cgroup w w' e h =
      elim (bind-eq-err (apply_resources os cgroup (resources bundle)) _ w w' e h) [
        | inl failure ↦ apply_resources-undone cgroup (resources bundle) w w' e failure
        | inr (_, v, _, later) ↦
            let (u, _, undone) =
              or_undo-eq-err (spawn os js codec layout bundle options laid cgroup)
                (ignore (destroy os cgroup)) v w' e later in
            (u, undone)
      ]

  -- Where a building that fails has failed: before there was a cgroup, or after it, and then its
  -- destruction was the last thing attempted.
  abbrev pub BuildFailed : Bundle → CreateOptions → os.World → os.World → Error → Type 0
  BuildFailed bundle options w w' e =
      (lay_out os js codec bundle options w ≡ (err e, w'))
      ⊎ ((laid : Laid) × (v : os.World) × (lay_out os js codec bundle options w ≡ (ok laid, v))
          × ((V2.create os (relative_path (cgroups_path bundle) options.id) v ≡ (err e, w'))
              ⊎ ((cgroup : Cgroup) × (u : os.World) × (V2.create os
                      (relative_path (cgroups_path bundle) options.id) v
                    ≡ (ok cgroup, u))
                  × Destroyed cgroup w')))

  build-undone :
      (layout : Layout) (bundle : Bundle) (options : CreateOptions) (w w' : os.World) (e : Error)
      → build os js codec layout bundle options w ≡ (err e, w')
      → BuildFailed bundle options w w' e
  unfolding build
  build-undone layout bundle options w w' e h =
      elim (bind-eq-err (lay_out os js codec bundle options) _ w w' e h) [
        | inl failure ↦ inl failure
        | inr (laid, v, found, later) ↦
            elim (bind-eq-err (V2.create os (relative_path (cgroups_path bundle) options.id)) _ v w'
              e later) [
                | inl failure ↦ inr (laid, v, found, inl failure)
                | inr (cgroup, u, made, last) ↦ inr (
                  laid,
                  v,
                  found,
                  inr (
                    cgroup,
                    u,
                    made,
                    build_in-undone layout bundle options laid cgroup u w' e last,
                  ),
                )
              ]
      ]

  -- If the file calls keep the documented laws and a creation of an id without a state fails, then
  -- either the directory of the container could not be made, or the building failed: before there
  -- was a cgroup, or with the destruction of the cgroup attempted last. In that case the directory
  -- is removed after it, so that it is gone if its removal succeeds.
  pub create-undone :
      (laws : FsLaws os) (layout : Layout) (bundle : Bundle) (options : CreateOptions)
      (w w' : os.World) (e : Error)
      → os.is_file (state_file layout options.id) w ≡ false
      → create os js codec layout bundle options w ≡ (err e, w')
      → ((n : ℕ) × (os.create_dir_all (container_dir layout options.id) w ≡ (failed n, w')))
        ⊎ ((made v : os.World) × (os.create_dir_all (container_dir layout options.id) w
              ≡ (done tt, made))
            × BuildFailed bundle options made v e
            × (w' ≡ (os.remove_dir_all (container_dir layout options.id) v).1)
            × ((os.remove_dir_all (container_dir layout options.id) v).0 ≡ done tt
                → os.exists (container_dir layout options.id) w' ≡ false))
  unfolding create create_new
  create-undone laws layout bundle options w w' e absent h =
      let dir = container_dir layout options.id in
      let new : create_new os js codec layout bundle options w ≡ (err e, w') = rw absent at h in
      elim (bind-eq-err (call os "create" (os.create_dir_all dir)) _ w w' e new) [
        | inl failure ↦ inl (dir_failed os dir w w' e failure)
        | inr (_, made, there, later) ↦
            let (v, failure, undone) =
              or_undo-eq-err (build os js codec layout bundle options)
                (ignore (call os "" (os.remove_dir_all dir))) made w' e later in
            inr (
              made,
              v,
              ground arith,
              build-undone layout bundle options made v e failure,
              ground arith,
              λ removed. laws.remove_dir_all_gone dir v w' (ground arith),
            )
      ]
