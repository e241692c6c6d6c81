-- ===== src/Container/Guards.antt =====
-- A command in the wrong state is refused, and what it refuses it leaves alone.
use marstack_container.Prelude.{
  ℕ, ◌≡◌, ◌⊎◌, refl, ◌≢◌, Bool, true, false, List, [], ◌∷◌, arith, any, Bool-cases, inl, inr, map,
}
use marstack_container.Std.Text.{Text, codes, join}
use marstack_container.Spec.{LinuxResources}
use marstack_container.Error.{Error, ok, err, not_found, bad_state}
use marstack_container.Os.{Os}
use marstack_container.Paths.{Layout, state_file}
use marstack_container.State.{
  Status, creating, created, running, stopped, paused, status_eq, display, Container, Json, load,
  status, require,
}
use marstack_container.State.Observed.{status_eq_iff, require-err}
use marstack_container.Container.Commands.{start, kill, delete, pause, update}

status_eq-false : (a b : Status) → a ≢ b → status_eq a b ≡ false
status_eq-false a b ne = elim (Bool-cases (status_eq a b)) [
  | inl e ↦ absurd (ne ((status_eq_iff a b).0 e))
  | inr e ↦ e
]

module _ (os : Os) (js : Json) (layout : Layout) (id : Text) (w : os.World) where
  -- What `require` reports of a container whose status is not among those expected.
  abbrev wrong_state : Container → List Status → Error
  wrong_state c expected =
      bad_state c.state.id (display (status os c w)) (join (codes " or ") (map display expected))

  -- When the id has no state file, start, kill, pause, update and delete each return not_found and
  -- leave the world as it is, and a forced deletion succeeds and leaves it too.
  not_found-unchanged :
      (signal : ℕ) (everything pausing : Bool) (resources : LinuxResources)
      → os.is_file (state_file layout id) w ≡ false
      → (start os js layout id w ≡ (err (not_found id), w))
        × (kill os js layout id signal everything w ≡ (err (not_found id), w))
        × (pause os js layout id pausing w ≡ (err (not_found id), w))
        × (update os js layout id resources w ≡ (err (not_found id), w))
        × (delete os js layout id false w ≡ (err (not_found id), w))
        × (delete os js layout id true w ≡ (ok tt, w))
  unfolding start kill delete pause update load
  not_found-unchanged signal everything pausing resources h = (rw h, rw h, rw h, rw h, rw h, rw h)

  -- On a loaded container that is not created, start reports the wrong state and leaves the world
  -- as it is.
  pub start-needs_created :
      (c : Container)
      → load os js layout id w ≡ ok c
      → status os c w ≢ created
      → start os js layout id w ≡ (err (wrong_state c (created ∷ [])), w)
  unfolding start
  start-needs_created c h ne = ground (
    arith,
    require-err os c w (created ∷ []) (ground (arith, status_eq-false (status os c w) created ne)),
  )

  -- On a loaded container that is stopped, kill, update, pause and resume each report the wrong
  -- state and leave the world as it is.
  pub stopped-refuses :
      (c : Container) (signal : ℕ) (everything : Bool) (resources : LinuxResources)
      → load os js layout id w ≡ ok c
      → status os c w ≡ stopped
      → (kill os js layout id signal everything w
          ≡ (err (wrong_state c (created ∷ running ∷ paused ∷ [])), w))
        × (update os js layout id resources w
            ≡ (err (wrong_state c (created ∷ running ∷ paused ∷ [])), w))
        × (pause os js layout id true w ≡ (err (wrong_state c (created ∷ running ∷ [])), w))
        × (pause os js layout id false w ≡ (err (wrong_state c (paused ∷ [])), w))
  unfolding kill update pause
  stopped-refuses c signal everything resources h s = (
    ground (arith, refused (created ∷ running ∷ paused ∷ []) (rw s (unfold status_eq in refl))),
    ground (arith, refused (created ∷ running ∷ paused ∷ []) (rw s (unfold status_eq in refl))),
    ground (arith, refused (created ∷ running ∷ []) (rw s (unfold status_eq in refl))),
    ground (arith, refused (paused ∷ []) (rw s (unfold status_eq in refl))),
  )
    where
      refused :
          (expected : List Status)
          → any (status_eq (status os c w)) expected ≡ false
          → require os c expected w ≡ err (wrong_state c expected)
      refused expected e = require-err os c w expected e

  -- On a loaded container, a pause of a paused one and a resume of one that is not paused each
  -- report the wrong state and leave the world as it is.
  pub pause-needs_change :
      (c : Container)
      → load os js layout id w ≡ ok c
      → (status os c w ≡ paused
          → pause os js layout id true w ≡ (err (wrong_state c (created ∷ running ∷ [])), w))
        × (status os c w ≢ paused
            → pause os js layout id false w ≡ (err (wrong_state c (paused ∷ [])), w))
  unfolding pause
  pause-needs_change c h = (
    λ s.
        ground
          (arith, require-err os c w (created ∷ running ∷ []) (rw s (unfold status_eq in refl))),
    λ ne. ground (
      arith,
      require-err os c w (paused ∷ []) (ground (arith, status_eq-false (status os c w) paused ne)),
    ),
  )

  -- On a loaded container that is not stopped, a deletion without force reports the wrong state and
  -- leaves the world as it is.
  pub delete-needs_stopped :
      (c : Container)
      → load os js layout id w ≡ ok c
      → status os c w ≢ stopped
      → delete os js layout id false w ≡ (
        err (
            bad_state id
              (display (status os c w))
              (codes "stopped; pass --force to kill it first")),
        w,
      )
  unfolding delete
  delete-needs_stopped c h ne = go (status os c w) refl
    where
      go :
          (s : Status)
          → status os c w ≡ s
          → delete os js layout id false w ≡ (
            err (
                bad_state id
                  (display (status os c w))
                  (codes "stopped; pass --force to kill it first")),
            w,
          )
      go stopped e = absurd (ne e)
      go creating e = rw (h, e)
      go created e = rw (h, e)
      go running e = rw (h, e)
      go paused e = rw (h, e)

  -- On a loaded container each command does its work only in a status that allows it, and otherwise
  -- reports the wrong state and leaves the world as it is: start one that is created, kill, update
  -- and pause one that is not stopped, resume a paused one, and delete, without force, a stopped
  -- one.
  pub commands-guarded :
      (c : Container) (signal : ℕ) (everything : Bool) (resources : LinuxResources)
      → load os js layout id w ≡ ok c
      → ((status os c w ≡ created)
          ⊎ (start os js layout id w ≡ (err (wrong_state c (created ∷ [])), w)))
        × ((status os c w ≢ stopped)
            ⊎ (kill os js layout id signal everything w
                ≡ (err (wrong_state c (created ∷ running ∷ paused ∷ [])), w))
              × (update os js layout id resources w
                  ≡ (err (wrong_state c (created ∷ running ∷ paused ∷ [])), w))
              × (pause os js layout id true w ≡ (err (wrong_state c (created ∷ running ∷ [])), w)))
        × ((status os c w ≡ paused)
            ⊎ (pause os js layout id false w ≡ (err (wrong_state c (paused ∷ [])), w)))
        × ((status os c w ≡ stopped)
            ⊎ (delete os js layout id false w ≡ (
              err (
                  bad_state id
                    (display (status os c w))
                    (codes "stopped; pass --force to kill it first")),
              w,
            )))
  commands-guarded c signal everything resources h = (
    split created (start-needs_created c h),
    refused,
    split paused (pause-needs_change c h).1,
    split stopped (delete-needs_stopped c h),
  )
    where
      split : {P : Type 0} (s : Status) → (status os c w ≢ s → P) → (status os c w ≡ s) ⊎ P
      split s f = elim (Bool-cases (status_eq (status os c w) s)) [
        | inl same ↦ inl (ground (arith, status_eq_iff (status os c w) s))
        | inr other ↦ inr (f (λ e. ground (arith, status_eq_iff (status os c w) s)))
      ]

      refused :
          (status os c w ≢ stopped)
          ⊎ (kill os js layout id signal everything w
              ≡ (err (wrong_state c (created ∷ running ∷ paused ∷ [])), w))
            × (update os js layout id resources w
                ≡ (err (wrong_state c (created ∷ running ∷ paused ∷ [])), w))
            × (pause os js layout id true w ≡ (err (wrong_state c (created ∷ running ∷ [])), w))
      refused = elim (Bool-cases (status_eq (status os c w) stopped)) [
        | inl same ↦
            let stop : status os c w ≡ stopped =
              ground (arith, status_eq_iff (status os c w) stopped) in
            let (k, u, p, r) = stopped-refuses c signal everything resources h stop in inr (k, u, p)
        | inr other ↦ inl (λ e. ground (arith, status_eq_iff (status os c w) stopped))
      ]
