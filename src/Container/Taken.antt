-- ===== src/Container/Taken.antt =====
-- An id that is taken.
use marstack_container.Prelude.{◌≡◌, ◌≢◌, ◌⊎◌, inl, inr, true, arith, Bool-cases}
use marstack_container.Error.{ok, err, already_exists}
use marstack_container.Os.{Os}
use marstack_container.Paths.{Layout, state_file}
use marstack_container.State.{Container, Json, load, status, status_eq, stopped}
use marstack_container.State.Observed.{status_eq_iff}
use marstack_container.Bundle.Load.{Bundle}
use marstack_container.Sync.{Codec}
use marstack_container.Container.Create.{CreateOptions}
use marstack_container.Container.Spawn.{refuse, with_hint, create}

module _ (os : Os) (js : Json) (codec : Codec) where
  -- On an id whose state file loads a creation leaves the world as it is and reports that the id
  -- exists, with the hint that it can be deleted exactly when the container is stopped.
  pub create-exists :
      (layout : Layout) (bundle : Bundle) (options : CreateOptions) (c : Container) (w : os.World)
      → os.is_file (state_file layout options.id) w ≡ true
      → load os js layout options.id w ≡ ok c
      → (status os c w ≡ stopped)
          × (create os js codec layout bundle options w
              ≡ (err (already_exists (with_hint os js codec options.id)), w))
        ⊎ (status os c w ≢ stopped)
          × (create os js codec layout bundle options w ≡ (err (already_exists options.id), w))
  unfolding create refuse
  create-exists layout bundle options c w there found =
      elim (Bool-cases (status_eq (status os c w) stopped)) [
        | inl ended ↦ inl (ground (arith, status_eq_iff (status os c w) stopped), ground arith)
        | inr other ↦
            inr ((λ e. ground (arith, status_eq_iff (status os c w) stopped)), ground arith)
      ]
