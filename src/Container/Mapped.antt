-- ===== src/Container/Mapped.antt =====
-- What a writing of id maps that succeeds has done, and in which order.
use marstack_container.Prelude.{◌≡◌, ◌⊎◌, Bool, true, false, List, ◌∷◌}
use marstack_container.Prelude.Int.{ℤ}
use marstack_container.Std.Text.{Text}
use marstack_container.Std.Decimal.{int_to_string}
use marstack_container.Std.FilePath.{FilePath}
use marstack_container.Spec.{LinuxIdMapping}
use marstack_container.Error.{ok}
use marstack_container.Os.{Os, done}
use marstack_container.Container.Userns.{render, proc_file, helper_ids, locate, write}

module _ (os : Os) (pid : ℤ) where
  -- The helper was found, and ended well with the pid and the ids of the map.
  abbrev pub Helped : Text → List LinuxIdMapping → os.World → os.World → Type 0
  Helped helper ids v w =
      (binary : FilePath) × (locate os helper v ≡ ok binary)
      × (os.output binary (int_to_string pid ∷ helper_ids ids) v ≡ (done true, w))

  -- A map was written to its file of the process, or, without privileges, by the helper after that
  -- had failed.
  abbrev pub Mapped : Bool → Text → Text → List LinuxIdMapping → os.World → os.World → Type 0
  Mapped privileged file helper ids v w =
      (os.write (proc_file pid file) (render ids) v ≡ (done tt, w))
      ⊎ ((privileged ≡ false)
          × Helped helper ids (os.write (proc_file pid file) (render ids) v).1 w)
