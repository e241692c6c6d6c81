-- ===== src/Os/Laws.antt =====
-- What the runtime relies on of a file system: documented effects of single calls, as hypotheses.
use marstack_container.Prelude.{◌≡◌, true, false, ℕ, ◌+◌, ◌≤◌, ◌<◌, ◌≢◌}
use marstack_container.Std.Text.{Text}
use marstack_container.Std.FilePath.{FilePath}
use marstack_container.Os.{Os, done}
use marstack_container.Syscall.{WaitStatus, still_alive}

pub record FsLaws (os : Os) : Type 0 where
  -- A file that was removed is not there.
  pub remove_file_gone :
      (p : FilePath) (w w' : os.World) → os.remove_file p w ≡ (done tt, w') → os.exists p w' ≡ false
  -- Nor is a directory that was removed with what it held.
  pub remove_dir_all_gone :
      (p : FilePath) (w w' : os.World)
      → os.remove_dir_all p w ≡ (done tt, w')
      → os.exists p w' ≡ false
  -- A file that was written is read back.
  pub write_reads :
      (p : FilePath) (t : Text) (w w' : os.World)
      → os.write p t w ≡ (done tt, w')
      → (os.read_to_string p w' ≡ done t) × (os.is_file p w' ≡ true)
  -- A renamed file is found at its new place.
  pub rename_moves :
      (p q : FilePath) (w w' : os.World)
      → os.rename p q w ≡ (done tt, w')
      → (os.read_to_string q w' ≡ os.read_to_string p w) × (os.is_file q w' ≡ os.is_file p w)

-- The monotonic clock never goes back, and a sleep takes at least its time.
pub record ClockLaws (os : Os) : Type 0 where
  pub sleep_advances : (n : ℕ) (w : os.World) → os.instant w + n ≤ os.instant (os.sleep n w)
  pub try_wait_advances :
      (child : ℕ) (w : os.World) → os.instant w ≤ os.instant (os.try_wait child w).1

-- What waitpid tells of a child's end or change it tells once.
pub record ReapLaws (os : Os) : Type 0 where
  pub reap_tells :
      (status : WaitStatus) (w w' : os.World)
      → os.reap w ≡ (done status, w')
      → status ≢ still_alive
      → os.reapable w' < os.reapable w
