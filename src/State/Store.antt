-- ===== src/State/Store.antt =====
-- What is saved is loaded again.
use marstack_container.Prelude.{◌≡◌, true, some, [], ◌∷◌, arith}
use marstack_container.Std.Text.{codes}
use marstack_container.Std.FilePath
use marstack_container.Std.FilePath.{FilePath, normal}
use marstack_container.Error.{ok}
use marstack_container.Os.{Os, done}
use marstack_container.Os.Laws.{FsLaws}
use marstack_container.Paths.{Layout, container_dir, state_file}
use marstack_container.State.{Persisted, Json, load, save}

-- The state file of a saved state is its JSON text.
abbrev pub Written : (os : Os) (js : Json) → Layout → Persisted → os.World → Type 0
Written os js layout state w =
    (os.is_file (state_file layout state.id) w ≡ true)
    × (os.read_to_string (state_file layout state.id) w ≡ done (js.to_string_pretty state))

pub save-Written :
    (os : Os) (laws : FsLaws os) (js : Json) (layout : Layout) (state : Persisted) (w w' : os.World)
    → save os js layout state w ≡ (ok tt, w')
    → Written os js layout state w'
unfolding save
save-Written os laws js layout state w w' h =
    let staged =
      FilePath.join (container_dir layout state.id) (normal (codes "state.json.new") ∷ []) in
    let text = js.to_string_pretty state in
    let (_, made) = os.create_dir_all (container_dir layout state.id) w in
    let (_, written) = os.write staged text made in
    let there = laws.write_reads staged text made written (ground arith) in
    let moved = laws.rename_moves staged (state_file layout state.id) written w' (ground arith) in
    (ground (arith, there, moved), ground (arith, there, moved))

-- If the file calls keep the documented laws and the JSON text of a state is read back as the
-- state, then after a save that succeeds the id loads as that state.
pub load-save :
    (os : Os) (laws : FsLaws os) (js : Json) (layout : Layout) (state : Persisted) (w w' : os.World)
    → js.from_str (js.to_string_pretty state) ≡ some state
    → save os js layout state w ≡ (ok tt, w')
    → load os js layout state.id w' ≡ ok (record { layout = layout; state = state })
unfolding load
load-save os laws js layout state w w' back h =
    ground (arith, save-Written os laws js layout state w w' h, back)
