-- ===== src/Paths/Confined.antt =====
-- A validated id names one directory directly under the state root.
use marstack_container.Prelude.{
  ℕ, ◌≡◌, refl, ◌≢◌, ◌∙◌, append_assoc, true, false, [], ◌∷◌, ◌++◌, arith, is_empty, ◌∙◌,
}
use marstack_container.Std.Text.{Text, codes, split_onto, text_eq, contains}
use marstack_container.Std.FilePath
use marstack_container.Std.FilePath.{
  FilePath, join-normal, append-ne-nil, normal, components, from_pieces, piece, is_absolute,
}
use marstack_container.Error.{ok}
use marstack_container.Paths.{
  Layout, container_dir, state_file, exec_fifo, state_file_name, exec_fifo_name, validate_id,
  all_id_chars,
}

split_onto-absent : (c : ℕ) (s : Text) → contains c s ≡ false → split_onto c s ≡ (s, [])
unfolding split_onto contains
split_onto-absent c [] h = refl
split_onto-absent c (x ∷ xs) h = ground (arith, split_onto-absent c xs)

no_slash : (s : Text) → all_id_chars s ≡ true → contains b'/' s ≡ false
unfolding all_id_chars contains
no_slash [] h = refl
no_slash (c ∷ cs) h = ground (arith, no_slash cs)

components_of_name :
    (s : Text)
    → contains b'/' s ≡ false
    → is_empty s ≡ false
    → text_eq s (codes ".") ≡ false
    → text_eq s (codes "..") ≡ false
    → components s ≡ normal s ∷ []
unfolding components
components_of_name s slash e d dd = rw (split_onto-absent b'/' s slash, e, d, dd)

-- The id is one ordinary path component: no separator, no `.` and no `..`.
pub components-validate_id : (id : Text) → validate_id id ≡ ok tt → components id ≡ normal id ∷ []
unfolding validate_id
components-validate_id id h =
    components_of_name id (no_slash id (ground arith)) (ground arith) (ground arith) (ground arith)

file_in :
    (root : FilePath) (s t : Text)
    → FilePath.join (root ++ normal s ∷ []) (normal t ∷ []) ≡ root ++ (normal s ∷ normal t ∷ [])
file_in root s t =
    join-normal (root ++ normal s ∷ []) t (append-ne-nil root (normal s))
    ∙ append_assoc root (normal s ∷ []) (normal t ∷ [])

-- With a root that is not empty and a validated id, the directory of the container is the root with
-- that id as one more component, and the state file and the fifo are inside it.
pub validate_id-confines :
    (l : Layout) (id : Text)
    → l.root ≢ []
    → validate_id id ≡ ok tt
    → (container_dir l id ≡ l.root ++ normal id ∷ [])
      × (state_file l id ≡ l.root ++ (normal id ∷ normal state_file_name ∷ []))
      × (exec_fifo l id ≡ l.root ++ (normal id ∷ normal exec_fifo_name ∷ []))
unfolding container_dir state_file exec_fifo
validate_id-confines l id root h =
    let dir : FilePath.join l.root (components id) ≡ l.root ++ normal id ∷ [] =
      rw (components-validate_id id h) (join-normal l.root id root) in
    (dir, rw dir (file_in l.root id state_file_name), rw dir (file_in l.root id exec_fifo_name))
