-- ===== src/Paths.antt =====
-- paths.rs: where the runtime keeps a container's state, and which ids may name a container.
pub mod Confined
use marstack_container.Prelude.{
  Bool, true, false, not, ◌&&◌, ◌||◌, List, [], ◌∷◌, ◌==◌, all, is_empty,
}
use marstack_container.Std.Text.{Text, codes, text_eq, is_ascii_alphanumeric}
use marstack_container.Std.FilePath
use marstack_container.Std.FilePath.{FilePath, normal, components}
use marstack_container.Error.{Result, ok, err, invalid_id, guard}

abbrev pub state_file_name : Text
state_file_name = codes "state.json"

abbrev pub exec_fifo_name : Text
exec_fifo_name = codes "exec.fifo"

abbrev pub pid_file_name : Text
pid_file_name = codes "init.pid"

pub record Layout : Type 0 where
  pub root : FilePath

unfoldable pub container_dir : Layout → Text → FilePath
container_dir l id = FilePath.join l.root (components id)

unfoldable pub state_file : Layout → Text → FilePath
unfolding container_dir
state_file l id = FilePath.join (container_dir l id) (normal state_file_name ∷ [])

unfoldable pub exec_fifo : Layout → Text → FilePath
unfolding container_dir
exec_fifo l id = FilePath.join (container_dir l id) (normal exec_fifo_name ∷ [])

unfoldable pub pid_file : Layout → Text → FilePath
unfolding container_dir
pid_file l id = FilePath.join (container_dir l id) (normal pid_file_name ∷ [])

unfoldable pub all_id_chars : Text → Bool
unfolding is_ascii_alphanumeric
all_id_chars [] = true
all_id_chars (c ∷ cs) =
    (is_ascii_alphanumeric c || c == b'.' || c == b'_' || c == b'+' || c == b'-') && all_id_chars cs

unfoldable pub validate_id : Text → Result (Unit {0})
unfolding all_id_chars
validate_id id =
    guard
      (not (is_empty id)
        && not (text_eq id (codes "."))
        && not (text_eq id (codes ".."))
        && all_id_chars id)
      (invalid_id id)
