-- ===== src/Tests/Samples.antt =====
-- A container on the machine, as it is created, and the JSON codec that knows its state.
use marstack_container.Prelude.{false, Option, none, some, List, [], ◌∷◌, ◌++◌, if◌then◌else◌}
use marstack_container.Prelude.Int.{pos}
use marstack_container.Std.Text.{Text, codes, text_eq}
use marstack_container.Std.FilePath.{FilePath, root_dir, normal, path_eq}
use marstack_container.Paths.{Layout, container_dir, state_file, exec_fifo}
use marstack_container.Cgroup.V2.{Cgroup, attach}
use marstack_container.State.{Persisted, Container, Json, display, stat_path}
use marstack_container.Tests.Machine.{Machine}

abbrev pub run_mars : Layout
run_mars = record { root = root_dir ∷ normal (codes "run") ∷ normal (codes "mars") ∷ [] }

abbrev pub box_id : Text
box_id = codes "box"

abbrev pub box_state : Persisted
box_state = record {
  oci_version = codes "1.0.2";
  id = box_id;
  pid = pos 42;
  start_time = 777;
  bundle = root_dir ∷ normal (codes "bundle") ∷ [];
  rootfs = root_dir ∷ normal (codes "bundle") ∷ normal (codes "rootfs") ∷ [];
  cgroup = normal (codes "mars") ∷ normal box_id ∷ [];
  created = codes "2026-01-01T00:00:00Z";
  rootless = false;
  annotations = [];
}

abbrev pub box : Container
box = record { layout = run_mars; state = box_state }

abbrev pub box_cgroup : Cgroup
box_cgroup = attach box_state.cgroup

abbrev pub json : Json
json = record {
  from_str = λ t. if text_eq t box_id then some box_state else none;
  to_string_pretty = λ p. p.id;
  to_vec = λ s. display s.status;
  spec_from_str = λ t. none;
  process_from_str = λ t. none;
  resources_from_str = λ t. none;
}

-- The line of /proc/42/stat; the command has a space and parentheses in its name.
abbrev pub stat_text : Text
stat_text = codes "42 (a (b) c) S 1 1 1 1 1 1 1 1 1 1 1 1 1 1 1 1 1 1 777 0 0"

abbrev files : List (FilePath × Text)
files =
    (state_file run_mars box_id, box_id)
    ∷ (exec_fifo run_mars box_id, [])
    ∷ (container_dir run_mars box_id, [])
    ∷ (stat_path (pos 42), stat_text)
    ∷ (box_cgroup.path, [])
    ∷ (box_cgroup.path ++ (normal (codes "cgroup.events") ∷ []), codes "populated 1\nfrozen 0\n")
    ∷ (box_cgroup.path ++ (normal (codes "cgroup.procs") ∷ []), codes "42\n")
    ∷ []

abbrev pub find : List (FilePath × Text) → FilePath → Option Text
find [] q = none
find ((p, t) ∷ rest) q = if path_eq q p then some t else find rest q

-- The machine with the container created, waiting on its fifo.
abbrev pub host : Machine
host = record { disk = find files; clock = 5; trace = []; inbox = []; sent = []; ended = [] }
