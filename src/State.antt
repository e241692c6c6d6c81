-- ===== src/State.antt =====
-- state.rs: what is kept of a container on disk, and its status as it is read from the kernel.
pub mod StartTime
pub mod Observed
pub mod Store
pub mod Calendar
pub mod Dates
pub mod Listed
use marstack_container.Prelude.{
  ℕ, Bool, true, false, ◌&&◌, Option, none, some, List, [], ◌∷◌, ◌==◌, if◌then◌else◌, any, is_empty,
  map,
}
use marstack_container.Prelude.Int.{ℤ}
use marstack_container.Std.Text.{Text, codes, join}
use marstack_container.Std.Decimal.{int_to_string}
use marstack_container.Std.FilePath
use marstack_container.Std.FilePath.{FilePath, root_dir, normal}
use marstack_container.Error.{Result, ok, err, not_found, bad_state, invalid, json}
use marstack_container.Exec.{Exec, look, pure, guard, when, ◌>>=◌, ◌>>◌}
use marstack_container.Os.{Os, io_ctx, call}
use marstack_container.Spec.{Spec, Process, LinuxResources}
use marstack_container.Paths.{Layout, container_dir, state_file, exec_fifo}
use marstack_container.Cgroup.V2.{Cgroup, attach, is_frozen}
use marstack_container.State.StartTime.{parse_start_time}

pub data Status : Type 0 where
  creating created running stopped paused : Status

pub Status-discrete : Discrete Status
Status-discrete = hlevel

unfoldable pub status_eq : Status → Status → Bool
unfolding Status-discrete
status_eq a b = elim (Status-discrete a b) [ yes h ↦ true | no h ↦ false ]

-- `Display for Status`.
unfoldable pub display : Status → Text
display creating = codes "creating"
display created = codes "created"
display running = codes "running"
display stopped = codes "stopped"
display paused = codes "paused"

pub record Persisted : Type 0 where
  pub oci_version : Text
  pub id : Text
  pub pid : ℤ
  pub start_time : ℕ
  pub bundle : FilePath
  pub rootfs : FilePath
  pub cgroup : FilePath
  pub created : Text
  pub rootless : Bool
  pub annotations : List (Text × Text)

pub record OciState : Type 0 where
  pub version : Text
  pub id : Text
  pub status : Status
  pub pid : Option ℤ
  pub bundle : FilePath
  pub annotations : Option (List (Text × Text))

pub record Container : Type 0 where
  pub layout : Layout
  pub state : Persisted

-- serde_json at the types that are read and written.
pub record Json : Type 0 where
  pub from_str : Text → Option Persisted
  pub to_string_pretty : Persisted → Text
  pub to_vec : OciState → Text
  pub spec_from_str : Text → Option Spec
  pub process_from_str : Text → Option Process
  pub resources_from_str : Text → Option LinuxResources

unfoldable pub stat_path : ℤ → FilePath
stat_path pid =
    root_dir ∷ normal (codes "proc") ∷ normal (int_to_string pid) ∷ normal (codes "stat") ∷ []

unfoldable pub cgroup_of : Container → Cgroup
unfolding attach
cgroup_of c = attach c.state.cgroup

unfoldable pub fifo_of : Container → FilePath
fifo_of c = exec_fifo c.layout c.state.id

module _ (os : Os) where
  unfoldable pub start_time : ℤ → os.World → Result ℕ
  unfolding stat_path
  start_time pid w = elim (io_ctx "read" (os.read_to_string (stat_path pid) w)) [
    | err e ↦ err e
    | ok text ↦ elim (parse_start_time text) [ none ↦ err (invalid "cannot parse") | some t ↦ ok t ]
  ]

  -- A process with the recorded pid, started when the recorded one was.
  unfoldable pub alive : Container → os.World → Bool
  alive c w = elim (start_time c.state.pid w) [
    | err e ↦ false
    | ok observed ↦ observed == c.state.start_time
  ]

  unfoldable pub status : Container → os.World → Status
  unfolding cgroup_of fifo_of
  status c w =
      if alive c w
      then (if is_frozen os (cgroup_of c) w
          then paused
          else if os.exists (fifo_of c) w
          then created
          else running)
      else stopped

  -- `pid` and `annotations` are left out where there is nothing to say.
  unfoldable pub oci_state : Container → os.World → OciState
  oci_state c w =
      let s = status c w in
      record {
        version = c.state.oci_version;
        id = c.state.id;
        status = s;
        pid = elim s [ stopped ↦ none | _ ↦ some c.state.pid ];
        bundle = c.state.bundle;
        annotations = if is_empty c.state.annotations then none else some c.state.annotations;
      }

  unfoldable pub require : Container → List Status → os.World → Result Status
  unfolding status_eq
  require c expected w =
      let actual = status c w in
      if any (status_eq actual) expected
      then ok actual
      else err (bad_state c.state.id (display actual) (join (codes " or ") (map display expected)))

  module _ (js : Json) where
    unfoldable pub load : Layout → Text → os.World → Result Container
    load layout id w =
        if os.is_file (state_file layout id) w
        then elim (io_ctx "read" (os.read_to_string (state_file layout id) w)) [
          | err e ↦ err e
          | ok text ↦ elim (js.from_str text) [
            | none ↦ err json
            | some state ↦ ok (record { layout = layout; state = state })
          ]
        ]
        else err (not_found id)

    -- The state is written beside its place and renamed into it.
    unfoldable pub save : Layout → Persisted → Exec os.World (Unit {0})
    save layout state = do
      let dir = container_dir layout state.id
      call os "create" (os.create_dir_all dir)
      let staged = FilePath.join dir (normal (codes "state.json.new") ∷ [])
      call os "write" (os.write staged (js.to_string_pretty state))
      call os "rename" (os.rename staged (state_file layout state.id))

  unfoldable pub remove : Container → Exec os.World (Unit {0})
  remove c = do
    let dir = container_dir c.layout c.state.id
    present ← look (λ w. ok (os.exists dir w))
    when present (call os "remove" (os.remove_dir_all dir))
