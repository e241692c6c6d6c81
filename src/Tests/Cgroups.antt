-- ===== src/Tests/Cgroups.antt =====
-- The cgroup driver on the machine, and the conversions at sample limits.
use marstack_container.Prelude.{◌≡◌, refl, true, Option, none, some, [], ◌∷◌, ◌++◌, All}
use marstack_container.Prelude.Int.{pos, negsuc}
use marstack_container.Std.Text
use marstack_container.Std.Text.{codes}
use marstack_container.Std.FilePath
use marstack_container.Std.FilePath.{IsNormal, FilePath, root_dir, parent_dir, normal, starts_with}
use marstack_container.Std.Decimal
use marstack_container.Std.Decimal.{parse_unsigned, u64_bound}
use marstack_container.Std.Map
use marstack_container.Error.{ok}
use marstack_container.Os.{done}
use marstack_container.Spec.{LinuxResources}
use marstack_container.Paths
use marstack_container.Paths.{validate_id}
use marstack_container.Cgroup.V2
use marstack_container.Cgroup.V2.{
  Cgroup, attach, create, freeze, is_frozen, destroy, remove_parent, relative_path, mount_point,
}
use marstack_container.Cgroup.Events
use marstack_container.Cgroup.Apply.{apply}
use marstack_container.Cgroup.Plan.{settings, write_all, apply-write_all}
use marstack_container.Cgroup.Confined.{create-confined}
use marstack_container.Cgroup.Waits.{destroy-removed}
use marstack_container.State
use marstack_container.Tests.Machine
use marstack_container.Tests.Machine.{Machine, machine}
use marstack_container.Tests.Samples.{host, box_cgroup, box_id}

abbrev frozen : Machine
frozen = (freeze machine box_cgroup true host).1

host_freezes : freeze machine box_cgroup true host ≡ (ok tt, frozen)
unfolding V2.is_frozen FilePath.path_eq FilePath.join FilePath.components Text.text_eq
    Text.is_whitespace Text.words_onto Text.split Text.split_onto Text.split_whitespace Text.join
    Text.lines Map.collect Map.get Decimal.parse_unsigned Events.parse_flat_keyed Events.value_of
    V2.attach V2.file_path V2.read V2.freeze V2.wait_frozen V2.write Machine.write Machine.events_of
host_freezes = refl

abbrev removed : Machine
removed = (destroy machine box_cgroup host).1

host_destroys : destroy machine box_cgroup host ≡ (ok tt, removed)
unfolding V2.destroy V2.remove_attempts V2.remove_parent FilePath.parent FilePath.path_eq
    FilePath.join V2.attach Machine.remove_dir Machine.erase Text.text_eq
host_destroys = refl

destroy-removed_example :
    (before : Machine) × (after : Machine) × (machine.remove_dir box_cgroup.path before
      ≡ (done tt, after))
    × (remove_parent machine box_cgroup after ≡ (ok tt, removed))
destroy-removed_example = destroy-removed machine box_cgroup host removed host_destroys

-- A path that tries to leave the hierarchy.
abbrev climbing : Option FilePath
climbing = some (root_dir ∷ parent_dir ∷ parent_dir ∷ normal (codes "etc") ∷ [])

abbrev etc_cgroup : Cgroup
etc_cgroup = attach (normal (codes "etc") ∷ [])

-- The hierarchy's top with its controllers.
abbrev top : Machine
top =
    (machine.write (mount_point ++ (normal (codes "cgroup.controllers") ∷ []))
      (codes "cpu memory pids") host).1

abbrev made : Machine
made = (create machine (relative_path climbing box_id) top).1

box_is_valid : validate_id box_id ≡ ok tt
unfolding Paths.validate_id Paths.all_id_chars Text.is_ascii_alphanumeric Text.text_eq
box_is_valid = refl

top_makes : create machine (relative_path climbing box_id) top ≡ (ok etc_cgroup, made)
unfolding V2.create V2.create_levels V2.make_level V2.delegate V2.read_list V2.missing_from
    V2.normalise V2.relative_path V2.write Machine.write Machine.events_of FilePath.path_eq
    FilePath.join FilePath.components Text.text_eq Text.is_whitespace Text.words_onto Text.split
    Text.split_onto Text.split_whitespace Text.join Text.lines Map.collect Map.get
    Decimal.parse_unsigned Events.parse_flat_keyed Events.value_of V2.attach V2.file_path V2.read
    Paths.state_file Paths.exec_fifo State.stat_path
top_makes = refl

create-confined_example :
    (starts_with etc_cgroup.path mount_point ≡ true)
    × (etc_cgroup.path ≡ mount_point ++ relative_path climbing box_id)
    × All IsNormal (relative_path climbing box_id)
    × (attach etc_cgroup.relative ≡ etc_cgroup)
create-confined_example = create-confined machine climbing box_id top box_is_valid top_makes

abbrev limits : LinuxResources
limits = record {
  memory = some (record { limit = some (pos 1_000); reservation = none; swap = some (pos 1_500) });
  cpu = some (record {
    shares = some 1_024;
    quota = some (negsuc 0);
    period = none;
    cpus = some [];
    mems = none;
  });
  pids_limit = some (pos 64);
  block_io = none;
  unified = some ((codes "memory.high", codes "max") ∷ []);
}

apply-write_all_example :
    apply machine box_cgroup limits ≡ write_all machine box_cgroup (settings limits)
apply-write_all_example = apply-write_all machine box_cgroup limits
