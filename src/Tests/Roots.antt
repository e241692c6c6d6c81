-- ===== src/Tests/Roots.antt =====
-- Mounts, kernel parameters and namespaces of a sample bundle.
use marstack_container.Prelude.{◌≡◌, refl, ◌||◌, true, false, some, List, [], ◌∷◌, ◌++◌, All}
use mathlib.Core.List.{Permᴰ}
use marstack_container.Std.Text
use marstack_container.Std.Text.{Text, codes, contains, join, split}
use marstack_container.Bundle.Load
use marstack_container.Bundle.Load.{resolve_executable, search_path, to_cstrings}
use marstack_container.Error
use marstack_container.Std.FilePath
use marstack_container.Std.FilePath.{
  FilePath, root_dir, parent_dir, normal, components, IsNormal, starts_with,
}
use marstack_container.Error.{ok}
use marstack_container.Spec.{Namespace, NamespaceType, mount, user, pid}
use marstack_container.Rootfs.Overlay.{replace}
use marstack_container.Rootfs.Mounts.{resolve}
use marstack_container.Rootfs.Mounts.Resolved.{Below, resolve-Below}
use marstack_container.Rootfs.Sysctl
use marstack_container.Rootfs.Sysctl.{base, resolve-base}
use marstack_container.Bundle.Validate
use marstack_container.Namespace
use marstack_container.Namespace.{Layout, Join, layout, sort_onto}
use marstack_container.Namespace.Joined.{Ordered, joins, creates, layout-parts}
use marstack_container.Tests.Machine.{machine}
use marstack_container.Tests.Samples.{host, run_mars, box_id}
use marstack_container.Paths
use marstack_container.Paths.{container_dir, state_file}

abbrev rootfs : FilePath
rootfs = root_dir ∷ normal (codes "rootfs") ∷ []

abbrev climbing : FilePath
climbing = root_dir ∷ normal (codes "a") ∷ parent_dir ∷ parent_dir ∷ normal (codes "etc") ∷ []

resolve-Below_example :
    Below rootfs (resolve rootfs climbing) × (starts_with (resolve rootfs climbing) rootfs ≡ true)
resolve-Below_example = resolve-Below rootfs climbing (λ e. cc e)

abbrev before : List Text
before = codes "ro" ∷ codes "mode=755" ∷ []

abbrev after : List Text
after = codes "nosuid" ∷ codes "size=64k" ∷ []

abbrev forward : Text
forward = codes "net.ipv4.ip_forward"

abbrev forward_file : FilePath
forward_file =
    base ++ (normal (codes "net") ∷ normal (codes "ipv4") ∷ normal (codes "ip_forward") ∷ [])

forward_resolves : Sysctl.resolve forward ≡ ok forward_file
unfolding Sysctl.resolve components replace Text.text_eq FilePath.join
forward_resolves = refl

-- A mount and a user namespace to join, and a pid namespace to make.
abbrev namespaces : List Namespace
namespaces =
    record { typ = mount; path = some (state_file run_mars box_id) }
    ∷ record { typ = pid; path = some [] }
    ∷ record { typ = user; path = some (container_dir run_mars box_id) }
    ∷ []

abbrev namespace_layout : Layout
namespace_layout = record {
  create = λ k. Validate.namespace_type_eq k pid || false;
  join = (user, container_dir run_mars box_id) ∷ (mount, state_file run_mars box_id) ∷ [];
}

namespaces_are_laid_out : layout machine namespaces host ≡ ok namespace_layout
unfolding Namespace.layout state_file FilePath.join components Text.text_eq FilePath.path_eq
    Paths.exec_fifo Namespace.rank Validate.namespace_type_eq
namespaces_are_laid_out = refl

layout-parts_example :
    Permᴰ (joins namespaces) namespace_layout.join
    × Ordered namespace_layout.join
    × ((k : NamespaceType) → namespace_layout.create k ≡ creates k namespaces)
    × All (λ (j : Join). machine.exists j.1 host ≡ true) (joins namespaces)
layout-parts_example = layout-parts machine host namespaces namespace_layout namespaces_are_laid_out

-- The program `state.json` is looked for in an absent directory and in that of the sample container.
abbrev search_env : List Text
search_env = codes "HOME=/" ∷ codes "PATH=/none::/run/mars/box" ∷ []

abbrev found : FilePath
found = state_file run_mars box_id

program_is_found : resolve_executable machine (codes "state.json") search_env false host ≡ ok found
unfolding Load.resolve_executable contains split search_path FilePath.path_eq FilePath.join
    components Text.text_eq state_file Paths.exec_fifo marstack_container.State.stat_path
    marstack_container.Cgroup.V2.attach
program_is_found = refl

arguments_pass : to_cstrings search_env ≡ ok search_env
unfolding Load.to_cstrings Error.traverse contains
arguments_pass = refl
