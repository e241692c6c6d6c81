-- ===== src/Bundle/Load.antt =====
-- bundle/mod.rs: a bundle read from its directory, and the program that its process names.
use marstack_container.Prelude.{
  Bool, false, not, ◌&&◌, Option, none, some, List, [], ◌∷◌, if◌then◌else◌, is_empty,
}
use marstack_container.Std.Text.{Text, codes, contains, split, strip_prefix}
use marstack_container.Std.FilePath
use marstack_container.Std.FilePath.{FilePath, normal, components, is_absolute}
use marstack_container.Spec.{
  Spec, Hooks, LinuxResources, Namespace, Mount, LinuxDevice, LinuxSeccomp, LinuxTimeOffset,
}
use marstack_container.Error.{
  Result, ok, err, json, missing_config, spec_field, executable_not_found, nul_byte, traverse,
  ◌>>=◌, ◌>>◌,
}
use marstack_container.Os.{Os, io_ctx}
use marstack_container.Bundle.Validate
use marstack_container.Bundle.Validate.{require_field, flatten, is_some}

pub record Bundle : Type 0 where
  pub dir : FilePath
  pub spec : Spec

-- `a.and_then(f)` and `unwrap_or(false)`.
abbrev pub and_then {ℓ κ} : {A : Type ℓ} {B : Type κ} → Option A → (A → Option B) → Option B
and_then none f = none
and_then (some x) f = f x

abbrev pub or_false : Option Bool → Bool
or_false none = false
or_false (some b) = b

module _ (os : Os) (spec_from_str : Text → Option Spec) where
  parse_spec : FilePath → Text → Result Bundle
  parse_spec dir text = elim (spec_from_str text) [
    | none ↦ err json
    | some spec ↦ (do Validate.spec spec; ok (record { dir = dir; spec = spec }))
  ]

  unfoldable pub load : FilePath → os.World → Result Bundle
  unfolding parse_spec
  load path w = do
    dir ← io_ctx "resolve bundle" (os.canonicalize path w)
    let config = FilePath.join dir (normal (codes "config.json") ∷ [])
    if os.is_file config w
        then (do text ← io_ctx "read" (os.read_to_string config w); parse_spec dir text)
        else err (missing_config dir)

unfoldable pub annotations : Bundle → List (Text × Text)
annotations b = flatten b.spec.annotations

unfoldable pub rootfs : Bundle → Result FilePath
rootfs b = do
  root ← require_field "root" b.spec.root
  ok (if is_absolute root.path then root.path else FilePath.join b.dir root.path)

unfoldable pub namespaces : Bundle → List Namespace
namespaces b = elim b.spec.linux [ none ↦ [] | some linux ↦ flatten linux.namespaces ]

unfoldable pub resources : Bundle → Option LinuxResources
resources b = and_then b.spec.linux (λ linux. linux.resources)

unfoldable pub cgroups_path : Bundle → Option FilePath
cgroups_path b = and_then b.spec.linux (λ linux. linux.cgroups_path)

unfoldable pub hooks : Bundle → Option Hooks
hooks b = b.spec.hooks

unfoldable pub terminal : Bundle → Bool
terminal b = or_false (and_then b.spec.process (λ process. process.terminal))

unfoldable pub readonly_rootfs : Bundle → Bool
readonly_rootfs b = or_false (and_then b.spec.root (λ root. root.readonly))

unfoldable pub env : Bundle → List Text
env b = elim b.spec.process [ none ↦ [] | some process ↦ flatten process.env ]

unfoldable pub argv : Bundle → Result (List Text)
argv b = do
  process ← require_field "process" b.spec.process
  let args = flatten process.args
  if is_empty args then err (spec_field "process.args") else ok args

unfoldable pub mounts : Bundle → List Mount
mounts b = flatten b.spec.mounts

unfoldable pub devices : Bundle → List LinuxDevice
devices b = flatten (and_then b.spec.linux (λ linux. linux.devices))

unfoldable pub masked_paths : Bundle → List Text
masked_paths b = flatten (and_then b.spec.linux (λ linux. linux.masked_paths))

unfoldable pub readonly_paths : Bundle → List Text
readonly_paths b = flatten (and_then b.spec.linux (λ linux. linux.readonly_paths))

unfoldable pub seccomp : Bundle → Option LinuxSeccomp
seccomp b = and_then b.spec.linux (λ linux. linux.seccomp)

unfoldable pub time_offsets : Bundle → List (Text × LinuxTimeOffset)
time_offsets b = flatten (and_then b.spec.linux (λ linux. linux.time_offsets))

unfoldable pub sysctl : Bundle → List (Text × Text)
sysctl b = flatten (and_then b.spec.linux (λ linux. linux.sysctl))

unfoldable pub rootfs_propagation : Bundle → Option Text
rootfs_propagation b = and_then b.spec.linux (λ linux. linux.rootfs_propagation)

unfoldable pub cwd : Bundle → Option FilePath
cwd b = and_then b.spec.process (λ process. some process.cwd)

abbrev pub default_path : Text
default_path = codes "/usr/local/sbin:/usr/local/bin:/usr/sbin:/usr/bin:/sbin:/bin"

-- `env.iter().find_map(|entry| entry.strip_prefix("PATH=")).unwrap_or(DEFAULT_PATH)`.
unfoldable pub search_path : List Text → Text
unfolding strip_prefix
search_path [] = default_path
search_path (e ∷ es) = elim (strip_prefix (codes "PATH=") e) [ none ↦ search_path es | some p ↦ p ]

-- `CString::new` refuses a text with a nul in it.
unfoldable pub to_cstrings : List Text → Result (List Text)
to_cstrings = traverse (λ value. if contains 0 value then err (nul_byte value) else ok value)

module _ (os : Os) where
  -- The first directory of the path that has the program as a file.
  unfoldable pub search_dirs : Text → List Text → os.World → Result FilePath
  search_dirs program [] w = err (executable_not_found program)
  search_dirs program (dir ∷ dirs) w =
      let rest = search_dirs program dirs w in
      let candidate = FilePath.join (components dir) (components program) in
      if is_empty dir then rest else if os.is_file candidate w then ok candidate else rest

  unfoldable pub resolve_executable : Text → List Text → Bool → os.World → Result FilePath
  unfolding search_dirs
  resolve_executable program env own_rootfs w =
      if contains b'/' program
      then (let path = components program in
          if own_rootfs && not (os.is_file path w)
          then err (executable_not_found program)
          else ok path)
      else search_dirs program (split b':' (search_path env)) w
