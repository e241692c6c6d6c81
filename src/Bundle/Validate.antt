-- ===== src/Bundle/Validate.antt =====
-- bundle/validate.rs: the checks on a parsed config.json.
pub mod Steps
pub mod Sound
use Prim.Native.String.{String}
use marstack_container.Prelude.{
  ℕ, Bool, true, false, not, ◌&&◌, ◌||◌, Option, none, some, List, [], ◌∷◌, if◌then◌else◌, ltb,
  ◌==◌, length, any, is_empty,
}
use marstack_container.Std.Text.{Text, codes, text_eq, split, contains}
use marstack_container.Std.Decimal.{parse_unsigned, u64_bound}
use marstack_container.Std.FilePath.{is_absolute, components}
use marstack_container.Spec.{
  Spec, Process, Mount, Namespace, NamespaceType, Rlimit, RlimitType, uts,
}
use marstack_container.Error.{
  Result, ok, err, invalid, spec_field, out_of_scope, guard, for_each, ◌>>=◌, ◌>>◌,
}

abbrev pub supported_major : ℕ
supported_major = 1

abbrev pub propagations : List Text
propagations = codes "shared" ∷ codes "slave" ∷ codes "private" ∷ codes "unbindable" ∷ []

pub NamespaceType-discrete : Discrete NamespaceType
NamespaceType-discrete = hlevel

pub RlimitType-discrete : Discrete RlimitType
RlimitType-discrete = hlevel

unfoldable pub namespace_type_eq : NamespaceType → NamespaceType → Bool
unfolding NamespaceType-discrete
namespace_type_eq a b = elim (NamespaceType-discrete a b) [ yes h ↦ true | no h ↦ false ]

unfoldable pub rlimit_type_eq : RlimitType → RlimitType → Bool
unfolding RlimitType-discrete
rlimit_type_eq a b = elim (RlimitType-discrete a b) [ yes h ↦ true | no h ↦ false ]

-- `x.is_some()`.
abbrev pub is_some {ℓ} : {A : Type ℓ} → Option A → Bool
is_some none = false
is_some (some x) = true

-- `xs.iter().flatten()` of an optional list.
abbrev pub flatten {ℓ} : {A : Type ℓ} → Option (List A) → List A
flatten none = []
flatten (some xs) = xs

-- `o.ok_or(e)?` with the message of a missing field.
abbrev pub require_field {ℓ} : {A : Type ℓ} → String → Option A → Result A
require_field name none = err (spec_field name)
require_field name (some x) = ok x

unfoldable pub platform : Spec → Result (Unit {0})
platform s = do
  guard (not s.solaris) (out_of_scope "the solaris section of config.json")
  guard (not s.windows) (out_of_scope "the windows section of config.json")
  guard (not s.vm) (out_of_scope "the vm section of config.json")
  guard (not s.zos) (out_of_scope "the zos section of config.json")

-- `version.split(['-', '+']).next()`.
unfoldable pub numeric_part : Text → Text
numeric_part [] = []
numeric_part (c ∷ cs) =
    let rest = numeric_part cs in if c == b'-' || c == b'+' then [] else c ∷ rest

is_u64 : Text → Bool
is_u64 part = is_some (parse_unsigned u64_bound part)

-- `parts[0].parse().unwrap()`, after the check that every part parses.
major_of : List Text → Result ℕ
major_of [] = err (invalid "ociVersion is not a major.minor.patch version")
major_of (part ∷ parts) = elim (parse_unsigned u64_bound part) [
  | none ↦ err (invalid "ociVersion is not a major.minor.patch version")
  | some n ↦ ok n
]

unfoldable pub version_of : List Text → Result (Unit {0})
unfolding is_u64 major_of
version_of parts = do
  guard (length parts == 3 && not (any (λ part. not (is_u64 part)) parts))
      (invalid "ociVersion is not a major.minor.patch version")
  major ← major_of parts
  guard (major == supported_major) (invalid "ociVersion declares another major version")

unfoldable pub version : Text → Result (Unit {0})
unfolding numeric_part version_of
version v = version_of (split b'.' (numeric_part v))

-- The types seen so far, as a set; an insertion that finds its type there is an error.
unfoldable pub namespace_types_from :
    List NamespaceType → List Namespace → Result (List NamespaceType)
unfolding namespace_type_eq
namespace_types_from seen [] = ok seen
namespace_types_from seen (n ∷ ns) =
    let rest = namespace_types_from (n.typ ∷ seen) ns in
    if any (namespace_type_eq n.typ) seen
    then err (invalid "namespace type is listed more than once")
    else rest

unfoldable pub namespaces_of : Spec → List Namespace
namespaces_of s = elim s.linux [ none ↦ [] | some linux ↦ flatten linux.namespaces ]

unfoldable pub namespace_types : Spec → Result (List NamespaceType)
unfolding namespace_types_from namespaces_of
namespace_types s = namespace_types_from [] (namespaces_of s)

-- The loop over the resource limits, with the types seen so far.
unfoldable pub rlimits_from : List RlimitType → List Rlimit → Result (Unit {0})
unfolding rlimit_type_eq
rlimits_from limits [] = ok tt
rlimits_from limits (r ∷ rs) =
    let rest = rlimits_from (r.typ ∷ limits) rs in
    if any (rlimit_type_eq r.typ) limits
    then err (invalid "process.rlimits lists a type more than once")
    else if ltb r.hard r.soft
    then err (invalid "process.rlimits has a soft limit above its hard limit")
    else rest

unfoldable pub env_entry : Text → Result (Unit {0})
env_entry entry = guard (contains b'=' entry) (invalid "process.env entry is not in KEY=VALUE form")

first_arg : List Text → Result (Unit {0})
first_arg [] = err (spec_field "process.args")
first_arg (arg ∷ args) = guard (not (is_empty arg)) (invalid "process.args[0] is empty")

unfoldable pub process_of : Process → Result (Unit {0})
unfolding first_arg rlimits_from env_entry
process_of p = do
  first_arg (flatten p.args)
  guard (is_absolute p.cwd) (invalid "process.cwd is not an absolute path")
  for_each env_entry (flatten p.env)
  rlimits_from [] (flatten p.rlimits)

unfoldable pub process : Spec → Result (Unit {0})
unfolding process_of
process s = elim s.process [ none ↦ ok tt | some p ↦ process_of p ]

unfoldable pub mount : Mount → Result (Unit {0})
mount m = guard (is_absolute m.destination) (invalid "mount destination is not an absolute path")

unfoldable pub mounts : Spec → Result (Unit {0})
unfolding mount
mounts s = for_each mount (flatten s.mounts)

unfoldable pub propagation : Option Text → Result (Unit {0})
propagation none = ok tt
propagation (some p) =
    guard (any (λ q. text_eq q p) propagations) (invalid "linux.rootfsPropagation is not known")

unfoldable pub absolute_entry : Text → Result (Unit {0})
absolute_entry path =
    guard (is_absolute (components path)) (invalid "entry is not an absolute path")

-- Every check in the order of the source; the first that fails is the error.
unfoldable pub spec : Spec → Result (Unit {0})
unfolding platform version namespace_types process mounts propagation absolute_entry
spec s = do
  platform s
  version s.version
  root ← require_field "root" s.root
  guard (not (is_empty root.path)) (invalid "root.path is empty")
  linux ← require_field "linux" s.linux
  types ← namespace_types s
  process s
  mounts s
  guard (not (is_some s.hostname) || any (namespace_type_eq uts) types)
      (invalid "hostname is set but the container has no UTS namespace")
  guard (not (is_some s.domainname) || any (namespace_type_eq uts) types)
      (invalid "domainname is set but the container has no UTS namespace")
  propagation linux.rootfs_propagation
  for_each absolute_entry (flatten linux.masked_paths)
  for_each absolute_entry (flatten linux.readonly_paths)
