-- ===== src/Bundle/Validate/Sound.antt =====
-- What bundle/validate.rs guarantees to the code that runs after it.
use marstack_container.Prelude.{
  ◌≡◌, refl, Bool, true, false, not, ◌||◌, Option, none, some, List, [], map, arith, any, All,
  is_empty,
}
use marstack_container.Std.Text.{Text, text_eq}
use marstack_container.Std.FilePath.{is_absolute, components}
use marstack_container.Spec.{Spec, Linux, Process, Mount, NamespaceType, Root, uts}
use marstack_container.Error.{Result, ok, err, for_each}
use marstack_container.Bundle.Validate.{
  spec, platform, version, namespace_types, namespaces_of, namespace_type_eq, process, mount,
  mounts, flatten, is_some, absolute_entry, propagation, propagations,
}
use marstack_container.Bundle.Validate.Steps.{
  Distinct, IsVersion, IsValidProcess, version-IsVersion, namespace_types_from-Distinct,
  any-namespace_types_from, for_each-All, All-map, process_of-IsValidProcess,
}

-- What holds of a config.json that passed validation.
pub record IsValid (s : Spec) : Type 0 where
  pub linux_only : (s.solaris ≡ false) × (s.windows ≡ false) × (s.vm ≡ false) × (s.zos ≡ false)
  pub version_ok : IsVersion s.version
  pub has_root : (r : Root) × (s.root ≡ some r) × (is_empty r.path ≡ false)
  pub has_linux :
      (l : Linux) × (s.linux ≡ some l)
      × All (λ path. is_absolute (components path) ≡ true) (flatten l.masked_paths)
      × All (λ path. is_absolute (components path) ≡ true) (flatten l.readonly_paths)
      × ((p : Text) → l.rootfs_propagation ≡ some p → any (λ q. text_eq q p) propagations ≡ true)
  pub namespaces_distinct : Distinct (map (λ n. n.typ) (namespaces_of s))
  pub process_ok : (p : Process) → s.process ≡ some p → IsValidProcess p
  pub mounts_absolute : All (λ (m : Mount). is_absolute m.destination ≡ true) (flatten s.mounts)
  pub hostname_isolated :
      is_some s.hostname ≡ true
      → any (namespace_type_eq uts) (map (λ n. n.typ) (namespaces_of s)) ≡ true
  pub domainname_isolated :
      is_some s.domainname ≡ true
      → any (namespace_type_eq uts) (map (λ n. n.typ) (namespaces_of s)) ≡ true

record Passed (s : Spec) : Type 0 where
  root : Root
  linux : Linux
  types : List NamespaceType
  platform_ok : platform s ≡ ok tt
  version_ok : version s.version ≡ ok tt
  root_some : s.root ≡ some root
  root_path : is_empty root.path ≡ false
  linux_some : s.linux ≡ some linux
  types_ok : namespace_types s ≡ ok types
  process_ok : process s ≡ ok tt
  mounts_ok : mounts s ≡ ok tt
  hostname_ok : (not (is_some s.hostname) || any (namespace_type_eq uts) types) ≡ true
  domainname_ok : (not (is_some s.domainname) || any (namespace_type_eq uts) types) ≡ true
  propagation_ok : propagation linux.rootfs_propagation ≡ ok tt
  masked_ok : for_each absolute_entry (flatten linux.masked_paths) ≡ ok tt
  readonly_ok : for_each absolute_entry (flatten linux.readonly_paths) ≡ ok tt

-- One equation for each step of the chain.
spec-Passed : (s : Spec) → spec s ≡ ok tt → Passed s
unfolding spec
spec-Passed s h = go s.root refl s.linux refl (namespace_types s) refl
  where
    go :
        (root : Option Root)
        → s.root ≡ root
        → (linux : Option Linux) → s.linux ≡ linux
        → (types : Result (List NamespaceType)) → namespace_types s ≡ types
        → Passed s
    go none er linux el types et = ground arith
    go (some r) er none el types et = ground arith
    go (some r) er (some l) el (err e) et = ground arith
    go (some r) er (some l) el (ok ts) et = record {
      root = r;
      linux = l;
      types = ts;
      platform_ok = ground arith;
      version_ok = ground arith;
      root_some = er;
      root_path = ground arith;
      linux_some = el;
      types_ok = et;
      process_ok = ground arith;
      mounts_ok = ground arith;
      hostname_ok = ground arith;
      domainname_ok = ground arith;
      propagation_ok = ground arith;
      masked_ok = ground arith;
      readonly_ok = ground arith;
    }

platform-parts :
    (s : Spec)
    → platform s ≡ ok tt
    → (s.solaris ≡ false) × (s.windows ≡ false) × (s.vm ≡ false) × (s.zos ≡ false)
unfolding platform
platform-parts s h = ground arith

mount-absolute : (m : Mount) → mount m ≡ ok tt → is_absolute m.destination ≡ true
unfolding mount
mount-absolute m h = ground arith

propagation-known :
    (o : Option Text)
    → propagation o ≡ ok tt
    → (p : Text) → o ≡ some p
    → any (λ q. text_eq q p) propagations ≡ true
unfolding propagation
propagation-known none h p e = cc
propagation-known (some q) h p e = ground arith

absolute_entry-absolute : (p : Text) → absolute_entry p ≡ ok tt → is_absolute (components p) ≡ true
unfolding absolute_entry
absolute_entry-absolute p h = ground arith

isolated :
    (s : Spec) (types : List NamespaceType) (named : Bool)
    → namespace_types s ≡ ok types
    → (not named || any (namespace_type_eq uts) types) ≡ true
    → named ≡ true
    → any (namespace_type_eq uts) (map (λ n. n.typ) (namespaces_of s)) ≡ true
unfolding namespace_types
isolated s types named e h t =
    ground (arith, any-namespace_types_from (namespace_type_eq uts) [] (namespaces_of s) types e)

process-IsValidProcess :
    (s : Spec) → process s ≡ ok tt → (p : Process) → s.process ≡ some p → IsValidProcess p
unfolding process
process-IsValidProcess s h p e = process_of-IsValidProcess p (ground arith)

-- A spec that passes validation has every property of a valid spec: Linux only, a 1.x.y version, a
-- root, a linux section with absolute masked and read-only paths and a known propagation, distinct
-- namespaces, a runnable process with ordered and distinct limits, absolute mounts, and a UTS
-- namespace for a hostname or a domainname.
pub spec-IsValid : (s : Spec) → spec s ≡ ok tt → IsValid s
spec-IsValid s h =
    let q = spec-Passed s h in
    record {
      linux_only = platform-parts s q.platform_ok;
      version_ok = version-IsVersion s.version q.version_ok;
      has_root = (q.root, q.root_some, q.root_path);
      has_linux = (
        q.linux,
        q.linux_some,
        All-map _ _ (flatten q.linux.masked_paths) absolute_entry-absolute
            (for_each-All absolute_entry (flatten q.linux.masked_paths) q.masked_ok),
        All-map _ _ (flatten q.linux.readonly_paths) absolute_entry-absolute
            (for_each-All absolute_entry (flatten q.linux.readonly_paths) q.readonly_ok),
        propagation-known q.linux.rootfs_propagation q.propagation_ok,
      );
      namespaces_distinct =
          (namespace_types_from-Distinct [] (namespaces_of s) q.types
            (unfold namespace_types in q.types_ok)).1;
      process_ok = process-IsValidProcess s q.process_ok;
      mounts_absolute =
          All-map _ _ (flatten s.mounts) mount-absolute
            (for_each-All mount (flatten s.mounts) (unfold mounts in q.mounts_ok));
      hostname_isolated = isolated s q.types (is_some s.hostname) q.types_ok q.hostname_ok;
      domainname_isolated = isolated s q.types (is_some s.domainname) q.types_ok q.domainname_ok;
    }
