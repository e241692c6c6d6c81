-- ===== src/Namespace.antt =====
-- namespace.rs: which namespaces are made with clone and which are joined, and in what order.
pub mod Joined
use marstack_container.Prelude.{
  ℕ, suc, Bool, true, false, not, ◌&&◌, ◌||◌, Option, none, some, List, [], ◌∷◌, ◌++◌, leb,
  is_empty, if◌then◌else◌,
}
use marstack_container.Std.FilePath.{FilePath}
use marstack_container.Error.{Result, ok, err, invalid}
use marstack_container.Os.{Os}
use marstack_container.Spec
use marstack_container.Spec.{
  Namespace, NamespaceType, mount, pid, network, ipc, uts, user, cgroup, time,
}
use marstack_container.Bundle.Validate.{namespace_type_eq}

abbrev pub join_order : List NamespaceType
join_order = user ∷ ipc ∷ uts ∷ network ∷ pid ∷ cgroup ∷ mount ∷ []

-- A set of clone flags, by the namespace that each flag makes.
abbrev pub CloneFlags : Type 0
CloneFlags = NamespaceType → Bool

abbrev pub Join : Type 0
Join = NamespaceType × FilePath

pub record Layout : Type 0 where
  pub create : CloneFlags
  pub join : List Join

-- `JOIN_ORDER.iter().position(…)`; a type that is not listed comes last.
unfoldable pub position : List NamespaceType → NamespaceType → ℕ
position [] kind = 0
position (k ∷ ks) kind =
    let rest = suc (position ks kind) in if namespace_type_eq k kind then 0 else rest

unfoldable pub rank : NamespaceType → ℕ
unfolding position
rank kind = position join_order kind

-- Before the first entry of a later rank: after those of the same one, so that the sort is stable.
unfoldable pub insert : Join → List Join → List Join
insert x [] = x ∷ []
insert x (y ∷ ys) =
    let rest = insert x ys in if leb (rank y.0) (rank x.0) then y ∷ rest else x ∷ y ∷ ys

-- `join.sort_by_key(…)`: the entries inserted from the first to the last.
unfoldable pub sort_onto : List Join → List Join → List Join
unfolding insert
sort_onto sorted [] = sorted
sort_onto sorted (x ∷ xs) = sort_onto (insert x sorted) xs

unfoldable pub with_flag : NamespaceType → CloneFlags → CloneFlags
with_flag kind flags = λ k. namespace_type_eq k kind || flags k

-- `without`: the flags that are not among the unwanted.
unfoldable pub without : CloneFlags → CloneFlags → CloneFlags
without flags unwanted = λ k. flags k && not (unwanted k)

module _ (os : Os) where
  -- The loop over the namespaces, with the flags and the joins so far.
  unfoldable pub layout_from : CloneFlags → List Join → List Namespace → os.World → Result Layout
  unfolding with_flag sort_onto
  layout_from create join [] w = ok (record { create = create; join = sort_onto [] join })
  layout_from create join (n ∷ ns) w = elim n.path [
    | none ↦ layout_from (with_flag n.typ create) join ns w
    | some path ↦
        if is_empty path
        then layout_from (with_flag n.typ create) join ns w
        else if os.exists path w
        then layout_from create (join ++ (n.typ, path) ∷ []) ns w
        else err (invalid "namespace points at a path which does not exist")
  ]

  unfoldable pub layout : List Namespace → os.World → Result Layout
  unfolding layout_from
  layout namespaces w = layout_from (λ k. false) [] namespaces w

  unfoldable pub clone_flags : List Namespace → os.World → Result CloneFlags
  unfolding layout
  clone_flags namespaces w = elim (layout namespaces w) [ err e ↦ err e | ok l ↦ ok l.create ]
