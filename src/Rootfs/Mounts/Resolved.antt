-- ===== src/Rootfs/Mounts/Resolved.antt =====
-- Where a mount's destination leads: into the rootfs, whatever its parent components.
use marstack_container.Prelude.{
  ◌≡◌, refl, ◌≢◌, ◌∙◌, sym, ap, append_assoc, append-nil, true, false, [], ◌∷◌, ◌++◌, All,
  All-append, init, Bool-cases, inl, inr,
}
use marstack_container.Std.Text.{Text}
use marstack_container.Std.FilePath
use marstack_container.Std.FilePath.{
  FilePath, Component, root_dir, cur_dir, parent_dir, normal, IsNormal, path_eq, path_eq_self,
  eq_of_path_eq, pop, join-normal, append-ne-nil, starts_with, starts_with-append,
}
use marstack_container.Rootfs.Mounts.{resolve, resolve_from}

init-append :
    (xs : FilePath) (c : Component) (cs : FilePath) → init (xs ++ c ∷ cs) ≡ xs ++ init (c ∷ cs)
init-append [] c cs = refl
init-append (x ∷ []) c cs = refl
init-append (x ∷ y ∷ ys) c cs = ap (λ r. x ∷ r) (init-append (y ∷ ys) c cs)

pop-append :
    (base : FilePath) (c : Component) (cs : FilePath)
    → base ≢ []
    → pop (base ++ c ∷ cs) ≡ base ++ init (c ∷ cs)
unfolding pop
pop-append [] c cs ne = absurd (ne refl)
pop-append (root_dir ∷ []) c cs ne = refl
pop-append (cur_dir ∷ []) c cs ne = refl
pop-append (parent_dir ∷ []) c cs ne = refl
pop-append (normal s ∷ []) c cs ne = refl
pop-append (root_dir ∷ y ∷ ys) c cs ne = init-append (root_dir ∷ y ∷ ys) c cs
pop-append (cur_dir ∷ y ∷ ys) c cs ne = init-append (cur_dir ∷ y ∷ ys) c cs
pop-append (parent_dir ∷ y ∷ ys) c cs ne = init-append (parent_dir ∷ y ∷ ys) c cs
pop-append (normal s ∷ y ∷ ys) c cs ne = init-append (normal s ∷ y ∷ ys) c cs

init-All_IsNormal : (q : FilePath) → All IsNormal q → All IsNormal (init q)
init-All_IsNormal [] h = tt
init-All_IsNormal (c ∷ []) h = tt
init-All_IsNormal (c ∷ d ∷ ds) h = (h.0, init-All_IsNormal (d ∷ ds) h.1)

-- Named components below the rootfs.
abbrev pub Below : FilePath → FilePath → Type 0
Below rootfs out = (q : FilePath) × (out ≡ rootfs ++ q) × All IsNormal q

Below-normal :
    (rootfs out : FilePath) (s : Text)
    → rootfs ≢ []
    → Below rootfs out
    → Below rootfs (FilePath.join out (normal s ∷ []))
Below-normal rootfs out s ne (q, e, n) = (
  q ++ normal s ∷ [],
  rw e (join-normal (rootfs ++ q) s (nonempty rootfs q ne) ∙ append_assoc rootfs q (normal s ∷ [])),
  All-append IsNormal q (normal s ∷ []) n (tt, tt),
)
  where
    nonempty : (b p : FilePath) → b ≢ [] → (b ++ p) ≢ []
    nonempty [] p ne e = ne refl
    nonempty (b ∷ bs) p ne e = cc

Below-parent :
    (rootfs out : FilePath)
    → rootfs ≢ []
    → path_eq out rootfs ≡ false
    → Below rootfs out
    → Below rootfs (pop out)
Below-parent rootfs out ne d ([], e, n) = absurd (cc (path_eq_self rootfs, e, append-nil rootfs, d))
Below-parent rootfs out ne d (c ∷ cs, e, n) =
    (init (c ∷ cs), rw e (pop-append rootfs c cs ne), init-All_IsNormal (c ∷ cs) n)

resolve_from-Below :
    (rootfs out cs : FilePath)
    → rootfs ≢ []
    → Below rootfs out
    → Below rootfs (resolve_from rootfs out cs)
unfolding resolve_from
resolve_from-Below rootfs out [] ne b = b
resolve_from-Below rootfs out (normal s ∷ cs) ne b =
    resolve_from-Below rootfs (FilePath.join out (normal s ∷ [])) cs ne
      (Below-normal rootfs out s ne b)
resolve_from-Below rootfs out (root_dir ∷ cs) ne b = resolve_from-Below rootfs out cs ne b
resolve_from-Below rootfs out (cur_dir ∷ cs) ne b = resolve_from-Below rootfs out cs ne b
resolve_from-Below rootfs out (parent_dir ∷ cs) ne b = elim (Bool-cases (path_eq out rootfs)) [
  | inl same ↦ rw same (resolve_from-Below rootfs out cs ne b)
  | inr below ↦
      rw below (resolve_from-Below rootfs (pop out) cs ne (Below-parent rootfs out ne below b))
]

-- With a rootfs that is not empty, the destination of a mount, whatever its parent components,
-- resolves to the rootfs with named components below it.
pub resolve-Below :
    (rootfs destination : FilePath)
    → rootfs ≢ []
    → Below rootfs (resolve rootfs destination)
      × (starts_with (resolve rootfs destination) rootfs ≡ true)
unfolding resolve
resolve-Below rootfs destination ne =
    let (q, e, n) =
      resolve_from-Below rootfs rootfs destination ne ([], sym (append-nil rootfs), tt) in
    ((q, e, n), rw e (starts_with-append rootfs q))
