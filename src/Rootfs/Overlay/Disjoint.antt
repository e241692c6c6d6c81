-- ===== src/Rootfs/Overlay/Disjoint.antt =====
-- What a preparation of the layers that succeeds has checked.
use marstack_container.Prelude.{
  ◌≡◌, ◌≤◌, ◌⊎◌, inl, inr, refl, true, false, not, Option, none, some, List, arith, ==_iff, ◌==◌,
  ◌++◌, length, All,
}
use marstack_container.Std.Text.{Text}
use marstack_container.Std.FilePath.{FilePath, components, starts_with, starts_with-append}
use marstack_container.Error.{ok, overlay}
use marstack_container.Exec.{
  look, guard, for_each, ◌>>=◌, guard-eq-ok, for_each-All, bind-eq-ok, look-bind-eq-ok,
}
use marstack_container.Os.{Os, done, io_ctx, call}
use marstack_container.Rootfs.Overlay.{Layers}
use marstack_container.Rootfs.Overlay.Prepare.{
  min_readonly_lower, overlaps, check_not_nested, check_same_filesystem, check_lower,
  check_disjoint, prepare_writable, prepare_kind, prepare,
}

-- The path is the base, or lies in it.
abbrev pub LiesIn : FilePath → FilePath → Type 0
LiesIn base p = (rest : FilePath) × (p ≡ base ++ rest)

starts_with-LiesIn : (p base : FilePath) → starts_with p base ≡ false → ¬ LiesIn base p
starts_with-LiesIn p base h (rest, e) = cc (starts_with-append base rest, rw e at h)

-- Neither path is the other, nor lies in it.
abbrev pub Disjoint : FilePath → FilePath → Type 0
Disjoint p q = (¬ LiesIn p q) × (¬ LiesIn q p)

overlaps-Disjoint : (lower upper : FilePath) → overlaps lower upper ≡ false → Disjoint lower upper
unfolding overlaps
overlaps-Disjoint lower upper h =
    (starts_with-LiesIn upper lower (ground arith), starts_with-LiesIn lower upper (ground arith))

module _ (os : Os) (w : os.World) where
  -- The lower layer resolves to a tree that is apart from the upper one.
  abbrev pub Apart : FilePath → Text → Type 0
  Apart upper dir =
      (lower : FilePath) × (os.canonicalize (components dir) w ≡ done lower) × Disjoint lower upper

  -- A writable overlay, as the kernel wants it.
  abbrev pub Writable : List Text → Text → Text → Type 0
  Writable dirs upper_text work_text =
      (upper work : FilePath) × (os.canonicalize (components upper_text) w ≡ done upper)
      × (os.canonicalize (components work_text) w ≡ done work)
      × (os.device upper w ≡ os.device work w)
      × Disjoint upper work
      × All (Apart upper) dirs

  check_lower-dir :
      (dir : Text) (v : os.World)
      → check_lower os dir w ≡ (ok tt, v)
      → (os.is_dir (components dir) w ≡ true) × (v ≡ w)
  unfolding check_lower
  check_lower-dir dir v h =
      guard-eq-ok (os.is_dir (components dir) w)
        (overlay "lower layer does not exist or is not a directory") w h

  check_disjoint-Apart :
      (upper : FilePath) (dir : Text) (v : os.World)
      → check_disjoint os upper dir w ≡ (ok tt, v)
      → Apart upper dir × (v ≡ w)
  unfolding check_disjoint
  check_disjoint-Apart upper dir v h =
      let (lower, found, h1) =
        look-bind-eq-ok (λ w. io_ctx "resolve lower layer" (os.canonicalize (components dir) w))
          (λ lower.
            guard (not (overlaps lower upper)) (overlay "lower layer overlaps the upper layer"))
          w h in
      ((lower, ground arith, overlaps-Disjoint lower upper (ground arith)), ground arith)

  check_not_nested-apart :
      (upper work : FilePath) → check_not_nested upper work ≡ ok tt → Disjoint upper work
  unfolding check_not_nested
  check_not_nested-apart upper work h =
      (starts_with-LiesIn work upper (ground arith), starts_with-LiesIn upper work (ground arith))

  check_same_filesystem-device :
      (upper work : FilePath) (v : os.World)
      → check_same_filesystem os upper work w ≡ (ok tt, v)
      → (os.device upper w ≡ os.device work w) × (v ≡ w)
  unfolding check_same_filesystem
  check_same_filesystem-device upper work v h =
      let (a, found_a, h1) =
        look-bind-eq-ok (λ w. io_ctx "stat upperdir" (os.device upper w))
          (λ a. look (λ w. io_ctx "stat workdir" (os.device work w)) >>= λ b.
            guard (a == b) (overlay "workdir is on another device"))
          w h in
      let (b, found_b, h2) =
        look-bind-eq-ok (λ w. io_ctx "stat workdir" (os.device work w))
          (λ b. guard (a == b) (overlay "workdir is on another device")) w h1 in
      let (same, kept) = guard-eq-ok (a == b) (overlay "workdir is on another device") w h2 in
      (ground (arith, ==_iff a b), kept)

module _ (os : Os) where
  prepare_writable-Writable :
      (dirs : List Text) (upper_text work_text : Text) (w w' : os.World)
      → prepare_writable os dirs upper_text work_text w ≡ (ok tt, w')
      → Writable os w' dirs upper_text work_text
  unfolding prepare_writable
  prepare_writable-Writable dirs upper_text work_text w w' h =
      let (_, v1, _, h1) =
        bind-eq-ok (call os "create upperdir" (os.create_dir_all (components upper_text))) _ w h in
      let (_, v, _, h2) =
        bind-eq-ok (call os "create workdir" (os.create_dir_all (components work_text))) _ v1 h1 in
      let (upper, up, h3) =
        look-bind-eq-ok (λ w. io_ctx "resolve upperdir" (os.canonicalize (components upper_text) w))
          _ v h2 in
      let (work, wk, h4) =
        look-bind-eq-ok (λ w. io_ctx "resolve workdir" (os.canonicalize (components work_text) w)) _
          v h3 in
      let (_, v3, device, h5) = bind-eq-ok (check_same_filesystem os upper work) _ v h4 in
      let (same_device, kept) = check_same_filesystem-device os v upper work v3 device in
      let (_, nested, h6) = look-bind-eq-ok (λ _. check_not_nested upper work) _ v3 h5 in
      let apart = check_not_nested-apart os v upper work nested in
      let (lowers, still) =
        for_each-All (check_disjoint os upper) (Apart os v upper) v
          (check_disjoint-Apart os v upper) dirs w' (rw kept at h6) in
      rw still (upper, work, ground arith, ground arith, same_device, apart, lowers)

  -- A read-only overlay of at least two layers that is left as it is, or a writable one.
  abbrev pub Prepared : Layers → os.World → os.World → Type 0
  Prepared l w w' =
      ((l.upper ≡ none) × (l.work ≡ none) × (min_readonly_lower ≤ length l.lower) × (w' ≡ w))
      ⊎ ((upper work : Text) × (l.upper ≡ some upper)
          × (l.work ≡ some work)
          × Writable os w' l.lower upper work)

  prepare_kind-Prepared :
      (lower : List Text) (upper work : Option Text) (w w' : os.World)
      → prepare_kind os lower upper work w ≡ (ok tt, w')
      → Prepared (record { lower = lower; upper = upper; work = work }) w w'
  unfolding prepare_kind
  prepare_kind-Prepared lower (some upper) (some work) w w' h =
      inr (upper, work, refl, refl, prepare_writable-Writable lower upper work w w' h)
  prepare_kind-Prepared lower (some upper) none w w' h = absurd (cc h)
  prepare_kind-Prepared lower none (some work) w w' h = absurd (cc h)
  prepare_kind-Prepared lower none none w w' h = inl (refl, refl, ground arith, ground arith)

  -- If prepare succeeds, every lower layer was a directory, and either the overlay is read-only
  -- with at least two layers and nothing was changed, or its upper and work directories are, after
  -- they are made and resolved, on one device with neither the other nor inside it, and every lower
  -- layer resolves to a tree that is not the upper directory, does not hold it and does not lie in
  -- it.
  pub prepare-Prepared :
      (l : Layers) (w w' : os.World)
      → prepare os l w ≡ (ok tt, w')
      → All (λ dir. os.is_dir (components dir) w ≡ true) l.lower × Prepared l w w'
  unfolding prepare
  prepare-Prepared l w w' h =
      let (_, v, checked, h1) = bind-eq-ok (for_each (check_lower os) l.lower) _ w h in
      let (dirs, kept) =
        for_each-All (check_lower os) (λ dir. os.is_dir (components dir) w ≡ true) w
          (check_lower-dir os w) l.lower v checked in
      (dirs, prepare_kind-Prepared l.lower l.upper l.work w w' (rw kept at h1))
