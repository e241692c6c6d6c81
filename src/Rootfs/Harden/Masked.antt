-- ===== src/Rootfs/Harden/Masked.antt =====
-- What a hardening of paths that succeeds has done to each of them.
use marstack_container.Prelude.{
  ◌≡◌, ◌⊎◌, inl, inr, refl, Bool, true, false, none, some, List, [], ◌∷◌, arith, All, Option-cases,
}
use marstack_container.Std.Text.{Text, codes}
use marstack_container.Std.FilePath.{FilePath, components}
use marstack_container.Error.{ok}
use marstack_container.Exec.{bind-eq-ok, Chain, for_each-Chain}
use marstack_container.Syscall.{
  MountCall, ms_rdonly, ms_bind, ms_remount, ms_nosuid, ms_nodev, ms_noexec,
}
use marstack_container.Os.{Os, done, nix_call}
use marstack_container.Os.Answered.{nix_call-eq-ok}
use marstack_container.Rootfs.Harden.{
  mask_call, bind_call, remount_call, mask_one, mask_paths, readonly_one, readonly_paths,
}

-- An empty read-only tmpfs over a directory, or /dev/null bound over anything else.
abbrev pub Covers : Bool → FilePath → MountCall → Type 0
Covers true path call =
    (call.target ≡ path)
    × (call.fstype ≡ some (codes "tmpfs"))
    × (call.flags ms_rdonly ≡ true)
    × (call.data_text ≡ some (codes "size=0k"))
Covers false path call =
    (call.target ≡ path)
    × (call.source ≡ some (components (codes "/dev/null")))
    × (call.flags ms_bind ≡ true)

mask_call-Covers :
    (directory : Bool) (path : FilePath) → Covers directory path (mask_call directory path)
unfolding mask_call marstack_container.Syscall.flags_of marstack_container.Syscall.flag_eq
mask_call-Covers true path = (refl, refl, refl, refl)
mask_call-Covers false path = (refl, refl, refl)

-- A bind of the path onto itself.
abbrev pub Binds : FilePath → MountCall → Type 0
Binds path call =
    (call.source ≡ some path)
    × (call.target ≡ path)
    × (call.flags ms_bind ≡ true)
    × (call.flags ms_remount ≡ false)

bind_call-Binds : (path : FilePath) → Binds path (bind_call path)
unfolding bind_call marstack_container.Syscall.flags_of marstack_container.Syscall.flag_eq
bind_call-Binds path = (refl, refl, refl, refl)

-- A remount of the path, read-only, without devices, programs that set ids, or programs at all.
abbrev pub Locks : FilePath → MountCall → Type 0
Locks path call =
    (call.target ≡ path)
    × All (λ flag. call.flags flag ≡ true)
        (ms_bind ∷ ms_remount ∷ ms_rdonly ∷ ms_nosuid ∷ ms_nodev ∷ ms_noexec ∷ [])

remount_call-Locks : (path : FilePath) → Locks path (remount_call path)
unfolding remount_call marstack_container.Syscall.flags_of marstack_container.Syscall.flag_eq
remount_call-Locks path = (refl, (refl, (refl, (refl, (refl, (refl, (refl, tt)))))))

module _ (os : Os) where
  -- Nothing is there, and nothing is done; or a mount covers it.
  abbrev pub Masks : FilePath → os.World → os.World → Type 0
  Masks path v v' =
      ((os.link_is_dir path v ≡ none) × (v' ≡ v))
      ⊎ ((directory : Bool) × (call : MountCall) × (os.link_is_dir path v ≡ some directory)
          × Covers directory path call
          × (os.mount call v ≡ (done tt, v')))

  -- Nothing is there, and nothing is done; or it is bound onto itself and then remounted.
  abbrev pub Restricts : FilePath → os.World → os.World → Type 0
  Restricts path v v' =
      ((os.link_is_dir path v ≡ none) × (v' ≡ v))
      ⊎ ((directory : Bool) × (first second : MountCall) × (bound : os.World) × (os.link_is_dir path
              v
            ≡ some directory)
          × Binds path first
          × Locks path second
          × (os.mount first v ≡ (done tt, bound))
          × (os.mount second bound ≡ (done tt, v')))

  mask_one-Masks :
      (path : FilePath) (v v' : os.World) → mask_one os path v ≡ (ok tt, v') → Masks path v v'
  unfolding mask_one
  mask_one-Masks path v v' h = elim (Option-cases (os.link_is_dir path v)) [
    | inl nothing ↦ inl (nothing, ground (arith, rw nothing at h))
    | inr (directory, found) ↦ inr (
      directory,
      mask_call directory path,
      found,
      mask_call-Covers directory path,
      nix_call-eq-ok os "mask" (os.mount (mask_call directory path)) v v' (rw found at h),
    )
  ]

  readonly_one-Restricts :
      (path : FilePath) (v v' : os.World)
      → readonly_one os path v ≡ (ok tt, v')
      → Restricts path v v'
  unfolding readonly_one
  readonly_one-Restricts path v v' h = elim (Option-cases (os.link_is_dir path v)) [
    | inl nothing ↦ inl (nothing, ground (arith, rw nothing at h))
    | inr (directory, found) ↦
        let (_, bound, first, second) =
          bind-eq-ok (nix_call os "bind onto itself" (os.mount (bind_call path))) _ v
            (rw found at h) in
        inr (
          directory,
          bind_call path,
          remount_call path,
          bound,
          found,
          bind_call-Binds path,
          remount_call-Locks path,
          nix_call-eq-ok os "bind onto itself" (os.mount (bind_call path)) v bound first,
          nix_call-eq-ok os "remount read-only" (os.mount (remount_call path)) bound v' second,
        )
  ]

  -- A masking of paths that succeeds passes over each path where nothing is, and covers each other
  -- one, in order, by an empty read-only tmpfs if it is a directory and by /dev/null if not. A
  -- making read-only that succeeds passes over each path where nothing is, and binds each other one
  -- onto itself and then remounts it read-only, without devices, set-id programs or any programs.
  pub mask_paths-IsMasked :
      (masked readonly : List Text) (w v w' : os.World)
      → mask_paths os masked w ≡ (ok tt, v)
      → readonly_paths os readonly v ≡ (ok tt, w')
      → Chain (λ path. Masks (components path)) masked w v
        × Chain (λ path. Restricts (components path)) readonly v w'
  unfolding mask_paths readonly_paths
  mask_paths-IsMasked masked readonly w v w' m r = (
    for_each-Chain _ (λ path. Masks (components path))
        (λ path v v' h. mask_one-Masks (components path) v v' h) masked w v m,
    for_each-Chain _ (λ path. Restricts (components path))
        (λ path v v' h. readonly_one-Restricts (components path) v v' h) readonly v w' r,
  )
