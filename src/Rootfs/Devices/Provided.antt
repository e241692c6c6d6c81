-- ===== src/Rootfs/Devices/Provided.antt =====
-- Where the device nodes of a container come from.
use marstack_container.Prelude.{
  ℕ, ◌||◌, Option, ◌≡◌, ap, ◌⊎◌, inl, inr, refl, Bool, true, false, not, none, some, List, [], ◌∷◌,
  arith, ◌==◌, Bool-cases, Option-cases, ◌%◌, ◌^◌, if◌then◌else◌,
}
use marstack_container.Std.Text.{Text, codes}
use marstack_container.Std.FilePath
use marstack_container.Std.FilePath.{FilePath, root_dir, components, parent}
use marstack_container.Error.{ok}
use marstack_container.Exec.{when, gets, for_each, bind-eq-ok, Chain, for_each-Chain, ◌>>=◌}
use marstack_container.Os.{Os, Answer, done, failed, call, nix_call}
use marstack_container.Os.Answered.{call-eq-ok, nix_call-eq-ok}
use marstack_container.Syscall
use marstack_container.Syscall.{
  MountCall, ms_bind, NodeKind, char_node, block_node, fifo_node, set_permissions,
}
use marstack_container.Spec.{LinuxDevice, LinuxDeviceType, block, fifo, char, unbuffered, all_kinds}
use marstack_container.Rootfs.Mounts.{resolve}
use marstack_container.Rootfs.Devices
use marstack_container.Rootfs.Devices.{
  default_devices, DefaultDevice, symlinks, sflag_for, as_u64, is_refusal, mode_of, is_given,
  node_call, host_bind, bind, made, make_node, make_parent, node, default_node, link_one,
  extra_node,
}

-- The devices that a container has: readable and writable for all, 0o666.
abbrev pub standard_devices : List DefaultDevice
standard_devices =
    record { path = codes "dev/null"; major = 1; minor = 3; mode = 438 }
    ∷ record { path = codes "dev/zero"; major = 1; minor = 5; mode = 438 }
    ∷ record { path = codes "dev/full"; major = 1; minor = 7; mode = 438 }
    ∷ record { path = codes "dev/tty"; major = 5; minor = 0; mode = 438 }
    ∷ record { path = codes "dev/random"; major = 1; minor = 8; mode = 438 }
    ∷ record { path = codes "dev/urandom"; major = 1; minor = 9; mode = 438 }
    ∷ []

-- The links that a container has.
abbrev pub standard_links : List (Text × Text)
standard_links =
    (codes "/proc/self/fd", codes "dev/fd")
    ∷ (codes "/proc/self/fd/0", codes "dev/stdin")
    ∷ (codes "/proc/self/fd/1", codes "dev/stdout")
    ∷ (codes "/proc/self/fd/2", codes "dev/stderr")
    ∷ []

-- The mode of a device of the configuration: 0o666 unless it is given.
abbrev pub HasMode : Option ℕ → ℕ → Type 0
HasMode none mode = mode ≡ 438
HasMode (some given) mode = mode ≡ given

mode_of-HasMode : (o : Option ℕ) → HasMode o (mode_of o)
unfolding mode_of
mode_of-HasMode none = refl
mode_of-HasMode (some given) = refl

-- The kind of its node: a block device, a pipe, or else a character device.
abbrev pub HasKind : LinuxDeviceType → NodeKind → Type 0
HasKind block kind = kind ≡ block_node
HasKind fifo kind = kind ≡ fifo_node
HasKind char kind = kind ≡ char_node
HasKind unbuffered kind = kind ≡ char_node
HasKind all_kinds kind = kind ≡ char_node

sflag_for-HasKind : (t : LinuxDeviceType) → HasKind t (sflag_for t)
unfolding sflag_for
sflag_for-HasKind block = refl
sflag_for-HasKind fifo = refl
sflag_for-HasKind char = refl
sflag_for-HasKind unbuffered = refl
sflag_for-HasKind all_kinds = refl

is_refusal-eq : (e : ℕ) → is_refusal e ≡ true → (e ≡ 1) ⊎ (e ≡ 75)
unfolding is_refusal
is_refusal-eq e h = elim (Bool-cases (e == 1)) [
  | inl first ↦ inl (ground arith)
  | inr other ↦ inr (ground arith)
]

module _ (os : Os) where
  -- The host has the node, and it is mounted over the target, a file that is there or is made.
  abbrev pub Binds : FilePath → FilePath → os.World → os.World → Type 0
  Binds target host v v' =
      (os.exists host v ≡ true)
      × (u : os.World) × (((os.exists target v ≡ true) × (u ≡ v))
          ⊎ (os.create_file target v ≡ (done tt, u)))
      × (call : MountCall) × (call.source ≡ some host)
      × (call.target ≡ target)
      × (call.flags ms_bind ≡ true)
      × (os.mount call u ≡ (done tt, v'))

  -- The node is made, and its mode is set after that.
  abbrev pub Makes : FilePath → NodeKind → ℕ → ℕ → ℕ → os.World → os.World → Type 0
  Makes target kind mode major minor v v' =
      (u : os.World) × (os.sys (Syscall.mknod target kind (mode % 2 ^ 12) major minor) v
        ≡ (done tt, u))
      × (os.sys (set_permissions target mode) u ≡ (done tt, v'))

  -- The making of the node is refused with EPERM or EOVERFLOW, and the host's is bound instead.
  abbrev pub Replaces : FilePath → FilePath → NodeKind → ℕ → ℕ → ℕ → os.World → os.World → Type 0
  Replaces target host kind mode major minor v v' =
      (e : ℕ) × (u : os.World) × ((e ≡ 1) ⊎ (e ≡ 75))
      × (os.sys (Syscall.mknod target kind (mode % 2 ^ 12) major minor) v ≡ (failed e, u))
      × Binds target host u v'

  readied :
      (b : Bool) (target : FilePath) (v u : os.World)
      → os.exists target v ≡ b
      → when (not b) (call os "create a bind target" (os.create_file target)) v ≡ (ok tt, u)
      → ((os.exists target v ≡ true) × (u ≡ v)) ⊎ (os.create_file target v ≡ (done tt, u))
  readied true target v u e h = inl (e, ground arith)
  readied false target v u e h =
      inr (call-eq-ok os "create a bind target" (os.create_file target) v u h)

  bind-Binds :
      (target host : FilePath) (v v' : os.World)
      → bind os target host v ≡ (ok tt, v')
      → Binds target host v v'
  unfolding bind Syscall.flags_of Syscall.flag_eq
  bind-Binds target host v v' h = elim (Bool-cases (os.exists host v)) [
    | inr missing ↦ absurd (cc (rw missing at h))
    | inl provided ↦
        let (_, u, ready, last) =
          bind-eq-ok
            (gets (os.exists target) >>= λ present.
              when (not present) (call os "create a bind target" (os.create_file target)))
            _ v (rw provided at h) in
        (
          provided,
          u,
          readied (os.exists target v) target v u refl ready,
          host_bind target host,
          refl,
          refl,
          refl,
          nix_call-eq-ok os "bind" (os.mount (host_bind target host)) u v' last,
        )
  ]

  made-cases :
      (target host : FilePath) (mode : ℕ) (a : Answer (Unit {0})) (u v' : os.World)
      → made os target host mode a u ≡ (ok tt, v')
      → ((a ≡ done tt) × (os.sys (set_permissions target mode) u ≡ (done tt, v')))
        ⊎ ((e : ℕ) × (a ≡ failed e) × ((e ≡ 1) ⊎ (e ≡ 75)) × Binds target host u v')
  unfolding made
  made-cases target host mode (done t) u v' h =
      inl (refl, call-eq-ok os "chmod" (os.sys (set_permissions target mode)) u v' h)
  made-cases target host mode (failed e) u v' h = elim (Bool-cases (is_refusal e)) [
    | inl refused ↦
        inr (e, refl, is_refusal-eq e refused, bind-Binds target host u v' (rw refused at h))
    | inr other ↦ absurd (cc (rw other at h))
  ]

  make_node-cases :
      (target host : FilePath) (kind : NodeKind) (mode major minor : ℕ) (v v' : os.World)
      → make_node os target host kind mode major minor v ≡ (ok tt, v')
      → Makes target kind mode major minor v v' ⊎ Replaces target host kind mode major minor v v'
  unfolding make_node
  make_node-cases target host kind mode major minor v v' h =
      let (a, u) = os.sys (node_call target kind mode major minor) v in
      elim (made-cases target host mode a u v' h) [
        | inl (answered, last) ↦ inl (u, ap (λ x. (x, u)) answered, last)
        | inr (e, answered, refused, bound) ↦ inr (e, u, refused, ap (λ x. (x, u)) answered, bound)
      ]

  -- The directory of the target, if it has one, is made.
  abbrev pub Parented : FilePath → os.World → os.World → Type 0
  Parented target v u =
      ((parent target ≡ none) × (u ≡ v))
      ⊎ ((dir : FilePath) × (parent target ≡ some dir) × (os.create_dir_all dir v ≡ (done tt, u)))

  make_parent-Parented :
      (target : FilePath) (v u : os.World)
      → make_parent os target v ≡ (ok tt, u)
      → Parented target v u
  unfolding make_parent
  make_parent-Parented target v u h = elim (Option-cases (parent target)) [
    | inl alone ↦ inl (alone, ground (arith, rw (make_parent, alone) at h))
    | inr (dir, found) ↦ inr (
      dir,
      found,
      call-eq-ok os "create" (os.create_dir_all dir) v u (rw (make_parent, found) at h),
    )
  ]

  -- Something is there, and nothing is done. Or nothing is, and below its directory, in a user
  -- namespace, the node of the host is bound; or else the node is made, or refused and the host's
  -- bound.
  abbrev pub Provides :
      FilePath → FilePath → NodeKind → ℕ → ℕ → ℕ → Bool → os.World → os.World → Type 0
  Provides target host kind mode major minor user_namespace v v' =
      ((os.link_exists target v ≡ true) × (v' ≡ v))
      ⊎ ((u : os.World) × (os.link_exists target v ≡ false)
          × Parented target v u
          × (((user_namespace ≡ true) × Binds target host u v')
              ⊎ ((user_namespace ≡ false)
                  × (Makes target kind mode major minor u v'
                      ⊎ Replaces target host kind mode major minor u v'))))

  node-Provides :
      (target host : FilePath) (kind : NodeKind) (mode major minor : ℕ) (user_namespace : Bool)
      (v v' : os.World)
      → node os target host kind mode major minor user_namespace v ≡ (ok tt, v')
      → Provides target host kind mode major minor user_namespace v v'
  unfolding node
  node-Provides target host kind mode major minor un v v' h =
      elim (Bool-cases (os.link_exists target v)) [
        | inl present ↦ inl (present, ground (arith, rw present at h))
        | inr absent ↦
            let (_, u, below, last) = bind-eq-ok (make_parent os target) _ v (rw absent at h) in
            inr (u, absent, make_parent-Parented target v u below, fresh un u last)
      ]
    where
      fresh :
          (un : Bool) (u : os.World)
          → (if un then bind os target host else make_node os target host kind mode major minor) u
            ≡ (ok tt, v')
          → ((un ≡ true) × Binds target host u v')
            ⊎ ((un ≡ false)
                × (Makes target kind mode major minor u v'
                    ⊎ Replaces target host kind mode major minor u v'))
      fresh true u last = inl (refl, bind-Binds target host u v' last)
      fresh false u last = inr (refl, make_node-cases target host kind mode major minor u v' last)

  abbrev pub ProvidesDefault : FilePath → Bool → DefaultDevice → os.World → os.World → Type 0
  ProvidesDefault rootfs user_namespace d v v' =
      Provides (FilePath.join rootfs (components d.path)) (root_dir ∷ components d.path) char_node
        d.mode d.major d.minor user_namespace v v'

  -- Something is there, and nothing is done; or the link is made.
  abbrev pub Links : FilePath → Text × Text → os.World → os.World → Type 0
  Links rootfs l v v' =
      ((os.link_exists (FilePath.join rootfs (components l.1)) v ≡ true) × (v' ≡ v))
      ⊎ ((os.link_exists (FilePath.join rootfs (components l.1)) v ≡ false)
          × (os.symlink (components l.0) (FilePath.join rootfs (components l.1)) v ≡ (done tt, v')))

  -- The node is provided below the root, and is given to whom the device says, if it says so.
  abbrev pub ProvidesExtra : FilePath → Bool → LinuxDevice → os.World → os.World → Type 0
  ProvidesExtra rootfs user_namespace d v v' =
      (kind : NodeKind) × (mode : ℕ) × (u : os.World) × HasKind d.typ kind
      × HasMode d.file_mode mode
      × Provides (resolve rootfs d.path) d.path kind mode (as_u64 d.major) (as_u64 d.minor)
          user_namespace v u
      × (((d.uid ≡ none) × (d.gid ≡ none) × (v' ≡ u))
          ⊎ (os.sys (Syscall.chown (resolve rootfs d.path) d.uid d.gid) u ≡ (done tt, v')))

  link_one-Links :
      (rootfs : FilePath) (l : Text × Text) (v v' : os.World)
      → link_one os rootfs l v ≡ (ok tt, v')
      → Links rootfs l v v'
  unfolding link_one
  link_one-Links rootfs (source, link) v v' h =
      let target = FilePath.join rootfs (components link) in
      elim (Bool-cases (os.link_exists target v)) [
        | inl present ↦ inl (present, ground (arith, rw present at h))
        | inr absent ↦ inr (
          absent,
          call-eq-ok os "symlink" (os.symlink (components source) target) v v' (rw absent at h),
        )
      ]

  chown-cases :
      (target : FilePath) (uid gid : Option ℕ) (v v' : os.World)
      → when
          (is_given uid || is_given gid)
          (nix_call os "chown" (os.sys (Syscall.chown target uid gid)))
          v
        ≡ (ok tt, v')
      → ((uid ≡ none) × (gid ≡ none) × (v' ≡ v))
        ⊎ (os.sys (Syscall.chown target uid gid) v ≡ (done tt, v'))
  unfolding is_given
  chown-cases target none none v v' h = inl (refl, refl, ground arith)
  chown-cases target none (some g) v v' h =
      inr (nix_call-eq-ok os "chown" (os.sys (Syscall.chown target none (some g))) v v' h)
  chown-cases target (some u) gid v v' h =
      inr (nix_call-eq-ok os "chown" (os.sys (Syscall.chown target (some u) gid)) v v' h)

  extra_node-ProvidesExtra :
      (rootfs : FilePath) (user_namespace : Bool) (d : LinuxDevice) (v v' : os.World)
      → extra_node os rootfs user_namespace d v ≡ (ok tt, v')
      → ProvidesExtra rootfs user_namespace d v v'
  unfolding extra_node
  extra_node-ProvidesExtra rootfs un d v v' h =
      let target = resolve rootfs d.path in
      let kind = sflag_for d.typ in
      let mode = mode_of d.file_mode in
      let major = as_u64 d.major in
      let minor = as_u64 d.minor in
      let (_, u, first, last) = bind-eq-ok (node os target d.path kind mode major minor un) _ v h in
      (
        kind,
        mode,
        u,
        sflag_for-HasKind d.typ,
        mode_of-HasMode d.file_mode,
        node-Provides target d.path kind mode major minor un v u first,
        chown-cases target d.uid d.gid u v' last,
      )

  -- A creation of devices that succeeds provides the devices null, zero, full, tty, random and
  -- urandom with their numbers and the mode 0o666, makes the links fd, stdin, stdout and stderr,
  -- and provides each device of the configuration at its path resolved below the root, one after
  -- the other in this order. What is there already is left as it is. A device that is not there is
  -- bound from the host in a user namespace, and else made with its mode set, or bound from the
  -- host if its making is refused with EPERM or EOVERFLOW. A device of the configuration that names
  -- an owner is given to it.
  pub create-Provided :
      (rootfs : FilePath) (extra : List LinuxDevice) (user_namespace : Bool) (w w' : os.World)
      → Devices.create os rootfs extra user_namespace w ≡ (ok tt, w')
      → (v u : os.World) × Chain (ProvidesDefault rootfs user_namespace) standard_devices w v
        × Chain (Links rootfs) standard_links v u
        × Chain (ProvidesExtra rootfs user_namespace) extra u w'
  unfolding Devices.create default_node default_devices symlinks
  create-Provided rootfs extra un w w' h =
      let (_, v, defaults, h1) =
        bind-eq-ok (for_each (default_node os rootfs un) default_devices) _ w h in
      let (_, u, links, others) = bind-eq-ok (for_each (link_one os rootfs) symlinks) _ v h1 in
      (
        v,
        u,
        for_each-Chain (default_node os rootfs un) (ProvidesDefault rootfs un)
            (λ d a b k.
              node-Provides (FilePath.join rootfs (components d.path))
                (root_dir ∷ components d.path) char_node d.mode d.major d.minor un a b k)
            standard_devices w v defaults,
        for_each-Chain (link_one os rootfs) (Links rootfs) (link_one-Links rootfs) standard_links v
            u links,
        for_each-Chain (extra_node os rootfs un) (ProvidesExtra rootfs un)
            (extra_node-ProvidesExtra rootfs un) extra u w' others,
      )
