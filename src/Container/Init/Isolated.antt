-- ===== src/Container/Init/Isolated.antt =====
-- What the first stage of an init has done once it tells the number of the init.
use marstack_container.Prelude.{arith, ℕ, ◌≡◌, Bool, true, false, List, [], ◌∷◌}
use marstack_container.Prelude.Int.{ℤ}
use marstack_container.Std.Text.{Text, codes}
use marstack_container.Error.{ok}
use marstack_container.Exec.{TakenIf, Exec, when, bind-eq-ok, for_each, Chain, for_each-Chain}
use marstack_container.Os.{Os, done, nix_call, plain_call}
use marstack_container.Os.Answered.{call-eq-ok, nix_call-eq-ok, plain_call-eq-ok}
use marstack_container.Syscall.{unshare, setns, setresgid, setresuid}
use marstack_container.Spec.{
  user, mount, uts, ipc, pid, network, time, NamespaceType, LinuxTimeOffset,
}
use marstack_container.Bundle.Load.{time_offsets}
use marstack_container.Bundle.Validate.{namespace_type_eq}
use marstack_container.Namespace.{CloneFlags, Join}
use marstack_container.Sync.{Codec, Message, Phase, request_user_mapping, init_pid, send, expect}
use marstack_container.Container.Create.{Plan}
use marstack_container.Container.Init.Joining.{
  unshare_order, offsets_file, offsets_text, join_one, join_existing, write_time_offsets,
  unshare_one, become_root_in_namespace, map_user, stage_one,
}

module _ (os : Os) where
  -- The path is opened, and its namespace joined by that handle.
  abbrev pub Joins : Join → os.World → os.World → Type 0
  Joins j v v' =
      (handle : ℕ) × (u : os.World) × (os.open_path j.1 v ≡ (done handle, u))
      × (os.sys (setns j.0 handle) u ≡ (done tt, v'))

  -- The offsets of the clocks are written, if there are any.
  abbrev pub WritesOffsets : List (Text × LinuxTimeOffset) → os.World → os.World → Type 0
  WritesOffsets [] u v' = u ≡ v'
  WritesOffsets (o ∷ os') u v' = os.write offsets_file (offsets_text (o ∷ os')) u ≡ (done tt, v')

  -- The namespace is made, and the offsets are written right after a time namespace is.
  abbrev pub Makes : List (Text × LinuxTimeOffset) → NamespaceType → os.World → os.World → Type 0
  Makes offsets kind v v' =
      (u : os.World) × (os.sys (unshare kind) v ≡ (done tt, u))
      × TakenIf (namespace_type_eq kind time) (WritesOffsets offsets) u v'

  join_one-Joins : (j : Join) (v v' : os.World) → join_one os j v ≡ (ok tt, v') → Joins j v v'
  unfolding join_one
  join_one-Joins (kind, path) v v' h =
      let (handle, u, opened, last) =
        bind-eq-ok (nix_call os "open to join it" (os.open_path path)) _ v h in
      (
        handle,
        u,
        nix_call-eq-ok os "open to join it" (os.open_path path) v u opened,
        nix_call-eq-ok os "setns" (os.sys (setns kind handle)) u v' last,
      )

  write_time_offsets-WritesOffsets :
      (offsets : List (Text × LinuxTimeOffset)) (v v' : os.World)
      → write_time_offsets os offsets v ≡ (ok tt, v')
      → WritesOffsets offsets v v'
  unfolding write_time_offsets
  write_time_offsets-WritesOffsets [] v v' h = ground arith
  write_time_offsets-WritesOffsets (o ∷ offsets) v v' h =
      call-eq-ok os "write /proc/self/timens_offsets"
        (os.write offsets_file (offsets_text (o ∷ offsets))) v v' h

  when-TakenIf :
      (b : Bool) (m : Exec os.World (Unit {0})) (Step : os.World → os.World → Type 0)
      (v v' : os.World)
      → when b m v ≡ (ok tt, v')
      → (m v ≡ (ok tt, v') → Step v v')
      → TakenIf b Step v v'
  when-TakenIf true m Step v v' h use_it = use_it h
  when-TakenIf false m Step v v' h use_it = ground arith

  unshare_one-Makes :
      (flags : CloneFlags) (offsets : List (Text × LinuxTimeOffset)) (kind : NamespaceType)
      (v v' : os.World)
      → unshare_one os flags offsets kind v ≡ (ok tt, v')
      → TakenIf (flags kind) (Makes offsets kind) v v'
  unfolding unshare_one
  unshare_one-Makes flags offsets kind v v' h =
      when-TakenIf (flags kind) _ (Makes offsets kind) v v' h (λ k.
        let (_, u, made, last) = bind-eq-ok (plain_call os (os.sys (unshare kind))) _ v k in
        (
          u,
          plain_call-eq-ok os (os.sys (unshare kind)) v u made,
          when-TakenIf (namespace_type_eq kind time) (write_time_offsets os offsets)
              (WritesOffsets offsets) u v' last
              (λ k'. write_time_offsets-WritesOffsets offsets u v' k'),
        ))

module _ (os : Os) (codec : Codec) where
  -- The runtime was asked for the id maps and answered, and then the ids were changed to root's.
  abbrev pub IsMapped : os.World → os.World → Type 0
  IsMapped v v' =
      (answer : Message) × (v1 v2 v3 : os.World) × (send os codec request_user_mapping v
        ≡ (ok tt, v1))
      × (expect os codec (codes "UserMappingDone") v1 ≡ (ok answer, v2))
      × (os.sys (setresgid 0) v2 ≡ (done tt, v3))
      × (os.sys (setresuid 0) v3 ≡ (done tt, v'))

  map_user-IsMapped : (v v' : os.World) → map_user os codec v ≡ (ok tt, v') → IsMapped v v'
  unfolding map_user become_root_in_namespace
  map_user-IsMapped v v' h =
      let (_, v1, asked, h1) = bind-eq-ok (send os codec request_user_mapping) _ v h in
      let (answer, v2, heard, h2) =
        bind-eq-ok (expect os codec (codes "UserMappingDone")) _ v1 h1 in
      let (_, v3, group, last) =
        bind-eq-ok (nix_call os "setresgid(0,0,0)" (os.sys (setresgid 0))) _ v2 h2 in
      (
        answer,
        v1,
        v2,
        v3,
        asked,
        heard,
        nix_call-eq-ok os "setresgid(0,0,0)" (os.sys (setresgid 0)) v2 v3 group,
        nix_call-eq-ok os "setresuid(0,0,0)" (os.sys (setresuid 0)) v3 v' last,
      )

  -- A first stage that succeeds has, from one world to the next, joined the namespaces that the
  -- plan joins, one after the other, by a handle on the path of each; made those of the user,
  -- mount, UTS, IPC, pid, network and time namespaces that the plan makes, in this order, with the
  -- offsets of the clocks written right after a time namespace; asked for the id maps, if a user
  -- namespace was made, and become root in it once they were there; forked the init; and told its
  -- number.
  pub stage_one-IsMade :
      (phases : List Phase) (plan : Plan) (w w' : os.World)
      → stage_one os codec phases plan w ≡ (ok tt, w')
      → (v1 v2 v3 v4 : os.World) × (child : ℤ) × Chain (Joins os) plan.join w v1
        × Chain
            (λ kind. TakenIf (plan.unshare_flags kind) (Makes os (time_offsets plan.bundle) kind))
            (user ∷ mount ∷ uts ∷ ipc ∷ pid ∷ network ∷ time ∷ [])
            v1
            v2
        × TakenIf (plan.unshare_flags user) IsMapped v2 v3
        × (os.fork v3 ≡ (done child, v4))
        × (send os codec (init_pid child phases) v4 ≡ (ok tt, w'))
  unfolding stage_one join_existing
  stage_one-IsMade phases plan w w' h =
      let offsets = time_offsets plan.bundle in
      let flags = plan.unshare_flags in
      let (_, v1, joined, h1) = bind-eq-ok (join_existing os plan.join) _ w h in
      let (_, v2, made, h2) =
        bind-eq-ok (for_each (unshare_one os flags offsets) unshare_order) _ v1 h1 in
      let (_, v3, mapped, h3) = bind-eq-ok (when (flags user) (map_user os codec)) _ v2 h2 in
      let (child, v4, forked, last) = bind-eq-ok (plain_call os os.fork) _ v3 h3 in
      (
        v1,
        v2,
        v3,
        v4,
        child,
        for_each-Chain (join_one os) (Joins os) (join_one-Joins os) plan.join w v1 joined,
        for_each-Chain (unshare_one os flags offsets)
            (λ kind. TakenIf (flags kind) (Makes os offsets kind))
            (unshare_one-Makes os flags offsets) unshare_order v1 v2 made,
        when-TakenIf os (flags user) (map_user os codec) IsMapped v2 v3 mapped
            (map_user-IsMapped v2 v3),
        plain_call-eq-ok os os.fork v3 v4 forked,
        last,
      )
