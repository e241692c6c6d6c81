-- ===== src/Sync.antt =====
-- sync.rs: the messages between the runtime and the container's init, over a socket that keeps
-- their bounds.
use marstack_container.Prelude.{ℕ, Bool, false, Option, none, some, List, is_empty, if◌then◌else◌}
use marstack_container.Prelude.Int.{ℤ}
use marstack_container.Std.Text.{Text, codes, text_eq}
use marstack_container.Error.{Result, ok, err, sync_closed, init_failed, sync, json}
use marstack_container.Exec.{Exec, lift, ◌>>=◌}
use marstack_container.Os.{Os, plain_call}

-- 16 KiB.
abbrev pub max_message : ℕ
max_message = 16384

-- A timed phase of the creation.
pub record Phase : Type 0 where
  pub name : Text
  pub start_us : ℕ
  pub end_us : ℕ

pub data Message : Type 0 where
  request_user_mapping user_mapping_done : Message
  init_pid : ℤ → List Phase → Message
  cgroup_applied : ℤ → Message
  init_ready : List Phase → Message
  failed : Text → Message

-- serde_json at the messages.
pub record Codec : Type 0 where
  pub to_vec : Message → Text
  pub from_slice : Text → Option Message

-- The names by which a message may be wanted.
unfoldable pub is_wanted : Message → Text → Bool
is_wanted user_mapping_done want = text_eq want (codes "UserMappingDone")
is_wanted (init_pid pid phases) want = text_eq want (codes "InitPid")
is_wanted (cgroup_applied pid) want = text_eq want (codes "CgroupApplied")
is_wanted (init_ready phases) want = text_eq want (codes "InitReady")
is_wanted request_user_mapping want = text_eq want (codes "RequestUserMapping")
is_wanted (failed reason) want = false

-- The check of a message that was received.
unfoldable pub expected : Text → Message → Result Message
unfolding is_wanted
expected want (failed reason) = err (init_failed reason)
expected want message =
    if is_wanted message want then ok message else err (sync "expected another message")

module _ (os : Os) (codec : Codec) where
  -- The message in the bytes that were read; none are read when the other end is closed.
  unfoldable pub decode : Text → Result Message
  decode bytes =
      if is_empty bytes
      then err sync_closed
      else elim (codec.from_slice bytes) [ none ↦ err json | some message ↦ ok message ]

  unfoldable pub send : Message → Exec os.World (Unit {0})
  send message = plain_call os (os.send (codec.to_vec message))

  unfoldable pub recv : Exec os.World Message
  unfolding decode
  recv = do bytes ← plain_call os (os.recv max_message); lift (decode bytes)

  unfoldable pub expect : Text → Exec os.World Message
  unfolding recv expected
  expect want = do message ← recv; lift (expected want message)
