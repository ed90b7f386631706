-- ===== src/Hyperstart/Commands.antt =====
-- The commands that go through the control channel's goroutine, and how a command's message is
-- made into bytes (agent/hyperstart.go).
use Prim.Native.String.{String}
use runv.Prelude.{
  ℕ, Bool, ◌||◌, Option, none, some, List, ◌⊎◌, inl, inr, if◌then◌else◌, leb, ◌==◌, ◌=?◌, string_eq,
}

-- What encoding/json reads: an object, or any other value, whose text stands for it.
mutual
  pub data Json : Type 0 where
    object : Members → Json
    other_value : String → Json

  pub data Members : Type 0 where
    no_members : Members
    member : String → Json → Members → Members

-- json.Marshal, and json.Unmarshal into a map, which takes `null` for an empty one.
pub record Codec : Type 0 where
  pub marshal : Json → Option (List ℕ)
  pub unmarshal : List ℕ → Option Members

-- The Message of a command: bytes, or an object to marshal.
pub data Message : Type 0 where
  raw : List ℕ → Message
  value : Json → Message

-- What is sent on ctlChan. handleMsgFromHyperstart sends INIT_ACK (`true`), INIT_ERROR and
-- INIT_NEXT, with the bytes of retMsg and no result channel. The others are calls; the first number
-- is the call's result channel, and `call` has the code of any other command.
pub data Command : Type 0 where
  answered : Bool → List ℕ → Command
  next : List ℕ → Command
  pause_sync unpause : ℕ → Command
  call : ℕ → ℕ → Message → Command

-- What is sent on the result channel; a guest's answer comes with retMsg.
pub data Answer : Type 0 where
  acked refused : List ℕ → Answer
  done : Answer
  pausing_error marshal_error old_error closed_error : Answer

abbrev pub init_destroypod : ℕ
init_destroypod = 4

abbrev init_execcmd : ℕ
init_execcmd = 6

abbrev init_newcontainer : ℕ
init_newcontainer = 17

unfoldable pub delete_member : String → Members → Members
delete_member k no_members = no_members
delete_member k (member j v ms) =
    if j =? k then delete_member k ms else member j v (delete_member k ms)

-- The object "process" of a message, if there is one, loses its "id".
unfoldable pub delete_process_id : Members → Members
unfolding delete_member
delete_process_id no_members = no_members
delete_process_id (member j (object ms) rest) =
    if j =? "process"
    then member j (object (delete_member "id" ms)) (delete_process_id rest)
    else member j (object ms) (delete_process_id rest)
delete_process_id (member j (other_value t) rest) =
    member j (other_value t) (delete_process_id rest)

-- A message for an agent of version 4242 or older.
unfoldable pub old_message : Codec → ℕ → List ℕ → Option (List ℕ)
unfolding delete_process_id
old_message codec code bytes =
    if (code == init_execcmd) || (code == init_newcontainer)
    then elim (codec.unmarshal bytes) [
      | none ↦ none
      | some no_members ↦ some bytes
      | some (member j v ms) ↦ codec.marshal (object (delete_process_id (member j v ms)))
    ]
    else some bytes

unfoldable pub marshal_message : Codec → Message → Option (List ℕ)
marshal_message codec (raw bytes) = some bytes
marshal_message codec (value v) = codec.marshal v

-- The bytes to send, or the error that the caller gets.
unfoldable pub prepare : Codec → ℕ → ℕ → Message → Answer ⊎ List ℕ
unfolding marshal_message old_message
prepare codec version code m = elim (marshal_message codec m) [
  | none ↦ inl marshal_error
  | some bytes ↦
      if leb version 4242
      then elim (old_message codec code bytes) [ none ↦ inl old_error | some b ↦ inr b ]
      else inr bytes
]
