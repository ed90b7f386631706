-- ===== src/Hyperstart.antt =====
-- The frames of the channels to the agent in a virtual machine: newVmMessage, readVmMessage and
-- readTtyMessage of agent/hyperstart.go, and ToBuffer of agent/api/hyperstart/types.go.
pub mod RoundTrip
pub mod Commands
pub mod Queue
pub mod Streams
mod Tests
use runv.Prelude.{
  ℕ, zero, suc, ◌+◌, ◌-◌, ◌*◌, ◌/◌, ◌%◌, Bool, true, false, ◌&&◌, List, [], ◌∷◌, ◌++◌,
  if◌then◌else◌, leb, ltb, ◌==◌, length, take, drop,
}

-- binary.BigEndian on 32 bits.
unfoldable pub put_uint32 : ℕ → List ℕ
put_uint32 n = (n / 16777216) % 256 ∷ (n / 65536) % 256 ∷ (n / 256) % 256 ∷ n % 256 ∷ []

-- The code reads four bytes where there are four.
unfoldable pub uint32 : List ℕ → ℕ
uint32 (a ∷ b ∷ c ∷ d ∷ rest) = ((a * 256 + b) * 256 + c) * 256 + d
uint32 _ = 0

unfoldable pub new_vm_message : ℕ → List ℕ → List ℕ
unfolding put_uint32
new_vm_message code message = put_uint32 code ++ (put_uint32 (length message + 8) ++ message)

-- What readVmMessage comes to: a message, with the bytes that it left unread, or the error of a
-- read, here that of the stream's end.
pub data Outcome : Type 0 where
  message : ℕ → List ℕ → List ℕ → Outcome
  read_failed out_of_fuel : Outcome

abbrev pub at_most : ℕ → ℕ → ℕ
at_most a b = if leb a b then a else b

-- What the loops of readVmMessage and of readTtyMessage come to: the bytes of a frame, and those that
-- are left.
pub data Read : Type 0 where
  frame : List ℕ → List ℕ → Read
  failed spent : Read

-- The loop that readVmMessage and readTtyMessage share, but for `header`, the header's length, 8 and
-- 12; the frame's length stands at the header's end.
module _ (header : ℕ) where
  -- `length` and `needRead` after a read; `length` is 0 until the header is there.
  unfoldable pub learn : ℕ → ℕ → List ℕ → ℕ × ℕ
  unfolding uint32
  learn len need res =
      let told = uint32 (drop (header - 4) res) in
      if (len == 0) && leb header (length res)
      then (told, if ltb header told then told else need)
      else (len, need)

  -- `res` is what has been read, and `read` is its length. A read returns one byte at least, and
  -- `more i` more of those that are wanted and there at most, `i` bytes having been read.
  module _ (more : ℕ → ℕ) where
    unfoldable pub read_loop : ℕ → ℕ → ℕ → List ℕ → List ℕ → Read
    unfolding learn
    read_loop zero len need res stream = spent
    read_loop (suc fuel) len need res stream =
        let want = at_most (need - length res) 512 in
        let nr = at_most (at_most want (suc (more (length res)))) (length stream) in
        let res' = res ++ take nr stream in
        let next = learn len need res' in
        let rest = read_loop fuel next.0 next.1 res' (drop nr stream) in
        if leb need (length res)
        then frame res stream
        else if length stream == 0
        then failed
        else rest

-- With fuel for one round for each byte of the stream, and one more.
unfoldable pub read_vm_message : (ℕ → ℕ) → List ℕ → Outcome
unfolding read_loop
read_vm_message more stream = elim (read_loop 8 more (suc (length stream)) 0 8 [] stream) [
  | frame res rest ↦ message (uint32 res) (drop 8 res) rest
  | failed ↦ read_failed
  | spent ↦ out_of_fuel
]

-- binary.BigEndian on 64 bits, of which the upper and the lower half are put.
unfoldable pub put_uint64 : ℕ → List ℕ
unfolding put_uint32
put_uint64 n = put_uint32 (n / 4294967296) ++ put_uint32 n

unfoldable pub uint64 : List ℕ → ℕ
unfolding uint32
uint64 bytes = uint32 bytes * 4294967296 + uint32 (drop 4 bytes)

-- ToBuffer of a TtyMessage, and readTtyMessage.
unfoldable pub to_buffer : ℕ → List ℕ → List ℕ
unfolding put_uint64 put_uint32
to_buffer session text = put_uint64 session ++ (put_uint32 (length text + 12) ++ text)

unfoldable pub read_tty_message : (ℕ → ℕ) → List ℕ → Outcome
unfolding read_loop uint64
read_tty_message more stream = elim (read_loop 12 more (suc (length stream)) 0 12 [] stream) [
  | frame res rest ↦ message (uint64 res) (drop 12 res) rest
  | failed ↦ read_failed
  | spent ↦ out_of_fuel
]
