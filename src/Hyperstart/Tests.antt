-- ===== src/Hyperstart/Tests.antt =====
-- Frames at concrete messages.
use runv.Prelude.{◌%◌, ◌≡◌, refl, [], ◌∷◌, ◌++◌, arith}
use runv.Hyperstart.{
  put_uint32, uint32, new_vm_message, message, read_failed, learn, read_loop, read_vm_message,
  put_uint64, uint64, to_buffer, read_tty_message,
}
use runv.Hyperstart.RoundTrip.{read_vm_message-new_vm_message}

-- Two frames in one stream, read by one to three bytes at a time.
read_vm_message-new_vm_message_example :
    read_vm_message (λ i. i % 3) (new_vm_message 9 (1 ∷ 2 ∷ 3 ∷ []) ++ new_vm_message 5 [])
    ≡ message 9 (1 ∷ 2 ∷ 3 ∷ []) (new_vm_message 5 [])
read_vm_message-new_vm_message_example =
    read_vm_message-new_vm_message (λ i. i % 3) 9 (1 ∷ 2 ∷ 3 ∷ []) (new_vm_message 5 [])
      (omega arith) (omega arith)

framed : new_vm_message 258 (7 ∷ []) ≡ 0 ∷ 0 ∷ 1 ∷ 2 ∷ 0 ∷ 0 ∷ 0 ∷ 9 ∷ 7 ∷ []
unfolding new_vm_message put_uint32
framed = refl

-- A stream that ends within a frame is an error.
cut_short : read_vm_message (λ i. 100) (0 ∷ 0 ∷ 0 ∷ 5 ∷ 0 ∷ 0 ∷ 0 ∷ 9 ∷ []) ≡ read_failed
unfolding read_vm_message read_loop learn uint32
cut_short = refl

-- A message of a stream, read by one to four bytes at a time.
streamed :
    read_tty_message (λ i. i % 4) (to_buffer 3 (104 ∷ 105 ∷ []) ++ 0 ∷ [])
    ≡ message 3 (104 ∷ 105 ∷ []) (0 ∷ [])
unfolding read_tty_message to_buffer put_uint64 uint64 put_uint32 read_loop learn uint32
streamed = refl
