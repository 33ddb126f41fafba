-- ===== src/Std/Agreement.antt =====
-- The kernel reads the registers of a call as the library wrote them.
use eurali_os.Prelude.{
  ℕ, ◌*◌, ◌/◌, ◌^◌, ◌<◌, ◌≡◌, ◌⊎◌, inl, inr, refl, ◌∙◌, arith, Bool, true, false, not, ◌&&◌,
  bit_and, bit_or, ltb, ◌==◌,
}
use eurali_os.Prelude.Digits.{bit_and-above, bit_or-above}
use eurali_os.State.{Thread, Kernel, M, pure, Result, ok, MemoryOps}
use eurali_os.State
use eurali_os.Constants.{
  syscall_send, syscall_sendreceive, syscall_mask, message_long, message_data2_type,
  message_data3_type,
}
use eurali_os.Messages.{from_long}
use eurali_os.Messages
use eurali_os.Std.{
  MessageData, value, memory_handle, comm_handle, error, Message, short, long, to_values,
  call_register,
}
use eurali_os.Std.Encoding.{data2, data3, control}

abbrev check : ℕ → MessageData → MessageData → Bool
check number d2 d3 =
    let low = bit_or number (control d2 d3) in
    ltb low (2 ^ 32)
    && (bit_and low syscall_mask == number
        && (not (bit_and low message_long == 0)
            && (bit_and low message_data2_type == (data2 d2).0
                && bit_and low message_data3_type == (data3 d3).0)))

checked :
    (d2 d3 : MessageData) → (check syscall_send d2 d3 && check syscall_sendreceive d2 d3) ≡ true
checked (value x) (value y) = refl
checked (value x) (memory_handle y) = refl
checked (value x) (comm_handle y) = refl
checked (value x) (error y) = refl
checked (memory_handle x) (value y) = refl
checked (memory_handle x) (memory_handle y) = refl
checked (memory_handle x) (comm_handle y) = refl
checked (memory_handle x) (error y) = refl
checked (comm_handle x) (value y) = refl
checked (comm_handle x) (memory_handle y) = refl
checked (comm_handle x) (comm_handle y) = refl
checked (comm_handle x) (error y) = refl
checked (error x) (value y) = refl
checked (error x) (memory_handle y) = refl
checked (error x) (comm_handle y) = refl
checked (error x) (error y) = refl

abbrev is_comm : MessageData → Bool
is_comm (comm_handle h) = true
is_comm (value v) = false
is_comm (memory_handle h) = false
is_comm (error e) = false

abbrev is_memory : MessageData → Bool
is_memory (memory_handle h) = true
is_memory (value v) = false
is_memory (comm_handle h) = false
is_memory (error e) = false

-- No part of a message is an error code, which the kernel has no kind for: it reads one as a value.
abbrev is_error : MessageData → Bool
is_error (error e) = true
is_error (value v) = false
is_error (memory_handle h) = false
is_error (comm_handle h) = false

abbrev pub HasNoError : Message → Type 0
HasNoError (short d1 d2 d3) = Unit
HasNoError (long d1 d2 d3) = (is_error d2 ≡ false) × (is_error d3 ≡ false)

-- What the kernel is meant to make of a message of the library: it looks up the handles.
abbrev pub kernel_message :
    {Mem : Type 0} → MemoryOps Mem → Thread → Message → M Mem (Result State.Message)
kernel_message ops t (short d1 d2 d3) = pure (ok (State.short d1 d2 d3))
kernel_message ops t (long d1 d2 d3) =
    from_long ops (is_comm d2) (is_memory d2) (is_comm d3) (is_memory d3) d1 (data2 d2).1
      (data3 d3).1 t

-- The register without the handle above it.
masked :
    (low handle : ℕ)
    → low < 2 ^ 32
    → (bit_or low (handle * 2 ^ 32) / 2 ^ 32 ≡ handle)
      × ((m : ℕ) → m < 2 ^ 32 → bit_and (bit_or low (handle * 2 ^ 32)) m ≡ bit_and low m)
masked low handle small =
    let e = bit_or-above 32 low handle small in
    (omega (arith, e), λ m h. rw e (bit_and-above 32 low handle m h))

kinds :
    (d : MessageData)
    → (((data2 d).0 == 0x200) ≡ is_comm d)
      × (((data2 d).0 == 0x400) ≡ is_memory d)
      × (((data3 d).0 == 0x800) ≡ is_comm d)
      × (((data3 d).0 == 0x1000) ≡ is_memory d)
kinds (value v) = (refl, refl, refl, refl)
kinds (memory_handle v) = (refl, refl, refl, refl)
kinds (comm_handle v) = (refl, refl, refl, refl)
kinds (error v) = (refl, refl, refl, refl)

module _ {Mem : Type 0} (ops : MemoryOps Mem) where
  -- What the kernel takes out of rax: the handle, the number of the call, and the message.
  abbrev pub Reads : ℕ → ℕ → Thread → Message → ℕ → Type 0
  Reads number handle t m rax =
      (rax / 2 ^ 32 ≡ handle)
      × (bit_and rax syscall_mask ≡ number)
      × ((k : Kernel Mem)
          → Messages.from_values ops t rax (to_values m).data1 (to_values m).data2
              (to_values m).data3 k
            ≡ kernel_message ops t m k)

  read_long :
      (rax : ℕ) (t : Thread) (d1 : ℕ) (d2 d3 : MessageData) (k : Kernel Mem)
      → (bit_and rax message_long == 0) ≡ false
      → bit_and rax message_data2_type ≡ (data2 d2).0
      → bit_and rax message_data3_type ≡ (data3 d3).0
      → Messages.from_values ops t rax d1 (data2 d2).1 (data3 d3).1 k
        ≡ kernel_message ops t (long d1 d2 d3) k
  unfolding Messages.from_values
  read_long rax t d1 d2 d3 k is_long kind2 kind3 =
      let (a, b, _, _) = kinds d2 in
      let (_, _, c, d) = kinds d3 in rw (is_long, kind2, kind3, a, b, c, d) refl

  long_Reads :
      (number handle : ℕ) (t : Thread) (d1 : ℕ) (d2 d3 : MessageData)
      → check number d2 d3 ≡ true
      → Reads number handle t
          (long d1 d2 d3)
          (call_register number (to_values (long d1 d2 d3)).ctrl handle)
  unfolding call_register to_values
  long_Reads number handle t d1 d2 d3 good =
      let low = bit_or number (control d2 d3) in
      let small : low < 2 ^ 32 = ground arith in
      let call : bit_and low syscall_mask ≡ number = ground arith in
      let is_long : (bit_and low message_long == 0) ≡ false = ground arith in
      let kind2 : bit_and low message_data2_type ≡ (data2 d2).0 = ground arith in
      let kind3 : bit_and low message_data3_type ≡ (data3 d3).0 = ground arith in
      let (above, mask) = masked low handle small in
      (
        above,
        mask syscall_mask (omega arith) ∙ call,
        λ k.
            read_long (bit_or low (handle * 2 ^ 32)) t d1 d2 d3 k
              (rw (mask message_long (omega arith)) is_long)
              (mask message_data2_type (omega arith) ∙ kind2)
              (mask message_data3_type (omega arith) ∙ kind3),
      )

  read_short :
      (rax : ℕ) (t : Thread) (d1 d2 d3 : ℕ) (k : Kernel Mem)
      → bit_and rax message_long ≡ 0
      → Messages.from_values ops t rax d1 d2 d3 k ≡ kernel_message ops t (short d1 d2 d3) k
  unfolding Messages.from_values
  read_short rax t d1 d2 d3 k e = rw e refl

  short_Reads :
      (number handle : ℕ) (t : Thread) (d1 d2 d3 : ℕ)
      → bit_or number 0 < 2 ^ 32
      → bit_and (bit_or number 0) syscall_mask ≡ number
      → bit_and (bit_or number 0) message_long ≡ 0
      → Reads number handle t
          (short d1 d2 d3)
          (call_register number (to_values (short d1 d2 d3)).ctrl handle)
  unfolding call_register to_values
  short_Reads number handle t d1 d2 d3 small call is_short =
      let (above, mask) = masked (bit_or number 0) handle small in
      (
        above,
        mask syscall_mask (omega arith) ∙ call,
        λ k.
            read_short (bit_or (bit_or number 0) (handle * 2 ^ 32)) t d1 d2 d3 k
              (mask message_long (omega arith) ∙ is_short),
      )

  -- What `send` and `send_receive` of the library put into rax is what the kernel reads from it, for
  -- every handle and every message without an error part: the handle, the number of the call, and the
  -- message, in which the kernel looks up as rendezvous and as memory chunks those parts that are such
  -- handles.
  pub call_register-Reads :
      (number handle : ℕ) (t : Thread) (m : Message)
      → (number ≡ syscall_send) ⊎ (number ≡ syscall_sendreceive)
      → HasNoError m
      → Reads number handle t m (call_register number (to_values m).ctrl handle)
  call_register-Reads number handle t (short d1 d2 d3) (inl e) no_error =
      rw e (short_Reads syscall_send handle t d1 d2 d3 (omega arith) refl refl)
  call_register-Reads number handle t (short d1 d2 d3) (inr e) no_error =
      rw e (short_Reads syscall_sendreceive handle t d1 d2 d3 (omega arith) refl refl)
  call_register-Reads number handle t (long d1 d2 d3) (inl e) no_error =
      let both = checked d2 d3 in rw e (long_Reads syscall_send handle t d1 d2 d3 (ground arith))
  call_register-Reads number handle t (long d1 d2 d3) (inr e) no_error =
      let both = checked d2 d3 in
      rw e (long_Reads syscall_sendreceive handle t d1 d2 d3 (ground arith))
