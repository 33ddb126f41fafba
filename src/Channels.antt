-- ===== src/Channels.antt =====
-- kernel/src/rendezvous.rs: the four operations of a `Rendezvous`.
pub mod Moves
pub mod Ownership
pub mod Protocol
pub mod Waiting
use eurali_os.Prelude.{ℕ, Option, none, some, Bool, update, ◌==◌, if◌then◌else◌}
use eurali_os.State.{
  Thread, Message, Rendezvous, empty, sending, receiving, send_receiving, Kernel, M, pure, ◌>>=◌,
  ◌>>◌, MemoryOps,
}
use eurali_os.Constants.{error_send_blocking, error_recv_blocking, error_closed}
use eurali_os.Threads.{return_error}
use eurali_os.Messages.{return_error_message, return_message}

-- The threads that an operation returns: the first to start as soon as possible, the second to
-- schedule.
abbrev pub Woken : Type 0
Woken = Option Thread × Option Thread

module _ {Mem : Type 0} where
  -- `*self = …`
  abbrev pub set_cell : ℕ → Rendezvous → M Mem (Unit {0})
  set_cell r s k = some (tt, record k { rendezvous_cells = update k.rendezvous_cells r s })

  -- `if let Some(t) = &thread { t.return_error(0) }`
  abbrev pub return_success : Option Thread → M Mem (Unit {0})
  return_success none = pure tt
  return_success (some t) = return_error t 0

module _ {Mem : Type 0} (ops : MemoryOps Mem) where
  -- `if let Some(t) = &thread { t.return_error_message(error, message) }`
  abbrev pub bounce : Option Thread → ℕ → Message → M Mem (Unit {0})
  bounce none error message = pure tt
  bounce (some t) error message = return_error_message ops t error message

  -- The transfer to a receiving thread in `send`.
  unfoldable pub complete_send : ℕ → Thread → Option Thread → Message → M Mem Woken
  complete_send r receiver thread message = do
    set_cell r empty
    return_message ops receiver message
    return_success thread
    pure (some receiver, thread)

  unfoldable pub send_to : ℕ → Rendezvous → Option Thread → Message → M Mem Woken
  unfolding complete_send
  send_to r empty thread message = do set_cell r (sending thread message); pure (none, none)
  send_to r (sending _ _) thread message = do
    bounce thread error_send_blocking message
    pure (thread, none)
  send_to r (receiving receiver none) thread message = complete_send r receiver thread message
  send_to r (receiving receiver (some tid)) none message = pure (none, none)
  send_to r (receiving receiver (some tid)) (some t) message =
      if t.tid == tid
      then complete_send r receiver (some t) message
      else (do return_error_message ops t error_recv_blocking message; pure (some t, none))
  send_to r (send_receiving _ _) thread message = do
    bounce thread error_send_blocking message
    pure (thread, none)

  unfoldable pub send : ℕ → Option Thread → Message → M Mem Woken
  unfolding send_to
  send r thread message k = send_to r (k.rendezvous_cells r) thread message k

  unfoldable pub receive_from : ℕ → Rendezvous → Thread → M Mem Woken
  receive_from r empty thread = do set_cell r (receiving thread none); pure (none, none)
  receive_from r (sending sender message) thread = do
    set_cell r empty
    return_message ops thread message
    return_success sender
    pure (some thread, sender)
  receive_from r (receiving _ _) thread = do
    return_error thread error_recv_blocking
    pure (some thread, none)
  receive_from r (send_receiving sender message) thread = do
    set_cell r empty
    return_message ops thread message
    set_cell r (receiving sender (some thread.tid))
    pure (some thread, none)

  unfoldable pub receive : ℕ → Thread → M Mem Woken
  unfolding receive_from
  receive r thread k = receive_from r (k.rendezvous_cells r) thread k

  -- The transfer to a receiving thread in `send_receive`.
  unfoldable pub complete_call : ℕ → Thread → Thread → Message → M Mem Woken
  complete_call r receiver thread message = do
    set_cell r empty
    return_message ops receiver message
    set_cell r (receiving thread (some receiver.tid))
    pure (some receiver, none)

  unfoldable pub send_receive_to : ℕ → Rendezvous → Thread → Message → M Mem Woken
  unfolding complete_call
  send_receive_to r empty thread message = do
    set_cell r (send_receiving thread message)
    pure (none, none)
  send_receive_to r (sending _ _) thread message = do
    return_error_message ops thread error_send_blocking message
    pure (some thread, none)
  send_receive_to r (receiving receiver none) thread message =
      complete_call r receiver thread message
  send_receive_to r (receiving receiver (some tid)) thread message =
      if thread.tid == tid then complete_call r receiver thread message else (do
        return_error_message ops thread error_recv_blocking message
        pure (some thread, none))
  send_receive_to r (send_receiving _ _) thread message = do
    return_error_message ops thread error_send_blocking message
    pure (some thread, none)

  unfoldable pub send_receive : ℕ → Thread → Message → M Mem Woken
  unfolding send_receive_to
  send_receive r thread message k = send_receive_to r (k.rendezvous_cells r) thread message k

  unfoldable pub close_of : ℕ → Rendezvous → M Mem (Option Thread)
  close_of r empty = pure none
  close_of r (sending none message) = do set_cell r empty; pure none
  close_of r (sending (some sender) message) = do
    set_cell r empty
    return_error_message ops sender error_closed message
    pure (some sender)
  close_of r (receiving receiver _) = do
    set_cell r empty
    return_error receiver error_closed
    pure (some receiver)
  close_of r (send_receiving sender message) = do
    set_cell r empty
    return_error_message ops sender error_closed message
    pure (some sender)

  unfoldable pub close : ℕ → M Mem (Option Thread)
  unfolding close_of
  close r k = close_of r (k.rendezvous_cells r) k
