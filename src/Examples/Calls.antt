-- ===== src/Examples/Calls.antt =====
-- Tests of message passing and scheduling on a concrete state, and the theorems at that state.
use eurali_os.Channels.Waiting.{HandsBack, caller_waits}
use eurali_os.Prelude.{
  ℕ, ◌+◌, ◌≡◌, refl, ◌≢◌, inr, arith, true, false, none, some, [], ◌∷◌, ◌<◌, inl, Option,
}
use eurali_os.State.{
  value, memory, Message, short, long, empty, sending, receiving, send_receiving, ok, Kernel,
  Rendezvous,
}
use eurali_os.Constants.{message_long, message_data2_rdv}
use eurali_os.Threads
use eurali_os.Threads.{give_handle, take_handle, get_handle, add_handle, take_rendezvous}
use eurali_os.Messages.{from_values, to_values, Values, from_long, value_to_data}
use eurali_os.Messages.Delivery.{Completes}
use eurali_os.Messages.Transfer.{from_values-err, handle_moves, chunk_sent_twice}
use eurali_os.Channels.{send, receive, send_receive}
use eurali_os.Channels.Moves.{Keeps, woken}
use eurali_os.Channels.Ownership.{send-Keeps, receive-Keeps}
use eurali_os.Channels.Protocol.{Got, send-delivers, call_reply}
use eurali_os.Scheduler.{saved, take_current_thread, set_current_thread}
use eurali_os.Scheduler.Rounds.{ticks, Runs, queued-Runs, interrupted_resumes}
use eurali_os.Syscalls.{sys_send, sys_receive, sys_close, references, strong_count}
use eurali_os.Syscalls.Settling.{Population}
use eurali_os.Syscalls.Closing.{sys_close-Population, without}
use eurali_os.Syscalls.Conservation.{sys_receive-Population, sys_send-Population}
use eurali_os.Examples.{client, server, third, one_chunk, machine}

sys_send-Population_example :
    Completes false
      (sys_send one_chunk 0x7000 5 10 20 30 (machine (receiving server none)))
      (λ _ k'. Population 0 (machine (receiving server none)) k')
sys_send-Population_example =
    sys_send-Population one_chunk 0x7000 5 10 20 30 0 client (machine (receiving server none)) refl
      (unfold get_handle in refl) (inr refl)

sys_receive-Population_example :
    Completes false
      (sys_receive one_chunk 0x7000 0 (machine (sending (some server) (short 1 2 3))))
      (λ _ k'. Population 0 (machine (sending (some server) (short 1 2 3))) k')
sys_receive-Population_example =
    sys_receive-Population one_chunk 0x7000 0 0 client
      (machine (sending (some server) (short 1 2 3))) refl (unfold get_handle in refl)

other_holds : 0 < references 0 (without one_chunk client 0 (machine (receiving server none)))
unfolding references take_handle
other_holds = omega arith

sys_close-Population_example :
    Completes false
      (sys_close one_chunk 0x7000 0 (machine (receiving server none)))
      (λ _ k'. Population 0 (machine (receiving server none)) k')
sys_close-Population_example =
    sys_close-Population one_chunk 0x7000 0 0 client (machine (receiving server none)) refl
      (unfold get_handle in refl) (inl other_holds)

-- Process 0 alone has a handle, which is closed while the server waits: the server is gone.
abbrev lone_handle : Kernel (Unit {0})
lone_handle = record (machine (receiving server none)) {
  processes = λ p. record { page_table_physaddr = 0x1000; handles = some 0 ∷ []; mounts = 0 };
  process_count = 1;
}

abbrev cell_after : {A : Type 0} → Option (A × Kernel (Unit {0})) → Option Rendezvous
cell_after none = none
cell_after (some (a, k)) = some (k.rendezvous_cells 0)

close_drops_waiting : cell_after (sys_close one_chunk 0x7000 0 lone_handle) ≡ some empty
unfolding sys_close take_current_thread take_rendezvous take_handle strong_count references
    set_current_thread
close_drops_waiting = refl

send-Keeps_example :
    Completes true
      (send one_chunk 0
        (some client)
        (long 1 (memory 0x5000) (value 2))
        (machine (receiving server none)))
      (λ b k'. Keeps 0 (client ∷ []) (machine (receiving server none)) (woken b) k')
send-Keeps_example =
    send-Keeps one_chunk 0 (some client) (long 1 (memory 0x5000) (value 2))
      (machine (receiving server none))

receive-Keeps_example :
    Completes false
      (receive one_chunk 0 client (machine (send_receiving server (short 1 2 3))))
      (λ b k'. Keeps 0 (client ∷ []) (machine (send_receiving server (short 1 2 3))) (woken b) k')
receive-Keeps_example =
    receive-Keeps one_chunk 0 client (machine (send_receiving server (short 1 2 3)))

send-delivers_example :
    (k' : Kernel (Unit {0})) × (send one_chunk 0
        (some client)
        (short 10 20 30)
        (machine (receiving server (some 1)))
      ≡ some ((some server, some client), k'))
    × Got (k'.contexts server.context) 0 10 20 30
    × ((k'.contexts client.context).rax ≡ 0)
    × (k'.rendezvous_cells 0 ≡ empty)
send-delivers_example =
    send-delivers one_chunk 0 10 20 30 client server (some 1) (machine (receiving server (some 1)))
      refl refl (omega arith)

caller_waits_example :
    let waits = machine (receiving client (some 2)) in
    let message = long 1 (memory 0x5000) (value 2) in
    HandsBack one_chunk true third waits (send one_chunk 0 (some third) message waits)
    × HandsBack one_chunk true third waits (send_receive one_chunk 0 third message waits)
    × HandsBack one_chunk false third waits (receive one_chunk 0 third waits)
caller_waits_example =
    caller_waits one_chunk 0 2 third client (long 1 (memory 0x5000) (value 2))
      (machine (receiving client (some 2))) refl (omega arith)

call_reply_example :
    (k₁ k₂ : Kernel (Unit {0})) × (send_receive one_chunk 0 client
        (short 10 20 30)
        (machine (receiving server none))
      ≡ some ((some server, none), k₁))
    × Got (k₁.contexts server.context) 0 10 20 30
    × (k₁.rendezvous_cells 0 ≡ receiving client (some 2))
    × (send one_chunk 0 (some server) (short 40 50 60) k₁ ≡ some ((some client, some server), k₂))
    × Got (k₂.contexts client.context) 0 40 50 60
    × ((k₂.contexts server.context).rax ≡ 0)
    × (k₂.rendezvous_cells 0 ≡ empty)
call_reply_example =
    call_reply one_chunk 0 10 20 30 40 50 60 client server (machine (receiving server none)) refl
      (omega arith)

-- Handle 9 of the client names nothing.
from_values-err_example : machine empty ≡ machine empty
unfolding from_values get_handle
from_values-err_example =
    from_values-err one_chunk client (message_long + message_data2_rdv) 1 9 2 (machine empty)
      (machine empty) 3 (unfold from_long value_to_data Threads.rendezvous in refl)

abbrev MovesResult : (Unit {0}) → Type 0
MovesResult _ =
    (m : Message) × (v : Values) × (k₁ k₂ : Kernel (Unit {0})) × (from_values one_chunk client
        (message_long + message_data2_rdv) 1 1 2 (machine empty)
      ≡ some (ok m, k₁))
    × (to_values one_chunk m server k₁ ≡ some (v, k₂))
    × ((v.ctrl ≡ message_data2_rdv + message_long) × (v.data1 ≡ 1) × (v.data3 ≡ 2))
    × (get_handle (some 0 ∷ none ∷ []) v.data2 ≡ none)
    × (get_handle (k₂.processes 1).handles v.data2 ≡ some 1)
    × (get_handle (k₂.processes 0).handles 1 ≡ none)
    × ((j : ℕ)
        → j ≢ 1
        → get_handle (k₂.processes 0).handles j ≡ get_handle (some 0 ∷ some 1 ∷ []) j)
    × ((j : ℕ)
        → j ≢ v.data2
        → get_handle (k₂.processes 1).handles j ≡ get_handle (some 0 ∷ none ∷ []) j)

handle_moves_example : MovesResult tt
handle_moves_example =
    handle_moves one_chunk client server (message_long + message_data2_rdv) 1 1 1 2 (machine empty)
      (omega arith) (unfold get_handle in refl) refl refl refl

chunk_sent_twice_example :
    (k' : Kernel (Unit {0})) × (from_values one_chunk client 0x1500 1 0x7000 0x7000 (machine empty)
      ≡ some (ok (long 1 (memory 0x5000) (memory 0x5000)), k'))
chunk_sent_twice_example =
    chunk_sent_twice one_chunk client 0x1500 0x7000 0x7000 0x5000 2 1 (machine empty) refl refl refl
      refl refl

queued-Runs_example :
    Runs third (ticks 0x8000 [] (machine empty)).0 (ticks 0x8000 [] (machine empty)).1
queued-Runs_example = queued-Runs third 0x8000 [] (machine empty) refl

interrupted_resumes_example :
    Runs
      (saved 0x8010 (machine empty) client)
      (ticks 0x8010 (0x28010 ∷ []) (machine empty)).0
      (ticks 0x8010 (0x28010 ∷ []) (machine empty)).1
interrupted_resumes_example =
    interrupted_resumes client 0x8010 (0x28010 ∷ []) (machine empty) refl refl
