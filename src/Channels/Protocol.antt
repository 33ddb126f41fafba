-- ===== src/Channels/Protocol.antt =====
-- Requests and replies over a rendezvous, and what the threads find in their
-- registers.
use eurali_os.Prelude.{ℕ, sym, ◌≡◌, refl, ◌≢◌, arith, Option, none, some, update}
use eurali_os.State.{Context, Thread, short, empty, sending, receiving, Kernel, MemoryOps}
use eurali_os.Threads.{return_error}
use eurali_os.Messages.{return_error_message, return_message, to_values, load_values}
use eurali_os.Channels.{
  send, send_to, complete_send, receive, receive_from, send_receive, send_receive_to, complete_call,
}

-- A thread may complete the wait of a receiver that is restricted to `o`.
abbrev pub Admits : Option ℕ → Thread → Type 0
Admits none t = Unit {0}
Admits (some tid) t = t.tid ≡ tid

-- The registers of a thread after it got the short message `a b c`, or a plain result code.
abbrev pub Got : Context → ℕ → ℕ → ℕ → ℕ → Type 0
Got c code a b d = (c.rax ≡ code) × (c.rdi ≡ a) × (c.rsi ≡ b) × (c.rdx ≡ d)

abbrev load : Thread → ℕ → ℕ → ℕ → ℕ → (ℕ → Context) → ℕ → Context
load t code a b d contexts =
    update contexts t.context
      (record (contexts t.context) { rax = code; rdi = a; rsi = b; rdx = d })

module _ {Mem : Type 0} where
  abbrev delivered : ℕ → ℕ → ℕ → ℕ → Thread → Thread → Kernel Mem → Kernel Mem
  delivered r a b d t u k =
      let contexts = load u 0 a b d k.contexts in
      record k {
        rendezvous_cells = update k.rendezvous_cells r empty;
        contexts = update contexts t.context (record (contexts t.context) { rax = 0 });
      }

  abbrev called : ℕ → ℕ → ℕ → ℕ → Thread → Thread → Kernel Mem → Kernel Mem
  called r a b d client server k = record k {
    rendezvous_cells =
        update (update k.rendezvous_cells r empty) r (receiving client (some server.tid));
    contexts = load server 0 a b d k.contexts;
  }

module _ {Mem : Type 0} (ops : MemoryOps Mem) where
  -- A short message that meets a waiting receiver is delivered at once: the receiver finds code 0
  -- and the three values in its registers, the sender finds code 0, both threads come back to be
  -- run, and the rendezvous is empty.
  pub send-delivers :
      (r a b d : ℕ) (t u : Thread) (o : Option ℕ) (k : Kernel Mem)
      → k.rendezvous_cells r ≡ receiving u o
      → Admits o t
      → t.context ≢ u.context
      → (k' : Kernel Mem) × (send ops r (some t) (short a b d) k ≡ some ((some u, some t), k'))
        × Got (k'.contexts u.context) 0 a b d
        × ((k'.contexts t.context).rax ≡ 0)
        × (k'.rendezvous_cells r ≡ empty)
  unfolding send send_to complete_send return_message return_error_message to_values load_values
      return_error
  send-delivers r a b d t u none k e h n =
      (delivered r a b d t u k, ground arith, ground arith, ground arith, ground arith)
  send-delivers r a b d t u (some tid) k e h n =
      (delivered r a b d t u k, ground arith, ground arith, ground arith, ground arith)

  -- A message that waits is delivered: a thread that receives from a sender with a short message finds code 0
  -- and the three values in its registers; a blocked sender, if any, comes back with code 0.
  pub receive-delivers :
      (r a b d : ℕ) (t u : Thread) (k : Kernel Mem)
      → k.rendezvous_cells r ≡ sending (some t) (short a b d)
      → t.context ≢ u.context
      → (k' : Kernel Mem) × (receive ops r u k ≡ some ((some u, some t), k'))
        × Got (k'.contexts u.context) 0 a b d
        × ((k'.contexts t.context).rax ≡ 0)
        × (k'.rendezvous_cells r ≡ empty)
  unfolding receive receive_from return_message return_error_message to_values load_values
      return_error
  receive-delivers r a b d t u k e n =
      (delivered r a b d t u k, ground arith, ground arith, ground arith, ground arith)

  -- A remote call with short messages. A client calls a server that already waits in the rendezvous for
  -- any sender; the server gets the request and runs while the client waits; when the server replies
  -- by `send`, the client gets the reply, both are returned to be run, and the rendezvous is empty
  -- again.
  pub call_reply :
      (r a b d a' b' d' : ℕ) (client server : Thread) (k : Kernel Mem)
      → k.rendezvous_cells r ≡ receiving server none
      → client.context ≢ server.context
      → (k₁ k₂ : Kernel Mem) × (send_receive ops r client (short a b d) k
          ≡ some ((some server, none), k₁))
        × Got (k₁.contexts server.context) 0 a b d
        × (k₁.rendezvous_cells r ≡ receiving client (some server.tid))
        × (send ops r (some server) (short a' b' d') k₁ ≡ some ((some client, some server), k₂))
        × Got (k₂.contexts client.context) 0 a' b' d'
        × ((k₂.contexts server.context).rax ≡ 0)
        × (k₂.rendezvous_cells r ≡ empty)
  unfolding send_receive send_receive_to complete_call return_message return_error_message to_values
      load_values
  call_reply r a b d a' b' d' client server k e n =
      let k₁ = called r a b d client server k in
      let (k₂, sent, got, done, idle) =
        send-delivers r a' b' d' server client (some server.tid) k₁ (ground arith) refl
          (λ h. n (sym h)) in
      (k₁, k₂, ground arith, ground arith, ground arith, sent, got, done, idle)
