-- ===== src/Channels/Moves.antt =====
-- Which threads a rendezvous holds, and how that changes in a step of an operation.
use mathlib.Core.List.{Perm}
use mathlib.Core.List.Perm
use eurali_os.Prelude.{
  ℕ, ◌≡◌, refl, subst, ◌≢◌, arith, Bool, false, Option, none, some, List, [], ◌∷◌, ◌++◌, to_list,
  update,
}
use eurali_os.State.{Thread, Rendezvous, empty, sending, receiving, send_receiving, Kernel}
use eurali_os.Threads.{return_error}
use eurali_os.Messages.Delivery.{carries_memory, SameThreads, SameThreads-refl}
use eurali_os.Channels.{return_success, Woken}

-- The threads that wait in a rendezvous.
abbrev pub waiting : Rendezvous → List Thread
waiting empty = []
waiting (sending t m) = to_list t
waiting (receiving t o) = t ∷ []
waiting (send_receiving t m) = t ∷ []

-- The messages that wait in a rendezvous carry memory chunks.
abbrev pub holds_memory : Rendezvous → Bool
holds_memory empty = false
holds_memory (sending t m) = carries_memory m
holds_memory (receiving t o) = false
holds_memory (send_receiving t m) = carries_memory m

abbrev pub woken : Woken → List Thread
woken (t, u) = to_list t ++ to_list u

-- An operation on the rendezvous `r` that was given the threads `given` and returned the threads
-- `back`: no thread is lost or made twice, and no other part of the kernel changes hands.
pub record Keeps {Mem : Type 0} (r : ℕ) (given : List Thread) (k : Kernel Mem) (back : List Thread)
    (k' : Kernel Mem) : Type 0 where
  pub conserved :
      Perm (back ++ waiting (k'.rendezvous_cells r)) (given ++ waiting (k.rendezvous_cells r))
  pub others : (q : ℕ) → q ≢ r → k'.rendezvous_cells q ≡ k.rendezvous_cells q
  pub same_queue : k'.running_queue ≡ k.running_queue
  pub same_current : k'.current_thread ≡ k.current_thread

pub perm_of_eq : {xs ys : List Thread} → xs ≡ ys → Perm xs ys
perm_of_eq {xs} e = subst (Perm xs) e (Perm.refl xs)

-- The cell `r` holds `s` now, and the other cells and the scheduled threads are as before.
pub record Moves {Mem : Type 0} (r : ℕ) (s : Rendezvous) (k k' : Kernel Mem) : Type 0 where
  pub cell_now : k'.rendezvous_cells r ≡ s
  pub others : (q : ℕ) → q ≢ r → k'.rendezvous_cells q ≡ k.rendezvous_cells q
  pub same_queue : k'.running_queue ≡ k.running_queue
  pub same_current : k'.current_thread ≡ k.current_thread

module _ {Mem : Type 0} where
  pub Moves-Keeps :
      (r : ℕ) (given back : List Thread) (s s' : Rendezvous) {k k' : Kernel Mem}
      → k.rendezvous_cells r ≡ s
      → Perm (back ++ waiting s') (given ++ waiting s)
      → Moves r s' k k'
      → Keeps r given k back k'
  Moves-Keeps r given back s s' e p h = record {
    conserved = rw (e, h.cell_now) p;
    others = h.others;
    same_queue = h.same_queue;
    same_current = h.same_current;
  }

  pub SameThreads-Moves :
      (r : ℕ) (s : Rendezvous) {k k' : Kernel Mem}
      → k.rendezvous_cells r ≡ s
      → SameThreads k k'
      → Moves r s k k'
  SameThreads-Moves r s e h = record {
    cell_now = ground arith;
    others = λ q n. ground arith;
    same_queue = h.same_queue;
    same_current = h.same_current;
  }

  pub set_cell-Moves :
      (r : ℕ) (s : Rendezvous) {k k' : Kernel Mem}
      → SameThreads (record k { rendezvous_cells = update k.rendezvous_cells r s }) k'
      → Moves r s k k'
  set_cell-Moves r s h = record {
    cell_now = ground arith;
    others = λ q n. ground arith;
    same_queue = h.same_queue;
    same_current = h.same_current;
  }

  pub Moves-again :
      {r : ℕ} {s : Rendezvous} {k k' : Kernel Mem}
      → Moves r s k k'
      → (s' : Rendezvous)
      → Moves r s' k (record k' { rendezvous_cells = update k'.rendezvous_cells r s' })
  Moves-again h s' = record {
    cell_now = ground arith;
    others = λ q n. ground (arith, h.others q);
    same_queue = h.same_queue;
    same_current = h.same_current;
  }

  pub unchanged : (r : ℕ) (ts : List Thread) (k : Kernel Mem) → Keeps r ts k ts k
  unchanged r ts k =
      Moves-Keeps r ts ts (k.rendezvous_cells r) (k.rendezvous_cells r) refl (Perm.refl _)
        (SameThreads-Moves r _ refl SameThreads-refl)

  pub return_success_lem :
      (t : Option Thread) (k : Kernel Mem)
      → (k' : Kernel Mem) × (return_success t k ≡ some (tt, k')) × SameThreads k k'
  unfolding return_error
  return_success_lem none k = (k, refl, SameThreads-refl)
  return_success_lem (some t) k = (_, refl, ground arith)
