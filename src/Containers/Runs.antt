-- ===== src/Containers/Runs.antt =====
-- Sequences of calls on a stack, a queue or an event queue, with the values that they exchange.
use exec.Base.{
  false, not, ◌==◌, if◌then◌else◌, arith, ◌≡◌, ◌≢◌, sym, ap, ◌∙◌, none, List, [], ◌∷◌, ◌++◌,
  append-nil, append_assoc, Bool, inl, inr, Returns, Returns-mono,
}
use exec.Base.Int.{ℤ}
use exec.MyList.{Ptr, Heap, MyList}
use exec.Containers.{
  stack_push, stack_pop, queue_enqueue, queue_dequeue, receive_event, process_event,
}
use exec.Containers.Steps.{
  Holds, Stored, stack_push-Stored, queue_enqueue-Stored, pop-Taken, receive_event-Stored,
  process_event-Taken,
}
use exec.Containers.Service.{
  StoredBy, Service, Op, Entry, accepted, rejected, got, nothing, run, grants, Explains, done,
  on_accepted, on_rejected, on_got, on_nothing, Explained, run-Explained,
}

-- `malloc`, as a function of the memory: NULL or an address that is not in use.
pub record Allocator (A : Type 0) : Type 0 where
  pub malloc : Heap A → Ptr
  pub unused : (h : Heap A) → malloc h ≢ 0 → h (malloc h) ≡ none

module _ {A : Type 0} (m : Allocator A) where
  open m use {malloc, unused}

  -- Whether a call of `malloc` gave a block.
  abbrev pub is_given : Ptr → Bool
  is_given fresh = not (fresh == 0)

  pub given-Stored :
      {fresh : Ptr} {before after : List A} (r : ℤ × MyList A)
      → Stored fresh before after r
      → StoredBy (is_given fresh) before after r
  given-Stored {fresh} r (inl (ne, ok, h)) =
      let some_place : (fresh == 0) ≡ false = ground (arith, ne) in rw some_place (ok, h)
  given-Stored r (inr (null, bad, h)) = rw null (bad, h)

  abbrev pub stack_service : Service A
  stack_service = record {
    store = λ l v. stack_push (malloc l.heap) l v;
    take = stack_pop;
    given = λ l. is_given (malloc l.heap);
    put = λ vs v. v ∷ vs;
    stores = λ l v vs h.
        Returns-mono (stack_push-Stored l (malloc l.heap) v vs h (unused l.heap)) given-Stored;
    takes = λ l vs h. (pop-Taken l vs h).0;
  }

  abbrev pub queue_service : Service A
  queue_service = record {
    store = λ l v. queue_enqueue (malloc l.heap) l v;
    take = queue_dequeue;
    given = λ l. is_given (malloc l.heap);
    put = λ vs v. vs ++ (v ∷ []);
    stores = λ l v vs h.
        Returns-mono (queue_enqueue-Stored l (malloc l.heap) v vs h (unused l.heap)) given-Stored;
    takes = λ l vs h. (pop-Taken l vs h).1;
  }

  -- `copies` says whether the allocation of the event's copy succeeds.
  abbrev pub event_service : (Heap A → Bool) → Service A
  event_service copies = record {
    store = λ l v. receive_event (copies l.heap) (malloc l.heap) l v;
    take = process_event;
    given = λ l. is_given (if copies l.heap then malloc l.heap else 0);
    put = λ vs v. vs ++ (v ∷ []);
    stores = λ l v vs h.
        Returns-mono (receive_event-Stored (copies l.heap) l (malloc l.heap) v vs h (unused l.heap))
          given-Stored;
    takes = process_event-Taken;
  }

  -- Whatever a client calls on a stack, a queue or an event queue that holds some values, no call
  -- faults; a store is refused when `malloc` does not give a block that it asks for, and is accepted
  -- otherwise; and the answers and what is left are those of an abstract list that stores at the front
  -- (stack) or at the back (queue, event queue), and takes from the front.
  pub services-Explained :
      (copies : Heap A → Bool) (ops : List (Op A)) (l : MyList A) (vs : List A)
      → Holds l vs
      → Returns (Explained (λ q v. v ∷ q) vs (grants stack_service ops l)) (run stack_service ops l)
        × Returns
            (Explained (λ q v. q ++ (v ∷ [])) vs (grants queue_service ops l))
            (run queue_service ops l)
        × Returns
            (Explained (λ q v. q ++ (v ∷ [])) vs (grants (event_service copies) ops l))
            (run (event_service copies) ops l)
  services-Explained copies ops l vs h = (
    run-Explained stack_service ops l vs h,
    run-Explained queue_service ops l vs h,
    run-Explained (event_service copies) ops l vs h,
  )

module _ {A : Type 0} where
  unfoldable pub accepted_values : List (Entry A) → List A
  accepted_values [] = []
  accepted_values (accepted v ∷ log) = v ∷ accepted_values log
  accepted_values (rejected v ∷ log) = accepted_values log
  accepted_values (got v ∷ log) = accepted_values log
  accepted_values (nothing ∷ log) = accepted_values log

  unfoldable pub got_values : List (Entry A) → List A
  got_values [] = []
  got_values (accepted v ∷ log) = got_values log
  got_values (rejected v ∷ log) = got_values log
  got_values (got v ∷ log) = v ∷ got_values log
  got_values (nothing ∷ log) = got_values log

  Explains-in_order :
      {vs ws : List A} {gs : List Bool} {log : List (Entry A)}
      → Explains (λ q v. q ++ (v ∷ [])) vs gs log ws
      → vs ++ accepted_values log ≡ got_values log ++ ws
  unfolding accepted_values got_values
  Explains-in_order done = append-nil _
  Explains-in_order {vs} (on_accepted {v} {log} e) =
      sym (append_assoc vs (v ∷ []) (accepted_values log)) ∙ Explains-in_order e
  Explains-in_order (on_rejected e) = Explains-in_order e
  Explains-in_order (on_got {v} e) = ap (λ r. v ∷ r) (Explains-in_order e)
  Explains-in_order (on_nothing e) = Explains-in_order e

  -- First in, first out: the events dispatched, followed by those still queued, are those queued at
  -- the start followed by those received, in order; none is lost or dispatched twice.
  pub events_in_order :
      (m : Allocator A) (copies : Heap A → Bool) (ops : List (Op A)) (l : MyList A) (vs : List A)
      → Holds l vs
      → Returns
          (λ (log, l').
            (ws : List A) × (vs ++ accepted_values log ≡ got_values log ++ ws) × Holds l' ws)
          (run (event_service m copies) ops l)
  events_in_order m copies ops l vs h =
      Returns-mono (run-Explained (event_service m copies) ops l vs h)
        λ (log, l') (ws, e, h'). (ws, Explains-in_order e, h')
