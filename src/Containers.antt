-- ===== src/Containers.antt =====
-- Project1/MyStack.c, MyQueue.c and MyEvents.c, with their headers: a stack, a queue and an event
-- queue over the linked list.
pub mod Steps
pub mod Service
pub mod Runs
mod Tests
use exec.Base.{ℕ, Option, none, some, Bool, true, false, if◌then◌else◌, ◌>>=◌, ◌==◌, ltb}
use exec.Base.Int.{ℤ, pos, negsuc}
use exec.MyList.{Ptr, MyList, load, ins_next, rem_next}

-- `if (status != 0)` with its branches in the other order.
abbrev pub if_zero : {B : Type 0} → ℤ → B → B → B
if_zero (pos n) x y = if n == 0 then x else y
if_zero (negsuc n) x y = y

module _ {A : Type 0} where
  -- `stack_push` and `stack_pop`
  unfoldable pub stack_push : Ptr → MyList A → A → Option (ℤ × MyList A)
  stack_push fresh l v = ins_next fresh l 0 v

  unfoldable pub stack_pop : MyList A → Option (ℤ × Option A × MyList A)
  stack_pop l = rem_next l 0

  -- `stack_peek` and `queue_peek`: `none` is a fault, `some none` is NULL.
  pub peek : MyList A → Option (Option A)
  peek l = if l.head == 0 then some none else do e ← load l l.head; some (some e.val)

  -- `queue_enqueue` and `queue_dequeue`
  pub queue_enqueue : Ptr → MyList A → A → Option (ℤ × MyList A)
  queue_enqueue fresh l v = ins_next fresh l l.tail v

  pub queue_dequeue : MyList A → Option (ℤ × Option A × MyList A)
  queue_dequeue l = rem_next l 0

  -- `receive_event`: `copied` says whether `malloc` gave the copy of the event.
  pub receive_event : Bool → Ptr → MyList A → A → Option (ℤ × MyList A)
  receive_event copied fresh l event =
      if copied
      then (do
        (status, l') ← queue_enqueue fresh l event
        some (if_zero status (pos 0) (negsuc 0), l'))
      else some (negsuc 0, l)

  -- `process_event`: the option is the event that was dispatched.
  pub process_event : MyList A → Option (ℤ × Option A × MyList A)
  process_event l = if ltb l.size 1 then some (negsuc 0, none, l) else do
    (status, out, l') ← queue_dequeue l
    some (if_zero status (pos 0, out, l') (negsuc 0, none, l'))
