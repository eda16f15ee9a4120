-- ===== src/Chat/Posted.antt =====
-- What the client sends is what `main` posted.
use exec.Base.{
  ◌≡◌, refl, ap, subst, ◌∙◌, Option, none, some, List, [], ◌∷◌, ◌++◌, append_assoc, append-nil,
  Bool, true, false, ◌&&◌, if◌then◌else◌, arith, ◌>>=◌, ℕ,
}
use mathlib.Core.Option.{some-injective}
use exec.Chat.Message.{ChatMessage, decode_header, copy_to}
use exec.Chat.Outbox.{is_empty}
use exec.Chat.Room.{Reading, closed}
use exec.Chat.Client.{
  ChatClient, on_post, close, on_connect, on_header, on_body, on_front, on_written, Step, posts,
  closes, connects, reads_header, reads_body, writes, Reachable, begins, steps,
}

-- What was sent, followed by what waits, is what was posted; and a write is under way only while a
-- message waits, so its completion always finds the message it wrote.
pub record IsQueued (c : ChatClient) (posted : List ChatMessage) : Type 0 where
  pub in_order : c.sent ++ c.write_msgs ≡ posted
  pub has_front : (c.writing && is_empty c.write_msgs) ≡ false

same_queue :
    {c c' : ChatClient} {posted : List ChatMessage}
    → c'.sent ≡ c.sent
    → c'.write_msgs ≡ c.write_msgs
    → c'.writing ≡ c.writing
    → IsQueued c posted
    → IsQueued c' posted
same_queue s w b q = record { in_order = rw (s, w) q.in_order; has_front = rw (b, w) q.has_front }

on_post-IsQueued :
    (m : ChatMessage) {c : ChatClient} {posted : List ChatMessage}
    → IsQueued c posted
    → IsQueued (on_post m c) (posted ++ (m ∷ []))
unfolding on_post
on_post-IsQueued m {c} q =
    ground (arith, append_assoc c.sent c.write_msgs (m ∷ []), ap (λ k. k ++ (m ∷ [])) q.in_order)

on_front_in_order :
    (ms : List ChatMessage) (c : ChatClient)
    → ms ≡ c.write_msgs
    → (on_front ms c).sent ++ (on_front ms c).write_msgs ≡ c.sent ++ c.write_msgs
on_front_in_order [] c e = refl
on_front_in_order (m ∷ ms) c e = append_assoc c.sent (m ∷ []) ms ∙ ap (λ k. c.sent ++ k) e

on_written-IsQueued :
    (failed : Bool) {c : ChatClient} {posted : List ChatMessage}
    → IsQueued c posted
    → IsQueued (on_written failed c) posted
unfolding on_written
on_written-IsQueued true q = record { in_order = q.in_order; has_front = refl }
on_written-IsQueued false {c} q =
    ground (arith, on_front_in_order c.write_msgs (record c { writing = false }) refl, q.in_order)

on_header-IsQueued :
    (got : Option (List ℕ)) {c c' : ChatClient} {posted : List ChatMessage}
    → on_header got c ≡ some c'
    → IsQueued c posted
    → IsQueued c' posted
unfolding on_header close
on_header-IsQueued none {c} {c'} {posted} e q =
    subst (λ k. IsQueued k posted) (some-injective _ _ e) (same_queue refl refl refl q)
on_header-IsQueued (some got) {c} {c'} {posted} e q =
    branch (decode_header (record c.read_msg { bytes = copy_to c.read_msg.bytes 0 got })) e
  where
    next : Bool × ChatMessage → ChatClient
    next (valid, m) =
        if valid
        then record c { read_msg = m; reading = Reading.body }
        else close (record c { read_msg = m; reading = closed })

    next-IsQueued : (r : Bool × ChatMessage) → IsQueued (next r) posted
    next-IsQueued (true, m) = same_queue refl refl refl q
    next-IsQueued (false, m) = same_queue refl refl refl q

    branch :
        (d : Option (Bool × ChatMessage))
        → (d >>= λ r. some (next r)) ≡ some c'
        → IsQueued c' posted
    branch none k = cc
    branch (some r) k =
        subst (λ x. IsQueued x posted) (some-injective (next r) c' k) (next-IsQueued r)

Step-IsQueued :
    {c c' : ChatClient} {posted now : List ChatMessage}
    → Step c c' now
    → IsQueued c posted
    → IsQueued c' (posted ++ now)
unfolding close on_connect on_body
Step-IsQueued (posts m) q = on_post-IsQueued m q
Step-IsQueued closes q = rw append-nil (same_queue refl refl refl q)
Step-IsQueued (connects true e) q = rw append-nil (same_queue refl refl refl q)
Step-IsQueued (connects false e) q = rw append-nil (same_queue refl refl refl q)
Step-IsQueued (reads_header got e h) q = rw append-nil (on_header-IsQueued got h q)
Step-IsQueued (reads_body none e) q = rw append-nil (same_queue refl refl refl q)
Step-IsQueued (reads_body (some got) e) q = rw append-nil (same_queue refl refl refl q)
Step-IsQueued (writes failed e) q = rw append-nil (on_written-IsQueued failed q)

-- From a client with an empty queue on, in every order of the handlers and whatever fails: the
-- messages written to the socket, followed by those still queued, are the messages that `main` posted,
-- in order; and the completion of a write always finds the message that it wrote.
pub Reachable-sends :
    {start c : ChatClient} {posted : List ChatMessage}
    → start.write_msgs ≡ []
    → start.sent ≡ []
    → start.writing ≡ false
    → Reachable start c posted
    → IsQueued c posted
Reachable-sends w s b begins = record { in_order = rw (s, w); has_front = rw b }
Reachable-sends w s b (steps r st) = Step-IsQueued st (Reachable-sends w s b r)
