-- ===== src/Chat/Outbox.antt =====
-- The queue of messages that a session of the server writes to its socket, one at a time.
use exec.Base.{
  ◌≡◌, refl, List, [], ◌∷◌, ◌++◌, append_assoc, Bool, true, false, if◌then◌else◌, arith, not,
}
use exec.Chat.Message.{ChatMessage}

-- `write_msgs` is `write_msgs_`, `writing` says that an `async_write` of its front is under way, and
-- `sent` holds what has been written to the socket.
pub record Outbox : Type 0 where
  pub write_msgs : List ChatMessage
  pub writing : Bool
  pub sent : List ChatMessage

abbrev pub is_empty : List ChatMessage → Bool
is_empty [] = true
is_empty (m ∷ ms) = false

-- `do_write`
unfoldable pub do_write : Outbox → Outbox
do_write o = record o { writing = true }

-- `chat_session::deliver`
unfoldable pub deliver : ChatMessage → Outbox → Outbox
unfolding do_write
deliver msg o =
    let o' = record o { write_msgs = o.write_msgs ++ (msg ∷ []) } in
    if is_empty o.write_msgs then do_write o' else o'

abbrev pub front_to : List ChatMessage → List ChatMessage → List ChatMessage
front_to [] sent = sent
front_to (m ∷ ms) sent = sent ++ (m ∷ [])

abbrev pub behind_front : List ChatMessage → List ChatMessage
behind_front [] = []
behind_front (m ∷ ms) = ms

-- The completion of `async_write` without an error: the front has been written.
unfoldable pub written : Outbox → Outbox
unfolding do_write
written o =
    let o' : Outbox = record {
      write_msgs = behind_front o.write_msgs;
      writing = false;
      sent = front_to o.write_msgs o.sent;
    } in
    if is_empty o'.write_msgs then o' else do_write o'

-- All messages handed to `deliver` so far, in order.
abbrev pub stream : Outbox → List ChatMessage
stream o = o.sent ++ o.write_msgs

-- A write is under way exactly when a message waits.
abbrev pub IsBusy : Outbox → Type 0
IsBusy o = o.writing ≡ not (is_empty o.write_msgs)

pub stream-deliver :
    (msg : ChatMessage) (o : Outbox) → stream (deliver msg o) ≡ stream o ++ (msg ∷ [])
unfolding deliver
stream-deliver msg o = ground (arith, append_assoc o.sent o.write_msgs (msg ∷ []))

pub deliver-IsBusy : (msg : ChatMessage) (o : Outbox) → IsBusy o → IsBusy (deliver msg o)
unfolding deliver
deliver-IsBusy msg o h = ground arith

front_behind : (ms sent : List ChatMessage) → front_to ms sent ++ behind_front ms ≡ sent ++ ms
front_behind [] sent = refl
front_behind (m ∷ ms) sent = append_assoc sent (m ∷ []) ms

pub stream-written : (o : Outbox) → stream (written o) ≡ stream o
unfolding written
stream-written o = ground (arith, front_behind o.write_msgs o.sent)

pub written-IsBusy : (o : Outbox) → IsBusy (written o)
unfolding written
written-IsBusy o = ground arith
