-- ===== src/Chat/Room.antt =====
-- The server of MyTCPChatSrv01.cpp: the room, its sessions, and the completion handlers that asio
-- calls. A handler returns the new state; `none` is the stop of the program in `decode_header`.
use exec.Base.{
  ℕ, ◌≡◌, ◌≢◌, Option, none, some, List, [], ◌∷◌, ◌++◌, true, false, if◌then◌else◌, ◌>>=◌, ◌==◌,
  ltb, length,
}
use exec.Chat.Message.{ChatMessage, decode_header, copy_to, header_length}
use exec.Chat.Outbox.{Outbox, deliver, written}

-- A session's address: `participants_` is ordered by it.
abbrev pub SessionId : Type 0
SessionId = ℕ

-- Which `async_read` of a session is under way.
pub data Reading : Type 0 where
  header : Reading
  body : Reading
  closed : Reading

-- `chat_session`
pub record Session : Type 0 where
  pub reading : Reading
  pub read_msg : ChatMessage
  pub outbox : Outbox

-- `chat_room`, and the sessions that are in memory.
pub record Server : Type 0 where
  pub participants : List SessionId
  pub recent_msgs : List ChatMessage
  pub sessions : SessionId → Option Session

abbrev pub max_recent_msgs : ℕ
max_recent_msgs = 100

-- `std::set::insert` and `std::set::erase`
unfoldable pub insert : SessionId → List SessionId → List SessionId
insert p [] = p ∷ []
insert p (q ∷ qs) = if ltb p q then p ∷ q ∷ qs else if p == q then q ∷ qs else q ∷ insert p qs

unfoldable pub erase : SessionId → List SessionId → List SessionId
erase p [] = []
erase p (q ∷ qs) = if p == q then qs else q ∷ erase p qs

abbrev pub update :
    (SessionId → Option Session) → SessionId → Option Session → SessionId → Option Session
update f p s q = if p == q then s else f q

abbrev pub hand_over : ChatMessage → Option Session → Option Session
hand_over msg none = none
hand_over msg (some s) = some (record s { outbox = deliver msg s.outbox })

-- `participant->deliver(msg)`
unfoldable pub deliver_to :
    ChatMessage → SessionId → (SessionId → Option Session) → SessionId → Option Session
deliver_to msg p f = update f p (hand_over msg (f p))

-- `for (auto participant : participants_) participant->deliver(msg);`
unfoldable pub deliver_all :
    ChatMessage → List SessionId → (SessionId → Option Session) → SessionId → Option Session
deliver_all msg [] f = f
deliver_all msg (p ∷ ps) f = deliver_all msg ps (deliver_to msg p f)

-- `for (auto msg : recent_msgs_) participant->deliver(msg);`
unfoldable pub replay :
    List ChatMessage → SessionId → (SessionId → Option Session) → SessionId → Option Session
replay [] p f = f
replay (msg ∷ msgs) p f = replay msgs p (deliver_to msg p f)

-- `chat_room::join`
unfoldable pub join : SessionId → Server → Server
join p w = record w {
  participants = insert p w.participants;
  sessions = replay w.recent_msgs p w.sessions;
}

-- `chat_room::leave`
unfoldable pub leave : SessionId → Server → Server
leave p w = record w { participants = erase p w.participants }

-- `while (recent_msgs_.size() > max_recent_msgs) recent_msgs_.pop_front();`
unfoldable pub trim : List ChatMessage → List ChatMessage
trim [] = []
trim (m ∷ ms) = if ltb max_recent_msgs (length (m ∷ ms)) then trim ms else m ∷ ms

-- `chat_room::deliver`
unfoldable pub room_deliver : ChatMessage → Server → Server
room_deliver msg w = record w {
  recent_msgs = trim (w.recent_msgs ++ (msg ∷ []));
  sessions = deliver_all msg w.participants w.sessions;
}

abbrev pub no_outbox : Outbox
no_outbox = record { write_msgs = []; writing = false; sent = [] }

-- `do_read_header` and `do_read_body`, and the end of reading.
unfoldable pub set_reading : SessionId → Reading → Server → Server
set_reading p r w = elim (w.sessions p) [
  | none ↦ w
  | some s ↦ record w { sessions = update w.sessions p (some (record s { reading = r })) }
]

-- `chat_session::start` of a new session at the address `p`; `buffer` is what its memory held.
unfoldable pub start : SessionId → List ℕ → Server → Server
start p buffer w =
    let s : Session = record {
      reading = closed;
      read_msg = record { bytes = buffer; body_length = 0 };
      outbox = no_outbox;
    } in
    set_reading p header (join p (record w { sessions = update w.sessions p (some s) }))

unfoldable pub set_message : SessionId → Session → ChatMessage → Server → Server
set_message p s m w = record w { sessions = update w.sessions p (some (record s { read_msg = m })) }

-- The completion handler of `do_read_header`, without an error: `got` is what was read.
unfoldable pub on_header : SessionId → Session → List ℕ → Server → Option Server
on_header p s got w = do
  (valid, m) ← decode_header (record s.read_msg { bytes = copy_to s.read_msg.bytes 0 got })
  let w' = set_message p s m w
  some (if valid then set_reading p body w' else leave p (set_reading p closed w'))

-- The completion handler of `do_read_body`, without an error.
unfoldable pub received : Session → List ℕ → ChatMessage
received s got = record s.read_msg { bytes = copy_to s.read_msg.bytes header_length got }

unfoldable pub on_body : SessionId → Session → List ℕ → Server → Server
on_body p s got w =
    set_reading p header (room_deliver (received s got) (set_message p s (received s got) w))

-- The completion handler of `do_write`, without an error.
unfoldable pub on_written : SessionId → Session → Server → Server
on_written p s w = record w {
  sessions = update w.sessions p (some (record s { outbox = written s.outbox }));
}

-- The completion handlers with an error: of a read, and of a write.
unfoldable pub on_read_error : SessionId → Server → Server
on_read_error p w = leave p (set_reading p closed w)

unfoldable pub on_write_error : SessionId → Session → Server → Server
on_write_error p s w = leave p (record w {
  sessions =
      update w.sessions p (some (record s { outbox = record (s.outbox) { writing = false } }));
})

-- What asio may do next, with the messages that the room is given by it: accept a connection, or
-- complete an operation that is under way.
pub data Step (w : Server) : Server → List ChatMessage → Type 0 where
  accepts : (p : SessionId) (buffer : List ℕ) → w.sessions p ≡ none → Step w (start p buffer w) []
  reads_header :
      {w' : Server} (p : SessionId) (s : Session) (got : List ℕ)
      → w.sessions p ≡ some s
      → s.reading ≡ header
      → length got ≡ header_length
      → on_header p s got w ≡ some w'
      → Step w w' []
  reads_body :
      (p : SessionId) (s : Session) (got : List ℕ)
      → w.sessions p ≡ some s
      → s.reading ≡ body
      → length got ≡ s.read_msg.body_length
      → Step w (on_body p s got w) (received s got ∷ [])
  read_fails :
      (p : SessionId) (s : Session)
      → w.sessions p ≡ some s
      → s.reading ≢ closed
      → Step w (on_read_error p w) []
  writes :
      (p : SessionId) (s : Session)
      → w.sessions p ≡ some s
      → s.outbox.writing ≡ true
      → Step w (on_written p s w) []
  write_fails :
      (p : SessionId) (s : Session)
      → w.sessions p ≡ some s
      → s.outbox.writing ≡ true
      → Step w (on_write_error p s w) []

abbrev pub initial : Server
initial = record { participants = []; recent_msgs = []; sessions = λ p. none }

-- The states that the server can be in, with all messages that its room has been given.
pub data Reachable : Server → List ChatMessage → Type 0 where
  begins : Reachable initial []
  steps :
      {w w' : Server} {posted now : List ChatMessage}
      → Reachable w posted
      → Step w w' now
      → Reachable w' (posted ++ now)
