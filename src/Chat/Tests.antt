-- ===== src/Chat/Tests.antt =====
-- The chat theorems on concrete messages and runs.
use exec.Base.{ℕ, ◌≡◌, refl, none, List, [], ◌∷◌, true, false, arith, ◌>>=◌, replicate}
use exec.Chat.Message.{ChatMessage, encode_header, decode_header, copy_to}
use exec.Chat.Header.{encode-decode_stops}
use exec.Chat.Room.{
  Server, Session, initial, start, on_body, received, on_written, accepts, reads_body, writes,
  Reachable, begins, steps, header, closed, no_outbox, on_header, reads_header, Reading,
  set_reading, set_message, join, insert, replay, room_deliver, deliver_all, deliver_to, trim,
}
use exec.Chat.Stream.{IsConsistent}
use exec.Chat.Reach.{Reachable-streams}
use exec.Chat.Client
use exec.Chat.Client.{ChatClient, on_connect, on_post}
use exec.Chat.Outbox.{Outbox, deliver, do_write}
use exec.Chat.Posted.{IsQueued, Reachable-sends}

abbrev blank : List ℕ
blank = replicate 516 0

abbrev hello : List ℕ
hello = b'h' ∷ b'e' ∷ b'y' ∷ []

abbrev hey : ChatMessage
hey = record { bytes = b' ' ∷ b' ' ∷ b' ' ∷ b'3' ∷ hello; body_length = 3 }

encode-decode_stops_example : (do m' ← encode_header hey; decode_header m') ≡ none
encode-decode_stops_example = encode-decode_stops hey (omega arith)

abbrev short : ChatMessage
short = record { bytes = b'1' ∷ b'2' ∷ 0 ∷ 0 ∷ hello; body_length = 0 }

-- Two sessions; the first sends a message, which goes to both, and is written to the second.
abbrev one_joined : Server
one_joined = start 1 blank initial

abbrev two_joined : Server
two_joined = start 2 blank one_joined

abbrev session : Reading → ChatMessage → Outbox → Session
session r m o = record { reading = r; read_msg = m; outbox = o }

abbrev bare : ChatMessage
bare = record { bytes = blank; body_length = 0 }

abbrev header_bytes : List ℕ
header_bytes = b'3' ∷ 0 ∷ 0 ∷ 0 ∷ []

abbrev headed : ChatMessage
headed = record { bytes = copy_to blank 0 header_bytes; body_length = 3 }

abbrev header_read : Server
header_read =
    set_reading 1 Reading.body (set_message 1 (session header bare no_outbox) headed two_joined)

abbrev sender : Session
sender = session Reading.body headed no_outbox

abbrev body_read : Server
body_read = on_body 1 sender hello header_read

abbrev posted_message : ChatMessage
posted_message = received sender hello

abbrev listener : Session
listener =
    session header bare (record { write_msgs = posted_message ∷ []; writing = true; sent = [] })

header_read-Reachable : Reachable header_read []
unfolding start join set_reading on_header decode_header set_message insert replay
header_read-Reachable =
    steps (steps (steps begins (accepts 1 blank refl)) (accepts 2 blank refl))
      (reads_header 1 (session header bare no_outbox) header_bytes refl refl refl refl)

written-Reachable : Reachable (on_written 2 listener body_read) (posted_message ∷ [])
unfolding start join set_reading on_header decode_header set_message on_body room_deliver
    deliver_all deliver_to deliver do_write trim insert replay
written-Reachable =
    steps (steps header_read-Reachable (reads_body 1 sender hello refl refl refl))
      (writes 2 listener refl refl)

Reachable-streams_example : IsConsistent (on_written 2 listener body_read) (posted_message ∷ [])
Reachable-streams_example = Reachable-streams written-Reachable

-- A client that connects, posts two messages, and has written the first.
abbrev fresh : ChatClient
fresh = record {
  connecting = true;
  reading = closed;
  read_msg = bare;
  write_msgs = [];
  writing = false;
  is_open = true;
  sent = [];
  printed = [];
}

abbrev after_first : ChatClient
after_first = Client.on_written false (on_post short (on_post hey (on_connect false fresh)))

after_first-Reachable : Client.Reachable fresh after_first (hey ∷ short ∷ [])
unfolding on_connect on_post Client.do_write
after_first-Reachable =
    Client.steps
      (Client.steps
        (Client.steps (Client.steps Client.begins (Client.connects false refl)) (Client.posts hey))
        (Client.posts short))
      (Client.writes false refl)

Reachable-sends_example : IsQueued after_first (hey ∷ short ∷ [])
Reachable-sends_example = Reachable-sends refl refl refl after_first-Reachable
