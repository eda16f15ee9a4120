-- ===== src/Chat/Client.antt =====
-- The client of MyTCPChatCli01.cpp: how `main` frames a line, and the handlers of `chat_client`.
use exec.Base.{
  ℕ, ◌≡◌, Option, none, some, List, [], ◌∷◌, ◌++◌, Bool, true, false, if◌then◌else◌, ◌>>=◌, length,
  take,
}
use exec.Chat.Message.{
  ChatMessage, new_message, set_body_length, encode_header, decode_header, copy_to, header_length,
  body,
}
use exec.Chat.Room.{Reading, header, closed}
use exec.Chat.Outbox.{is_empty}

-- The body of the loop of `main`: `line` holds the characters before the NUL, `buffer` is what the
-- memory of `msg` held.
unfoldable pub frame : List ℕ → List ℕ → Option ChatMessage
frame buffer line =
    let msg = set_body_length (length line) (new_message buffer) in
    encode_header
      (record msg { bytes = copy_to msg.bytes header_length (take msg.body_length line) })

-- `chat_client`: `sent` holds what has been written to the socket, `printed` what has been shown.
pub record ChatClient : Type 0 where
  pub connecting : Bool
  pub reading : Reading
  pub read_msg : ChatMessage
  pub write_msgs : List ChatMessage
  pub writing : Bool
  pub is_open : Bool
  pub sent : List ChatMessage
  pub printed : List (List ℕ)

unfoldable pub do_write : ChatClient → ChatClient
do_write c = record c { writing = true }

-- The handler that `write` posts.
unfoldable pub on_post : ChatMessage → ChatClient → ChatClient
unfolding do_write
on_post msg c =
    let c' : ChatClient = record c { write_msgs = c.write_msgs ++ (msg ∷ []) } in
    if is_empty c.write_msgs then do_write c' else c'

-- `socket_.close()`
unfoldable pub close : ChatClient → ChatClient
close c = record c { is_open = false }

-- The completion of `async_connect`.
unfoldable pub on_connect : Bool → ChatClient → ChatClient
on_connect true c = record c { connecting = false }
on_connect false c = record c { connecting = false; reading = header }

-- The completion of the header's `async_read`: `none` is an error, and the outer one a stop.
unfoldable pub on_header : Option (List ℕ) → ChatClient → Option ChatClient
unfolding close
on_header none c = some (close (record c { reading = closed }))
on_header (some got) c = do
  (valid, m) ← decode_header (record c.read_msg { bytes = copy_to c.read_msg.bytes 0 got })
  some (
      if valid
      then record c { read_msg = m; reading = Reading.body }
      else close (record c { read_msg = m; reading = closed }))

-- The completion of the body's `async_read`.
unfoldable pub on_body : Option (List ℕ) → ChatClient → ChatClient
unfolding close
on_body none c = close (record c { reading = closed })
on_body (some got) c =
    let m : ChatMessage = record c.read_msg {
      bytes = copy_to c.read_msg.bytes header_length got;
    } in
    record c { read_msg = m; reading = header; printed = c.printed ++ (body m ∷ []) }

abbrev pub on_front : List ChatMessage → ChatClient → ChatClient
on_front [] c = c
on_front (m ∷ ms) c = record c { write_msgs = ms; sent = c.sent ++ (m ∷ []) }

-- The completion of `async_write`.
unfoldable pub on_written : Bool → ChatClient → ChatClient
unfolding do_write close
on_written true c = close (record c { writing = false })
on_written false c =
    let c' = on_front c.write_msgs (record c { writing = false }) in
    if is_empty c'.write_msgs then c' else do_write c'

-- One handler after the other, with the message that `main` had posted.
pub data Step (c : ChatClient) : ChatClient → List ChatMessage → Type 0 where
  posts : (m : ChatMessage) → Step c (on_post m c) (m ∷ [])
  closes : Step c (close c) []
  connects : (failed : Bool) → c.connecting ≡ true → Step c (on_connect failed c) []
  reads_header :
      {c' : ChatClient} (got : Option (List ℕ))
      → c.reading ≡ header
      → on_header got c ≡ some c'
      → Step c c' []
  reads_body : (got : Option (List ℕ)) → c.reading ≡ Reading.body → Step c (on_body got c) []
  writes : (failed : Bool) → c.writing ≡ true → Step c (on_written failed c) []

pub data Reachable (start : ChatClient) : ChatClient → List ChatMessage → Type 0 where
  begins : Reachable start start []
  steps :
      {c c' : ChatClient} {posted now : List ChatMessage}
      → Reachable start c posted
      → Step c c' now
      → Reachable start c' (posted ++ now)
