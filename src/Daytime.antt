-- ===== src/Daytime.antt =====
-- The daytime servers of Project1/server.cpp, over TCP and over UDP. `text` is what
-- `make_daytime_string` gives at the time of the call.
pub mod Answers
mod Tests
use exec.Base.{
  ℕ, ◌+◌, ◌-◌, ◌<◌, ◌≡◌, Option, none, some, List, [], ◌∷◌, ◌++◌, Bool, true, false, if◌then◌else◌,
}

-- A request that was received, by its sender, and the text at that time.
abbrev pub Request : Type 0
Request = ℕ × List ℕ

-- `udp_server`: `receiving` says that an `async_receive_from` is under way, `sends` holds the datagrams
-- handed to `async_send_to`, and `unsent` counts those that are not completed.
pub record UdpServer : Type 0 where
  pub receiving : Bool
  pub remote_endpoint : ℕ
  pub sends : List Request
  pub unsent : ℕ

unfoldable pub start_receive : UdpServer → UdpServer
start_receive w = record w { receiving = true }

-- The constructor; `endpoint` is what the memory of `remote_endpoint_` held.
unfoldable pub new_udp_server : ℕ → UdpServer
new_udp_server endpoint =
    start_receive (record { receiving = false; remote_endpoint = endpoint; sends = []; unsent = 0 })

-- `handle_receive`: `none` is an error.
unfoldable pub handle_receive : Option Request → UdpServer → UdpServer
handle_receive none w = record w { receiving = false }
handle_receive (some (endpoint, text)) w =
    let w' : UdpServer = record w { receiving = false; remote_endpoint = endpoint } in
    start_receive
      (record w' { sends = w'.sends ++ ((w'.remote_endpoint, text) ∷ []); unsent = w'.unsent + 1 })

-- `handle_send`
unfoldable pub handle_send : UdpServer → UdpServer
handle_send w = record w { unsent = w.unsent - 1 }

-- A receive or a send that is under way completes.
pub data UdpStep (w : UdpServer) : UdpServer → List (Option Request) → Type 0 where
  receives :
      (got : Option Request) → w.receiving ≡ true → UdpStep w (handle_receive got w) (got ∷ [])
  sends_one : 0 < w.unsent → UdpStep w (handle_send w) []

pub data UdpReachable : UdpServer → List (Option Request) → Type 0 where
  udp_begins : (endpoint : ℕ) → UdpReachable (new_udp_server endpoint) []
  udp_steps :
      {w w' : UdpServer} {log now : List (Option Request)}
      → UdpReachable w log
      → UdpStep w w' now
      → UdpReachable w' (log ++ now)

-- `tcp_server`: `accepting` says that an `async_accept` is under way, `messages` holds the message_ of
-- each connection that was started, and `unwritten` counts those whose write is not completed.
pub record TcpServer : Type 0 where
  pub accepting : Bool
  pub messages : List (List ℕ)
  pub unwritten : ℕ

unfoldable pub tcp_start_accept : TcpServer → TcpServer
tcp_start_accept w = record w { accepting = true }

-- `tcp_connection::start`
unfoldable pub tcp_start : List ℕ → TcpServer → TcpServer
tcp_start text w = record w { messages = w.messages ++ (text ∷ []); unwritten = w.unwritten + 1 }

-- `tcp_server::handle_accept`: `none` is an error.
unfoldable pub tcp_handle_accept : Option (List ℕ) → TcpServer → TcpServer
tcp_handle_accept none w = tcp_start_accept (record w { accepting = false })
tcp_handle_accept (some text) w = tcp_start_accept (tcp_start text (record w { accepting = false }))

-- `tcp_connection::handle_write`
unfoldable pub tcp_handle_write : TcpServer → TcpServer
tcp_handle_write w = record w { unwritten = w.unwritten - 1 }

pub data TcpStep (w : TcpServer) : TcpServer → List (Option (List ℕ)) → Type 0 where
  accepts :
      (got : Option (List ℕ)) → w.accepting ≡ true → TcpStep w (tcp_handle_accept got w) (got ∷ [])
  writes : 0 < w.unwritten → TcpStep w (tcp_handle_write w) []

pub data TcpReachable : TcpServer → List (Option (List ℕ)) → Type 0 where
  tcp_begins :
      TcpReachable
        (tcp_start_accept (record { accepting = false; messages = []; unwritten = 0 }))
        []
  tcp_steps :
      {w w' : TcpServer} {log now : List (Option (List ℕ))}
      → TcpReachable w log
      → TcpStep w w' now
      → TcpReachable w' (log ++ now)
