-- ===== src/Daytime/Tests.antt =====
-- The daytime servers on short runs.
use exec.Base.{ℕ, ◌≡◌, refl, false, none, some, List, [], ◌∷◌, ◌++◌, map, arith}
use exec.Daytime.{
  udp_begins, udp_steps, tcp_begins, tcp_steps, UdpServer, new_udp_server, start_receive,
  handle_receive, handle_send, receives, sends_one, UdpReachable, TcpServer, tcp_start_accept,
  tcp_start, tcp_handle_accept, tcp_handle_write, accepts, writes, TcpReachable,
}
use exec.Daytime.Answers.{stop_of, UdpReachable-log, IsAccepting, TcpReachable-IsAccepting}

abbrev noon : List ℕ
noon = b'1' ∷ b'2' ∷ []

abbrev answered : UdpServer
answered = handle_receive none (handle_send (handle_receive (some (7, noon)) (new_udp_server 0)))

answered-UdpReachable : UdpReachable answered (some (7, noon) ∷ none ∷ [])
unfolding new_udp_server start_receive handle_receive handle_send
answered-UdpReachable =
    udp_steps
      (udp_steps (udp_steps (udp_begins 0) (receives (some (7, noon)) refl))
        (sends_one (omega arith)))
      (receives none refl)

UdpReachable-log_example :
    some (7, noon) ∷ none ∷ [] ≡ map (λ r. some r) answered.sends ++ stop_of answered.receiving
UdpReachable-log_example = UdpReachable-log answered-UdpReachable

abbrev first_server : TcpServer
first_server = tcp_start_accept (record { accepting = false; messages = []; unwritten = 0 })

abbrev served : TcpServer
served = tcp_handle_write (tcp_handle_accept (some noon) (tcp_handle_accept none first_server))

served-TcpReachable : TcpReachable served (none ∷ some noon ∷ [])
unfolding tcp_start_accept tcp_start tcp_handle_accept tcp_handle_write
served-TcpReachable =
    tcp_steps (tcp_steps (tcp_steps tcp_begins (accepts none refl)) (accepts (some noon) refl))
      (writes (omega arith))

TcpReachable-IsAccepting_example : IsAccepting served (none ∷ some noon ∷ [])
TcpReachable-IsAccepting_example = TcpReachable-IsAccepting served-TcpReachable
