-- ===== src/Daytime/Answers.antt =====
-- Which requests the daytime servers answer.
use exec.Base.{
  ℕ, ◌≤◌, ◌≡◌, refl, ap, sym, ◌∙◌, Option, none, some, List, [], ◌∷◌, ◌++◌, Bool, true, false, map,
  append-nil, arith, length, length-append,
}
use exec.Daytime.{
  udp_begins, udp_steps, tcp_begins, tcp_steps, Request, UdpServer, new_udp_server, start_receive,
  handle_receive, handle_send, UdpStep, receives, sends_one, UdpReachable, TcpServer,
  tcp_start_accept, tcp_start, tcp_handle_accept, tcp_handle_write, TcpStep, accepts, writes,
  TcpReachable,
}

-- The end of the log of a server: nothing while it receives, and else the error that stopped it.
abbrev pub stop_of : Bool → List (Option Request)
stop_of true = []
stop_of false = none ∷ []

map-append : {A B : Type 0} (f : A → B) (xs ys : List A) → map f (xs ++ ys) ≡ map f xs ++ map f ys
map-append f [] ys = refl
map-append f (x ∷ xs) ys = ap (λ k. f x ∷ k) (map-append f xs ys)

UdpStep-log :
    {w w' : UdpServer} {log now : List (Option Request)}
    → UdpStep w w' now
    → log ≡ map (λ r. some r) w.sends ++ stop_of w.receiving
    → log ++ now ≡ map (λ r. some r) w'.sends ++ stop_of w'.receiving
unfolding handle_receive handle_send start_receive
UdpStep-log {w} (receives none on) e =
    ap (λ k. k ++ (none ∷ []))
      (e ∙ ap (λ b. map (λ r. some r) w.sends ++ stop_of b) on ∙ append-nil _)
UdpStep-log {w} (receives (some (endpoint, text)) on) e =
    ap (λ k. k ++ (some (endpoint, text) ∷ []))
      (e ∙ ap (λ b. map (λ r. some r) w.sends ++ stop_of b) on ∙ append-nil _)
    ∙ sym (append-nil _ ∙ map-append (λ r. some r) w.sends ((endpoint, text) ∷ []))
UdpStep-log {w} (sends_one p) e = append-nil _ ∙ e

-- In every state that the UDP server can reach, its log of completed receives is the datagrams that it
-- sent, each to the sender of the request and with the text of that time, in order, followed by an error
-- exactly if it has stopped receiving: an error ends the service, and is the last completion.
pub UdpReachable-log :
    {w : UdpServer} {log : List (Option Request)}
    → UdpReachable w log
    → log ≡ map (λ r. some r) w.sends ++ stop_of w.receiving
unfolding new_udp_server start_receive
UdpReachable-log (udp_begins endpoint) = refl
UdpReachable-log (udp_steps r st) = UdpStep-log st (UdpReachable-log r)

-- The texts of the accepted connections of a log.
abbrev pub accepted : List (Option (List ℕ)) → List (List ℕ)
accepted [] = []
accepted (none ∷ log) = accepted log
accepted (some text ∷ log) = text ∷ accepted log

accepted-append :
    (xs ys : List (Option (List ℕ))) → accepted (xs ++ ys) ≡ accepted xs ++ accepted ys
accepted-append [] ys = refl
accepted-append (none ∷ xs) ys = accepted-append xs ys
accepted-append (some text ∷ xs) ys = ap (λ k. text ∷ k) (accepted-append xs ys)

-- What holds of the TCP server after the accepts of this log.
pub record IsAccepting (w : TcpServer) (log : List (Option (List ℕ))) : Type 0 where
  pub still : w.accepting ≡ true
  pub in_order : w.messages ≡ accepted log
  pub bounded : w.unwritten ≤ length w.messages

TcpStep-IsAccepting :
    {w w' : TcpServer} {log now : List (Option (List ℕ))}
    → TcpStep w w' now
    → IsAccepting w log
    → IsAccepting w' (log ++ now)
unfolding tcp_handle_accept tcp_handle_write tcp_start_accept tcp_start
TcpStep-IsAccepting {log} (accepts none on) i = record {
  still = refl;
  in_order = i.in_order ∙ sym (accepted-append log (none ∷ []) ∙ append-nil _);
  bounded = i.bounded;
}
TcpStep-IsAccepting {w} {log} (accepts (some text) on) i = record {
  still = refl;
  in_order = ap (λ k. k ++ (text ∷ [])) i.in_order ∙ sym (accepted-append log (some text ∷ []));
  bounded = omega (arith, i.bounded, length-append w.messages (text ∷ []));
}
TcpStep-IsAccepting {log} (writes p) i = record {
  still = i.still;
  in_order = i.in_order ∙ ap accepted (sym (append-nil log));
  bounded = omega (arith, i.bounded);
}

-- In every state that the TCP server can reach an accept is under way, whatever errors there were; each
-- accepted connection, and no other, was given the text of its time, in order; and no more writes are
-- under way than were begun.
pub TcpReachable-IsAccepting :
    {w : TcpServer} {log : List (Option (List ℕ))} → TcpReachable w log → IsAccepting w log
unfolding tcp_start_accept
TcpReachable-IsAccepting tcp_begins = record {
  still = refl;
  in_order = refl;
  bounded = omega arith;
}
TcpReachable-IsAccepting (tcp_steps r st) = TcpStep-IsAccepting st (TcpReachable-IsAccepting r)
