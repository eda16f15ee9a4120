-- ===== src/Chat/Stream.antt =====
-- What each participant is sent: the room's messages from some point on, in order and without gaps.
use exec.Base.{
  ℕ, ◌≤◌, ◌≡◌, refl, ap, sym, subst, ◌∙◌, Option, none, some, List, [], ◌∷◌, ◌++◌, true, false,
  ◌==◌, arith, inl, inr, Bool-cases, length, drop, length-append, drop-append_le,
}
use exec.Chat.Message.{ChatMessage}
use exec.Chat.Outbox.{
  Outbox, deliver, stream, IsBusy, stream-deliver, deliver-IsBusy, stream-written, written-IsBusy,
  written,
}
use exec.Chat.Room.{
  SessionId, Session, Server, Reading, hand_over, deliver_all, leave, trim, room_deliver,
  set_reading, set_message, on_written, on_write_error,
}
use exec.Chat.Members.{has, IsAscending, erase-IsAscending, has-erase, deliver_all_lem}
use exec.Chat.History.{recent, recent-append}

abbrev pub outbox_of : Option Session → Option Outbox
outbox_of none = none
outbox_of (some s) = some s.outbox

abbrev pub box : Server → SessionId → Option Outbox
box w p = outbox_of (w.sessions p)

-- The session exists, and what it was given to send, sent or not, is `posted` without its first
-- `from` messages; a write is under way exactly when a message waits.
pub record Follows (posted : List ChatMessage) (o : Option Outbox) : Type 0 where
  pub outbox : Outbox
  pub present : o ≡ some outbox
  pub from : ℕ
  pub in_history : from ≤ length posted
  pub sends : stream outbox ≡ drop from posted
  pub busy : IsBusy outbox

pub record IsConsistent (w : Server) (posted : List ChatMessage) : Type 0 where
  pub ascending : IsAscending w.participants
  pub remembers : w.recent_msgs ≡ recent posted
  pub follows : (p : SessionId) → has p w.participants ≡ true → Follows posted (box w p)

-- The state changed only where consistency does not look.
pub keep :
    {w w' : Server} {posted : List ChatMessage}
    → IsConsistent w posted
    → w'.participants ≡ w.participants
    → w'.recent_msgs ≡ w.recent_msgs
    → ((a : SessionId) → box w' a ≡ box w a)
    → IsConsistent w' posted
keep {posted} c ps ms same = record {
  ascending = subst IsAscending (sym ps) c.ascending;
  remembers = ms ∙ c.remembers;
  follows = λ a h. subst (Follows posted) (sym (same a)) (c.follows a (ap (has a) (sym ps) ∙ h));
}

pub leave-IsConsistent :
    (p : SessionId) {w : Server} {posted : List ChatMessage}
    → IsConsistent w posted
    → IsConsistent (leave p w) posted
unfolding leave
leave-IsConsistent p {w} c = record {
  ascending = erase-IsAscending p w.participants c.ascending;
  remembers = c.remembers;
  follows = λ a h. c.follows a (has-erase a p w.participants c.ascending h).0;
}

pub set_reading-IsConsistent :
    (p : SessionId) (r : Reading) {w : Server} {posted : List ChatMessage}
    → IsConsistent w posted
    → IsConsistent (set_reading p r w) posted
unfolding set_reading
set_reading-IsConsistent p r {w} c = keep c (ground arith) (ground arith) (λ a. ground arith)

pub set_message-IsConsistent :
    (p : SessionId) (s : Session) (m : ChatMessage) {w : Server} {posted : List ChatMessage}
    → w.sessions p ≡ some s
    → IsConsistent w posted
    → IsConsistent (set_message p s m w) posted
unfolding set_message
set_message-IsConsistent p s m {w} e c = keep c refl refl (λ a. ground arith)

pub room_deliver-IsConsistent :
    (msg : ChatMessage) {w : Server} {posted : List ChatMessage}
    → IsConsistent w posted
    → IsConsistent (room_deliver msg w) (posted ++ (msg ∷ []))
unfolding room_deliver
room_deliver-IsConsistent msg {w} {posted} c = record {
  ascending = c.ascending;
  remembers = ap (λ ms. trim (ms ++ (msg ∷ []))) c.remembers ∙ recent-append posted msg;
  follows = λ a h. longer a h (c.follows a h);
}
  where
    longer :
        (a : SessionId)
        → has a w.participants ≡ true
        → Follows posted (box w a)
        → Follows (posted ++ (msg ∷ [])) (outbox_of (deliver_all msg w.participants w.sessions a))
    longer a h f = record {
      outbox = deliver msg f.outbox;
      present =
          rw (deliver_all_lem msg w.participants w.sessions a c.ascending, h)
            (given (w.sessions a) f.present);
      from = f.from;
      in_history = omega (arith, f.in_history, length-append posted (msg ∷ []));
      sends =
          stream-deliver msg f.outbox
          ∙ ap (λ k. k ++ (msg ∷ [])) f.sends
          ∙ sym (drop-append_le f.from posted (msg ∷ []) f.in_history);
      busy = deliver-IsBusy msg f.outbox f.busy;
    }
      where
        given :
            (o : Option Session)
            → outbox_of o ≡ some f.outbox
            → outbox_of (hand_over msg o) ≡ some (deliver msg f.outbox)
        given none e = cc
        given (some s) e = ground (arith, ap (λ k. k) e)

pub on_written-IsConsistent :
    (p : SessionId) (s : Session) {w : Server} {posted : List ChatMessage}
    → w.sessions p ≡ some s
    → IsConsistent w posted
    → IsConsistent (on_written p s w) posted
unfolding on_written
on_written-IsConsistent p s {w} {posted} e c = record {
  ascending = c.ascending;
  remembers = c.remembers;
  follows = λ a h. elim (Bool-cases (p == a)) [
    | inl here ↦
        let f = c.follows a h in
        let mine : s.outbox ≡ f.outbox = ground (arith, f.present) in
        record {
          outbox = written f.outbox;
          present = ground arith;
          from = f.from;
          in_history = f.in_history;
          sends = stream-written f.outbox ∙ f.sends;
          busy = written-IsBusy f.outbox;
        }
    | inr away ↦ rw away (c.follows a h)
  ];
}

pub on_write_error-IsConsistent :
    (p : SessionId) (s : Session) {w : Server} {posted : List ChatMessage}
    → IsConsistent w posted
    → IsConsistent (on_write_error p s w) posted
unfolding on_write_error leave
on_write_error-IsConsistent p s {w} {posted} c = record {
  ascending = erase-IsAscending p w.participants c.ascending;
  remembers = c.remembers;
  follows = λ a h.
      let (old, apart) = has-erase a p w.participants c.ascending h in
      let away : (p == a) ≡ false = ground arith in rw away (c.follows a old);
}
