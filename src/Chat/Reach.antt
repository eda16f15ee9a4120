-- ===== src/Chat/Reach.antt =====
-- Every state that the server can reach is consistent with the room's history.
use exec.Base.{
  ℕ, ◌-◌, ◌≡◌, refl, ap, sym, subst, ◌∙◌, Option, none, some, List, [], ◌∷◌, ◌++◌, Bool, true,
  false, if◌then◌else◌, ◌==◌, arith, inl, inr, Bool-cases, append_assoc, append-nil, length, ◌>>=◌,
}
use exec.Chat.Message.{ChatMessage, decode_header, copy_to}
use mathlib.Core.Option.{some-injective}
use exec.Chat.Outbox.{deliver, stream, IsBusy, stream-deliver, deliver-IsBusy}
use exec.Chat.Room.{
  SessionId, Session, Server, header, body, closed, max_recent_msgs, deliver_to, replay, join,
  leave, set_reading, start, set_message, on_header, received, on_body, on_read_error, Step,
  accepts, reads_header, reads_body, read_fails, writes, write_fails, Reachable, begins, steps,
  no_outbox,
}
use exec.Chat.Members.{has, insert-IsAscending, has-insert, replay_other}
use exec.Chat.Stream.{
  outbox_of, Follows, IsConsistent, leave-IsConsistent, set_reading-IsConsistent,
  set_message-IsConsistent, room_deliver-IsConsistent, on_written-IsConsistent,
  on_write_error-IsConsistent,
}

-- Replaying messages to a session appends them to its stream.
replay_self :
    (msgs : List ChatMessage) (p : SessionId) (f : SessionId → Option Session) (s : Session)
    → f p ≡ some s
    → IsBusy s.outbox
    → (s' : Session) × (replay msgs p f p ≡ some s')
      × (stream s'.outbox ≡ stream s.outbox ++ msgs)
      × IsBusy s'.outbox
unfolding replay deliver_to
replay_self [] p f s e b = (s, e, sym (append-nil (stream s.outbox)), b)
replay_self (m ∷ ms) p f s e b =
    let (s', e', st, b') =
      replay_self ms p (deliver_to m p f) (record s { outbox = deliver m s.outbox }) (ground arith)
        (deliver-IsBusy m s.outbox b) in
    (
      s',
      e',
      st
          ∙ ap (λ k. k ++ ms) (stream-deliver m s.outbox)
          ∙ append_assoc (stream s.outbox) (m ∷ []) ms,
      b',
    )

join-IsConsistent :
    (p : SessionId) (s : Session) {w : Server} {posted : List ChatMessage}
    → w.sessions p ≡ some s
    → IsBusy s.outbox
    → stream s.outbox ≡ []
    → IsConsistent w posted
    → IsConsistent (join p w) posted
unfolding join
join-IsConsistent p s {w} {posted} e b empty c = record {
  ascending = insert-IsAscending p w.participants c.ascending;
  remembers = c.remembers;
  follows = λ a h. elim (Bool-cases (p == a)) [
    | inl here ↦
        let (s', e', st, b') = replay_self w.recent_msgs p w.sessions s e b in
        record {
          outbox = s'.outbox;
          present = ground (arith, e');
          from = length posted - max_recent_msgs;
          in_history = omega arith;
          sends = st ∙ ap (λ k. k ++ w.recent_msgs) empty ∙ c.remembers;
          busy = b';
        }
    | inr away ↦
        let old : has a w.participants ≡ true = ground (arith, has-insert a p w.participants) in
        subst (Follows posted)
          (ap outbox_of (sym (replay_other w.recent_msgs p w.sessions a (λ q. ground arith))))
          (c.follows a old)
  ];
}

start-IsConsistent :
    (p : SessionId) (buffer : List ℕ) {w : Server} {posted : List ChatMessage}
    → w.sessions p ≡ none
    → IsConsistent w posted
    → IsConsistent (start p buffer w) posted
unfolding start
start-IsConsistent p buffer {w} {posted} e c = set_reading-IsConsistent p header (
    join-IsConsistent p fresh (ground arith) refl refl (record {
      ascending = c.ascending;
      remembers = c.remembers;
      follows = λ a h. elim (Bool-cases (p == a)) [
        | inl here ↦ let f = c.follows a h in absurd (ground (arith, f.present))
        | inr away ↦ rw away (c.follows a h)
      ];
    }))
  where
    fresh : Session
    fresh = record {
      reading = closed;
      read_msg = record { bytes = buffer; body_length = 0 };
      outbox = no_outbox;
    }

on_header-IsConsistent :
    (p : SessionId) (s : Session) (got : List ℕ) {w w' : Server} {posted : List ChatMessage}
    → w.sessions p ≡ some s
    → on_header p s got w ≡ some w'
    → IsConsistent w posted
    → IsConsistent w' posted
unfolding on_header
on_header-IsConsistent p s got {w} {w'} {posted} e h c =
    branch (decode_header (record s.read_msg { bytes = copy_to s.read_msg.bytes 0 got })) h
  where
    next : Bool × ChatMessage → Server
    next (valid, m) =
        if valid
        then set_reading p body (set_message p s m w)
        else leave p (set_reading p closed (set_message p s m w))

    next-IsConsistent : (r : Bool × ChatMessage) → IsConsistent (next r) posted
    next-IsConsistent (true, m) =
        set_reading-IsConsistent p body (set_message-IsConsistent p s m e c)
    next-IsConsistent (false, m) =
        leave-IsConsistent p
          (set_reading-IsConsistent p closed (set_message-IsConsistent p s m e c))

    branch :
        (d : Option (Bool × ChatMessage))
        → (do r ← d; some (next r)) ≡ some w'
        → IsConsistent w' posted
    branch none k = cc
    branch (some r) k =
        subst (λ v. IsConsistent v posted) (some-injective (next r) w' k) (next-IsConsistent r)

Step-IsConsistent :
    {w w' : Server} {posted now : List ChatMessage}
    → Step w w' now
    → IsConsistent w posted
    → IsConsistent w' (posted ++ now)
unfolding on_body on_read_error
Step-IsConsistent (accepts p buffer e) c = rw append-nil (start-IsConsistent p buffer e c)
Step-IsConsistent (reads_header p s got e r n k) c =
    rw append-nil (on_header-IsConsistent p s got e k c)
Step-IsConsistent (reads_body p s got e r n) c =
    set_reading-IsConsistent p header (
      room_deliver-IsConsistent (received s got)
        (set_message-IsConsistent p s (received s got) e c))
Step-IsConsistent (read_fails p s e r) c =
    rw append-nil (leave-IsConsistent p (set_reading-IsConsistent p closed c))
Step-IsConsistent (writes p s e b) c = rw append-nil (on_written-IsConsistent p s e c)
Step-IsConsistent (write_fails p s e b) c = rw append-nil (on_write_error-IsConsistent p s c)

-- In every state that the server can reach, whatever connections, reads, writes and errors came
-- before: the participants are an ascending list without repetition; the room remembers the last
-- hundred messages; and each participant has been sent, or has waiting, all messages from some point
-- of the room's history on, in order, none twice, with a write under way exactly when one waits.
pub Reachable-streams :
    {w : Server} {posted : List ChatMessage} → Reachable w posted → IsConsistent w posted
Reachable-streams begins = record { ascending = tt; remembers = refl; follows = λ p h. cc }
Reachable-streams (steps r st) = Step-IsConsistent st (Reachable-streams r)
