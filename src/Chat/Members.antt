-- ===== src/Chat/Members.antt =====
-- The ordered set of participants, and what delivering to each of them does.
use exec.Base.{
  ◌<◌, ◌≡◌, ◌≢◌, refl, ap, Option, List, [], ◌∷◌, Bool, true, false, ◌||◌, if◌then◌else◌, ◌==◌,
  arith,
}
use exec.Chat.Message.{ChatMessage}
use exec.Chat.Room.{SessionId, Session, insert, erase, hand_over, deliver_to, deliver_all, replay}

abbrev pub has : SessionId → List SessionId → Bool
has p [] = false
has p (q ∷ qs) = (p == q) || has p qs

abbrev pub Above : SessionId → List SessionId → Type 0
Above p [] = Unit
Above p (q ∷ qs) = (p < q) × Above p qs

abbrev pub IsAscending : List SessionId → Type 0
IsAscending [] = Unit
IsAscending (p ∷ ps) = Above p ps × IsAscending ps

has-Above : (p : SessionId) (ps : List SessionId) → Above p ps → has p ps ≡ false
has-Above p [] h = refl
has-Above p (q ∷ qs) h = ground (arith, has-Above p qs h.1)

Above-mono : (p q : SessionId) (ps : List SessionId) → p < q → Above q ps → Above p ps
Above-mono p q [] lt h = tt
Above-mono p q (r ∷ rs) lt h = (omega arith, Above-mono p q rs lt h.1)

Above-insert : (a p : SessionId) (ps : List SessionId) → a < p → Above a ps → Above a (insert p ps)
unfolding insert
Above-insert a p [] lt h = (lt, tt)
Above-insert a p (q ∷ qs) lt h = ground (arith, Above-insert a p qs lt h.1)

Above-erase : (a p : SessionId) (ps : List SessionId) → Above a ps → Above a (erase p ps)
unfolding erase
Above-erase a p [] h = tt
Above-erase a p (q ∷ qs) h = ground (arith, Above-erase a p qs h.1)

pub insert-IsAscending :
    (p : SessionId) (ps : List SessionId) → IsAscending ps → IsAscending (insert p ps)
unfolding insert
insert-IsAscending p [] h = (tt, tt)
insert-IsAscending p (q ∷ qs) h =
    ground (arith, insert-IsAscending p qs h.1, Above-insert q p qs, Above-mono p q qs)

pub erase-IsAscending :
    (p : SessionId) (ps : List SessionId) → IsAscending ps → IsAscending (erase p ps)
unfolding erase
erase-IsAscending p [] h = tt
erase-IsAscending p (q ∷ qs) h = ground (arith, erase-IsAscending p qs h.1, Above-erase q p qs h.0)

pub has-insert :
    (a p : SessionId) (ps : List SessionId) → has a (insert p ps) ≡ ((a == p) || has a ps)
unfolding insert
has-insert a p [] = refl
has-insert a p (q ∷ qs) = ground (arith, has-insert a p qs)

pub has-erase :
    (a p : SessionId) (ps : List SessionId)
    → IsAscending ps
    → has a (erase p ps) ≡ true
    → (has a ps ≡ true) × (a ≢ p)
unfolding erase
has-erase a p [] h e = cc
has-erase a p (q ∷ qs) h e = ground (arith, has-erase a p qs h.1, has-Above q qs h.0)

-- Every participant is given the message once, and nobody else is.
pub deliver_all_lem :
    (msg : ChatMessage) (ps : List SessionId) (f : SessionId → Option Session) (a : SessionId)
    → IsAscending ps
    → deliver_all msg ps f a ≡ (if has a ps then hand_over msg (f a) else f a)
unfolding deliver_all deliver_to
deliver_all_lem msg [] f a h = refl
deliver_all_lem msg (p ∷ ps) f a h =
    ground (arith, deliver_all_lem msg ps (deliver_to msg p f) a h.1, has-Above p ps h.0, ap f)

pub replay_other :
    (msgs : List ChatMessage) (p : SessionId) (f : SessionId → Option Session) (a : SessionId)
    → p ≢ a
    → replay msgs p f a ≡ f a
unfolding replay deliver_to
replay_other [] p f a h = refl
replay_other (m ∷ ms) p f a h = ground (arith, replay_other ms p (deliver_to m p f) a h)
