-- ===== src/Chat/History.antt =====
-- The messages that the room remembers: the last hundred.
use exec.Base.{
  ℕ, suc, ◌-◌, ◌≡◌, refl, ap, sym, ◌∙◌, List, [], ◌∷◌, ◌++◌, true, false, ltb, arith, inl, inr,
  Bool-cases, length, drop, length-append, length-drop, drop-append_le, drop-drop,
}
use exec.Chat.Message.{ChatMessage}
use exec.Chat.Room.{max_recent_msgs, trim}

-- The last `max_recent_msgs` of all messages.
abbrev pub recent : List ChatMessage → List ChatMessage
recent posted = drop (length posted - max_recent_msgs) posted

pub trim-drop : (ms : List ChatMessage) → trim ms ≡ recent ms
unfolding trim
trim-drop [] = refl
trim-drop (m ∷ ms) = elim (Bool-cases (ltb max_recent_msgs (suc (length ms)))) [
  | inl over ↦ rw over (trim-drop ms ∙ ap (λ k. drop k (m ∷ ms)) (shifted (length ms) over))
  | inr fits ↦ rw fits (ap (λ k. drop k (m ∷ ms)) (none_over (length ms) fits))
]
  where
    shifted : (n : ℕ) → ltb max_recent_msgs (suc n) ≡ true → suc (n - 100) ≡ suc n - 100
    shifted n h = ground arith

    none_over : (n : ℕ) → ltb max_recent_msgs (suc n) ≡ false → 0 ≡ suc n - 100
    none_over n h = ground arith

pub recent-append :
    (posted : List ChatMessage) (msg : ChatMessage)
    → trim (recent posted ++ (msg ∷ [])) ≡ recent (posted ++ (msg ∷ []))
recent-append posted msg =
    let n = length posted - max_recent_msgs in
    let joined = drop-append_le n posted (msg ∷ []) (omega arith) in
    ap trim (sym joined)
    ∙ trim-drop (drop n (posted ++ (msg ∷ [])))
    ∙ drop-drop _ n (posted ++ (msg ∷ [])) _
        (omega (arith, length-append posted (msg ∷ []), length-drop n (posted ++ (msg ∷ []))))
