-- ===== src/WordList/Removed.antt =====
-- What `remove` does, and that no line faults.
use exec.Base.{
  Returns-mono, ◌≢◌, ◌⊎◌, ◌<◌, ltb, lt→ltb, none, subst, ap₂, ℕ, zero, suc, ◌+◌, ◌≤◌, ◌≡◌, refl, ap,
  sym, ◌∙◌, Option, some, List, [], ◌∷◌, Bool, true, false, if◌then◌else◌, take, drop, length,
  arith, inl, inr, Bool-cases, Returns, returns, Returns->>=,
}
use exec.Base.Int.{negsuc, ◌≤ℤ◌, ℤ, pos, pos_part, ltb_ℤ}
use exec.MyList.{Ptr, MyList}
use exec.MaxHeap.Commands.{same}
use exec.Containers.{stack_pop}
use exec.Containers.Steps.{Holds, pop-Taken}
use exec.WordList.{
  is_yes, int_of, word_all, remove_counted, Word, Output, removed, remove_loop, remove_count,
  remove,
}
use exec.MyList.Chain.{values}

-- What the loop of `remove` writes for these words.
abbrev pub numbered : ℕ → List Word → List Output
numbered i [] = []
numbered i (w ∷ ws) = removed i w ∷ numbered (i + 1) ws

remove_loop-numbered :
    (n i : ℕ) (l : MyList Word) (vs : List Word)
    → n ≤ length vs
    → Holds l vs
    → Returns
        (λ (out, l'). (out ≡ numbered i (take n vs)) × Holds l' (drop n vs))
        (remove_loop n i l)
unfolding remove_loop stack_pop
remove_loop-numbered zero i l vs k h = returns (refl, h)
remove_loop-numbered (suc n) i l [] k h = absurd (omega arith)
remove_loop-numbered (suc n) i l (v ∷ vs) k h =
    Returns->>= (pop-Taken l (v ∷ vs) h).0 λ (status, got, l') (ok, e, h'). rw e (
      Returns->>= (remove_loop-numbered n (i + 1) l' vs (omega arith) h')
        (λ (out, l'') (e', h''). returns (ap (λ k. removed i v ∷ k) e', h'')))

length-values : (cells : List (Ptr × Word)) → length (values cells) ≡ length cells
length-values [] = refl
length-values ((p, v) ∷ cells) = ap suc (length-values cells)

size-length : (l : MyList Word) (vs : List Word) → Holds l vs → l.size ≡ length vs
size-length l vs h = h.is_list.counted ∙ sym (length-values h.cells) ∙ ap length h.held

-- The answers that confirm.
abbrev pub IsYes : Word → Type 0
IsYes w = (w ≡ b'y' ∷ []) ⊎ (w ≡ b'Y' ∷ [])

-- What a `remove` with the words `ws` behind it asks of a list of `size` words, and the answer it gets:
-- `none` if the program has to end since there is no memory for the answer, and else a number of words.
pub data Request (size : ℕ) (given : Bool) (answer : Word) : List Word → Option ℤ → Type 0 where
  one_word : Request size given answer [] (some (pos 1))
  all_confirmed :
      {w : Word} {ws : List Word}
      → w ≡ word_all
      → given ≡ true
      → IsYes answer
      → Request size given answer (w ∷ ws) (some (pos size))
  all_declined :
      {w : Word} {ws : List Word}
      → w ≡ word_all
      → given ≡ true
      → ¬ IsYes answer
      → Request size given answer (w ∷ ws) (some (pos 0))
  number_confirmed :
      {w : Word} {ws : List Word}
      → w ≢ word_all
      → pos 1 ≤ℤ int_of w
      → given ≡ true
      → IsYes (take 1 answer)
      → Request size given answer (w ∷ ws) (some (int_of w))
  number_declined :
      {w : Word} {ws : List Word}
      → w ≢ word_all
      → pos 1 ≤ℤ int_of w
      → given ≡ true
      → ¬ IsYes (take 1 answer)
      → Request size given answer (w ∷ ws) (some (pos 0))
  no_number :
      {w : Word} {ws : List Word}
      → w ≢ word_all
      → int_of w ≤ℤ pos 0
      → Request size given answer (w ∷ ws) (some (pos 0))
  no_memory :
      {w : Word} {ws : List Word}
      → (w ≡ word_all) ⊎ (pos 1 ≤ℤ int_of w)
      → given ≡ false
      → Request size given answer (w ∷ ws) none

-- How many words are taken for a number: all that are wanted, or none if there are not that many.
abbrev pub taken_count : ℤ → List Word → ℕ
taken_count count vs = if ltb_ℤ (pos (length vs)) count then 0 else pos_part count

-- The outcome for a request.
abbrev pub Outcome : List Word → Option ℤ → Bool × List Output × MyList Word → Type 0
Outcome vs none (runs, out, l') = (runs ≡ false) × (out ≡ []) × Holds l' vs
Outcome vs (some count) (runs, out, l') =
    (runs ≡ true)
    × (out ≡ numbered 0 (take (taken_count count vs) vs))
    × Holds l' (drop (taken_count count vs) vs)

-- If the question is for all words, the answer has at most one character.
abbrev pub FitsAnswer : List Word → Word → Type 0
FitsAnswer [] answer = Unit
FitsAnswer (w ∷ ws) answer = w ≡ word_all → length answer < 2

same_sound : (a b : Word) → same a b ≡ true → a ≡ b
same_sound [] [] h = refl
same_sound [] (d ∷ b) h = cc
same_sound (c ∷ a) [] h = cc
same_sound (c ∷ a) (d ∷ b) h =
    let e : c ≡ d = ground (arith, h) in
    let e' : same a b ≡ true = ground (arith, h) in ap₂ (λ x xs. x ∷ xs) e (same_sound a b e')

same_self : (a : Word) → same a a ≡ true
same_self [] = refl
same_self (c ∷ a) = ground (arith, same_self a)

same_complete : (a b : Word) → same a b ≡ false → a ≢ b
same_complete a b h e = let t : same a b ≡ true = subst (λ k. same a k ≡ true) e (same_self a) in cc

yes_lem : (w : Word) → is_yes w ≡ true → IsYes w
yes_lem w h = elim (Bool-cases (same (b'y' ∷ []) w)) [
  | inl small ↦ inl (sym (same_sound _ w small))
  | inr other ↦ inr (sym (same_sound (b'Y' ∷ []) w (ground (arith, h, other))))
]

no_lem : (w : Word) → is_yes w ≡ false → ¬ IsYes w
no_lem w h (inl e) = let t : is_yes w ≡ true = rw e refl in cc
no_lem w h (inr e) = let t : is_yes w ≡ true = rw e refl in cc

-- The numbers that ask for nothing.
at_most_zero : (n : ℤ) → ltb_ℤ (pos 0) n ≡ false → n ≤ℤ pos 0
at_most_zero n h = ground arith

at_least_one : (n : ℤ) → ltb_ℤ (pos 0) n ≡ true → pos 1 ≤ℤ n
at_least_one n h = ground arith

none_taken : (n : ℤ) (vs : List Word) → n ≤ℤ pos 0 → taken_count n vs ≡ taken_count (pos 0) vs
none_taken (pos n) vs h = ground arith
none_taken (negsuc n) vs h = ground arith

counted :
    (c : ℤ) (l : MyList Word) (vs : List Word)
    → Holds l vs
    → Returns (Outcome vs (some c)) (remove_counted c l)
counted c l vs h = elim (Bool-cases (ltb_ℤ (pos (length vs)) c)) [
  | inl many ↦ rw (same_test ∙ many) (returns (rw many (refl, refl, h)))
  | inr within ↦ rw (same_test ∙ within) (
      Returns->>= (remove_loop-numbered (pos_part c) 0 l vs (ground arith) h)
        λ (out, l') (e, h'). returns (rw within (refl, e, h')))
]
  where
    same_test : ltb_ℤ (pos l.size) c ≡ ltb_ℤ (pos (length vs)) c
    same_test = ap (λ n. ltb_ℤ (pos n) c) (size-length l vs h)

-- The request that is made, and its outcome.
abbrev pub Answered :
    List Word → Bool → Word → List Word → Bool × List Output × MyList Word → Type 0
Answered ws given answer vs r =
    (q : Option ℤ) × Request (length vs) given answer ws q × Outcome vs q r

remove_all :
    (w : Word) (ws : List Word) (given : Bool) (answer : Word) (l : MyList Word) (vs : List Word)
    → Holds l vs
    → w ≡ word_all
    → length answer < 2
    → Returns (Answered (w ∷ ws) given answer vs) (remove (w ∷ ws) given answer l)
unfolding remove remove_count
remove_all w ws false answer l vs h e short =
    rw e (returns (none, no_memory (inl refl) refl, (refl, refl, h)))
remove_all w ws true answer l vs h e short =
    let fits : ltb (length answer) 2 ≡ true = lt→ltb _ _ short in
    elim (Bool-cases (is_yes answer)) [
      | inl confirmed ↦
          rw (e, fits, confirmed)
            (Returns-mono (counted (pos l.size) l vs h) (λ r o. (
              some (pos (length vs)),
              all_confirmed refl refl (yes_lem answer confirmed),
              subst (λ n. Outcome vs (some (pos n)) r) (size-length l vs h) o,
            )))
      | inr declined ↦
          rw (e, fits, declined)
            (Returns-mono (counted (pos 0) l vs h)
              (λ r o. (some (pos 0), all_declined refl refl (no_lem answer declined), o)))
    ]

remove_some :
    (w : Word) (ws : List Word) (given : Bool) (answer : Word) (l : MyList Word) (vs : List Word)
    → Holds l vs
    → same word_all w ≡ false
    → Returns (Answered (w ∷ ws) given answer vs) (remove (w ∷ ws) given answer l)
unfolding remove remove_count
remove_some w ws given answer l vs h e = elim (Bool-cases (ltb_ℤ (pos 0) (int_of w))) [
  | inr low ↦
      rw (e, low)
        (Returns-mono (counted (int_of w) l vs h) (λ r o. (
          some (pos 0),
          no_number other (at_most_zero (int_of w) low),
          subst (λ k. (r.0 ≡ true) × (r.1 ≡ numbered 0 (take k vs)) × Holds (r.2) (drop k vs))
              (none_taken (int_of w) vs (at_most_zero (int_of w) low)) o,
        )))
  | inl high ↦ rw (e, high) (by_memory given (at_least_one (int_of w) high))
]
  where
    other : w ≢ word_all
    other k = same_complete word_all w e (sym k)

    by_memory :
        (given : Bool)
        → pos 1 ≤ℤ int_of w
        → Returns
            (Answered (w ∷ ws) given answer vs)
            (elim (if given
              then some (if is_yes (take 1 answer) then int_of w else pos 0)
              else none) [ none ↦ some (false, [], l) | some count ↦ remove_counted count l ])
    by_memory false high = returns (none, no_memory (inr high) refl, (refl, refl, h))
    by_memory true high = elim (Bool-cases (is_yes (take 1 answer))) [
      | inl confirmed ↦ rw confirmed (
          Returns-mono (counted (int_of w) l vs h)
            (λ r o. (some (int_of w), number_confirmed other high refl (yes_lem _ confirmed), o)))
      | inr declined ↦ rw declined (
          Returns-mono (counted (pos 0) l vs h)
            (λ r o. (some (pos 0), number_declined other high refl (no_lem _ declined), o)))
    ]

-- `remove` with an answer of at most one character, if the question is for all words, does not fault.
-- It takes one word if none is behind it; for `all`, if the answer is `y` or `Y`, all words; for a
-- number above 0, if the answer begins with one of these, that many words, or none if the list has not
-- that many; and else none. They are taken from the front and written with their numbers. If there is
-- no memory for the answer, the program ends and the list is as it was.
pub remove-numbered :
    (ws : List Word) (given : Bool) (answer : Word) (l : MyList Word) (vs : List Word)
    → Holds l vs
    → FitsAnswer ws answer
    → Returns (Answered ws given answer vs) (remove ws given answer l)
unfolding remove remove_count
remove-numbered [] given answer l vs h fits =
    Returns-mono (counted (pos 1) l vs h) (λ r o. (some (pos 1), one_word, o))
remove-numbered (w ∷ ws) given answer l vs h fits = elim (Bool-cases (same word_all w)) [
  | inl e ↦ let k = sym (same_sound word_all w e) in remove_all w ws given answer l vs h k (fits k)
  | inr e ↦ remove_some w ws given answer l vs h e
]
