-- ===== src/WordList/Held.antt =====
-- The lines of `main` in Project1/FileTransMain.cpp one after the other: no fault, and a list that stays
-- well formed.
use exec.Base.{
  ◌<◌, ◌≡◌, Option, none, some, List, [], ◌∷◌, ◌++◌, Bool, true, false, if◌then◌else◌, ◌>>=◌,
  length, inl, inr, Bool-cases, Returns, returns, Returns->>=, Returns-mono,
}
use exec.Base.Int.{ℤ}
use exec.MyList.{Heap, MyList}
use exec.MaxHeap.Commands.{same, word_exit}
use exec.Containers.Steps.{Holds}
use exec.Containers.Runs.{Allocator}
use exec.WordList.{Word, Output, usage, add, madd, remove, tokens}
use exec.WordList.Lines.{Entry, command, round, run, is_idle, word_remove, word_add, word_madd}
use exec.WordList.Refine.{add-IsAdded, madd-IsAdded}
use exec.WordList.Removed.{FitsAnswer, Outcome, remove-numbered}

-- A well-formed list of some words.
abbrev pub IsHeld : MyList Word → Type 0
IsHeld l = (vs : List Word) × Holds l vs

abbrev pub Continues : Bool × List Output × MyList Word → Type 0
Continues (runs, out, l) = IsHeld l

abbrev pub Ends : List Output × MyList Word → Type 0
Ends (out, l) = IsHeld l

-- The answers that are read have at most one character each.
abbrev pub IsShort : List Entry → Type 0
IsShort [] = Unit
IsShort (e ∷ es) = (length e.answer < 2) × IsShort es

short-FitsAnswer : (ws : List Word) (answer : Word) → length answer < 2 → FitsAnswer ws answer
short-FitsAnswer [] answer k = tt
short-FitsAnswer (w ∷ ws) answer k = λ e. k

Outcome-Continues :
    (vs : List Word) (q : Option ℤ) (r : Bool × List Output × MyList Word)
    → Outcome vs q r
    → Continues r
Outcome-Continues vs none r (_, _, h) = (_, h)
Outcome-Continues vs (some count) r (_, _, h) = (_, h)

module _ (m : Allocator Word) (copies : Heap Word → Word → Bool)
    (c : (h : Heap Word) (w : Word) → copies h w ≡ true) where
  command-IsHeld :
      (cmd : Word) (ws : List Word) (given : Bool) (answer : Word) (l : MyList Word)
      → length answer < 2
      → IsHeld l
      → Returns Continues (command m.malloc copies cmd ws given answer l)
  unfolding command
  command-IsHeld cmd ws given answer l k (vs, h) =
      idle (is_idle cmd)
        (removes (same cmd word_remove) (adds (same cmd word_add) (madds (same cmd word_madd))))
    where
      idle :
          (b : Bool) {rest : Option (Bool × List Output × MyList Word)}
          → Returns Continues rest
          → Returns Continues (if b then some (true, [], l) else rest)
      idle true r = returns (vs, h)
      idle false r = r

      removes :
          (b : Bool) {rest : Option (Bool × List Output × MyList Word)}
          → Returns Continues rest
          → Returns Continues (if b then remove ws given answer l else rest)
      removes true r =
          Returns-mono (remove-numbered ws given answer l vs h (short-FitsAnswer ws answer k))
            (λ res (q, made, o). Outcome-Continues vs q res o)
      removes false r = r

      adds :
          (b : Bool) {rest : Option (Bool × List Output × MyList Word)}
          → Returns Continues rest
          → Returns Continues
              (if b then (do (runs, l') ← add m.malloc copies ws l; some (runs, [], l')) else rest)
      adds true r =
          Returns->>= (add-IsAdded m copies ws l vs c h) (λ (runs, l') a. returns (_, a.holds))
      adds false r = r

      madds :
          (b : Bool)
          → Returns Continues (
              if b
              then (do (runs, l') ← madd m.malloc copies ws l; some (runs, [], l'))
              else some (true, usage ∷ [], l))
      madds true =
          Returns->>= (madd-IsAdded m copies ws l vs h) (λ (runs, l') a. returns (_, a.holds))
      madds false = returns (vs, h)

  round-IsHeld :
      (e : Entry) (l : MyList Word)
      → length e.answer < 2
      → IsHeld l
      → Returns Continues (round m.malloc copies e l)
  unfolding round
  round-IsHeld e l k h = by_tokens (tokens [] e.line)
    where
      by_tokens :
          (ts : List Word)
          → Returns Continues (elim ts [
            | [] ↦ some (true, [], l)
            | cmd ∷ ws ↦
                if same cmd word_exit
                then some (false, [], l)
                else command m.malloc copies cmd ws e.given e.answer l
          ])
      by_tokens [] = returns h
      by_tokens (cmd ∷ ws) = elim (Bool-cases (same cmd word_exit)) [
        | inl leaves ↦ rw leaves (returns h)
        | inr stays ↦ rw stays (command-IsHeld cmd ws e.given e.answer l k h)
      ]

  -- If each word of `add` and `madd` gets a block of its own, and no answer has more than one
  -- character, no sequence of lines and answers makes the program fault, whatever the allocator of the
  -- list does and whether or not there is memory for the answers, and the list stays well formed.
  pub run-IsHeld :
      (es : List Entry) (l : MyList Word)
      → IsShort es
      → IsHeld l
      → Returns Ends (run m.malloc copies es l)
  unfolding run
  run-IsHeld [] l k h = returns h
  run-IsHeld (e ∷ es) l (k, ks) h =
      Returns->>= (round-IsHeld e l k h)
        (λ (runs, out, l') h'. next runs out l' h' (run-IsHeld es l' ks h'))
    where
      next :
          (runs : Bool) (out : List Output) (l' : MyList Word)
          → IsHeld l'
          → Returns Ends (run m.malloc copies es l')
          → Returns Ends (
              if runs
              then (do (more, l'') ← run m.malloc copies es l'; some (out ++ more, l''))
              else some (out, l'))
      next true out l' h' r = Returns->>= r (λ (more, l'') h''. returns h'')
      next false out l' h' r = returns h'
