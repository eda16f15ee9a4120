-- ===== src/WordList/Refine.antt =====
-- What the commands do to the words that the list holds.
use exec.Base.{
  ◌≢◌, ◌⊎◌, ℕ, zero, suc, ◌≡◌, refl, ap, Option, some, List, [], ◌∷◌, ◌++◌, Bool, true, false,
  if◌then◌else◌, ◌>>=◌, replicate, reverse_aux, inl, inr, Bool-cases, Returns, returns, Returns->>=,
  Returns-mono,
}
use exec.Base.Int.{pos, pos_part, ltb_ℤ}
use exec.MyList.{Heap, MyList, ins_next}
use exec.MyList.Insert.{ins_next-null}
use native.Mathlib.Decide.{ℕ_discrete}
use exec.Containers.{stack_push}
use exec.Containers.Steps.{Holds, stack_push-Stored}
use exec.Containers.Runs.{Allocator}
use exec.WordList.{Word, add, add_times, add_each, madd, negative, int_of}

module _ (m : Allocator Word) (copies : Heap Word → Word → Bool) where
  -- The words are stored one by one, each in front of the list; this ends with the list as it is and
  -- `false` at the first word for which `malloc` does not give its own block or the list's block, and
  -- with `true` if there is none.
  pub data Added : List Word → List Word → MyList Word → Bool → MyList Word → Type 0 where
    all_added : {vs : List Word} {l : MyList Word} → Holds l vs → Added [] vs l true l
    one_added :
        {w : Word} {ws vs : List Word} {l l' l'' : MyList Word} {runs : Bool}
        → copies l.heap w ≡ true
        → m.malloc l.heap ≢ 0
        → Holds l' (w ∷ vs)
        → Added ws (w ∷ vs) l' runs l''
        → Added (w ∷ ws) vs l runs l''
    refused :
        {w : Word} {ws vs : List Word} {l : MyList Word}
        → (copies l.heap w ≡ false) ⊎ (m.malloc l.heap ≡ 0)
        → Holds l vs
        → Added (w ∷ ws) vs l false l

-- The words in front of the first for which a block is missing are stored, each in front of the one
-- before it; the program goes on if these are all.
pub record IsAdded (m : Allocator Word) (copies : Heap Word → Word → Bool) (ws vs : List Word)
    (l : MyList Word) (r : Bool × MyList Word) : Type 0 where
  pub one_by_one : Added m copies ws vs l (r.0) (r.1)
  pub stored_words : List Word
  pub left_words : List Word
  pub in_order : stored_words ++ left_words ≡ ws
  pub holds : Holds r.1 (reverse_aux stored_words vs)
  pub ends : ((r.0 ≡ true) × (left_words ≡ [])) ⊎ ((r.0 ≡ false) × (left_words ≢ []))

-- Each word `n` times.
abbrev pub repeated : ℕ → List Word → List Word
repeated n [] = []
repeated n (w ∷ ws) = replicate n w ++ repeated n ws

-- What `madd` is asked to store.
abbrev pub asked : List Word → List Word
asked [] = []
asked (w ∷ ws) = if ltb_ℤ (int_of w) (pos 1) then [] else repeated (pos_part (int_of w)) ws

module _ (m : Allocator Word) (copies : Heap Word → Word → Bool) where
  Added-IsAdded :
      {ws vs : List Word} {l l' : MyList Word} {runs : Bool}
      → Added m copies ws vs l runs l'
      → IsAdded m copies ws vs l (runs, l')
  Added-IsAdded (all_added h) = record {
    one_by_one = all_added h;
    stored_words = [];
    left_words = [];
    in_order = refl;
    holds = h;
    ends = inl (refl, refl);
  }
  Added-IsAdded (one_added {w} copied ne h a) =
      let rest = Added-IsAdded a in
      record {
        one_by_one = one_added copied ne h a;
        stored_words = w ∷ rest.stored_words;
        left_words = rest.left_words;
        in_order = ap (λ k. w ∷ k) rest.in_order;
        holds = rest.holds;
        ends = rest.ends;
      }
  Added-IsAdded (refused {w} {ws} missing h) = record {
    one_by_one = refused missing h;
    stored_words = [];
    left_words = w ∷ ws;
    in_order = refl;
    holds = h;
    ends = inr (refl, λ e. cc);
  }

  abbrev pub AddedBy : List Word → List Word → MyList Word → Bool × MyList Word → Type 0
  AddedBy ws vs l (runs, l') = Added m copies ws vs l runs l'

  -- One push and what follows it, as `add` and `madd` have them.
  push_then :
      {next : MyList Word → Option (Bool × MyList Word)} (w : Word) (ws vs : List Word)
      (l : MyList Word)
      → copies l.heap w ≡ true
      → Holds l vs
      → ((l' : MyList Word) → Holds l' (w ∷ vs) → Returns (AddedBy ws (w ∷ vs) l') (next l'))
      → Returns (AddedBy (w ∷ ws) vs l) (do
        (status, l') ← ins_next (m.malloc l.heap) l 0 w
        if negative status then some (false, l') else next l')
  unfolding stack_push
  push_then {next} w ws vs l copied h go = elim (ℕ_discrete (m.malloc l.heap) 0) [
    | yes null ↦ rw (null, ins_next-null l 0 w) (returns (refused (inr null) h))
    | no ne ↦
        Returns->>= (stack_push-Stored l (m.malloc l.heap) w vs h (m.unused l.heap))
          λ (status, l') s. elim s [
            | inl (_, ok, h') ↦ rw ok (Returns-mono (go l' h') (λ r a. one_added copied ne h' a))
            | inr (null, _, _) ↦ absurd (ne null)
          ]
  ]

  add-Added :
      (ws : List Word) (l : MyList Word) (vs : List Word)
      → ((h : Heap Word) (w : Word) → copies h w ≡ true)
      → Holds l vs
      → Returns (AddedBy ws vs l) (add m.malloc copies ws l)
  unfolding add
  add-Added [] l vs c h = returns (all_added h)
  add-Added (w ∷ ws) l vs c h =
      let copied = c l.heap w in
      rw copied (push_then w ws vs l copied h (λ l' h'. add-Added ws l' (w ∷ vs) c h'))

  -- If each word gets a block of its own, `add` never faults, whatever the allocator of the list does:
  -- it puts the words in front of the list, each in front of the one before it, up to the first for
  -- which `malloc` does not give the list's block; the program ends there, and goes on if all were
  -- stored.
  pub add-IsAdded :
      (ws : List Word) (l : MyList Word) (vs : List Word)
      → ((h : Heap Word) (w : Word) → copies h w ≡ true)
      → Holds l vs
      → Returns (IsAdded m copies ws vs l) (add m.malloc copies ws l)
  add-IsAdded ws l vs c h = Returns-mono (add-Added ws l vs c h) (λ r a. Added-IsAdded a)

  add_times-Added :
      (n : ℕ) (w : Word) (l : MyList Word) (vs : List Word)
      → Holds l vs
      → Returns (AddedBy (replicate n w) vs l) (add_times m.malloc copies n w l)
  unfolding add_times
  add_times-Added zero w l vs h = returns (all_added h)
  add_times-Added (suc n) w l vs h = elim (Bool-cases (copies l.heap w)) [
    | inl copied ↦
        rw copied
          (push_then w (replicate n w) vs l copied h (λ l' h'. add_times-Added n w l' (w ∷ vs) h'))
    | inr missing ↦ rw missing (returns (refused (inl missing) h))
  ]

  holding :
      {us vs : List Word} {l l' : MyList Word} {runs : Bool}
      → Added m copies us vs l runs l'
      → runs ≡ true
      → Holds l' (reverse_aux us vs)
  holding (all_added h) e = h
  holding (one_added copied ne h a) e = holding a e
  holding (refused missing h) e = cc

  chained :
      {us ws vs : List Word} {l l' l'' : MyList Word} {runs runs' : Bool}
      → Added m copies us vs l runs l'
      → runs ≡ true
      → Added m copies ws (reverse_aux us vs) l' runs' l''
      → Added m copies (us ++ ws) vs l runs' l''
  chained (all_added h) e b = b
  chained (one_added copied ne h a) e b = one_added copied ne h (chained a e b)
  chained (refused missing h) e b = cc

  stopped :
      {us vs : List Word} (ws : List Word) {l l' : MyList Word} {runs : Bool}
      → Added m copies us vs l runs l'
      → runs ≡ false
      → Added m copies (us ++ ws) vs l false l'
  stopped ws (all_added h) e = cc
  stopped ws (one_added copied ne h a) e = one_added copied ne h (stopped ws a e)
  stopped ws (refused missing h) e = refused missing h

  add_each-Added :
      (n : ℕ) (ws : List Word) (l : MyList Word) (vs : List Word)
      → Holds l vs
      → Returns (AddedBy (repeated n ws) vs l) (add_each m.malloc copies n ws l)
  unfolding add_each
  add_each-Added n [] l vs h = returns (all_added h)
  add_each-Added n (w ∷ ws) l vs h = Returns->>= (add_times-Added n w l vs h) (λ (runs, l') a.
      next runs l' a (λ h'. add_each-Added n ws l' (reverse_aux (replicate n w) vs) h'))
    where
      next :
          (runs : Bool) (l' : MyList Word)
          → Added m copies (replicate n w) vs l runs l'
          → (Holds l' (reverse_aux (replicate n w) vs)
              → Returns
                  (AddedBy (repeated n ws) (reverse_aux (replicate n w) vs) l')
                  (add_each m.malloc copies n ws l'))
          → Returns
              (AddedBy (repeated n (w ∷ ws)) vs l)
              (if runs then add_each m.malloc copies n ws l' else some (false, l'))
      next true l' a go = Returns-mono (go (holding a refl)) (λ r b. chained a refl b)
      next false l' a go = returns (stopped (repeated n ws) a refl)

  -- `madd` never faults, whatever the allocations do: it puts each word behind the number that many
  -- times in front of the list, nothing if the number is missing or below 1, up to the first for which
  -- `malloc` does not give its own block or the list's; the program ends there, and goes on if all were
  -- stored.
  pub madd-IsAdded :
      (ws : List Word) (l : MyList Word) (vs : List Word)
      → Holds l vs
      → Returns (IsAdded m copies (asked ws) vs l) (madd m.malloc copies ws l)
  unfolding madd
  madd-IsAdded [] l vs h = returns (Added-IsAdded (all_added h))
  madd-IsAdded (w ∷ ws) l vs h = elim (Bool-cases (ltb_ℤ (int_of w) (pos 1))) [
    | inl small ↦ rw small (returns (Added-IsAdded (all_added h)))
    | inr enough ↦
        rw enough
          (Returns-mono (add_each-Added (pos_part (int_of w)) ws l vs h) (λ r a. Added-IsAdded a))
  ]
