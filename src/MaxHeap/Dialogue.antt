-- ===== src/MaxHeap/Dialogue.antt =====
-- No line makes the program leave the heap's array, if the heap has a slot.
use exec.Base.{
  ℕ, zero, suc, ◌+◌, ◌≤◌, ◌<◌, ◌≡◌, refl, ap, Option, none, some, List, [], ◌∷◌, ◌++◌, Bool, true,
  false, if◌then◌else◌, ◌>>=◌, ◌==◌, drop, map, length, arith, Bool-cases, inl, inr, Returns,
  returns, Returns->>=, Returns-mono, length-drop,
}
use exec.Base.Int.{ℤ, pos, pos_part}
use exec.MaxHeap.{Heap, delete_max, build_heap, print}
use exec.MaxHeap.Valid.{IsValid, IsAlloc}
use exec.MaxHeap.Insert.{insert-IsInserted}
use exec.MaxHeap.Delete.{delete_max-IsDeleted, delete_max-empty}
use exec.MaxHeap.Print.{print-IsDescending}
use exec.MaxHeap.Commands.{
  Output, listing, raw, Dialogue, extract, read_ints, delete_many, raw_values, show, rest_of_line,
  change, run, same, rfind_zero, word_deleteall, word_delete, word_exit, word_print, word_printraw,
  word_input, to_lower,
}
use exec.MaxHeap.Numbers.{read_ints-Returns}

-- A valid heap that has a slot.
pub record IsUsable (h : Heap) : Type 0 where
  pub valid : IsValid h
  pub capable : 0 < h.capacity

build_heap-IsUsable :
    (alloc : ℕ → List ℤ) (xs : List ℤ) (h : Heap)
    → IsAlloc alloc
    → IsUsable h
    → Returns IsUsable (build_heap alloc xs h)
unfolding build_heap
build_heap-IsUsable alloc [] h a u = returns u
build_heap-IsUsable alloc (x ∷ xs) h a u =
    Returns->>= (insert-IsInserted alloc x h a u.valid u.capable)
      (λ h' i. build_heap-IsUsable alloc xs h' a (record { valid = i.valid; capable = i.capable }))

delete_max-IsUsable : (h : Heap) → IsUsable h → Returns (λ (x, h'). IsUsable h') (delete_max h)
delete_max-IsUsable h u = elim (Bool-cases (h.count == 0)) [
  | inl empty ↦ rw (delete_max-empty h (ground arith)) (returns u)
  | inr more ↦
      Returns-mono (delete_max-IsDeleted h u.valid (ground arith)) (λ (x, h') d. record {
        valid = d.valid;
        capable = omega (arith, d.same_capacity, u.capable);
      })
]

delete_many-IsUsable : (n : ℕ) (h : Heap) → IsUsable h → Returns IsUsable (delete_many n h)
unfolding delete_many
delete_many-IsUsable zero h u = returns u
delete_many-IsUsable (suc n) h u =
    Returns->>= (delete_max-IsUsable h u) (λ (x, h') v. delete_many-IsUsable n h' v)

raw_values-Returns :
    (n : ℕ) (ar : List ℤ) → n ≤ length ar → Returns (λ xs. length xs ≡ n) (raw_values n ar)
unfolding raw_values
raw_values-Returns zero ar h = returns refl
raw_values-Returns (suc n) [] h = absurd (omega arith)
raw_values-Returns (suc n) (x ∷ ar) h =
    Returns->>= (raw_values-Returns n ar (omega arith)) (λ xs e. returns (ap suc e))

show-Returns : (line : List ℕ) (h : Heap) → IsUsable h → Returns (λ _. Unit) (show line h)
unfolding show
show-Returns line h u =
    Returns->>= (first (same line word_print))
      (λ _ _. Returns->>= (second (same line word_printraw)) (λ _ _. returns tt))
  where
    first :
        (b : Bool)
        → Returns
            (λ _. Unit)
            (if b then (do xs ← print h; some (listing h.count xs ∷ [])) else some [])
    first true = Returns->>= (print-IsDescending h u.valid) (λ _ _. returns tt)
    first false = returns tt

    second :
        (b : Bool)
        → Returns
            (λ _. Unit)
            (if b then (do xs ← raw_values h.count h.ar; some (raw h.count xs ∷ [])) else some [])
    second true =
        Returns->>=
          (raw_values-Returns h.count h.ar (omega (arith, u.valid.room, u.valid.allocated)))
          (λ _ _. returns tt)
    second false = returns tt

rest_of_line-IsUsable :
    (alloc : ℕ → List ℤ) (line : List ℕ) (r : Dialogue)
    → IsAlloc alloc
    → IsUsable r.heap
    → Returns (λ r'. IsUsable r'.heap) (rest_of_line alloc line r)
unfolding rest_of_line
rest_of_line-IsUsable alloc line r a u =
    Returns->>= (first (same line word_deleteall))
      (λ h v. Returns->>= (second h v (rfind_zero word_input line)) (λ h' v'. returns v'))
  where
    first :
        (b : Bool) → Returns IsUsable (if b then delete_many r.heap.count r.heap else some r.heap)
    first true = delete_many-IsUsable r.heap.count r.heap u
    first false = returns u

    second :
        (h : Heap)
        → IsUsable h
        → (b : Bool)
        → Returns IsUsable (
            if b
            then (do xs ← read_ints (length line + 1) (pos 0) (drop 5 line); build_heap alloc xs h)
            else some h)
    second h v true =
        Returns->>=
          (read_ints-Returns (length line + 1) (pos 0) (drop 5 line)
            (omega (arith, length-drop 5 line)))
          (λ xs _. build_heap-IsUsable alloc xs h a v)
    second h v false = returns v

change-IsUsable :
    (alloc : ℕ → List ℤ) (line : List ℕ) (r : Dialogue)
    → IsAlloc alloc
    → IsUsable r.heap
    → Returns (λ r'. IsUsable r'.heap) (change alloc line r)
unfolding change
change-IsUsable alloc line r a u = elim (Bool-cases (rfind_zero word_delete line)) [
  | inl yes_delete ↦ rw yes_delete (deleted (extract r.data_value (drop 6 line)).1)
  | inr no_delete ↦ rw no_delete (rest_of_line-IsUsable alloc line r a u)
]
  where
    deleted :
        (d : ℤ)
        → Returns
            (λ r'. IsUsable r'.heap)
            (if pos_part d == 0 then some (record r { data_value = d }) else (do
              h ← delete_many (pos_part d) r.heap
              rest_of_line alloc line (record { heap = h; data_value = d })))
    deleted d = elim (Bool-cases (pos_part d == 0)) [
      | inl none_asked ↦ rw none_asked (returns u)
      | inr some_asked ↦ rw some_asked (
          Returns->>= (delete_many-IsUsable (pos_part d) r.heap u)
            (λ h v. rest_of_line-IsUsable alloc line (record { heap = h; data_value = d }) a v))
    ]

-- Whatever lines are read, and whatever the variable `data` holds at first: over a valid heap that
-- has a slot the dialogue ends, no access is outside the array, and the heap is valid and has a slot.
pub run-IsUsable :
    (alloc : ℕ → List ℤ) (ls : List (List ℕ)) (r : Dialogue)
    → IsAlloc alloc
    → IsUsable r.heap
    → Returns (λ (outs, r'). IsUsable r'.heap) (run alloc ls r)
unfolding run
run-IsUsable alloc [] r a u = returns u
run-IsUsable alloc (l ∷ ls) r a u = elim (Bool-cases (rfind_zero word_exit (map to_lower l))) [
  | inl leaves ↦ rw leaves (returns u)
  | inr stays ↦ rw stays (
      Returns->>= (show-Returns (map to_lower l) r.heap u) (λ out _.
        Returns->>= (change-IsUsable alloc (map to_lower l) r a u)
          (λ r' v. Returns->>= (run-IsUsable alloc ls r' a v) (λ _ w. returns w))))
]

-- The line `deleteall` deletes nothing: `delete` takes it, reads no number from `all`, and goes on
-- with the next line.
pub run-deleteall :
    (alloc : ℕ → List ℤ) (ls : List (List ℕ)) (r : Dialogue)
    → run alloc (word_deleteall ∷ ls) r ≡ run alloc ls (record r { data_value = pos 0 })
unfolding run show change extract rfind_zero
run-deleteall alloc ls r = unchanged (run alloc ls (record r { data_value = pos 0 }))
  where
    unchanged :
        (m : Option (List Output × Dialogue)) → (m >>= λ x. some ([] ++ ([] ++ x.0), x.1)) ≡ m
    unchanged none = refl
    unchanged (some x) = refl
