-- ===== src/MaxHeap/Insert.antt =====
-- `insert` and `buildHeap` on a valid heap.
use exec.Base.{
  ℕ, suc, ◌+◌, ◌≤◌, ◌<◌, ◌≡◌, refl, ap, ◌∙◌, none, some, List, [], ◌∷◌, leb, arith, inl, inr,
  Bool-cases, length, set, store_at, length-set, get_or-set_self, ◌>>=◌, Returns, returns,
  Returns-mono, Returns->>=,
}
use exec.Base.Int.{ℤ, pos}
use exec.MaxHeap.{Heap, new_heap, insert, resize, copy_cells, sift_up}
use exec.MaxHeap.Slots.{occurs, occurs-set_out, occurs-last, hit}
use exec.MaxHeap.Up.{sift_up_last}
use exec.MaxHeap.Valid.{IsValid, how_many, IsAlloc, resize-IsResized}

-- The heap holds `x` besides what it held.
pub record IsInserted (x : ℤ) (h h' : Heap) : Type 0 where
  pub valid : IsValid h'
  pub counted : h'.count ≡ suc h.count
  pub capable : 0 < h'.capacity
  pub contents : (v : ℤ) → how_many v h' ≡ hit v x + how_many v h

store_last :
    (x : ℤ) (h : Heap)
    → IsValid h
    → h.count < h.capacity
    → Returns (IsInserted x h) (do
      ar ← sift_up (h.count + 1) x h.count h.ar
      some (record h { count = h.count + 1; ar = ar }))
store_last x h v r =
    let n_lt : h.count < length h.ar = omega (arith, v.allocated) in
    Returns->>= (sift_up_last h.count x h.ar n_lt v.ordered) (λ ar (len, heap, occ).
      returns (record {
        valid = record { ordered = heap; room = omega arith; allocated = len ∙ v.allocated };
        counted = omega arith;
        capable = omega arith;
        contents = λ w. occ w ∙ added w n_lt;
      }))
  where
    one_more : h.count + 1 ≡ suc h.count
    one_more = omega arith

    added :
        (w : ℤ)
        → h.count < length h.ar
        → occurs w (h.count + 1) (set h.ar h.count x) ≡ hit w x + how_many w h
    added w n_lt =
        ap (λ k. occurs w k (set h.ar h.count x)) one_more
        ∙ occurs-last w h.count (set h.ar h.count x) (omega (arith, length-set h.ar h.count x))
        ∙ omega (
          arith,
          occurs-set_out w x h.count h.count h.ar (omega arith),
          ap (hit w) (get_or-set_self h.ar h.count x (pos 0) n_lt),
        )

-- On a valid heap that has a slot, full or not, `insert` stays inside the array, adds the value to
-- the contents, and keeps the heap valid, growing the array when it is full.
pub insert-IsInserted :
    (alloc : ℕ → List ℤ) (x : ℤ) (h : Heap)
    → IsAlloc alloc
    → IsValid h
    → 0 < h.capacity
    → Returns (IsInserted x h) (insert alloc x h)
unfolding insert
insert-IsInserted alloc x h a v c = elim (Bool-cases (leb h.capacity h.count)) [
  | inl full ↦ rw full (
      Returns->>= (resize-IsResized alloc h a v) (λ h' (v', n, cap, occ).
        Returns-mono (store_last x h' v' (ground (arith, v.room, n, cap))) (λ h'' i. record {
          valid = i.valid;
          counted = i.counted ∙ ap suc n;
          capable = i.capable;
          contents = λ w. i.contents w ∙ ap (λ k. hit w x + k) (occ w);
        })))
  | inr spare ↦ rw spare (store_last x h v (ground arith))
]

no_slot : (n x : ℕ) → x ≡ 0 → n ≤ x → n ≡ 0
no_slot n x e h = omega arith

-- The first `insert` into a heap of capacity 0 writes outside the array: doubling 0 gives 0.
pub insert-capacity_zero :
    (alloc : ℕ → List ℤ) (x : ℤ) → IsAlloc alloc → insert alloc x (new_heap alloc 0) ≡ none
unfolding insert new_heap resize copy_cells sift_up
insert-capacity_zero alloc x a = outside (alloc 0) (a 0)
  where
    built : List ℤ → Heap
    built ar = record { capacity = 0; count = 1; ar = ar }

    outside :
        (cells : List ℤ) → length cells ≡ 0 → (store_at cells 0 x >>= λ ar. some (built ar)) ≡ none
    outside [] e = refl
    outside (c ∷ cells) e = absurd (omega arith)
