-- ===== src/MaxHeap/Down.antt =====
-- `percolateDown` restores the order below a slot.
use exec.Base.{
  ℕ, zero, suc, ◌+◌, ◌*◌, ◌≤◌, ◌<◌, ◌≡◌, ◌≢◌, ◌⊎◌, refl, sym, subst, ◌∙◌, some, List, if◌then◌else◌,
  ◌==◌, leb, arith, inl, inr, Bool-cases, length, get_elem?-eq-get_or, Returns, returns,
  Returns-mono,
}
use exec.Base.Int.{ℤ, pos, ltb_ℤ, ◌≤ℤ◌}
use exec.MaxHeap.{larger, percolate_down}
use exec.MaxHeap.Slots.{
  slot, occurs, swapped, swap-eq, length-swapped, slot-swapped, occurs-swapped,
}
use exec.MaxHeap.Order.{parent, IsHeap}

-- Only the children of slot `i` can be greater than their parent.
pub record IsSinking (n i : ℕ) (ar : List ℤ) : Type 0 where
  pub fits : n ≤ length ar
  pub others : (j : ℕ) → 0 < j → j < n → parent j ≢ i → slot ar j ≤ℤ slot ar (parent j)
  pub above : (j : ℕ) → 0 < j → j < n → parent j ≡ i → 0 < i → slot ar j ≤ℤ slot ar (parent i)

-- The slot that `percolateDown` chooses, as a function of the array.
abbrev larger_of : ℕ → List ℤ → ℕ → ℕ → ℕ
larger_of n ar child top =
    if leb n child then top else (if ltb_ℤ (slot ar top) (slot ar child) then child else top)

larger-eq :
    (n : ℕ) (ar : List ℤ) (child top : ℕ)
    → n ≤ length ar
    → top < n
    → larger n ar child top ≡ some (larger_of n ar child top)
unfolding larger
larger-eq n ar child top h k = elim (Bool-cases (leb n child)) [
  | inl out ↦ rw out refl
  | inr within ↦
      let c_lt : child < length ar = ground arith in
      rw
        (
          within,
          get_elem?-eq-get_or ar child (pos 0) c_lt,
          get_elem?-eq-get_or ar top (pos 0) (omega arith),
        )
        refl
]

abbrev chosen : ℕ → List ℤ → ℕ → ℕ
chosen n ar i = larger_of n ar (i * 2 + 2) (larger_of n ar (i * 2 + 1) i)

-- It is `i` or a child of it in range, and none of the three is greater.
record IsTop (n : ℕ) (ar : List ℤ) (i top : ℕ) : Type 0 where
  inside : top < n
  place : (top ≡ i) ⊎ (top ≡ i * 2 + 1) ⊎ (top ≡ i * 2 + 2)
  over : slot ar i ≤ℤ slot ar top
  left : i * 2 + 1 < n → slot ar (i * 2 + 1) ≤ℤ slot ar top
  right : i * 2 + 2 < n → slot ar (i * 2 + 2) ≤ℤ slot ar top

chosen-IsTop : (n : ℕ) (ar : List ℤ) (i : ℕ) → i < n → IsTop n ar i (chosen n ar i)
chosen-IsTop n ar i h = record {
  inside = ground arith;
  place = ground arith;
  over = ground arith;
  left = λ k. ground arith;
  right = λ k. ground arith;
}

in_order : (n i : ℕ) (ar : List ℤ) → IsSinking n i ar → IsTop n ar i i → IsHeap n ar
in_order n i ar s t j h k = elim (Bool-cases (parent j == i)) [
  | inl child ↦
      let e : (j ≡ i * 2 + 1) ⊎ (j ≡ i * 2 + 2) = ground arith in
      elim e [ inl l ↦ ground (arith, t.left) | inr r ↦ ground (arith, t.right) ]
  | inr other ↦ s.others j h k (λ e. ground arith)
]

top_below : (n i top : ℕ) (ar : List ℤ) → IsTop n ar i top → top ≢ i → (parent top ≡ i) × (i < top)
top_below n i top ar t d = elim t.place [
  | inl same ↦ absurd (d same)
  | inr (inl l) ↦ (omega arith, omega arith)
  | inr (inr r) ↦ (omega arith, omega arith)
]

sunk :
    (n i top : ℕ) (ar : List ℤ)
    → i < n
    → IsSinking n i ar
    → IsTop n ar i top
    → top ≢ i
    → IsSinking n top (swapped ar i top)
sunk n i top ar h s t d = record {
  fits = omega (arith, s.fits, length-swapped ar i top);
  others = λ j pos_j lt_j away.
      rw (slot-swapped ar i top j i_lt top_lt, slot-swapped ar i top (parent j) i_lt top_lt)
        (elim (Bool-cases (parent j == i)) [
          | inl child ↦ ground (arith, d, h, is_child, sibling j pos_j lt_j (ground arith), t.over)
          | inr apart ↦ ground (
            arith,
            d,
            h,
            is_child,
            t.over,
            s.others j pos_j lt_j (λ e. ground arith),
            s.above top,
          )
        ]);
  above = λ j pos_j lt_j e pos_top.
      rw (slot-swapped ar i top j i_lt top_lt, slot-swapped ar i top (parent top) i_lt top_lt)
        ground (arith, d, h, is_child, e, s.others j pos_j lt_j (λ e'. ground arith), t.over);
}
  where
    i_lt : i < length ar
    i_lt = omega (arith, s.fits)

    top_lt : top < length ar
    top_lt = omega (arith, s.fits, t.inside)

    is_child : (parent top ≡ i) × (i < top)
    is_child = top_below n i top ar t d

    sibling : (j : ℕ) → 0 < j → j < n → parent j ≡ i → slot ar j ≤ℤ slot ar top
    sibling j pos_j lt_j e = elim (Bool-cases (j == i * 2 + 1)) [
      | inl l ↦ ground (arith, t.left)
      | inr r ↦ ground (arith, t.right)
    ]

-- What `percolateDown` does to the array.
abbrev pub IsRestored : ℕ → List ℤ → List ℤ → Type 0
IsRestored n ar ar' =
    (length ar' ≡ length ar) × IsHeap n ar' × ((v : ℤ) → occurs v n ar' ≡ occurs v n ar)

deeper : (n fuel i top : ℕ) → n < suc fuel + i → i < top → n < fuel + top
deeper n fuel i top h k = omega arith

pub percolate_down-IsRestored :
    (fuel n i : ℕ) (ar : List ℤ)
    → n < fuel + i
    → i ≤ n
    → IsSinking n i ar
    → Returns (IsRestored n ar) (percolate_down fuel n i ar)
unfolding percolate_down
percolate_down-IsRestored zero n i ar f g s = absurd (omega arith)
percolate_down-IsRestored (suc fuel) n i ar f g s = elim (Bool-cases (leb n i)) [
  | inl out ↦ rw out (returns (refl, (λ j h k. s.others j h k (ground arith)), λ v. refl))
  | inr within ↦
      let i_lt : i < n = ground arith in
      let t = chosen-IsTop n ar i i_lt in
      rw
        (
          within,
          larger-eq n ar (i * 2 + 1) i s.fits i_lt,
          larger-eq n ar (i * 2 + 2) (larger_of n ar (i * 2 + 1) i) s.fits (ground arith),
        )
        (elim (Bool-cases (chosen n ar i == i)) [
          | inl stays ↦
              rw stays (
                returns
                  (refl, in_order n i ar s (subst (IsTop n ar i) (ground arith) t), λ v. refl))
          | inr moves ↦
              let d : chosen n ar i ≢ i = (λ e. ground arith) in
              rw
                (
                  moves,
                  swap-eq ar i (chosen n ar i) (omega (arith, s.fits))
                      (omega (arith, s.fits, t.inside)),
                )
                (Returns-mono
                  (percolate_down-IsRestored fuel n (chosen n ar i) (swapped ar i (chosen n ar i))
                    (deeper n fuel i (chosen n ar i) f (top_below n i (chosen n ar i) ar t d).1)
                    (omega (arith, t.inside)) (sunk n i (chosen n ar i) ar i_lt s t d))
                  (λ ar' (len, heap, occ). (
                    len ∙ length-swapped ar i (chosen n ar i),
                    heap,
                    λ v.
                        occ v
                        ∙ occurs-swapped v n i (chosen n ar i) ar i_lt t.inside s.fits
                            (λ e. d (sym e)),
                  )))
        ])
]
