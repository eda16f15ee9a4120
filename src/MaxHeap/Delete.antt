-- ===== src/MaxHeap/Delete.antt =====
-- `deleteMax` on a valid heap.
use exec.Base.{
  ℕ, zero, suc, ◌+◌, ◌-◌, ◌<◌, ◌≡◌, refl, ap, sym, subst, ◌∙◌, some, List, false, ◌==◌, arith,
  length, set, length-set, get_or-set_ne, get_elem?-eq-get_or, store_at-eq-set, Returns, returns,
  Returns->>=,
}
use exec.Base.Int.{ℤ, pos, negsuc, ◌≤ℤ◌}
use exec.MaxHeap.{Heap, delete_max}
use exec.MaxHeap.Slots.{slot, occurs, occurs-set, occurs-set_out, occurs-last, hit}
use exec.MaxHeap.Order.{parent, IsHeap}
use exec.MaxHeap.Down.{IsSinking, percolate_down-IsRestored}
use exec.MaxHeap.Valid.{IsValid, how_many}

pub root_greatest :
    (fuel n : ℕ) (ar : List ℤ) (j : ℕ) → j < fuel → IsHeap n ar → j < n → slot ar j ≤ℤ slot ar 0
root_greatest zero n ar j f h k = absurd (omega arith)
root_greatest (suc fuel) n ar zero f h k = omega arith
root_greatest (suc fuel) n ar (suc j) f h k =
    let p : parent (suc j) < suc j = omega arith in
    omega (
      arith,
      h (suc j) (omega arith) k,
      root_greatest fuel n ar (parent (suc j)) (omega arith) h (omega arith),
    )

-- `x` was a greatest value of the heap, and the rest stays.
pub record IsDeleted (h : Heap) (x : ℤ) (h' : Heap) : Type 0 where
  pub valid : IsValid h'
  pub counted : h.count ≡ suc h'.count
  pub same_capacity : h'.capacity ≡ h.capacity
  pub greatest : (j : ℕ) → j < h.count → slot h.ar j ≤ℤ x
  pub contents : (v : ℤ) → how_many v h ≡ hit v x + how_many v h'

-- The array when `deleteMax` calls `percolateDown`.
abbrev cleared : List ℤ → ℕ → List ℤ
cleared ar n = set (set ar 0 (slot ar n)) n (pos 0)

length-cleared : (ar : List ℤ) (n : ℕ) → length (cleared ar n) ≡ length ar
length-cleared ar n = length-set (set ar 0 (slot ar n)) n (pos 0) ∙ length-set ar 0 (slot ar n)

slot-cleared :
    (ar : List ℤ) (n j : ℕ) → n < length ar → 0 < j → j < n → slot (cleared ar n) j ≡ slot ar j
slot-cleared ar n j h p k =
    get_or-set_ne (set ar 0 (slot ar n)) n j (pos 0) (pos 0) (λ e. omega arith)
    ∙ get_or-set_ne ar 0 j (slot ar n) (pos 0) (λ e. omega arith)

cleared-IsSinking :
    (ar : List ℤ) (n : ℕ) → n < length ar → IsHeap (suc n) ar → IsSinking n 0 (cleared ar n)
cleared-IsSinking ar n h heap = record {
  fits = omega (arith, length-cleared ar n);
  others = λ j p k d.
      subst (λ x. slot (cleared ar n) j ≤ℤ x)
        (sym (slot-cleared ar n (parent j) h (ground arith) (omega arith)))
        (subst (λ x. x ≤ℤ slot ar (parent j)) (sym (slot-cleared ar n j h p k))
          (heap j p (omega arith)));
  above = λ j p k e z. absurd (omega arith);
}

cleared-occurs :
    (v : ℤ) (ar : List ℤ) (n : ℕ)
    → n < length ar
    → occurs v (suc n) ar ≡ hit v (slot ar 0) + occurs v n (cleared ar n)
cleared-occurs v ar zero h = occurs-last v 0 ar h ∙ omega arith
cleared-occurs v ar (suc n) h = omega (
  arith,
  occurs-last v (suc n) ar h,
  occurs-set v (slot ar (suc n)) (suc n) 0 ar (omega arith) (omega arith),
  occurs-set_out v (pos 0) (suc n) (suc n) (set ar 0 (slot ar (suc n))) (omega arith),
)

-- `deleteMax` of an empty heap answers -1 and changes nothing.
pub delete_max-empty : (h : Heap) → h.count ≡ 0 → delete_max h ≡ some (negsuc 0, h)
unfolding delete_max
delete_max-empty h e = rw e refl

-- `deleteMax` of a valid heap that is not empty stays inside the array, answers a greatest value,
-- takes it from the contents once, and keeps the heap valid.
pub delete_max-IsDeleted :
    (h : Heap) → IsValid h → 0 < h.count → Returns (λ (x, h'). IsDeleted h x h') (delete_max h)
unfolding delete_max
delete_max-IsDeleted h v p =
    let n = h.count - 1 in
    let n_lt : n < length h.ar = omega (arith, v.room, v.allocated) in
    let zero_lt : 0 < length h.ar = omega arith in
    let some_left : (h.count == 0) ≡ false = ground arith in
    let e : h.count ≡ suc n = omega arith in
    let heap : IsHeap (suc n) h.ar = subst (λ k. IsHeap k h.ar) e v.ordered in
    rw
      (
        some_left,
        get_elem?-eq-get_or h.ar 0 (pos 0) zero_lt,
        get_elem?-eq-get_or h.ar n (pos 0) n_lt,
        store_at-eq-set h.ar 0 (slot h.ar n) zero_lt,
        store_at-eq-set (set h.ar 0 (slot h.ar n)) n (pos 0)
            (omega (arith, length-set h.ar 0 (slot h.ar n))),
      )
      (Returns->>=
        (percolate_down-IsRestored h.count n 0 (cleared h.ar n) (omega arith) (omega arith)
          (cleared-IsSinking h.ar n n_lt heap))
        (λ ar (len, heap', occ). returns (record {
          valid = record {
            ordered = heap';
            room = omega (arith, v.room);
            allocated = len ∙ length-cleared h.ar n ∙ v.allocated;
          };
          counted = e;
          same_capacity = refl;
          greatest = λ j k. root_greatest (suc j) h.count h.ar j (omega arith) v.ordered k;
          contents = λ w.
              ap (λ k. occurs w k h.ar) e
              ∙ cleared-occurs w h.ar n n_lt
              ∙ ap (λ k. hit w (slot h.ar 0) + k) (sym (occ w));
        })))
