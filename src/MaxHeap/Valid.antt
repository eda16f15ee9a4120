-- ===== src/MaxHeap/Valid.antt =====
-- `insert`, `deleteMax` and `buildHeap` on a valid heap.
use exec.Base.{
  ℕ, zero, suc, ◌+◌, ◌*◌, ◌≤◌, ◌<◌, ◌≡◌, refl, ap, sym, subst, ◌∙◌, List, [], ◌∷◌, arith, length,
  Returns, returns, Returns->>=,
}
use exec.Base.Int.{ℤ, ◌≤ℤ◌}
use exec.MaxHeap.{Heap, new_heap, resize, copy_cells}
use exec.MaxHeap.Slots.{slot, occurs, hit}
use exec.MaxHeap.Order.{parent, IsHeap}

pub record IsValid (h : Heap) : Type 0 where
  pub ordered : IsHeap h.count h.ar
  pub room : h.count ≤ h.capacity
  pub allocated : length h.ar ≡ h.capacity

-- How often `v` is in the heap.
abbrev pub how_many : ℤ → Heap → ℕ
how_many v h = occurs v h.count h.ar

-- A new array has the size that was asked for.
abbrev pub IsAlloc : (ℕ → List ℤ) → Type 0
IsAlloc alloc = (n : ℕ) → length (alloc n) ≡ n

pub new_heap-IsValid :
    (alloc : ℕ → List ℤ) (capacity : ℕ) → IsAlloc alloc → IsValid (new_heap alloc capacity)
unfolding new_heap
new_heap-IsValid alloc capacity a = record {
  ordered = λ j h k. absurd (omega arith);
  room = omega arith;
  allocated = a capacity;
}

-- What `resize` copies.
abbrev pub IsCopy : ℕ → List ℤ → List ℤ → List ℤ → Type 0
IsCopy n old ar ar' =
    (length ar' ≡ length ar)
    × ((j : ℕ) → j < n → slot ar' j ≡ slot old j)
    × ((v : ℤ) → occurs v n ar' ≡ occurs v n old)

copy_cells-IsCopy :
    (n : ℕ) (old ar : List ℤ)
    → n ≤ length old
    → n ≤ length ar
    → Returns (IsCopy n old ar) (copy_cells n old ar)
unfolding copy_cells
copy_cells-IsCopy zero old ar h k = returns (refl, (λ j l. absurd (omega arith)), λ v. refl)
copy_cells-IsCopy (suc n) [] ar h k = absurd (omega arith)
copy_cells-IsCopy (suc n) (x ∷ old) [] h k = absurd (omega arith)
copy_cells-IsCopy (suc n) (x ∷ old) (y ∷ ar) h k =
    Returns->>= (copy_cells-IsCopy n old ar (omega arith) (omega arith)) (λ ar' (len, slots, occ).
      returns (ap suc len, cons_slot ar' slots, λ v. ap (λ k. hit v x + k) (occ v)))
  where
    cons_slot :
        (ar' : List ℤ)
        → ((j : ℕ) → j < n → slot ar' j ≡ slot old j)
        → (j : ℕ) → j < suc n
        → slot (x ∷ ar') j ≡ slot (x ∷ old) j
    cons_slot ar' f zero l = refl
    cons_slot ar' f (suc j) l = f j (omega arith)

abbrev pub IsResized : Heap → Heap → Type 0
IsResized h h' =
    IsValid h'
    × (h'.count ≡ h.count)
    × (h'.capacity ≡ h.capacity * 2)
    × ((v : ℤ) → how_many v h' ≡ how_many v h)

-- `resize` of a valid heap doubles the capacity and keeps the contents.
pub resize-IsResized :
    (alloc : ℕ → List ℤ) (h : Heap)
    → IsAlloc alloc
    → IsValid h
    → Returns (IsResized h) (resize alloc h)
unfolding resize
resize-IsResized alloc h a v =
    Returns->>=
      (copy_cells-IsCopy h.count h.ar (alloc (h.capacity * 2)) (omega (arith, v.room, v.allocated))
        (omega (arith, v.room, a (h.capacity * 2))))
      (λ ar (len, slots, occ). returns (
        record {
          ordered = λ j p l.
              subst (λ x. slot ar j ≤ℤ x) (sym (slots (parent j) (omega arith)))
                (subst (λ x. x ≤ℤ slot h.ar (parent j)) (sym (slots j l)) (v.ordered j p l));
          room = omega (arith, v.room);
          allocated = len ∙ a (h.capacity * 2);
        },
        refl,
        refl,
        occ,
      ))
