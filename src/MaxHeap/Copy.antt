-- ===== src/MaxHeap/Copy.antt =====
-- The copy and move members of `Heap` in Project1/MyTestMain01.cpp. A member that gets another heap
-- gives the new one, and the other one too when it moves.
use exec.Base.{
  ℕ, zero, suc, ◌≡◌, refl, Option, none, some, List, [], ◌∷◌, Bool, true, false, ◌>>=◌, length,
  arith,
}
use exec.Base.Int.{ℤ}
use exec.MaxHeap.{Heap}
use exec.MaxHeap.Valid.{IsValid}

-- `copyAr`: a copy of the first `n` cells; `none` is a read outside the array.
unfoldable pub copy_ar : List ℤ → ℕ → Option (List ℤ)
copy_ar src zero = some []
copy_ar [] (suc n) = none
copy_ar (x ∷ src) (suc n) = do dst ← copy_ar src n; some (x ∷ dst)

-- `free`; a null pointer has no cell.
unfoldable pub free : Heap → Heap
free h = elim h.ar [ [] ↦ h | x ∷ xs ↦ record { capacity = 0; count = 0; ar = [] } ]

-- `Heap(const Heap& src)`
unfoldable pub copy_construct : Heap → Option Heap
copy_construct src = do
  ar ← copy_ar src.ar src.capacity
  some (record { capacity = src.capacity; count = src.count; ar = ar })

-- `Heap(Heap&& src)`
unfoldable pub move_construct : Heap → Option (Heap × Heap)
move_construct src = do h ← copy_construct src; some (h, free src)

-- `operator=(const Heap& src)`; `itself` says that both are the same object.
unfoldable pub copy_assign : Bool → Heap → Heap → Option Heap
copy_assign true this src = some this
copy_assign false this src = do
  ar ← copy_ar src.ar src.capacity
  some (record this { capacity = src.capacity; count = src.count; ar = ar })

-- `operator=(Heap&& rhs)`
unfoldable pub move_assign : Bool → Heap → Heap → Option (Heap × Heap)
move_assign true this rhs = some (this, rhs)
move_assign false this rhs = do
  let freed = free this
  ar ← copy_ar rhs.ar rhs.capacity
  some (record freed { capacity = rhs.capacity; count = rhs.count; ar = ar }, rhs)

copy_ar-all : (src : List ℤ) (n : ℕ) → length src ≡ n → copy_ar src n ≡ some src
unfolding copy_ar
copy_ar-all [] zero h = refl
copy_ar-all [] (suc n) h = absurd (omega arith)
copy_ar-all (x ∷ src) zero h = absurd (omega arith)
copy_ar-all (x ∷ src) (suc n) h = rw (copy_ar-all src n (omega arith)) refl

-- Copying and moving a valid heap stay inside its array and give the same heap, whatever the heap that
-- is assigned to held; the moving constructor frees the other heap, the moving assignment does not.
pub copies-agree :
    (this src : Heap)
    → IsValid src
    → (copy_construct src ≡ some src)
      × (move_construct src ≡ some (src, free src))
      × (copy_assign false this src ≡ some src)
      × (move_assign false this src ≡ some (src, src))
unfolding copy_construct move_construct copy_assign move_assign
copies-agree this src v =
    let e = copy_ar-all src.ar src.capacity v.allocated in
    (rw e refl, rw e refl, rw e refl, rw e refl)
