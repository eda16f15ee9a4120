-- ===== src/MaxHeap.antt =====
-- `Heap` of Project1/MyTestMain01.cpp: a binary heap in an array. `none` is an access outside the array.
-- `alloc` gives the contents of a new array of the given size.
pub mod Slots
pub mod Order
pub mod Up
pub mod Down
pub mod Valid
pub mod Insert
pub mod Delete
pub mod Print
pub mod Copy
pub mod Commands
pub mod Numbers
pub mod Dialogue
mod Tests
use exec.Base.{
  ℕ, zero, suc, ◌+◌, ◌-◌, ◌*◌, ◌/◌, Option, none, some, List, [], ◌∷◌, Bool, true, false,
  if◌then◌else◌, ◌>>=◌, ◌==◌, ltb, leb, get_elem?, store_at,
}
use exec.Base.Int.{ℤ, pos, negsuc, ltb_ℤ}

-- `struct Heap` without `heapType`, which is never read; `ar` is the array that it points to, and no
-- cell stands for the null pointer.
pub record Heap : Type 0 where
  pub capacity : ℕ
  pub count : ℕ
  pub ar : List ℤ

-- The constructor, of a capacity that is not negative.
unfoldable pub new_heap : (ℕ → List ℤ) → ℕ → Heap
new_heap alloc capacity = record { capacity = capacity; count = 0; ar = alloc capacity }

-- The choice of `max` in `percolateDown`.
unfoldable pub larger : ℕ → List ℤ → ℕ → ℕ → Option ℕ
larger count ar child top =
    if leb count child
    then some top
    else do x ← get_elem? ar child; y ← get_elem? ar top; some (if ltb_ℤ y x then child else top)

unfoldable pub swap : List ℤ → ℕ → ℕ → Option (List ℤ)
swap ar i j = do
  x ← get_elem? ar i
  temp ← get_elem? ar j
  ar' ← store_at ar j x
  store_at ar' i temp

-- `percolateDown`, on fuel; `none` also when it runs out.
unfoldable pub percolate_down : ℕ → ℕ → ℕ → List ℤ → Option (List ℤ)
percolate_down zero count i ar = none
percolate_down (suc fuel) count i ar = if leb count i then some ar else do
  l ← larger count ar (i * 2 + 1) i
  top ← larger count ar (i * 2 + 2) l
  if top == i then some ar else do ar' ← swap ar i top; percolate_down fuel count top ar'

-- The copy of `count` elements in `resize`.
unfoldable pub copy_cells : ℕ → List ℤ → List ℤ → Option (List ℤ)
copy_cells zero old ar = some ar
copy_cells (suc n) [] ar = none
copy_cells (suc n) (x ∷ old) [] = none
copy_cells (suc n) (x ∷ old) (y ∷ ar) = do ar' ← copy_cells n old ar; some (x ∷ ar')

unfoldable pub resize : (ℕ → List ℤ) → Heap → Option Heap
resize alloc h = do
  ar ← copy_cells h.count h.ar (alloc (h.capacity * 2))
  some (record h { capacity = h.capacity * 2; ar = ar })

-- The loop of `insert` with the store behind it, on fuel.
unfoldable pub sift_up : ℕ → ℤ → ℕ → List ℤ → Option (List ℤ)
sift_up zero data_value i ar = none
sift_up (suc fuel) data_value i ar = if i == 0 then store_at ar i data_value else do
  p ← get_elem? ar ((i - 1) / 2)
  if ltb_ℤ p data_value
      then (do ar' ← store_at ar i p; sift_up fuel data_value ((i - 1) / 2) ar')
      else store_at ar i data_value

unfoldable pub insert : (ℕ → List ℤ) → ℤ → Heap → Option Heap
insert alloc data_value h = do
  h' ← if leb h.capacity h.count then resize alloc h else some h
  ar ← sift_up (h'.count + 1) data_value h'.count h'.ar
  some (record h' { count = h'.count + 1; ar = ar })

-- `deleteMax`: its answer and the heap.
unfoldable pub delete_max : Heap → Option (ℤ × Heap)
delete_max h = if h.count == 0 then some (negsuc 0, h) else do
  data_value ← get_elem? h.ar 0
  last ← get_elem? h.ar (h.count - 1)
  ar ← store_at h.ar 0 last
  ar' ← store_at ar (h.count - 1) (pos 0)
  ar'' ← percolate_down h.count (h.count - 1) 0 ar'
  some (data_value, record h { count = h.count - 1; ar = ar'' })

unfoldable pub build_heap : (ℕ → List ℤ) → List ℤ → Heap → Option Heap
build_heap alloc [] h = some h
build_heap alloc (x ∷ xs) h = do h' ← insert alloc x h; build_heap alloc xs h'

abbrev pub is_minus_one : ℤ → Bool
is_minus_one (pos n) = false
is_minus_one (negsuc n) = n == 0

-- The loop of `operator<<`, on fuel, over the copy of the heap.
unfoldable pub print_values : ℕ → Heap → Option (List ℤ)
print_values zero cp = none
print_values (suc fuel) cp = do
  (x, cp') ← delete_max cp
  if is_minus_one x then some [] else do rest ← print_values fuel cp'; some (x ∷ rest)

-- `operator<<`: the values that it prints behind the size.
unfoldable pub print : Heap → Option (List ℤ)
print h = print_values (h.count + 1) h
