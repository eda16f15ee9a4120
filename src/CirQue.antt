-- ===== src/CirQue.antt =====
-- MyUtil/MyCircleQueue.c: a circular queue of `int` over a block obtained from `malloc`.
-- `none` is an access outside the block. `int` fields that the code keeps non-negative are numbers.
pub mod Ring
pub mod Refine
pub mod Menu
mod Tests
use exec.Base.{
  ℕ, zero, suc, ◌+◌, ◌-◌, ◌%◌, Option, none, some, List, Bool, [], ◌∷◌, get_elem?, store_at,
  if◌then◌else◌, ◌>>=◌, ◌==◌, ltb,
}
use exec.Base.Int.{ℤ, pos, negsuc}

-- `CirQue_`, less its function pointers, which `main` sets once to the functions below.
pub record CirQue : Type 0 where
  pub cells : List ℤ
  pub front : ℕ
  pub rear : ℕ
  pub count : ℕ
  pub capacity : ℕ

-- `initCirQue`: `block` is what `malloc` returned. No other field is written.
pub init : Option (List ℤ) → CirQue → ℤ × CirQue
init none que = (negsuc 0, record que { cells = [] })
init (some block) que = (pos 0, record que { cells = block })

-- `insertCirQue`
pub insert : CirQue → ℤ → Option (ℤ × CirQue)
insert que new_data = if que.count == que.capacity then some (negsuc 0, que) else do
  cells' ← store_at que.cells que.rear new_data
  some (
    pos 0,
    record que { cells = cells'; rear = (que.rear + 1) % que.capacity; count = que.count + 1 },
  )

-- `removeCirQue`: `out` is `*data`, which an empty queue leaves as it was.
pub remove : CirQue → ℤ → Option (ℤ × ℤ × CirQue)
remove que out = if que.count == 0 then some (negsuc 0, out, que) else do
  v ← get_elem? que.cells que.front
  some (pos 0, v, record que { front = (que.front + 1) % que.capacity; count = que.count - 1 })

-- The loop of `printCirQue`: `j` counts down and `i` stays where it was.
print_loop : List ℤ → ℕ → ℕ → Option (List ℤ)
print_loop cells i zero = some []
print_loop cells i (suc j) = do v ← get_elem? cells i; vs ← print_loop cells i j; some (v ∷ vs)

-- `printCirQue`: the status, the printed size and the printed values.
pub print : CirQue → Option (ℤ × ℕ × List ℤ)
unfolding print_loop
print que =
    if ltb que.count 1
    then some (negsuc 0, que.count, [])
    else do vs ← print_loop que.cells que.front que.count; some (pos 0, que.count, vs)
