-- ===== src/CirQue/Refine.antt =====
-- insertCirQue, removeCirQue and printCirQue against a bounded first-in first-out queue.
use native.Mathlib.Nat.{mod-add-mod}
use exec.Base.{
  ℕ, zero, suc, ◌+◌, ◌-◌, ◌%◌, ◌≤◌, ◌<◌, ◌≡◌, refl, ap, inl, inr, some, List, [], ◌∷◌, ◌++◌, arith,
  if◌then◌else◌, ◌==◌, Bool-cases, Returns, returns, length, get_or, replicate, length-set,
  get_elem?-eq-get_or, store_at-eq-set,
}
use exec.Base.Int.{ℤ, pos, negsuc}
use exec.CirQue.{CirQue, insert, remove, print_loop, print}
use exec.CirQue.Ring.{slots, length-slots, slots-pos, slots-append}

-- The block is as long as the capacity says, and `rear` is `count` slots behind `front`.
pub record IsValid (que : CirQue) : Type 0 where
  pub room : que.capacity ≤ length que.cells
  pub front_in : que.front < que.capacity
  pub fits : que.count ≤ que.capacity
  pub rear_at : que.rear ≡ (que.front + que.count) % que.capacity

abbrev pub contents : CirQue → List ℤ
contents que = slots que.cells que.capacity que.front que.count

-- The queue that a client sees: a list of at most `cap` values, oldest first.
unfoldable pub enqueue : ℕ → List ℤ → ℤ → ℤ × List ℤ
enqueue cap q v = if length q == cap then (negsuc 0, q) else (pos 0, q ++ (v ∷ []))

unfoldable pub dequeue : List ℤ → ℤ → ℤ × ℤ × List ℤ
dequeue [] out = (negsuc 0, out, [])
dequeue (v ∷ q) out = (pos 0, v, q)

round : (size i n k : ℕ) → k ≡ (i + n) % size → (k + 1) % size ≡ (i + (n + 1)) % size
round size i n k e = rw (e, mod-add-mod) (ap (λ j. j % size) (omega arith))

round' : (size i n : ℕ) → 0 < n → (i + n) % size ≡ ((i + 1) % size + (n - 1)) % size
round' size i n h = rw mod-add-mod (ap (λ j. j % size) (omega arith))

-- `insertCirQue` on a valid queue stays inside its block, leaves a valid queue of the same capacity,
-- and answers and changes the contents as the bounded queue does: a full queue is left alone.
pub insert_refines :
    (que : CirQue) (v : ℤ)
    → IsValid que
    → Returns
        (λ (status, after).
          IsValid after
          × (after.capacity ≡ que.capacity)
          × ((status, contents after) ≡ enqueue que.capacity (contents que) v))
        (insert que v)
unfolding insert enqueue
insert_refines que v h = elim (Bool-cases (que.count == que.capacity)) [
  | inl full ↦
      rw full
        (returns (h, refl, ground (arith, length-slots que.cells que.capacity que.front que.count)))
  | inr more ↦
      rw (more, store_at-eq-set que.cells que.rear v (omega arith))
        (returns (
          ground (
            arith,
            length-set que.cells que.rear v,
            round que.capacity que.front que.count que.rear h.rear_at,
          ),
          refl,
          ground (
            arith,
            length-slots que.cells que.capacity que.front que.count,
            slots-append que.cells que.capacity v que.count que.front que.rear,
          ),
        ))
]

-- `removeCirQue` on a valid queue stays inside its block, leaves a valid queue of the same capacity,
-- and takes the oldest value; on an empty queue it answers -1 and leaves `*data` and the queue alone.
pub remove_refines :
    (que : CirQue) (out : ℤ)
    → IsValid que
    → Returns
        (λ (status, out', after).
          IsValid after
          × (after.capacity ≡ que.capacity)
          × ((status, out', contents after) ≡ dequeue (contents que) out))
        (remove que out)
unfolding remove dequeue
remove_refines que out h = elim (Bool-cases (que.count == 0)) [
  | inl empty ↦ rw empty (returns (h, refl, ground arith))
  | inr more ↦
      rw (more, get_elem?-eq-get_or que.cells que.front (pos 0) (omega arith))
        (returns (
          ground (arith, round' que.capacity que.front que.count),
          refl,
          ground (arith, slots-pos que.cells que.capacity que.front que.count),
        ))
]

print_loop-replicate :
    (cells : List ℤ) (i : ℕ) (j : ℕ)
    → i < length cells
    → print_loop cells i j ≡ some (replicate j (get_or cells i (pos 0)))
unfolding print_loop
print_loop-replicate cells i zero h = refl
print_loop-replicate cells i (suc j) h =
    ground (arith, get_elem?-eq-get_or cells i (pos 0), print_loop-replicate cells i j)

-- What `printCirQue` prints.
unfoldable pub printed : List ℤ → ℤ × ℕ × List ℤ
printed [] = (negsuc 0, 0, [])
printed (v ∷ q) = (pos 0, length (v ∷ q), replicate (length (v ∷ q)) v)

-- `printCirQue` on a valid queue reports the right size, and prints the oldest value that many
-- times instead of the values of the queue.
pub print_repeats_oldest : (que : CirQue) → IsValid que → print que ≡ some (printed (contents que))
unfolding print printed
print_repeats_oldest que h = elim (Bool-cases (que.count == 0)) [
  | inl empty ↦ ground arith
  | inr more ↦ ground (
    arith,
    slots-pos que.cells que.capacity que.front que.count,
    length-slots que.cells que.capacity ((que.front + 1) % que.capacity) (que.count - 1),
    print_loop-replicate que.cells que.front que.count,
  )
]
