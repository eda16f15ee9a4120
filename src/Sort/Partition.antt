-- ===== src/Sort/Partition.antt =====
-- `partition` and `qksort`.
use exec.Base.{
  ℕ, zero, suc, ◌+◌, ◌≡◌, Bool, true, false, Option, none, some, List, [], ◌∷◌, arith,
  if◌then◌else◌, ◌>>=◌, length, get_elem?, store_at, leb, ltb,
}
use exec.Base.Int.{ℤ, pos, negsuc, pos_part}
use exec.Sort.{is_positive, is_nonzero}
use exec.Sort.Rank.{pivot, position, median, pivot-median}

-- What the environment decides in one call of `partition`: the three allocations (the element
-- buffers and the one of `issort`) and the three random numbers.
pub record Chance : Type 0 where
  pub pval_allocated : Bool
  pub temp_allocated : Bool
  pub key_allocated : Bool
  pub rand0 : ℕ
  pub rand1 : ℕ
  pub rand2 : ℕ

module _ {A : Type 0} (compare : A → A → ℤ) where
  -- `do { k--; } while (compare(&a[k], pval) > 0)`
  pub scan_down : List A → A → ℕ → Option ℕ
  scan_down a pval zero = none
  scan_down a pval (suc k) = do
    v ← get_elem? a k
    let rest = scan_down a pval k
    if is_positive (compare v pval) then rest else some k

  -- `do { i++; } while (compare(&a[i], pval))`, started in front of `i`. Behind the array every
  -- read is a fault, so as many rounds as there are elements are enough.
  pub scan_up : ℕ → List A → A → ℕ → Option ℕ
  scan_up zero a pval i = none
  scan_up (suc fuel) a pval i = do
    v ← get_elem? a i
    let rest = scan_up fuel a pval (i + 1)
    if is_nonzero (compare v pval) then rest else some i

  -- The loop of `partition`, before its decrement of `k` and its increment of `i`.
  pub exchange : ℕ → List A → A → ℕ → ℕ → Option (ℕ × List A)
  unfolding scan_down scan_up
  exchange zero a pval i k = none
  exchange (suc fuel) a pval i k = do
    k' ← scan_down a pval k
    i' ← scan_up (length a) a pval i
    if leb k' i' then some (k', a) else do
      x ← get_elem? a i'
      y ← get_elem? a k'
      a' ← store_at a i' y
      a'' ← store_at a' k' x
      exchange fuel a'' pval (i' + 1) k'

  -- The body of `partition` once both buffers are there.
  chosen : Chance → List A → ℕ → ℕ → Option (ℤ × List A)
  unfolding exchange
  chosen c a i k = do
    p ← pivot c.key_allocated i k c.rand0 c.rand1 c.rand2
    pval ← get_elem? a (pos_part p)
    (j, a') ← exchange (k + 1) a pval i (k + 1)
    some (pos j, a')

  -- `partition` of `a[i..k]`
  pub partition : Chance → List A → ℕ → ℕ → Option (ℤ × List A)
  unfolding chosen
  partition c a i k =
      if c.pval_allocated
      then (if c.temp_allocated then chosen c a i k else some (negsuc 0, a))
      else some (negsuc 0, a)

-- How a call of `qksort` ends: with a status, or not within the rounds and the chances given.
pub data Outcome (A : Type 0) : Type 0 where
  returned : ℤ → List A → List Chance → Outcome A
  faulted : Outcome A
  unfinished : Outcome A

module _ {A : Type 0} (compare : A → A → ℤ) where
  -- `qksort` of `a[i..k]`. Each `partition` takes the next chance; the recursive call and the loop's
  -- next round take fuel.
  pub qksort : ℕ → List Chance → List A → ℕ → ℕ → Outcome A
  qksort zero cs a i k = unfinished
  qksort (suc fuel) cs a i k = elim (ltb i k) [
    | false ↦ returned (pos 0) a cs
    | true ↦ elim cs [
      | [] ↦ unfinished
      | c ∷ cs' ↦ elim (partition compare c a i k) [
        | none ↦ faulted
        | some (negsuc n, a') ↦ returned (negsuc 0) a' cs'
        | some (pos j, a') ↦ elim (qksort fuel cs' a' i j) [
          | faulted ↦ faulted
          | unfinished ↦ unfinished
          | returned (negsuc n) a'' cs'' ↦ returned (negsuc 0) a'' cs''
          | returned (pos n) a'' cs'' ↦ qksort fuel cs'' a'' (j + 1) k
        ]
      ]
    ]
  ]

  -- Three elements in decreasing order, with the middle one for a pivot: the upward scan stops only
  -- at an element equal to the pivot, so it passes the greatest element `z`, and the returned split
  -- leaves `z` in the left part and `y` alone in the right one.
  pub partition_misplaces :
      (x y z : A)
      → is_positive (compare x y) ≡ false
      → is_nonzero (compare z y) ≡ true
      → is_nonzero (compare y y) ≡ false
      → (rand0 rand1 rand2 : ℕ)
      → median (position 0 2 rand0) (position 0 2 rand1) (position 0 2 rand2) ≡ 1
      → partition compare
          (record {
            pval_allocated = true;
            temp_allocated = true;
            key_allocated = true;
            rand0 = rand0;
            rand1 = rand1;
            rand2 = rand2;
          })
          (z ∷ y ∷ x ∷ [])
          0
          2
        ≡ some (pos 1, z ∷ x ∷ y ∷ [])
  unfolding partition exchange scan_down scan_up
  partition_misplaces x y z xy zy yy rand0 rand1 rand2 m =
      let (p, e, lo, hi, q) = pivot-median true 0 2 rand0 rand1 rand2 (omega arith) in
      rw (e, q, m, xy, zy, yy, xy, yy)
