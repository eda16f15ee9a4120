-- ===== src/Sort/Rank.antt =====
-- `compare_int` and the choice of a pivot in `partition`: the median of three random positions.
use exec.Base.{
  ℕ, ◌+◌, ◌-◌, ◌%◌, ◌≤◌, ◌≡◌, max, min, refl, Bool, true, false, Option, some, [], ◌∷◌, arith,
  if◌then◌else◌, ◌>>=◌, get_elem?,
}
use exec.Base.Int.{ℤ, pos, negsuc, ltb_ℤ}
use exec.Sort.{is_positive, issort, issort_loop, shift}
use exec.Sort.Insertion.{IsOrder}

-- `compare_int`
unfoldable pub compare_int : ℤ → ℤ → ℤ
compare_int a b = if ltb_ℤ b a then pos 1 else if ltb_ℤ a b then negsuc 0 else pos 0

-- The comparison of `int` that `partition` hands to `issort` is an order.
pub compare_int-IsOrder : IsOrder compare_int
unfolding compare_int is_positive
compare_int-IsOrder = record { trans = λ x y z p q. ground arith; asym = λ x y p. ground arith }

-- `(rand() % (k - i + 1)) + i`
unfoldable pub position : ℕ → ℕ → ℕ → ℕ
position i k rand = rand % (k - i + 1) + i

-- `r[1]` after `issort(r, 3, sizeof(int), compare_int)`, whose status is dropped.
unfoldable pub pivot : Bool → ℕ → ℕ → ℕ → ℕ → ℕ → Option ℤ
pivot allocated i k rand0 rand1 rand2 = do
  (_, r) ←
      issort compare_int allocated
        (pos (position i k rand0) ∷ pos (position i k rand1) ∷ pos (position i k rand2) ∷ []) 3
  get_elem? r 1

unfoldable pub median : ℕ → ℕ → ℕ → ℕ
median a b c = max (min a b) (min (max a b) c)

sort_three :
    (a b c : ℕ)
    → (do (_, r) ← issort compare_int true (pos a ∷ pos b ∷ pos c ∷ []) 3; get_elem? r 1)
      ≡ some (pos (median a b c))
unfolding issort issort_loop shift compare_int is_positive median
sort_three a b c = ground arith

-- The pivot is the median of the three random positions (the second of them if `issort` has no
-- buffer), and lies between `i` and `k` whatever the random numbers are.
pub pivot-median :
    (allocated : Bool) (i k rand0 rand1 rand2 : ℕ)
    → i ≤ k
    → (m : ℕ) × (pivot allocated i k rand0 rand1 rand2 ≡ some (pos m))
      × (i ≤ m)
      × (m ≤ k)
      × (m ≡ (
          if allocated
          then median (position i k rand0) (position i k rand1) (position i k rand2)
          else position i k rand1))
unfolding pivot position median
pivot-median false i k rand0 rand1 rand2 h =
    (rand1 % (k - i + 1) + i, unfold issort in refl, omega arith, omega arith, refl)
pivot-median true i k rand0 rand1 rand2 h = (
  median (position i k rand0) (position i k rand1) (position i k rand2),
  sort_three (position i k rand0) (position i k rand1) (position i k rand2),
  omega arith,
  omega arith,
  refl,
)
