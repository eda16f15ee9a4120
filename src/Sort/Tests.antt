-- ===== src/Sort/Tests.antt =====
-- Runs of the sorts, and their theorems at them.
use exec.Base.{
  ℕ, ◌≤◌, ◌≡◌, refl, Bool, true, false, List, [], ◌∷◌, some, ◌⊎◌, Returns, arith, if◌then◌else◌,
}
use exec.Base.Int.{ℤ, pos, negsuc}
use exec.Sort.{issort, issort_loop, shift, is_positive}
use exec.Sort.Insertion.{SortedTo, issort-SortedTo}
use exec.Sort.Rank.{compare_int, compare_int-IsOrder, pivot, position, median, pivot-median}

abbrev mixed : List ℤ
mixed = pos 3 ∷ negsuc 1 ∷ pos 7 ∷ pos 0 ∷ pos 5 ∷ []

-- The fifth element is not sorted.
issort_four :
    issort compare_int true mixed 4 ≡ some (pos 0, negsuc 1 ∷ pos 0 ∷ pos 3 ∷ pos 7 ∷ pos 5 ∷ [])
unfolding issort issort_loop shift compare_int is_positive
issort_four = refl

issort-SortedTo_example :
    Returns
      (λ (status, a').
        (◌≡◌ {A = Bool} true true × (status ≡ pos 0) × SortedTo compare_int 4 mixed a')
        ⊎ (◌≡◌ {A = Bool} true false × (status ≡ negsuc 0) × (a' ≡ mixed)))
      (issort compare_int true mixed 4)
issort-SortedTo_example = issort-SortedTo compare_int mixed 4 true compare_int-IsOrder (omega arith)

pivot-median_example :
    (m : ℕ) × (pivot true 2 9 100 35 6 ≡ some (pos m))
    × (2 ≤ m)
    × (m ≤ 9)
    × (m ≡ (
        if true
        then median (position 2 9 100) (position 2 9 35) (position 2 9 6)
        else position 2 9 35))
pivot-median_example = pivot-median true 2 9 100 35 6 (omega arith)
