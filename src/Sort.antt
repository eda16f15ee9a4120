-- ===== src/Sort.antt =====
-- MyUtil/MySort.c: insertion sort, and the partition and recursion of the quicksort, over an array
-- of elements compared by a function that the caller passes. `none` is an access outside the array.
pub mod Insertion
pub mod Rank
pub mod Partition
mod Tests
use exec.Base.{
  ℕ, zero, suc, ◌+◌, ◌-◌, ◌%◌, Option, none, some, List, [], ◌∷◌, Bool, true, false, get_elem?,
  store_at, if◌then◌else◌, ◌>>=◌, leb, ltb, ◌==◌, length,
}
use exec.Base.Int.{ℤ, pos, negsuc, ltb_ℤ}

-- `compare(..) > 0`
unfoldable pub is_positive : ℤ → Bool
is_positive c = ltb_ℤ (pos 0) c

-- A test of an `int` in a condition.
unfoldable pub is_nonzero : ℤ → Bool
is_nonzero (pos zero) = false
is_nonzero (pos (suc n)) = true
is_nonzero (negsuc n) = true

module _ {A : Type 0} (compare : A → A → ℤ) where
  -- The inner loop of `issort` with `i + 1` for `i`, and the write that follows it.
  pub shift : List A → A → ℕ → Option (List A)
  shift a key zero = store_at a 0 key
  shift a key (suc i) = do
    v ← get_elem? a i
    if is_positive (compare v key)
        then (do a' ← store_at a (i + 1) v; shift a' key i)
        else store_at a (i + 1) key

  -- The outer loop, with `rounds` for `size - j`.
  pub issort_loop : ℕ → List A → ℕ → Option (List A)
  unfolding shift
  issort_loop zero a j = some a
  issort_loop (suc rounds) a j = do
    key ← get_elem? a j
    a' ← shift a key j
    issort_loop rounds a' (j + 1)

  -- `issort`: `allocated` says whether `malloc` gave the element buffer.
  pub issort : Bool → List A → ℕ → Option (ℤ × List A)
  unfolding issort_loop
  issort false a size = some (negsuc 0, a)
  issort true a size = do a' ← issort_loop (size - 1) a 1; some (pos 0, a')
