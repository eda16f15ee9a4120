-- ===== src/MaxHeap/Slots.antt =====
-- Reading and swapping the slots of an array, and how often a value stands in them.
use exec.Base.{
  ℕ, zero, suc, ◌+◌, ◌≤◌, ◌<◌, ◌≡◌, ◌≢◌, refl, ap, sym, ◌∙◌, some, List, [], ◌∷◌, if◌then◌else◌,
  ◌==◌, arith, inl, inr, Bool-cases, length, get_or, set, length-set, get_elem?-eq-get_or,
  get_or-set_self, get_or-set_ne, store_at-eq-set,
}
use exec.Base.Int.{ℤ, pos, ℤ_discrete}
use exec.MaxHeap.{swap}

abbrev pub slot : List ℤ → ℕ → ℤ
slot ar i = get_or ar i (pos 0)

-- How many of the first `n` slots hold `v`.
abbrev pub hit : ℤ → ℤ → ℕ
hit v x = elim (ℤ_discrete v x) [ yes e ↦ 1 | no e ↦ 0 ]

abbrev pub occurs : ℤ → ℕ → List ℤ → ℕ
occurs v zero ar = 0
occurs v (suc n) [] = 0
occurs v (suc n) (x ∷ ar) = hit v x + occurs v n ar

pub occurs-set :
    (v x : ℤ) (n i : ℕ) (ar : List ℤ)
    → i < n
    → i < length ar
    → occurs v n (set ar i x) + hit v (slot ar i) ≡ occurs v n ar + hit v x
occurs-set v x zero i ar h k = absurd (omega arith)
occurs-set v x (suc n) i [] h k = absurd (omega arith)
occurs-set v x (suc n) zero (y ∷ ar) h k = omega arith
occurs-set v x (suc n) (suc i) (y ∷ ar) h k =
    omega (arith, occurs-set v x n i ar (omega arith) (omega arith))

pub occurs-set_out :
    (v x : ℤ) (n i : ℕ) (ar : List ℤ) → n ≤ i → occurs v n (set ar i x) ≡ occurs v n ar
occurs-set_out v x zero i ar h = refl
occurs-set_out v x (suc n) i [] h = refl
occurs-set_out v x (suc n) zero (y ∷ ar) h = absurd (omega arith)
occurs-set_out v x (suc n) (suc i) (y ∷ ar) h =
    ap (λ k. hit v y + k) (occurs-set_out v x n i ar (omega arith))

pub occurs-last :
    (v : ℤ) (n : ℕ) (ar : List ℤ)
    → n < length ar
    → occurs v (suc n) ar ≡ occurs v n ar + hit v (slot ar n)
occurs-last v n [] h = absurd (omega arith)
occurs-last v zero (y ∷ ar) h = omega arith
occurs-last v (suc n) (y ∷ ar) h = omega (arith, occurs-last v n ar (omega arith))

pub slot-set :
    (ar : List ℤ) (i j : ℕ) (v : ℤ)
    → i < length ar
    → slot (set ar i v) j ≡ (if i == j then v else slot ar j)
slot-set ar i j v h = elim (Bool-cases (i == j)) [
  | inl same ↦ rw same (ap (slot (set ar i v)) (ground arith) ∙ get_or-set_self ar i v (pos 0) h)
  | inr apart ↦ rw apart (get_or-set_ne ar i j v (pos 0) (λ e. ground arith))
]

abbrev pub swapped : List ℤ → ℕ → ℕ → List ℤ
swapped ar i j = set (set ar j (slot ar i)) i (slot ar j)

pub swap-eq :
    (ar : List ℤ) (i j : ℕ) → i < length ar → j < length ar → swap ar i j ≡ some (swapped ar i j)
unfolding swap
swap-eq ar i j h k =
    rw
      (
        get_elem?-eq-get_or ar i (pos 0) h,
        get_elem?-eq-get_or ar j (pos 0) k,
        store_at-eq-set ar j (slot ar i) k,
      )
      (store_at-eq-set (set ar j (slot ar i)) i (slot ar j)
        (omega (arith, length-set ar j (slot ar i))))

pub length-swapped : (ar : List ℤ) (i j : ℕ) → length (swapped ar i j) ≡ length ar
length-swapped ar i j =
    length-set (set ar j (slot ar i)) i (slot ar j) ∙ length-set ar j (slot ar i)

pub slot-swapped :
    (ar : List ℤ) (i j k : ℕ)
    → i < length ar
    → j < length ar
    → slot (swapped ar i j) k
      ≡ (if i == k then slot ar j else (if j == k then slot ar i else slot ar k))
slot-swapped ar i j k h g =
    slot-set (set ar j (slot ar i)) i k (slot ar j) (omega (arith, length-set ar j (slot ar i)))
    ∙ ap (λ x. if i == k then slot ar j else x) (slot-set ar j k (slot ar i) g)

pub occurs-swapped :
    (v : ℤ) (n i j : ℕ) (ar : List ℤ)
    → i < n
    → j < n
    → n ≤ length ar
    → i ≢ j
    → occurs v n (swapped ar i j) ≡ occurs v n ar
occurs-swapped v n i j ar h g k d =
    let first = occurs-set v (slot ar i) n j ar g (omega arith) in
    let second =
      occurs-set v (slot ar j) n i (set ar j (slot ar i)) h
        (omega (arith, length-set ar j (slot ar i))) in
    let same : slot (set ar j (slot ar i)) i ≡ slot ar i =
      get_or-set_ne ar j i (slot ar i) (pos 0) (λ e. d (sym e)) in
    omega (arith, first, second, ap (hit v) same)
