-- ===== src/MaxHeap/Print.antt =====
-- What `operator<<` prints of a valid heap.
use exec.Base.{
  ℕ, zero, suc, ◌+◌, ◌≤◌, ◌<◌, ◌≡◌, refl, ap, sym, subst, some, List, [], ◌∷◌, Bool, true, false,
  if◌then◌else◌, ◌==◌, arith, inl, inr, Bool-cases, length, ◌>>=◌, Returns, returns, Returns-mono,
  Returns->>=,
}
use exec.Base.Int.{ℤ, pos, negsuc, ℤ_discrete, ◌≤ℤ◌}
use exec.MaxHeap.{Heap, print, print_values, is_minus_one}
use exec.MaxHeap.Slots.{slot, occurs, hit}
use exec.MaxHeap.Valid.{IsValid, how_many}
use exec.MaxHeap.Delete.{IsDeleted, delete_max-IsDeleted, delete_max-empty, root_greatest}

-- Each value is at most the one before it, the first at most `b`.
abbrev pub Descends : ℤ → List ℤ → Type 0
Descends b [] = Unit
Descends b (x ∷ xs) = (x ≤ℤ b) × Descends x xs

-- How often `v` was printed.
abbrev pub printed : ℤ → List ℤ → ℕ
printed v [] = 0
printed v (x ∷ xs) = hit v x + printed v xs

hit_self : (v : ℤ) → hit v v ≡ 1
hit_self v = elim (ℤ_discrete v v) as (λ d. ◌≡◌ {A = ℕ} (elim d [ yes e ↦ 1 | no e ↦ 0 ]) 1) [
  | yes e ↦ refl
  | no e ↦ absurd (e refl)
]

slot-occurs : (n j : ℕ) (ar : List ℤ) → j < n → n ≤ length ar → 0 < occurs (slot ar j) n ar
slot-occurs zero j ar h k = absurd (omega arith)
slot-occurs (suc n) j [] h k = absurd (omega arith)
slot-occurs (suc n) zero (y ∷ ar) h k = omega (arith, hit_self y)
slot-occurs (suc n) (suc j) (y ∷ ar) h k =
    omega (arith, slot-occurs n j ar (omega arith) (omega arith))

-- A value that occurs stands in a slot.
occurs-slot :
    (v : ℤ) (n : ℕ) (ar : List ℤ) → 0 < occurs v n ar → (j : ℕ) × (j < n) × (slot ar j ≡ v)
occurs-slot v zero ar h = absurd (omega arith)
occurs-slot v (suc n) [] h = absurd (omega arith)
occurs-slot v (suc n) (y ∷ ar) h = here (occurs-slot v n ar) (ℤ_discrete v y) refl
  where
    here :
        (0 < occurs v n ar → (j : ℕ) × (j < n) × (slot ar j ≡ v))
        → (d : Dec (v ≡ y)) → d ≡ ℤ_discrete v y
        → (j : ℕ) × (j < suc n) × (slot (y ∷ ar) j ≡ v)
    here later (yes e) q = (0, omega arith, sym e)
    here later (no e) q = let (j, k, s) = later (ground (arith, q)) in (suc j, omega arith, s)

IsBelow : ℤ → Heap → Type 0
IsBelow b h = (j : ℕ) → j < h.count → slot h.ar j ≤ℤ b

rest-IsBelow : {h h' : Heap} {x : ℤ} → IsDeleted h x h' → IsBelow x h'
unfolding IsBelow
rest-IsBelow {h} {h'} {x} d j k =
    let w = slot h'.ar j in
    let there = slot-occurs h'.count j h'.ar k (omega (arith, d.valid.room, d.valid.allocated)) in
    let (i, l, e) = occurs-slot w h.count h.ar (omega (arith, there, d.contents w)) in
    subst (λ y. y ≤ℤ x) e (d.greatest i l)

-- What is printed of the heap `h`, with the values at most `b`.
record IsListing (b : ℤ) (h : Heap) (xs : List ℤ) : Type 0 where
  descends : Descends b xs
  some_of : (v : ℤ) → printed v xs ≤ how_many v h
  all_of : how_many (negsuc 0) h ≡ 0 → (v : ℤ) → printed v xs ≡ how_many v h

nothing_left : (v : ℤ) (h : Heap) → h.count ≡ 0 → how_many v h ≡ 0
nothing_left v h e = ap (λ n. occurs v n h.ar) e

extended :
    (b x : ℤ) (h h' : Heap) (xs : List ℤ)
    → IsBelow b h
    → IsValid h
    → IsDeleted h x h'
    → x ≤ℤ b
    → IsListing x h' xs
    → IsListing b h (x ∷ xs)
extended b x h h' xs v valid d le l = record {
  descends = (le, l.descends);
  some_of = λ w. omega (arith, l.some_of w, d.contents w);
  all_of = λ none_in w.
      omega (arith, l.all_of (omega (arith, d.contents (negsuc 0), none_in)) w, d.contents w);
}

deleted-below : (b : ℤ) {x : ℤ} {h h' : Heap} → IsBelow b h → IsValid h → IsDeleted h x h' → x ≤ℤ b
unfolding IsBelow
deleted-below b {x} {h} {h'} below v d =
    let (j, k, e) = occurs-slot x h.count h.ar (omega (arith, d.contents x, hit_self x)) in
    subst (λ y. y ≤ℤ b) e (below j k)

minus_one : (x : ℤ) → is_minus_one x ≡ true → x ≡ negsuc 0
minus_one (pos n) q = cc
minus_one (negsuc n) q = ap negsuc (ground arith)

print_values-IsListing :
    (fuel : ℕ) (b : ℤ) (h : Heap)
    → h.count < fuel
    → IsValid h
    → IsBelow b h
    → Returns (IsListing b h) (print_values fuel h)
unfolding print_values
print_values-IsListing zero b h f v below = absurd (omega arith)
print_values-IsListing (suc fuel) b h f v below = elim (Bool-cases (h.count == 0)) [
  | inl empty ↦ rw (delete_max-empty h (ground arith)) (
      returns (record {
        descends = tt;
        some_of = λ w. omega arith;
        all_of = λ _ w. sym (nothing_left w h (ground arith));
      }))
  | inr more ↦ Returns->>= (delete_max-IsDeleted h v (ground arith)) (λ (x, h') d.
      by_value x h' d (is_minus_one x) refl
        (print_values-IsListing fuel x h' (omega (arith, d.counted)) d.valid (rest-IsBelow d)))
]
  where
    by_value :
        (x : ℤ) (h' : Heap)
        → IsDeleted h x h'
        → (e : Bool) → is_minus_one x ≡ e
        → Returns (IsListing x h') (print_values fuel h')
        → Returns
            (IsListing b h)
            (if e then some [] else (do rest ← print_values fuel h'; some (x ∷ rest)))
    by_value x h' d true q r = returns (record {
      descends = tt;
      some_of = λ w. omega arith;
      all_of = λ none_in w. absurd (
          omega (
            arith,
            none_in,
            d.contents (negsuc 0),
            hit_self (negsuc 0),
            ap (hit (negsuc 0)) (minus_one x q),
          ));
    })
    by_value x h' d false q r =
        Returns->>= r
          (λ xs l. returns (extended b x h h' xs below v d (deleted-below b below v d) l))

-- The values of a listing, each at most the one before it.
abbrev pub IsDescending : List ℤ → Type 0
IsDescending [] = Unit
IsDescending (x ∷ xs) = Descends x xs

descending : (b : ℤ) (xs : List ℤ) → Descends b xs → IsDescending xs
descending b [] d = tt
descending b (x ∷ xs) d = d.1

-- `operator<<` of a valid heap terminates inside the array and prints values in descending order,
-- none more often than the heap holds it, and all of them if the heap does not hold -1, which ends the
-- printing.
pub print-IsDescending :
    (h : Heap)
    → IsValid h
    → Returns
        (λ xs.
          IsDescending xs
          × ((v : ℤ) → printed v xs ≤ how_many v h)
          × (how_many (negsuc 0) h ≡ 0 → (v : ℤ) → printed v xs ≡ how_many v h))
        (print h)
unfolding print IsBelow
print-IsDescending h v =
    Returns-mono
      (print_values-IsListing (h.count + 1) (slot h.ar 0) h (omega arith) v
        (λ j k. root_greatest (suc j) h.count h.ar j (omega arith) v.ordered k))
      (λ xs l. (descending (slot h.ar 0) xs l.descends, l.some_of, l.all_of))
