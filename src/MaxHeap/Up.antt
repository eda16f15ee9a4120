-- ===== src/MaxHeap/Up.antt =====
-- `insert` moves the new value up to its place.
use exec.Base.{
  ℕ, zero, suc, ◌+◌, ◌≤◌, ◌<◌, ◌≡◌, ◌≢◌, refl, ap, ◌∙◌, List, if◌then◌else◌, ◌==◌, arith, inl, inr,
  Bool-cases, length, set, store_at, length-set, get_elem?-eq-get_or, store_at-eq-set, Returns,
  returns, Returns-mono,
}
use exec.Base.Int.{ℤ, pos, ltb_ℤ, ◌≤ℤ◌}
use exec.MaxHeap.{sift_up}
use exec.MaxHeap.Slots.{slot, slot-set, occurs, occurs-set, hit}
use exec.MaxHeap.Order.{parent, IsHeap, put}

-- With `x` in slot `i`, only that slot can be greater than its parent.
record IsRising (n i : ℕ) (x : ℤ) (ar : List ℤ) : Type 0 where
  inside : i < n
  fits : n ≤ length ar
  others : (j : ℕ) → 0 < j → j < n → j ≢ i → put ar i x j ≤ℤ put ar i x (parent j)
  below : (j : ℕ) → 0 < j → j < n → parent j ≡ i → 0 < i → put ar i x j ≤ℤ put ar i x (parent i)

settled :
    (n i : ℕ) (x : ℤ) (ar : List ℤ)
    → IsRising n i x ar
    → (0 < i → x ≤ℤ slot ar (parent i))
    → IsHeap n (set ar i x)
settled n i x ar r top j h k =
    let k_lt : i < length ar = omega (arith, r.inside, r.fits) in
    rw (slot-set ar i j x k_lt, slot-set ar i (parent j) x k_lt)
      (elim (Bool-cases (i == j)) [
        | inl same ↦ ground (arith, top)
        | inr apart ↦ r.others j h k (λ e. ground arith)
      ])

put-set :
    (ar : List ℤ) (i p j : ℕ) (x y : ℤ)
    → i < length ar
    → put (set ar i y) p x j ≡ (if p == j then x else (if i == j then y else slot ar j))
put-set ar i p j x y h = ap (λ k. if p == j then x else k) (slot-set ar i j y h)

risen :
    (n i : ℕ) (x : ℤ) (ar : List ℤ)
    → IsRising n i x ar
    → 0 < i
    → slot ar (parent i) ≤ℤ x
    → IsRising n (parent i) x (set ar i (slot ar (parent i)))
risen n i x ar r h le = record {
  inside = omega (arith, r.inside);
  fits = omega (arith, r.fits, length-set ar i (slot ar (parent i)));
  others = λ j pos_j lt_j away.
      rw
        (
          put-set ar i (parent i) j x (slot ar (parent i)) k_lt,
          put-set ar i (parent i) (parent j) x (slot ar (parent i)) k_lt,
        )
        (elim (Bool-cases (i == j)) [
          | inl same ↦ ground (arith, le, h)
          | inr apart ↦
              ground (
                arith,
                le,
                h,
                away,
                r.others j pos_j lt_j (λ e. ground arith),
                r.below j pos_j lt_j,
              )
        ]);
  below = λ j pos_j lt_j e pos_p.
      rw
        (
          put-set ar i (parent i) j x (slot ar (parent i)) k_lt,
          put-set ar i (parent i) (parent (parent i)) x (slot ar (parent i)) k_lt,
        )
        (elim (Bool-cases (i == j)) [
          | inl same ↦ ground (
            arith,
            le,
            h,
            pos_p,
            r.others (parent i) pos_p (omega (arith, r.inside)) (λ e. ground arith),
          )
          | inr apart ↦ ground (
            arith,
            le,
            h,
            pos_p,
            e,
            r.others (parent i) pos_p (omega (arith, r.inside)) (λ e'. ground arith),
            r.others j pos_j lt_j (λ e'. ground arith),
          )
        ]);
}
  where
    k_lt : i < length ar
    k_lt = omega (arith, r.inside, r.fits)

moved-occurs :
    (n i : ℕ) (x v : ℤ) (ar : List ℤ)
    → IsRising n i x ar
    → 0 < i
    → occurs v n (set (set ar i (slot ar (parent i))) (parent i) x) ≡ occurs v n (set ar i x)
moved-occurs n i x v ar r h =
    let y = slot ar (parent i) in
    let p_lt : parent i < n = omega (arith, r.inside) in
    let k_lt : i < length ar = omega (arith, r.inside, r.fits) in
    let first = occurs-set v y n i ar r.inside k_lt in
    let second =
      occurs-set v x n (parent i) (set ar i y) p_lt (omega (arith, r.fits, length-set ar i y)) in
    let direct = occurs-set v x n i ar r.inside k_lt in
    let kept : slot (set ar i y) (parent i) ≡ y = ground (arith, slot-set ar i (parent i) y k_lt) in
    omega (arith, first, second, direct, ap (hit v) kept)

-- What `insert` does to the array.
abbrev pub IsPlaced : ℕ → ℕ → ℤ → List ℤ → List ℤ → Type 0
IsPlaced n i x ar ar' =
    (length ar' ≡ length ar) × IsHeap n ar' × ((v : ℤ) → occurs v n ar' ≡ occurs v n (set ar i x))

stored :
    (n i : ℕ) (x : ℤ) (ar : List ℤ)
    → IsRising n i x ar
    → (0 < i → x ≤ℤ slot ar (parent i))
    → Returns (IsPlaced n i x ar) (store_at ar i x)
stored n i x ar r top =
    rw (store_at-eq-set ar i x (omega (arith, r.inside, r.fits)))
      (returns (length-set ar i x, settled n i x ar r top, λ v. refl))

sift_up-IsPlaced :
    (fuel i n : ℕ) (x : ℤ) (ar : List ℤ)
    → i < fuel
    → IsRising n i x ar
    → Returns (IsPlaced n i x ar) (sift_up fuel x i ar)
unfolding sift_up
sift_up-IsPlaced zero i n x ar h r = absurd (omega arith)
sift_up-IsPlaced (suc fuel) i n x ar h r = elim (Bool-cases (i == 0)) [
  | inl root ↦ rw root (stored n i x ar r (λ pos_i. ground arith))
  | inr inner ↦
      let pos_i : 0 < i = ground arith in
      let k_lt : i < length ar = omega (arith, r.inside, r.fits) in
      rw (inner, get_elem?-eq-get_or ar (parent i) (pos 0) (omega arith))
        (elim (Bool-cases (ltb_ℤ (slot ar (parent i)) x)) [
          | inl less ↦
              rw (less, store_at-eq-set ar i (slot ar (parent i)) k_lt)
                (Returns-mono
                  (sift_up-IsPlaced fuel (parent i) n x (set ar i (slot ar (parent i)))
                    (omega arith) (risen n i x ar r pos_i (ground arith)))
                  (λ ar' (len, heap, occ). (
                    len ∙ length-set ar i (slot ar (parent i)),
                    heap,
                    λ v. occ v ∙ moved-occurs n i x v ar r pos_i,
                  )))
          | inr fits ↦ rw fits (stored n i x ar r (λ _. ground arith))
        ])
]

pub sift_up_last :
    (n : ℕ) (x : ℤ) (ar : List ℤ)
    → n < length ar
    → IsHeap n ar
    → Returns (IsPlaced (n + 1) n x ar) (sift_up (n + 1) x n ar)
sift_up_last n x ar h heap = sift_up-IsPlaced (n + 1) n (n + 1) x ar (omega arith) (record {
  inside = omega arith;
  fits = omega arith;
  others = λ j pos_j lt_j away. ground (arith, away, heap j pos_j);
  below = λ j pos_j lt_j e pos_n. absurd (omega arith);
})
