-- ===== src/Bounce/Axis.antt =====
-- Where a face stands on one axis: inside, or outside for one round only.
use exec.Base.{
  ℕ, zero, suc, ◌+◌, ◌<◌, ◌≤◌, ◌≡◌, ◌⊎◌, inl, inr, refl, Bool, true, false, arith, if◌then◌else◌,
}
use exec.Base.Int.{ℤ, pos, negsuc, pos_part, neg_part}
use exec.Bounce.{◌+ℤ◌, negate, short}
use exec.Bounce.Faces.{move_along}

-- From 0 on and below `limit`
abbrev pub IsInside : ℕ → ℤ → Type 0
IsInside limit at = (neg_part at ≡ 0) × (pos_part at < limit)

-- `at` and `by` add up to a place inside.
abbrev pub IsBack : ℕ → ℤ → ℤ → Type 0
IsBack limit at by =
    (neg_part at + neg_part by ≤ pos_part at + pos_part by)
    × (pos_part at + pos_part by < limit + neg_part at + neg_part by)

-- At most three cells a round; inside, or outside by at most three cells and inside after the next move.
pub record IsOn (limit : ℕ) (at by : ℤ) : Type 0 where
  pub right_by : pos_part by ≤ 3
  pub left_by : neg_part by ≤ 3
  pub not_above : pos_part at < limit + 3
  pub not_under : neg_part at ≤ 3
  pub place : IsInside limit at ⊎ IsBack limit at by

pub part-zero : (z : ℤ) → (pos_part z ≡ 0) ⊎ (neg_part z ≡ 0)
part-zero (pos n) = inr refl
part-zero (negsuc n) = inl refl

pub parts-add :
    (a b : ℤ)
    → pos_part (a +ℤ b) + neg_part a + neg_part b ≡ pos_part a + pos_part b + neg_part (a +ℤ b)
parts-add (pos a) (pos b) = omega arith
parts-add (pos a) (negsuc b) = ground arith
parts-add (negsuc a) (pos b) = ground arith
parts-add (negsuc a) (negsuc b) = omega arith

parts-negate : (z : ℤ) → (pos_part (negate z) ≡ neg_part z) × (neg_part (negate z) ≡ pos_part z)
parts-negate (pos zero) = (refl, refl)
parts-negate (pos (suc n)) = (refl, refl)
parts-negate (negsuc n) = (refl, refl)

pub short-eq : (z : ℤ) → pos_part z < 32768 → neg_part z ≤ 32768 → short z ≡ z
short-eq (pos n) h k = ground arith
short-eq (negsuc n) h k = ground arith

-- What is known of the sum of a place and the increment.
abbrev IsNext : ℕ → ℤ → ℤ → ℤ → Type 0
IsNext limit at by z =
    (pos_part z + neg_part at + neg_part by ≡ pos_part at + pos_part by + neg_part z)
    × (pos_part z < limit + 3)
    × (neg_part z ≤ 3)

sum-IsNext : (limit : ℕ) (at by : ℤ) → IsOn limit at by → IsNext limit at by (at +ℤ by)
sum-IsNext limit at by on =
    let sum = parts-add at by in
    elim on.place [
      | inl within ↦ elim (part-zero (at +ℤ by)) [
        | inl a ↦ elim (part-zero by) [
          | inl b ↦ (sum, omega (arith, on.left_by), omega (arith, on.left_by))
          | inr b ↦ (sum, omega (arith, on.left_by), omega (arith, on.left_by))
        ]
        | inr a ↦ (sum, omega (arith, on.right_by), omega (arith, on.right_by))
      ]
      | inr back ↦ elim (part-zero (at +ℤ by)) [
        | inl a ↦ (sum, omega arith, omega arith)
        | inr a ↦ (sum, omega arith, omega arith)
      ]
    ]

-- A move that leads out leads from a place inside, so the reversed increment leads back.
turned-IsOn :
    (limit : ℕ) (at by z : ℤ)
    → IsOn limit at by
    → IsNext limit at by z
    → (0 < neg_part z) ⊎ (limit ≤ pos_part z)
    → IsOn limit z (negate by)
turned-IsOn limit at by z on (sum, above, under) out =
    let (p, n) = parts-negate by in
    let was_inside : IsInside limit at = elim on.place [
      | inl within ↦ within
      | inr back ↦ elim (part-zero z) [
        | inl a ↦ elim out [ inl l ↦ absurd (omega arith) | inr l ↦ absurd (omega arith) ]
        | inr a ↦ elim out [ inl l ↦ absurd (omega arith) | inr l ↦ absurd (omega arith) ]
      ]
    ] in
    record {
      right_by = omega (arith, p, on.left_by);
      left_by = omega (arith, n, on.right_by);
      not_above = above;
      not_under = under;
      place = inr (omega (arith, p, n, was_inside), omega (arith, p, n, was_inside));
    }

module _ (limit : ℕ) (outside : ℤ → Bool) where
  -- `outside` is the test for `limit`.
  abbrev pub Tests : Type 0
  Tests =
      (z : ℤ)
      → ((outside z ≡ true) × ((0 < neg_part z) ⊎ (limit ≤ pos_part z)))
        ⊎ ((outside z ≡ false) × IsInside limit z)

  pub move-IsOn :
      limit ≤ 32764
      → Tests
      → (at by : ℤ) → IsOn limit at by
      → IsOn limit ((move_along outside at by).0) ((move_along outside at by).1)
  move-IsOn small test at by on =
      rw
        (
          short-eq (at +ℤ by) (omega (arith, near)) (omega (arith, near)),
          short-eq (negate by) (omega (arith, parts-negate by, on.left_by))
              (omega (arith, parts-negate by, on.right_by)),
        )
        (turned (at +ℤ by) near (test (at +ℤ by)))
    where
      near : IsNext limit at by (at +ℤ by)
      near = sum-IsNext limit at by on

      turned :
          (z : ℤ)
          → IsNext limit at by z
          → ((outside z ≡ true) × ((0 < neg_part z) ⊎ (limit ≤ pos_part z)))
            ⊎ ((outside z ≡ false) × IsInside limit z)
          → IsOn limit z (if outside z then negate by else by)
      turned z n (inl (e, out)) = rw e (turned-IsOn limit at by z on n out)
      turned z n (inr (e, within)) = rw e (record {
        right_by = on.right_by;
        left_by = on.left_by;
        not_above = omega (arith, within);
        not_under = omega (arith, within);
        place = inl within;
      })
