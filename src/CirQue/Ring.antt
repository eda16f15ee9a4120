-- ===== src/CirQue/Ring.antt =====
-- The slots of a circular block that are in use, oldest first, and what a write just behind them does.
use native.Mathlib.Nat.{mod-eq_of_lt, mod-eq-sub-mod, mod-add-mod}
use native.Mathlib.Decide.{dec_lt}
use exec.Base.{
  ℕ, zero, suc, ◌+◌, ◌-◌, ◌%◌, ◌≤◌, ◌<◌, ◌≡◌, ◌≢◌, refl, ap, ap₂, ◌∙◌, List, [], ◌∷◌, ◌++◌, arith,
  length, get_or, set, get_or-set_self, get_or-set_ne,
}
use exec.Base.Int.{ℤ, pos}

module _ (cells : List ℤ) (cap : ℕ) where
  abbrev pub slots : ℕ → ℕ → List ℤ
  slots i zero = []
  slots i (suc n) = get_or cells i (pos 0) ∷ slots ((i + 1) % cap) n

  pub length-slots : (i n : ℕ) → length (slots i n) ≡ n
  length-slots i zero = refl
  length-slots i (suc n) = ap suc (length-slots ((i + 1) % cap) n)

  pub slots-pos :
      (i n : ℕ) → 0 < n → slots i n ≡ get_or cells i (pos 0) ∷ slots ((i + 1) % cap) (n - 1)
  slots-pos i zero h = absurd (omega arith)
  slots-pos i (suc n) h = ap (λ k. slots i (suc k)) (omega arith)

-- Fewer than `cap` steps forward never come back to the start.
round-ne : (cap i k : ℕ) → i < cap → suc k < cap → (i + suc k) % cap ≢ i
round-ne cap i k hi hk = elim (dec_lt (i + suc k) cap) [
  | yes p ↦ omega (arith, mod-eq_of_lt p)
  | no p ↦ omega (
    arith,
    mod-eq-sub-mod {n = i + suc k} {m = cap} (omega arith),
    mod-eq_of_lt {n = i + suc k - cap} {m = cap} (omega arith),
  )
]

-- A write to the slot behind the last used one appends the value.
pub slots-append :
    (cells : List ℤ) (cap : ℕ) (x : ℤ) (n i k : ℕ)
    → cap ≤ length cells
    → i < cap
    → n < cap
    → k ≡ (i + n) % cap
    → slots (set cells k x) cap i (suc n) ≡ slots cells cap i n ++ (x ∷ [])
slots-append cells cap x zero i k hs hi hn e =
    ap (λ v. v ∷ [])
      (ap (λ j. get_or (set cells j x) i (pos 0)) (e ∙ here)
        ∙ get_or-set_self cells i x (pos 0) (omega arith))
  where
    here : (i + 0) % cap ≡ i
    here = ap (λ j. j % cap) (omega arith) ∙ mod-eq_of_lt hi
slots-append cells cap x (suc n) i k hs hi hn e =
    ap₂ ◌∷◌ (get_or-set_ne cells k i x (pos 0) (λ c. round-ne cap i n hi hn (omega arith)))
      (slots-append cells cap x n ((i + 1) % cap) k hs (omega arith) (omega arith) (e ∙ moved))
  where
    moved : (i + suc n) % cap ≡ ((i + 1) % cap + n) % cap
    moved = rw mod-add-mod (ap (λ j. j % cap) (omega arith))
