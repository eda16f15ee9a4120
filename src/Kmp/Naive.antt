-- ===== src/Kmp/Naive.antt =====
-- The search that tries every position, and how its result grows with the text.
use exec.Base.{
  ℕ, zero, suc, ◌+◌, ◌-◌, ◌≤◌, ◌<◌, ◌≡◌, inl, inr, refl, ap, sym, ◌∙◌, List, [], ◌∷◌, ◌++◌, arith,
  length, Bool-cases, leb, if◌then◌else◌, true, false, drop, append-nil, length-drop,
}
use exec.MaxHeap.Commands.{starts}
use exec.Kmp.Border.{at, Ends}

-- The positions before `b` at which the pattern stands, found by trying each of them.
abbrev pub below : List ℕ → List ℕ → ℕ → List ℕ
below p s zero = []
below p s (suc b) = below p s b ++ (if starts p (drop b s) then b ∷ [] else [])

abbrev pub naive : List ℕ → List ℕ → List ℕ
naive s p = below p s (length s + 1 - length p)

at-drop : (s : List ℕ) (b k : ℕ) → at (drop b s) k ≡ at s (b + k)
at-drop s zero k = let e : k ≡ 0 + k = omega arith in ap (at s) e
at-drop [] (suc b) k = refl
at-drop (c ∷ s) (suc b) k =
    let e : suc (b + k) ≡ suc b + k = omega arith in at-drop s b k ∙ ap (at (c ∷ s)) e

pub starts-agrees :
    (p t : List ℕ)
    → starts p t ≡ true
    → (length p ≤ length t) × ((k : ℕ) → k < length p → at p k ≡ at t k)
starts-agrees [] t h = (omega arith, (λ k l. absurd (omega arith)))
starts-agrees (w ∷ p) [] h = cc
starts-agrees (w ∷ p) (c ∷ t) h =
    let (len, rest) = starts-agrees p t (ground arith) in
    (omega arith, (λ k l. by_index k l rest (ground arith)))
  where
    by_index :
        (k : ℕ)
        → k < suc (length p)
        → ((k : ℕ) → k < length p → at p k ≡ at t k)
        → w ≡ c
        → at (w ∷ p) k ≡ at (c ∷ t) k
    by_index zero l rest e = e
    by_index (suc k) l rest e = rest k (omega arith)

agrees-starts :
    (p t : List ℕ)
    → length p ≤ length t
    → ((k : ℕ) → k < length p → at p k ≡ at t k)
    → starts p t ≡ true
agrees-starts [] t h f = refl
agrees-starts (w ∷ p) [] h f = absurd (omega arith)
agrees-starts (w ∷ p) (c ∷ t) h f =
    ground
      (arith, f 0 (omega arith), agrees-starts p t (omega arith) (λ k l. f (suc k) (omega arith)))

Ends-starts :
    (p s : List ℕ) (i : ℕ)
    → i ≤ length s
    → Ends p s i (length p)
    → starts p (drop (i - length p) s) ≡ true
Ends-starts p s i h e =
    agrees-starts p (drop (i - length p) s) (omega (arith, length-drop (i - length p) s, e.fits))
      (λ k l. e.agrees k l ∙ sym (at-drop s (i - length p) k))

starts-Ends :
    (p s : List ℕ) (i : ℕ)
    → length p ≤ i
    → starts p (drop (i - length p) s) ≡ true
    → Ends p s i (length p)
starts-Ends p s i h q =
    let (len, same) = starts-agrees p (drop (i - length p) s) q in
    record { fits = h; agrees = λ k l. same k l ∙ at-drop s (i - length p) k }

-- One more character, and the positions known after it.
pub below-hit :
    (p s : List ℕ) (i : ℕ)
    → suc i ≤ length s
    → Ends p s (suc i) (length p)
    → below p s (suc i + 1 - length p) ≡ below p s (i + 1 - length p) ++ ((i + 1 - length p) ∷ [])
below-hit p s i h e =
    let next : suc i + 1 - length p ≡ suc (i + 1 - length p) = omega (arith, e.fits) in
    let here : i + 1 - length p ≡ suc i - length p = omega arith in
    ap (below p s) next
    ∙ ap (λ b. below p s (i + 1 - length p) ++ (if b then (i + 1 - length p) ∷ [] else []))
        (ap (λ b. starts p (drop b s)) here ∙ Ends-starts p s (suc i) h e)

pub below-miss :
    (p s : List ℕ) (i : ℕ)
    → (Ends p s (suc i) (length p) → ⊥)
    → below p s (suc i + 1 - length p) ≡ below p s (i + 1 - length p)
below-miss p s i no_match = elim (Bool-cases (leb (length p) (suc i))) [
  | inl long ↦
      let next : suc i + 1 - length p ≡ suc (i + 1 - length p) = ground arith in
      ap (below p s) next
      ∙ ap (λ b. below p s (i + 1 - length p) ++ (if b then (i + 1 - length p) ∷ [] else []))
          (quiet (ground arith))
      ∙ append-nil (below p s (i + 1 - length p))
  | inr short ↦
      let same : suc i + 1 - length p ≡ i + 1 - length p = ground arith in ap (below p s) same
]
  where
    quiet : length p ≤ suc i → starts p (drop (i + 1 - length p) s) ≡ false
    quiet l = elim (Bool-cases (starts p (drop (suc i - length p) s))) [
      | inl hit ↦ absurd (no_match (starts-Ends p s (suc i) l hit))
      | inr miss ↦
          let here : i + 1 - length p ≡ suc i - length p = omega arith in
          ap (λ b. starts p (drop b s)) here ∙ miss
    ]
