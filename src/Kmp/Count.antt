-- ===== src/Kmp/Count.antt =====
-- `intslen` over the array of `kmp`.
use exec.Base.{
  ltb, ℕ, zero, suc, ◌+◌, ◌-◌, ◌<◌, ◌≡◌, ◌⊎◌, inl, inr, refl, ap, sym, ◌∙◌, List, [], ◌∷◌, ◌++◌,
  map, arith, Option, none, some, length, Bool-cases, Returns, Bool, if◌then◌else◌, true, false,
  replicate, drop, length-append, Returns-mono,
}
use exec.Base.Int.{ℤ, pos, negsuc}
use exec.MaxHeap.Commands.{starts}
use exec.Kmp.{kmp, intslen}
use exec.Kmp.Naive.{below, naive, starts-agrees}
use exec.Kmp.Search.{IsFound, kmp-naive}

-- How many of the positions are not 0.
abbrev positives : List ℕ → ℕ
positives [] = 0
positives (zero ∷ xs) = positives xs
positives (suc x ∷ xs) = positives xs + 1

intslen-open :
    (xs : List ℕ) (k : ℕ)
    → intslen (map pos xs ++ replicate (suc k) (negsuc 0)) ≡ some (positives xs)
unfolding intslen
intslen-open [] k = refl
intslen-open (zero ∷ xs) k = rw (intslen-open xs k) refl
intslen-open (suc x ∷ xs) k = rw (intslen-open xs k) (ground arith)

intslen-full : (xs : List ℕ) → intslen (map pos xs ++ []) ≡ none
unfolding intslen
intslen-full [] = refl
intslen-full (x ∷ xs) = rw (intslen-full xs) refl

positives-append : (xs ys : List ℕ) → positives (xs ++ ys) ≡ positives xs + positives ys
positives-append [] ys = omega arith
positives-append (zero ∷ xs) ys = positives-append xs ys
positives-append (suc x ∷ xs) ys = omega (arith, positives-append xs ys)

-- If the pattern stands at the start, one of the positions is 0.
positives-below :
    (p s : List ℕ) (b : ℕ)
    → starts p s ≡ true
    → positives (below p s (suc b)) + 1 ≡ length (below p s (suc b))
positives-below p s zero h = rw h refl
positives-below p s (suc b) h =
    let step = positives-below p s b h in
    let hit : List ℕ = if starts p (drop (suc b) s) then suc b ∷ [] else [] in
    omega (
      arith,
      step,
      positives-append (below p s (suc b)) hit,
      length-append (below p s (suc b)) hit,
      one (starts p (drop (suc b) s)),
    )
  where
    one :
        (t : Bool)
        → positives (if t then suc b ∷ [] else []) ≡ length (if t then suc b ∷ [] else [])
    one true = refl
    one false = refl

-- What `intslen` says of an answer of `kmp`.
abbrev pub IsMiscounted : List ℕ → Option (List ℤ × ℕ) → Type 0
IsMiscounted s none = ⊥
IsMiscounted s (some (ans, ansi)) =
    ((ansi < length s) × (intslen ans ≡ some (ansi - 1)))
    ⊎ ((ansi ≡ length s) × (intslen ans ≡ none))

-- If a pattern that is not empty stands at the start of the text, `intslen` gives one less than `*ansi`
-- for the array of `kmp`, since it does not count the position 0; and when each place of the array holds
-- a position, it reads behind the array.
pub kmp-intslen :
    (s p : List ℕ) → 0 < length p → starts p s ≡ true → Returns (IsMiscounted s) (kmp true true s p)
kmp-intslen s p h st = Returns-mono (kmp-naive s p h) miscounted
  where
    few_found : length (naive s p) ≡ positives (naive s p) + 1
    few_found =
        let (long, same) = starts-agrees p s st in
        let e : length s + 1 - length p ≡ suc (length s - length p) = omega arith in
        rw e (sym (positives-below p s (length s - length p) st))

    room : (n m : ℕ) → (n < m) → m - n ≡ suc (m - n - 1)
    room n m l = omega arith

    miscounted : (r : Option (List ℤ × ℕ)) → IsFound s p r → IsMiscounted s r
    miscounted none f = f
    miscounted (some (ans, ansi)) (n, few, e) = elim (Bool-cases (ltb ansi (length s))) [
      | inl open_end ↦
          let l : ansi < length s = ground arith in
          let count : positives (naive s p) ≡ ansi - 1 = omega (arith, few_found) in
          inl (
            l,
            ap intslen (
                  e
                  ∙ ap (λ m. map pos (naive s p) ++ replicate m (negsuc 0))
                      (room ansi (length s) l))
                ∙ intslen-open (naive s p) (length s - ansi - 1)
                ∙ ap some count,
          )
      | inr full ↦
          let l : ansi ≡ length s = ground arith in
          let z : length s - ansi ≡ 0 = omega arith in
          inr (
            l,
            ap intslen (e ∙ ap (λ m. map pos (naive s p) ++ replicate m (negsuc 0)) z)
                ∙ intslen-full (naive s p),
          )
    ]
