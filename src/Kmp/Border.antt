-- ===== src/Kmp/Border.antt =====
-- Prefixes of a pattern that end a text, and the longest of them.
use exec.Base.{
  ℕ, zero, suc, ◌+◌, ◌-◌, ◌≤◌, ◌<◌, ◌≡◌, ◌⊎◌, inl, inr, refl, ap, sym, ◌∙◌, List, [], ◌∷◌, arith,
  get_or, some, length, Bool-cases, ◌==◌,
}
use exec.Kmp.{char_at}

abbrev pub at : List ℕ → ℕ → ℕ
at p k = get_or p k 0

-- The first `j` characters of `p` are the last `j` of the first `i` of `s`.
pub record Ends (p s : List ℕ) (i j : ℕ) : Type 0 where
  pub fits : j ≤ i
  pub agrees : (k : ℕ) → k < j → at p k ≡ at s (i - j + k)

pub Ends-zero : (p s : List ℕ) (i : ℕ) → Ends p s i 0
Ends-zero p s i = record { fits = omega arith; agrees = λ k h. absurd (omega arith) }

pub Ends-suc : {p s : List ℕ} {i j : ℕ} → Ends p s i j → at p j ≡ at s i → Ends p s (suc i) (suc j)
Ends-suc {p} {s} {i} {j} e h = record {
  fits = omega (arith, e.fits);
  agrees = λ k l. elim (Bool-cases (k == j)) [
    | inl last ↦
        let same : k ≡ j = ground arith in ap (at p) same ∙ h ∙ ap (at s) (omega (arith, e.fits))
    | inr before ↦ e.agrees k (ground arith) ∙ ap (at s) (omega (arith, e.fits))
  ];
}

pub Ends-pred :
    {p s : List ℕ} {i j : ℕ} → Ends p s (suc i) (suc j) → Ends p s i j × (at p j ≡ at s i)
Ends-pred {p} {s} {i} {j} e = (
  record {
    fits = omega (arith, e.fits);
    agrees = λ k l. e.agrees k (omega arith) ∙ ap (at s) (omega (arith, e.fits));
  },
  e.agrees j (omega arith) ∙ ap (at s) (omega (arith, e.fits)),
)

-- Within a prefix that ends the text, the shorter ones are its borders, and the other way round.
pub Ends-inner : {p s : List ℕ} {i j k : ℕ} → Ends p s i j → Ends p s i k → k ≤ j → Ends p p j k
Ends-inner {p} {s} {i} {j} {k} e f h = record {
  fits = h;
  agrees = λ x l.
      f.agrees x l ∙ ap (at s) (omega (arith, e.fits)) ∙ sym (e.agrees (j - k + x) (omega arith));
}

pub Ends-outer : {p s : List ℕ} {i j k : ℕ} → Ends p s i j → Ends p p j k → Ends p s i k
Ends-outer {p} {s} {i} {j} {k} e f = record {
  fits = omega (arith, e.fits, f.fits);
  agrees = λ x l.
      f.agrees x l
      ∙ e.agrees (j - k + x) (omega (arith, f.fits))
      ∙ ap (at s) (omega (arith, e.fits, f.fits));
}

-- `j` is the longest of the prefixes shorter than `b` that end the text.
pub record IsLongest (p s : List ℕ) (i b j : ℕ) : Type 0 where
  pub ends : Ends p s i j
  pub below : j < b
  pub longest : (k : ℕ) → k < b → Ends p s i k → k ≤ j

-- The table holds the longest proper border of each prefix of length up to `l`.
pub record IsTable (p pi : List ℕ) (l : ℕ) : Type 0 where
  pub sized : length pi ≡ length p
  pub within : l ≤ length p
  pub borders : (q : ℕ) → 0 < q → q ≤ l → IsLongest p p q q (at pi (q - 1))

-- What the inner loop gives: the longest such prefix that the next character continues, if any.
pub record IsContinued (p s : List ℕ) (i b c j : ℕ) : Type 0 where
  pub ends : Ends p s i j
  pub below : j < b
  pub stops : (j ≡ 0) ⊎ (at p j ≡ c)
  pub longest : (k : ℕ) → k < b → Ends p s i k → at p k ≡ c → k ≤ j

pub char_at-eq : (p : List ℕ) (j : ℕ) → j < length p → char_at p j ≡ some (at p j)
char_at-eq [] j h = absurd (omega arith)
char_at-eq (c ∷ p) zero h = refl
char_at-eq (c ∷ p) (suc j) h = char_at-eq p j (omega arith)
