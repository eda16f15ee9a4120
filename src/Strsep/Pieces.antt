-- ===== src/Strsep/Pieces.antt =====
-- The tokens of a text, without a buffer.
use exec.Base.{
  suc, length, ℕ, ◌≡◌, ◌≢◌, inl, inr, refl, ap, ap₂, sym, subst, ◌∙◌, true, false, List, [], ◌∷◌,
  ◌++◌, if◌then◌else◌, All, All-append, append-nil, Bool-cases, append_assoc,
}
use exec.Strsep.{is_in}

-- Tokens and the delimiters between them, put together again.
abbrev pub joined : List (List ℕ) → List ℕ → List ℕ
joined [] ds = []
joined (t ∷ []) ds = t
joined (t ∷ u ∷ ts) [] = t ++ joined (u ∷ ts) []
joined (t ∷ u ∷ ts) (d ∷ ds) = t ++ (d ∷ joined (u ∷ ts) ds)

-- The delimiters of a text, in order.
abbrev pub delimiters : List ℕ → List ℕ → List ℕ
delimiters delim [] = []
delimiters delim (c ∷ cs) = if is_in c delim then c ∷ delimiters delim cs else delimiters delim cs

-- No character of a text is the NUL.
abbrev pub HasNoNul : List ℕ → Type 0
HasNoNul cs = All (λ c. c ≢ 0) cs

-- No character is a delimiter.
abbrev pub IsWhole : List ℕ → List ℕ → Type 0
IsWhole delim cs = All (λ c. is_in c delim ≡ false) cs

-- The tokens of a text of which the current token has the characters `done` so far.
abbrev pub pieces : List ℕ → List ℕ → List ℕ → List (List ℕ)
pieces delim done [] = done ∷ []
pieces delim done (c ∷ cs) = elim (is_in c delim) [
  | true ↦ done ∷ pieces delim [] cs
  | false ↦ pieces delim (done ++ (c ∷ [])) cs
]

pub pieces-hit :
    (delim done cs : List ℕ) (c : ℕ)
    → is_in c delim ≡ true
    → pieces delim done (c ∷ cs) ≡ done ∷ pieces delim [] cs
pieces-hit delim done cs c e =
    ap
      (λ b. elim b [
        | true ↦ done ∷ pieces delim [] cs
        | false ↦ pieces delim (done ++ (c ∷ [])) cs
      ])
      e

pub pieces-miss :
    (delim done cs : List ℕ) (c : ℕ)
    → is_in c delim ≡ false
    → pieces delim done (c ∷ cs) ≡ pieces delim (done ++ (c ∷ [])) cs
pieces-miss delim done cs c e =
    ap
      (λ b. elim b [
        | true ↦ done ∷ pieces delim [] cs
        | false ↦ pieces delim (done ++ (c ∷ [])) cs
      ])
      e

pieces-some :
    (delim done rest : List ℕ)
    → (t : List ℕ) × (ts : List (List ℕ)) × (pieces delim done rest ≡ t ∷ ts)
pieces-some delim done [] = (done, [], refl)
pieces-some delim done (c ∷ cs) = elim (Bool-cases (is_in c delim)) [
  | inl hit ↦ (done, pieces delim [] cs, pieces-hit delim done cs c hit)
  | inr miss ↦
      let (t, ts, e) = pieces-some delim (done ++ (c ∷ [])) cs in
      (t, ts, pieces-miss delim done cs c miss ∙ e)
]

pub joined-pieces :
    (delim done rest : List ℕ)
    → joined (pieces delim done rest) (delimiters delim rest) ≡ done ++ rest
joined-pieces delim done [] = sym (append-nil done)
joined-pieces delim done (c ∷ cs) = elim (Bool-cases (is_in c delim)) [
  | inl hit ↦
      let (t, ts, e) = pieces-some delim [] cs in
      let rest = joined-pieces delim [] cs in
      ap₂ joined (pieces-hit delim done cs c hit)
        (ap (λ b. if b then c ∷ delimiters delim cs else delimiters delim cs) hit)
      ∙ ap (λ p. joined (done ∷ p) (c ∷ delimiters delim cs)) e
      ∙ ap (λ p. done ++ (c ∷ joined p (delimiters delim cs))) (sym e)
      ∙ ap (λ r. done ++ (c ∷ r)) rest
  | inr miss ↦
      ap₂ joined (pieces-miss delim done cs c miss)
        (ap (λ b. if b then c ∷ delimiters delim cs else delimiters delim cs) miss)
      ∙ joined-pieces delim (done ++ (c ∷ [])) cs
      ∙ append_assoc done (c ∷ []) cs
]

pub IsWhole-pieces :
    (delim done rest : List ℕ) → IsWhole delim done → All (IsWhole delim) (pieces delim done rest)
IsWhole-pieces delim done [] w = (w, tt)
IsWhole-pieces delim done (c ∷ cs) w = elim (Bool-cases (is_in c delim)) [
  | inl hit ↦
      subst (All (IsWhole delim)) (sym (pieces-hit delim done cs c hit))
        (w, IsWhole-pieces delim [] cs tt)
  | inr miss ↦ subst (All (IsWhole delim)) (sym (pieces-miss delim done cs c miss)) (
      IsWhole-pieces delim (done ++ (c ∷ [])) cs
        (All-append (λ d. is_in d delim ≡ false) done (c ∷ []) w (miss, tt)))
]

pub length-pieces :
    (delim done rest : List ℕ)
    → length (pieces delim done rest) ≡ suc (length (delimiters delim rest))
length-pieces delim done [] = refl
length-pieces delim done (c ∷ cs) = elim (Bool-cases (is_in c delim)) [
  | inl hit ↦ rw (pieces-hit delim done cs c hit, hit) (ap suc (length-pieces delim [] cs))
  | inr miss ↦
      rw (pieces-miss delim done cs c miss, miss) (length-pieces delim (done ++ (c ∷ [])) cs)
]

-- There is one token more than the text has delimiters, the tokens with the delimiters between them are the
-- text, and no token has a delimiter in it.
abbrev pub AreTokens : List ℕ → List ℕ → List (List ℕ) → Type 0
AreTokens delim text ts =
    (length ts ≡ suc (length (delimiters delim text)))
    × (joined ts (delimiters delim text) ≡ text)
    × All (IsWhole delim) ts
