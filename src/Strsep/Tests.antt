-- ===== src/Strsep/Tests.antt =====
-- Runs of `strsep`.
use exec.Base.{ℕ, ◌+◌, ◌≡◌, refl, some, List, [], ◌∷◌, ◌++◌, length, arith, Returns}
use exec.Strsep.{strsep, strpbrk}
use exec.Strsep.Pieces.{AreTokens}
use exec.Strsep.Tokens.{tokens, tokens-AreTokens}

-- "a,,b"
abbrev commas : List ℕ
commas = 97 ∷ 44 ∷ 44 ∷ 98 ∷ []

tokens_of_commas :
    tokens 6 (some 0) (44 ∷ []) (commas ++ (0 ∷ [])) ≡ some ((97 ∷ []) ∷ [] ∷ (98 ∷ []) ∷ [])
unfolding strsep strpbrk
tokens_of_commas = refl

tokens-AreTokens_example :
    Returns
      (AreTokens (44 ∷ []) commas)
      (tokens (length commas + 2) (some 0) (44 ∷ []) (commas ++ (0 ∷ [])))
tokens-AreTokens_example = tokens-AreTokens (44 ∷ []) commas (omega arith)
