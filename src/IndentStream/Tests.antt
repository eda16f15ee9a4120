-- ===== src/IndentStream/Tests.antt =====
-- Two lines, the second one empty, behind a character.
use exec.Base.{ℕ, ◌≡◌, List, [], ◌∷◌, true, arith}
use exec.IndentStream.{write}
use exec.IndentStream.Written.{open_sink, unlines, write-indented}

abbrev two_lines : List (List ℕ)
two_lines = (b'h' ∷ b'i' ∷ []) ∷ [] ∷ []

write-indented_example :
    write open_sink (unlines two_lines) (record { m_indent = 2; m_need = true; out = b'!' ∷ [] })
    ≡ (
      true,
      record {
        m_indent = 2;
        m_need = true;
        out = b'!' ∷ 32 ∷ 32 ∷ b'h' ∷ b'i' ∷ 10 ∷ 32 ∷ 32 ∷ 10 ∷ [];
      },
    )
write-indented_example =
    write-indented two_lines 2 (b'!' ∷ [])
      (((λ e. absurd (omega arith)), ((λ e. absurd (omega arith)), tt)), (tt, tt))
