-- ===== src/IndentStream/Written.antt =====
-- What a text becomes that is written line by line.
use exec.Base.{
  ℕ, zero, suc, ◌≡◌, ◌≢◌, refl, ap, sym, ◌∙◌, List, [], ◌∷◌, ◌++◌, Bool, true, false, ◌==◌,
  replicate, All, append_assoc, append-nil, ne→==_false,
}
use exec.IndentStream.{sputc, fill, overflow, write}

-- A buffer behind that takes everything.
abbrev pub open_sink : List ℕ → Bool
open_sink out = true

abbrev pub spaces : ℕ → List ℕ
spaces n = replicate n 32

-- The text of these lines, and the same with each line indented.
abbrev pub unlines : List (List ℕ) → List ℕ
unlines [] = []
unlines (l ∷ ls) = l ++ (10 ∷ unlines ls)

abbrev pub indented : ℕ → List (List ℕ) → List ℕ
indented n [] = []
indented n (l ∷ ls) = spaces n ++ (l ++ (10 ∷ indented n ls))

-- No character of the line is a newline.
abbrev pub IsLine : List ℕ → Type 0
IsLine l = All (λ c. c ≢ 10) l

fill-spaces : (n : ℕ) (out : List ℕ) → fill open_sink n out ≡ out ++ spaces n
unfolding fill sputc
fill-spaces zero out = sym (append-nil out)
fill-spaces (suc n) out = fill-spaces n (out ++ (32 ∷ [])) ∙ append_assoc out (32 ∷ []) (spaces n)

-- The rest of a line, its end, and what is written behind it.
write-line :
    (n : ℕ) (l rest out : List ℕ)
    → IsLine l
    → write open_sink (l ++ (10 ∷ rest)) (record { m_indent = n; m_need = false; out = out })
      ≡ write open_sink rest (record { m_indent = n; m_need = true; out = out ++ (l ++ (10 ∷ [])) })
unfolding write overflow sputc
write-line n [] rest out h = refl
write-line n (c ∷ l) rest out (ne, h) =
    ap
      (λ b.
        write open_sink (l ++ (10 ∷ rest))
          (record { m_indent = n; m_need = b; out = out ++ (c ∷ []) }))
      (ne→==_false c 10 ne)
    ∙ write-line n l rest (out ++ (c ∷ [])) h
    ∙ ap (λ k. write open_sink rest (record { m_indent = n; m_need = true; out = k }))
        (append_assoc out (c ∷ []) (l ++ (10 ∷ [])))

-- The first line, when indentation is due.
write-first :
    (n : ℕ) (l rest out : List ℕ)
    → IsLine l
    → write open_sink (l ++ (10 ∷ rest)) (record { m_indent = n; m_need = true; out = out })
      ≡ write open_sink
          (l ++ (10 ∷ rest))
          (record { m_indent = n; m_need = false; out = out ++ spaces n })
unfolding write overflow sputc
write-first n [] rest out h =
    ap (λ k. write open_sink rest (record { m_indent = n; m_need = true; out = k ++ (10 ∷ []) }))
      (fill-spaces n out)
write-first n (c ∷ l) rest out h =
    ap
      (λ k.
        write open_sink (l ++ (10 ∷ rest))
          (record { m_indent = n; m_need = c == 10; out = k ++ (c ∷ []) }))
      (fill-spaces n out)

-- Over a buffer that takes everything, a text of whole lines is written with each line, empty lines
-- too, indented by `m_indent` spaces, and indentation is due again behind it.
pub write-indented :
    (ls : List (List ℕ)) (n : ℕ) (out : List ℕ)
    → All IsLine ls
    → write open_sink (unlines ls) (record { m_indent = n; m_need = true; out = out })
      ≡ (true, record { m_indent = n; m_need = true; out = out ++ indented n ls })
unfolding write
write-indented [] n out h =
    ap (λ k. (true, record { m_indent = n; m_need = true; out = k })) (sym (append-nil out))
write-indented (l ∷ ls) n out (h, hs) =
    write-first n l (unlines ls) out h
    ∙ write-line n l (unlines ls) (out ++ spaces n) h
    ∙ write-indented ls n ((out ++ spaces n) ++ (l ++ (10 ∷ []))) hs
    ∙ ap (λ k. (true, record { m_indent = n; m_need = true; out = k }))
        (regroup out (spaces n) l (indented n ls))
  where
    regroup : (a b l r : List ℕ) → ((a ++ b) ++ (l ++ (10 ∷ []))) ++ r ≡ a ++ (b ++ (l ++ (10 ∷ r)))
    regroup a b l r =
        append_assoc (a ++ b) (l ++ (10 ∷ [])) r
        ∙ append_assoc a b ((l ++ (10 ∷ [])) ++ r)
        ∙ ap (λ k. a ++ (b ++ k)) (append_assoc l (10 ∷ []) r)
