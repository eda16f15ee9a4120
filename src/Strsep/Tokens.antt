-- ===== src/Strsep/Tokens.antt =====
-- The pieces that `strsep` cuts a text into.
use exec.Base.{
  ℕ, zero, suc, ◌+◌, ◌<◌, ◌≡◌, ◌≢◌, inl, inr, refl, ap, ap₂, sym, subst, ◌∙◌, true, false, Option,
  none, some, List, [], ◌∷◌, ◌++◌, if◌then◌else◌, ◌>>=◌, ◌==◌, drop, store_at, arith, length,
  All-append, Returns, returns, Bool-cases, append_assoc, length-append,
}
use exec.Strsep.{is_in, strpbrk, strsep}
use exec.Strsep.Pieces.{
  length-pieces, HasNoNul, IsWhole, pieces, pieces-hit, pieces-miss, joined-pieces, IsWhole-pieces,
  AreTokens,
}

-- The characters from a place on up to the NUL.
abbrev pub text_from : List ℕ → Option (List ℕ)
text_from [] = none
text_from (c ∷ cs) =
    let rest = text_from cs in if c == 0 then some [] else (rest >>= (λ t. some (c ∷ t)))

-- `while ((token = strsep(&string, delim)) != NULL)`, on fuel, with the text of each token when it is
-- returned.
abbrev pub tokens : ℕ → Option ℕ → List ℕ → List ℕ → Option (List (List ℕ))
tokens zero string delim buffer = none
tokens (suc fuel) string delim buffer = strsep string delim buffer >>= (λ r. elim (r.0) [
  | none ↦ some []
  | some start ↦
      text_from (drop start (r.2))
      >>= (λ t. tokens fuel (r.1) delim (r.2) >>= (λ ts. some (t ∷ ts)))
])

drop-length : (xs ys : List ℕ) → drop (length xs) (xs ++ ys) ≡ ys
drop-length [] ys = refl
drop-length (x ∷ xs) ys = drop-length xs ys

store_at-length :
    (xs ys : List ℕ) (c v : ℕ) → store_at (xs ++ (c ∷ ys)) (length xs) v ≡ some (xs ++ (v ∷ ys))
store_at-length [] ys c v = refl
store_at-length (x ∷ xs) ys c v = rw (store_at-length xs ys c v) refl

strpbrk-end :
    (done delim : List ℕ) (at : ℕ)
    → HasNoNul done
    → IsWhole delim done
    → strpbrk (done ++ (0 ∷ [])) at delim ≡ some none
unfolding strpbrk
strpbrk-end [] delim at n w = refl
strpbrk-end (c ∷ cs) delim at n w =
    let rest = strpbrk-end cs delim (at + 1) (n.1) (w.1) in
    let no_nul : (c == 0) ≡ false = ground (arith, n.0) in rw (no_nul, w.0) rest

strpbrk-hit :
    (done delim l : List ℕ) (at c : ℕ)
    → HasNoNul done
    → IsWhole delim done
    → c ≢ 0
    → is_in c delim ≡ true
    → strpbrk (done ++ (c ∷ l)) at delim ≡ some (some (at + length done))
unfolding strpbrk
strpbrk-hit [] delim l at c n w nul hit =
    let no_nul : (c == 0) ≡ false = ground (arith, nul) in
    rw (no_nul, hit) (ap (λ k. some (some k)) (omega arith))
strpbrk-hit (d ∷ ds) delim l at c n w nul hit =
    let rest = strpbrk-hit ds delim l (at + 1) c (n.1) (w.1) nul hit in
    let no_nul : (d == 0) ≡ false = ground (arith, n.0) in
    rw (no_nul, w.0) (rest ∙ ap (λ k. some (some k)) (omega arith))

text_from-nul : (done l : List ℕ) → HasNoNul done → text_from (done ++ (0 ∷ l)) ≡ some done
text_from-nul [] l n = refl
text_from-nul (c ∷ cs) l n =
    let no_nul : (c == 0) ≡ false = ground (arith, n.0) in
    rw (no_nul, text_from-nul cs l (n.1)) refl

-- The last token.
tokens-last :
    (fuel : ℕ) (delim pre done : List ℕ)
    → HasNoNul done
    → IsWhole delim done
    → tokens (suc (suc fuel)) (some (length pre)) delim (pre ++ (done ++ (0 ∷ [])))
      ≡ some (done ∷ [])
unfolding strsep
tokens-last fuel delim pre done n w =
    rw
      (
        drop-length pre (done ++ (0 ∷ [])),
        strpbrk-end done delim (length pre) n w,
        drop-length pre (done ++ (0 ∷ [])),
        text_from-nul done [] n,
      )
      refl

-- A token with a delimiter behind it.
tokens-next :
    (fuel : ℕ) (delim pre done l : List ℕ) (c : ℕ)
    → HasNoNul done
    → IsWhole delim done
    → c ≢ 0
    → is_in c delim ≡ true
    → tokens (suc fuel) (some (length pre)) delim (pre ++ (done ++ (c ∷ l)))
      ≡ tokens fuel
          (some (length ((pre ++ done) ++ (0 ∷ []))))
          delim
          (((pre ++ done) ++ (0 ∷ [])) ++ l)
        >>= (λ ts. some (done ∷ ts))
unfolding strsep
tokens-next fuel delim pre done l c n w nul hit =
    rw
      (
        drop-length pre (done ++ (c ∷ l)),
        strpbrk-hit done delim l (length pre) c n w nul hit,
        stored,
        drop-length pre (done ++ (0 ∷ l)),
        text_from-nul done l n,
      )
      (ap₂ (λ k b. tokens fuel (some k) delim b >>= (λ ts. some (done ∷ ts))) start buffer)
  where
    stored :
        store_at (pre ++ (done ++ (c ∷ l))) (length pre + length done) 0
        ≡ some (pre ++ (done ++ (0 ∷ l)))
    stored =
        ap₂ (λ b k. store_at b k 0) (sym (append_assoc pre done (c ∷ l)))
          (sym (length-append pre done))
        ∙ store_at-length (pre ++ done) l c 0
        ∙ ap some (append_assoc pre done (0 ∷ l))

    start : length pre + length done + 1 ≡ length ((pre ++ done) ++ (0 ∷ []))
    start = omega (arith, length-append pre done, length-append (pre ++ done) (0 ∷ []))

    buffer : pre ++ (done ++ (0 ∷ l)) ≡ ((pre ++ done) ++ (0 ∷ [])) ++ l
    buffer = sym (append_assoc pre done (0 ∷ l)) ∙ sym (append_assoc (pre ++ done) (0 ∷ []) l)

-- All tokens, from one of which the characters `done` are read.
tokens-pieces :
    (rest : List ℕ) (fuel : ℕ) (delim pre done : List ℕ)
    → length rest < fuel
    → HasNoNul done
    → IsWhole delim done
    → HasNoNul rest
    → tokens (suc fuel) (some (length pre)) delim (pre ++ (done ++ (rest ++ (0 ∷ []))))
      ≡ some (pieces delim done rest)
tokens-pieces [] zero delim pre done f n w r = absurd (omega arith)
tokens-pieces [] (suc fuel) delim pre done f n w r = tokens-last fuel delim pre done n w
tokens-pieces (c ∷ cs) zero delim pre done f n w r = absurd (omega arith)
tokens-pieces (c ∷ cs) (suc fuel) delim pre done f n w r = elim (Bool-cases (is_in c delim)) [
  | inl hit ↦
      tokens-next (suc fuel) delim pre done (cs ++ (0 ∷ [])) c n w (r.0) hit
      ∙ ap (λ o. o >>= (λ ts. some (done ∷ ts)))
          (tokens-pieces cs fuel delim ((pre ++ done) ++ (0 ∷ [])) [] (omega arith) tt tt (r.1))
      ∙ sym (ap some (pieces-hit delim done cs c hit))
  | inr miss ↦
      ap (λ b. tokens (suc (suc fuel)) (some (length pre)) delim (pre ++ b))
        (sym (append_assoc done (c ∷ []) (cs ++ (0 ∷ []))))
      ∙ tokens-pieces cs (suc fuel) delim pre (done ++ (c ∷ [])) (omega arith)
          (All-append (λ d. d ≢ 0) done (c ∷ []) n (r.0, tt))
          (All-append (λ d. is_in d delim ≡ false) done (c ∷ []) w (miss, tt)) (r.1)
      ∙ sym (ap some (pieces-miss delim done cs c miss))
]

-- Calling `strsep` until it returns NULL cuts a text into tokens: the calls come to NULL after at most one
-- token more than the text has characters and stay inside the buffer; no token has a delimiter in it,
-- there is one token more than the text has delimiters, and the tokens with these between them are the text.
pub tokens-AreTokens :
    (delim text : List ℕ)
    → HasNoNul text
    → Returns (AreTokens delim text) (tokens (length text + 2) (some 0) delim (text ++ (0 ∷ [])))
tokens-AreTokens delim text n =
    let two : length text + 2 ≡ suc (length text + 1) = omega arith in
    let found = tokens-pieces text (length text + 1) delim [] [] (omega arith) tt tt n in
    subst (Returns (AreTokens delim text))
      (sym (ap (λ k. tokens k (some 0) delim (text ++ (0 ∷ []))) two ∙ found))
      (returns
        (length-pieces delim [] text, joined-pieces delim [] text, IsWhole-pieces delim [] text tt))
