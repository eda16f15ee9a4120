-- ===== src/Logger/Prefixes.antt =====
-- What `operator<<` of `MLog` queues: the stream is never emptied.
use exec.Base.{
  ℕ, ◌≡◌, refl, ap₂, subst, Option, none, some, List, [], ◌∷◌, ◌++◌, Bool, true, false, ◌&&◌, ◌>>=◌,
  length, arith, Returns, returns, Returns-some, inl, inr, Bool-cases, Option-cases, map, ltb,
  reverse_aux,
}
use exec.Logger.{Memory, MLogMsg, Pointer, Block, text_at, block_at, copy_text, new_msg, before_nul}
use exec.Logger.Log.{MLog, log, write_endl, write, clear}
use exec.Logger.Owned.{block_at-append, block_at-end}

-- A line that is written to the log, with the time and the address that its message gets.
pub record Line : Type 0 where
  pub text : List ℕ
  pub now : ℕ
  pub address : ℕ

-- `log << text << std::endl` for each line
abbrev pub write_lines : ℕ → List Line → MLog → Option MLog
write_lines pointer_size [] l = some l
write_lines pointer_size (e ∷ es) l =
    write_endl pointer_size e.now e.address (write e.text l) >>= write_lines pointer_size es

-- All that was written up to the end of each line, as far as its first NUL.
abbrev pub accumulated : List ℕ → List Line → List (List ℕ)
accumulated os [] = []
accumulated os (e ∷ es) =
    before_nul ((os ++ e.text) ++ (10 ∷ [])) ∷ accumulated ((os ++ e.text) ++ (10 ∷ [])) es

abbrev pub all_fit : ℕ → List (List ℕ) → Bool
all_fit pointer_size [] = true
all_fit pointer_size (t ∷ ts) = ltb (length t) pointer_size && all_fit pointer_size ts

abbrev pub queued_texts : MLog → List (Option (List ℕ))
queued_texts l = map (λ e. text_at e.1.msg l.memory) l.queue

-- The newest message stands first.
abbrev pub IsWritten : List (List ℕ) → Bool → Option MLog → Type 0
IsWritten texts true r = Returns (λ l. queued_texts l ≡ map some texts) r
IsWritten texts false r = r ≡ none

text_at-append :
    (p : Pointer) (m n : Memory) (t : List ℕ) → text_at p m ≡ some t → text_at p (m ++ n) ≡ some t
unfolding text_at
text_at-append Pointer.null m n t e = absurd (ground arith)
text_at-append Pointer.wild m n t e = absurd (ground arith)
text_at-append (Pointer.to i) m n t e = elim (Option-cases (block_at m i)) [
  | inl gone ↦ absurd (ground (arith, gone, e))
  | inr (b, at) ↦ let at' = block_at-append m n i b at in rw at' (rw at at e)
]

head-eq : {A : Type 0} {x y : A} {xs ys : List A} → x ∷ xs ≡ y ∷ ys → x ≡ y
head-eq e = cc

tail-eq : {A : Type 0} {x y : A} {xs ys : List A} → x ∷ xs ≡ y ∷ ys → xs ≡ ys
tail-eq e = cc

texts-append :
    (q : List (ℕ × MLogMsg)) (m n : Memory) (ts : List (List ℕ))
    → map (λ e. text_at e.1.msg m) q ≡ map some ts
    → map (λ e. text_at e.1.msg (m ++ n)) q ≡ map some ts
texts-append [] m n [] e = refl
texts-append [] m n (t ∷ ts) e = absurd (ground arith)
texts-append (x ∷ q) m n [] e = absurd (ground arith)
texts-append (x ∷ q) m n (t ∷ ts) e =
    ap₂ (λ a b. a ∷ b) (text_at-append x.1.msg m n t (head-eq e))
      (texts-append q m n ts (tail-eq e))

-- A line queues all that the stream holds then, up to its first NUL, which it goes on to hold.
write_line :
    (pointer_size : ℕ) (e : Line) (l : MLog) (ts : List (List ℕ))
    → queued_texts l ≡ map some ts
    → ltb (length (before_nul ((l.os ++ e.text) ++ (10 ∷ [])))) pointer_size ≡ true
    → Returns
        (λ l'.
          (l'.os ≡ (l.os ++ e.text) ++ (10 ∷ []))
          × (queued_texts l' ≡ map some (before_nul ((l.os ++ e.text) ++ (10 ∷ [])) ∷ ts)))
        (write_endl pointer_size e.now e.address (write e.text l))
unfolding write_endl write log new_msg copy_text clear text_at
write_line pointer_size e l ts queued fits = rw fits (
    returns (
      refl,
      ap₂ (λ a b. a ∷ b) newest
          (texts-append l.queue (l.memory ++ (some (Block.time e.now) ∷ []))
            (some (Block.chars pointer_size (before_nul ((l.os ++ e.text) ++ (10 ∷ [])))) ∷ []) ts
            (texts-append l.queue l.memory (some (Block.time e.now) ∷ []) ts queued)),
    ))
  where
    newest :
        text_at (Pointer.to (length (l.memory ++ (some (Block.time e.now) ∷ [])))) (
          (l.memory ++ (some (Block.time e.now) ∷ []))
          ++ (some (Block.chars pointer_size (before_nul ((l.os ++ e.text) ++ (10 ∷ [])))) ∷ []))
        ≡ some (before_nul ((l.os ++ e.text) ++ (10 ∷ [])))
    newest =
        rw
          (
            block_at-end (l.memory ++ (some (Block.time e.now) ∷ [])) []
                (some (Block.chars pointer_size (before_nul ((l.os ++ e.text) ++ (10 ∷ []))))),
            text_at,
          )
          refl

-- A line that does not fit ends in a use of memory that is not there.
long_line :
    (pointer_size : ℕ) (e : Line) (l : MLog)
    → ltb (length (before_nul ((l.os ++ e.text) ++ (10 ∷ [])))) pointer_size ≡ false
    → write_endl pointer_size e.now e.address (write e.text l) ≡ none
unfolding write_endl write log new_msg copy_text
long_line pointer_size e l long = rw long refl

-- If the messages queued so far have these texts, writing lines one by one queues for each line a message
-- with all that the stream ever held, this line included, up to the first NUL, behind those; and the program
-- ends in a use of memory that is not there as soon as one of these texts, with a NUL behind it, is longer
-- than a pointer.
pub write_lines-IsWritten :
    (pointer_size : ℕ) (es : List Line) (l : MLog) (ts : List (List ℕ))
    → queued_texts l ≡ map some ts
    → IsWritten
        (reverse_aux (accumulated l.os es) ts)
        (all_fit pointer_size (accumulated l.os es))
        (write_lines pointer_size es l)
write_lines-IsWritten pointer_size [] l ts queued = returns queued
write_lines-IsWritten pointer_size (e ∷ es) l ts queued =
    elim (Bool-cases (ltb (length (before_nul ((l.os ++ e.text) ++ (10 ∷ [])))) pointer_size)) [
      | inl fits ↦
          let (k, from, (os, texts)) = Returns-some (write_line pointer_size e l ts queued fits) in
          let rest =
            write_lines-IsWritten pointer_size es k
              (before_nul ((l.os ++ e.text) ++ (10 ∷ [])) ∷ ts) texts in
          rw (fits, from)
            (subst
              (λ o.
                IsWritten
                  (reverse_aux (accumulated o es) (before_nul ((l.os ++ e.text) ++ (10 ∷ [])) ∷ ts))
                  (all_fit pointer_size (accumulated o es)) (write_lines pointer_size es k))
              os rest)
      | inr long ↦ rw (long, long_line pointer_size e l long) refl
    ]
