-- ===== src/Strsep.antt =====
-- `strsep` of MyUtil/MyString.c: a string is a place in a buffer that holds its characters and a NUL.
pub mod Pieces
pub mod Tokens
mod Tests
use exec.Base.{
  ℕ, zero, suc, ◌+◌, ◌||◌, Bool, true, false, Option, none, some, List, [], ◌∷◌, if◌then◌else◌,
  ◌>>=◌, ◌==◌, drop, store_at,
}

abbrev pub is_in : ℕ → List ℕ → Bool
is_in c [] = false
is_in c (d ∷ ds) = (c == d) || is_in c ds

-- `strpbrk` on the rest of a buffer that starts at `at`: the place of the first character of `delim` before
-- the NUL, or `some none` for NULL; `none` if the buffer ends before its NUL.
unfoldable pub strpbrk : List ℕ → ℕ → List ℕ → Option (Option ℕ)
strpbrk [] at delim = none
strpbrk (c ∷ cs) at delim =
    let rest = strpbrk cs (at + 1) delim in
    if c == 0 then some none else if is_in c delim then some (some at) else rest

-- `strsep`: what it returns, what it leaves in `*string`, and the buffer.
unfoldable pub strsep : Option ℕ → List ℕ → List ℕ → Option (Option ℕ × Option ℕ × List ℕ)
strsep none delim buffer = some (none, none, buffer)
strsep (some start) delim buffer = do
  p ← strpbrk (drop start buffer) start delim
  elim p [
    | none ↦ some (some start, none, buffer)
    | some q ↦ store_at buffer q 0 >>= (λ buffer'. some (some start, some (q + 1), buffer'))
  ]
