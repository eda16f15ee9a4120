-- ===== src/IndentStream.antt =====
-- `indentbuf` of Project1/IndentStream.cpp, a stream buffer that indents each line of what it passes on.
pub mod Written
mod Tests
use exec.Base.{
  ℕ, zero, suc, ◌+◌, ◌-◌, Option, none, some, List, [], ◌∷◌, ◌++◌, Bool, true, false, if◌then◌else◌,
  ◌==◌, leb,
}

-- `out` is what the buffer behind it has been given.
pub record Indentbuf : Type 0 where
  pub m_indent : ℕ
  pub m_need : Bool
  pub out : List ℕ

unfoldable pub new_indentbuf : List ℕ → Indentbuf
new_indentbuf out = record { m_indent = 4; m_need = true; out = out }

unfoldable pub indent : Indentbuf → Indentbuf
indent b = record b { m_indent = b.m_indent + 4 }

unfoldable pub deindent : Indentbuf → Indentbuf
deindent b = if leb 4 b.m_indent then record b { m_indent = b.m_indent - 4 } else b

-- `takes` says whether the buffer behind takes one more character after what it has.
module _ (takes : List ℕ → Bool) where
  -- `m_sbuf->sputc(c)`: whether it was taken, and what the buffer then has.
  unfoldable pub sputc : ℕ → List ℕ → Bool × List ℕ
  sputc c out = if takes out then (true, out ++ (c ∷ [])) else (false, out)

  -- `fill_n` over an `ostreambuf_iterator`, which ignores a refused character and those behind it.
  unfoldable pub fill : ℕ → List ℕ → List ℕ
  fill zero out = out
  fill (suc n) out =
      let (taken, out') = sputc 32 out in let rest = fill n out' in if taken then rest else out

  abbrev pub is_newline : ℕ → Bool
  is_newline c = c == 10

  -- `overflow`: no character is `eof`, which `sputc` takes for the character 255. The answer says
  -- whether the result is not `eof`.
  unfoldable pub overflow : Option ℕ → Indentbuf → Bool × Indentbuf
  overflow none b = let (taken, out) = sputc 255 b.out in (taken, record b { out = out })
  overflow (some c) b =
      let filled = if b.m_need then fill b.m_indent b.out else b.out in
      let (taken, out) = sputc c filled in
      if taken
      then (true, record b { m_need = is_newline c; out = out })
      else (false, record b { m_need = false; out = out })

  -- A stream without a put area hands each character to `overflow`, up to the first refusal.
  unfoldable pub write : List ℕ → Indentbuf → Bool × Indentbuf
  write [] b = (true, b)
  write (c ∷ s) b =
      let (ok, b') = overflow (some c) b in
      let rest = write s b' in if ok then rest else (false, b')
