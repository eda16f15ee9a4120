-- ===== src/WordList/Lines.antt =====
-- The loop over the lines in `main` of Project1/FileTransMain.cpp.
use exec.Base.{ℕ, Option, some, List, [], ◌∷◌, ◌++◌, Bool, true, false, ◌||◌, if◌then◌else◌, ◌>>=◌}
use exec.MyList.{Ptr, Heap, MyList}
use exec.MaxHeap.Commands.{same, word_exit, word_print}
use exec.WordList.{Word, Output, usage, add, madd, remove, tokens}

-- What one round gets: the line, and if the line asks a question, whether `malloc` gives the two bytes
-- for the answer, and what `scanf_s` reads.
pub record Entry : Type 0 where
  pub line : List ℕ
  pub given : Bool
  pub answer : Word

abbrev pub word_remove : Word
word_remove = b'r' ∷ b'e' ∷ b'm' ∷ b'o' ∷ b'v' ∷ b'e' ∷ []

abbrev pub word_add : Word
word_add = b'a' ∷ b'd' ∷ b'd' ∷ []

abbrev pub word_madd : Word
word_madd = b'm' ∷ word_add

abbrev pub word_cls : Word
word_cls = b'c' ∷ b'l' ∷ b's' ∷ []

abbrev pub word_clear : Word
word_clear = b'c' ∷ b'l' ∷ b'e' ∷ b'a' ∷ b'r' ∷ []

abbrev pub word_size : Word
word_size = b's' ∷ b'i' ∷ b'z' ∷ b'e' ∷ []

abbrev pub word_info : Word
word_info = b'i' ∷ b'n' ∷ b'f' ∷ b'o' ∷ []

abbrev pub word_print2 : Word
word_print2 = word_print ++ (b'2' ∷ [])

-- The commands whose bodies are commented out or only clear the screen.
abbrev pub is_idle : Word → Bool
is_idle cmd =
    same cmd word_cls
    || same cmd word_clear
    || same cmd word_size
    || same cmd word_info
    || same cmd word_print
    || same cmd word_print2

module _ (malloc : Heap Word → Ptr) (copies : Heap Word → Word → Bool) where
  -- One command other than `exit`: `isRun`, the output, and the list.
  unfoldable pub command :
      Word → List Word → Bool → Word → MyList Word → Option (Bool × List Output × MyList Word)
  command cmd ws given answer l =
      if is_idle cmd
      then some (true, [], l)
      else if same cmd word_remove
      then remove ws given answer l
      else if same cmd word_add
      then (do (runs, l') ← add malloc copies ws l; some (runs, [], l'))
      else if same cmd word_madd
      then (do (runs, l') ← madd malloc copies ws l; some (runs, [], l'))
      else some (true, usage ∷ [], l)

  unfoldable pub round : Entry → MyList Word → Option (Bool × List Output × MyList Word)
  round e l = elim (tokens [] e.line) [
    | [] ↦ some (true, [], l)
    | cmd ∷ ws ↦
        if same cmd word_exit then some (false, [], l) else command cmd ws e.given e.answer l
  ]

  -- `while (isRun && fgets(...) != NULL)`
  unfoldable pub run : List Entry → MyList Word → Option (List Output × MyList Word)
  run [] l = some ([], l)
  run (e ∷ es) l = do
    (runs, out, l') ← round e l
    if runs then (do (more, l'') ← run es l'; some (out ++ more, l'')) else some (out, l')
