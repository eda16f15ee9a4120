-- ===== src/WordList.antt =====
-- The dialogue of `main` in Project1/FileTransMain.cpp over a list of words. `malloc` enters as an
-- allocator of list elements, as `copies`, which says whether a word's own block was obtained, and as
-- `given`, which says it of the two bytes for an answer. `none` is a fault: an access through NULL, or
-- an answer that does not fit these two bytes. `scanf_s`, which the code calls without the size of its
-- buffer, is taken to store what it reads.
pub mod Lines
pub mod Refine
pub mod Removed
pub mod Held
mod Tests
use exec.Base.{
  ℕ, zero, suc, ◌+◌, Option, none, some, List, [], ◌∷◌, ◌++◌, Bool, true, false, ◌||◌,
  if◌then◌else◌, ◌>>=◌, ◌==◌, ltb, take, length, ◌^◌, ◌-◌,
}
use exec.Base.Int.{ℤ, pos, negsuc, pos_part, ltb_ℤ}
use exec.MyList.{Ptr, Heap, MyList, ins_next, rem_next}
use exec.Chat.Message.{atoi}
use exec.MaxHeap.Commands.{same}

abbrev pub Word : Type 0
Word = List ℕ

-- `strtok_s` with the delimiters space and newline, called until it gives NULL, which it does at the
-- first NUL; `word` is the token that has been read so far.
abbrev pub flush : Word → List Word → List Word
flush [] rest = rest
flush (c ∷ word) rest = (c ∷ word) ∷ rest

abbrev pub is_delimiter : ℕ → Bool
is_delimiter c = c == 32 || c == 10

unfoldable pub tokens : Word → List ℕ → List Word
tokens word [] = flush word []
tokens word (c ∷ s) = elim (c == 0) [
  | true ↦ flush word []
  | false ↦ elim (is_delimiter c) [
    | true ↦ flush word (tokens [] s)
    | false ↦ tokens (word ++ (c ∷ [])) s
  ]
]

-- `atoi`, which stays in the range of `int`.
abbrev pub bounded : ℤ → ℤ
bounded (pos n) = if ltb n (2 ^ 31) then pos n else pos (2 ^ 31 - 1)
bounded (negsuc n) = if ltb n (2 ^ 31) then negsuc n else negsuc (2 ^ 31 - 1)

abbrev pub int_of : Word → ℤ
int_of w = bounded (atoi w)

abbrev pub negative : ℤ → Bool
negative (pos n) = false
negative (negsuc n) = true

-- What a line writes: the words that were removed, with their numbers, or the usage.
pub data Output : Type 0 where
  removed : ℕ → Word → Output
  usage : Output

module _ (malloc : Heap Word → Ptr) (copies : Heap Word → Word → Bool) where
  -- `add`: its block for the word is not tested for NULL. The answer is `isRun`.
  unfoldable pub add : List Word → MyList Word → Option (Bool × MyList Word)
  add [] l = some (true, l)
  add (w ∷ ws) l =
      if copies l.heap w
      then (do
        (status, l') ← ins_next (malloc l.heap) l 0 w
        if negative status then some (false, l') else add ws l')
      else none

  -- The inner loop of `madd`.
  unfoldable pub add_times : ℕ → Word → MyList Word → Option (Bool × MyList Word)
  add_times zero w l = some (true, l)
  add_times (suc n) w l =
      if copies l.heap w
      then (do
        (status, l') ← ins_next (malloc l.heap) l 0 w
        if negative status then some (false, l') else add_times n w l')
      else some (false, l)

  unfoldable pub add_each : ℕ → List Word → MyList Word → Option (Bool × MyList Word)
  add_each n [] l = some (true, l)
  add_each n (w ∷ ws) l = do
    (runs, l') ← add_times n w l
    if runs then add_each n ws l' else some (false, l')

  -- `madd`
  unfoldable pub madd : List Word → MyList Word → Option (Bool × MyList Word)
  madd [] l = some (true, l)
  madd (w ∷ ws) l =
      if ltb_ℤ (int_of w) (pos 1) then some (true, l) else add_each (pos_part (int_of w)) ws l

-- The loop of `remove`, from number `i` on; a refused removal would print through a wild pointer.
unfoldable pub remove_loop : ℕ → ℕ → MyList Word → Option (List Output × MyList Word)
remove_loop zero i l = some ([], l)
remove_loop (suc n) i l = do
  (status, got, l') ← rem_next l 0
  word ← got
  (out, l'') ← remove_loop n (i + 1) l'
  some (removed i word ∷ out, l'')

abbrev pub is_yes : Word → Bool
is_yes w = same (b'y' ∷ []) w || same (b'Y' ∷ []) w

abbrev pub word_all : Word
word_all = b'a' ∷ b'l' ∷ b'l' ∷ []

-- How many words `remove` is to take; `answer` is what `scanf_s` reads if it is called. `none` is the
-- overrun of the two bytes, `some none` the end of the program when they are not given.
unfoldable pub remove_count : List Word → Bool → Word → MyList Word → Option (Option ℤ)
remove_count [] given answer l = some (some (pos 1))
remove_count (w ∷ ws) given answer l =
    if same word_all w
    then (if given
        then (if ltb (length answer) 2
            then some (some (if is_yes answer then pos l.size else pos 0))
            else none)
        else some none)
    else if ltb_ℤ (pos 0) (int_of w)
    then some (if given then some (if is_yes (take 1 answer) then int_of w else pos 0) else none)
    else some (some (int_of w))

-- The part of `remove` behind the questions.
abbrev pub remove_counted : ℤ → MyList Word → Option (Bool × List Output × MyList Word)
remove_counted count l =
    if ltb_ℤ (pos l.size) count
    then some (true, [], l)
    else do (out, l') ← remove_loop (pos_part count) 0 l; some (true, out, l')

-- `remove`: whether the program goes on, what it writes, and the list.
unfoldable pub remove :
    List Word → Bool → Word → MyList Word → Option (Bool × List Output × MyList Word)
remove ws given answer l = do
  asked ← remove_count ws given answer l
  elim asked [ none ↦ some (false, [], l) | some count ↦ remove_counted count l ]
