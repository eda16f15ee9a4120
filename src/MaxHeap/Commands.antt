-- ===== src/MaxHeap/Commands.antt =====
-- The dialogue of `main` in Project1/MyTestMain01.cpp over its heap: lines in, listings out.
use exec.Base.{
  ℕ, zero, suc, ◌+◌, ◌-◌, ◌*◌, ◌^◌, Option, none, some, List, [], ◌∷◌, ◌++◌, Bool, true, false, not,
  ◌&&◌, ◌||◌, if◌then◌else◌, ◌>>=◌, ◌==◌, ltb, leb, drop, map, length,
}
use exec.Base.Int.{ℤ, pos, pos_part}
use exec.MaxHeap.{Heap, delete_max, build_heap, print}
use exec.Chat.Message.{is_digit, is_space, negate}

-- `line.rfind(word) == 0`: the last occurrence of the word is at the start.
abbrev pub starts : List ℕ → List ℕ → Bool
starts [] line = true
starts (w ∷ word) [] = false
starts (w ∷ word) (c ∷ line) = w == c && starts word line

abbrev pub contains : List ℕ → List ℕ → Bool
contains word [] = starts word []
contains word (c ∷ line) = starts word (c ∷ line) || contains word line

unfoldable pub rfind_zero : List ℕ → List ℕ → Bool
rfind_zero word [] = starts word []
rfind_zero word (c ∷ line) = starts word (c ∷ line) && not (contains word line)

abbrev pub same : List ℕ → List ℕ → Bool
same [] [] = true
same [] (d ∷ b) = false
same (c ∷ a) [] = false
same (c ∷ a) (d ∷ b) = c == d && same a b

abbrev pub to_lower : ℕ → ℕ
to_lower c = if leb b'A' c && leb c b'Z' then c + 32 else c

-- `ss >> data`: whether it succeeds, the variable after it, and what is left of the stream.
abbrev pub skip_space : List ℕ → List ℕ
skip_space [] = []
skip_space (c ∷ s) = elim (is_space c) [ true ↦ skip_space s | false ↦ c ∷ s ]

abbrev pub digits_of : ℕ → List ℕ → ℕ × List ℕ
digits_of acc [] = (acc, [])
digits_of acc (c ∷ s) = elim (is_digit c) [
  | true ↦ digits_of (acc * 10 + (c - b'0')) s
  | false ↦ (acc, c ∷ s)
]

abbrev pub in_range : Bool → ℕ → List ℕ → Bool × ℤ × List ℕ
in_range true n rest =
    if leb n (2 ^ 31) then (true, negate n, rest) else (false, negate (2 ^ 31), rest)
in_range false n rest =
    if ltb n (2 ^ 31) then (true, pos n, rest) else (false, pos (2 ^ 31 - 1), rest)

abbrev pub number : Bool → List ℕ → Bool × ℤ × List ℕ
number negative [] = (false, pos 0, [])
number negative (c ∷ s) =
    let (n, rest) = digits_of 0 (c ∷ s) in
    if is_digit c then in_range negative n rest else (false, pos 0, c ∷ s)

abbrev pub after_space : ℤ → List ℕ → Bool × ℤ × List ℕ
after_space old [] = (false, old, [])
after_space old (c ∷ s) =
    if c == b'-' then number true s else if c == b'+' then number false s else number false (c ∷ s)

unfoldable pub extract : ℤ → List ℕ → Bool × ℤ × List ℕ
extract old s = after_space old (skip_space s)

-- `while (ss >> data)`, on fuel: the numbers that it reads.
unfoldable pub read_ints : ℕ → ℤ → List ℕ → Option (List ℤ)
read_ints zero old s = none
read_ints (suc fuel) old s =
    let (ok, x, rest) = extract old s in
    if ok then (do xs ← read_ints fuel x rest; some (x ∷ xs)) else some []

-- What a line writes: the size and the values.
pub data Output : Type 0 where
  listing : ℕ → List ℤ → Output
  raw : ℕ → List ℤ → Output

-- The heap, and the variable `data` of `main`.
pub record Dialogue : Type 0 where
  pub heap : Heap
  pub data_value : ℤ

unfoldable pub delete_many : ℕ → Heap → Option Heap
delete_many zero h = some h
delete_many (suc n) h = do (x, h') ← delete_max h; delete_many n h'

-- The loop of `printraw`.
unfoldable pub raw_values : ℕ → List ℤ → Option (List ℤ)
raw_values zero ar = some []
raw_values (suc n) [] = none
raw_values (suc n) (x ∷ ar) = do xs ← raw_values n ar; some (x ∷ xs)

abbrev pub word_exit : List ℕ
word_exit = b'e' ∷ b'x' ∷ b'i' ∷ b't' ∷ []

abbrev pub word_print : List ℕ
word_print = b'p' ∷ b'r' ∷ b'i' ∷ b'n' ∷ b't' ∷ []

abbrev pub word_printraw : List ℕ
word_printraw = word_print ++ (b'r' ∷ b'a' ∷ b'w' ∷ [])

abbrev pub word_delete : List ℕ
word_delete = b'd' ∷ b'e' ∷ b'l' ∷ b'e' ∷ b't' ∷ b'e' ∷ []

abbrev pub word_deleteall : List ℕ
word_deleteall = word_delete ++ (b'a' ∷ b'l' ∷ b'l' ∷ [])

abbrev pub word_input : List ℕ
word_input = b'i' ∷ b'n' ∷ b'p' ∷ b'u' ∷ b't' ∷ []

-- The two tests that print.
unfoldable pub show : List ℕ → Heap → Option (List Output)
show line h = do
  shown ←
      if same line word_print then (do xs ← print h; some (listing h.count xs ∷ [])) else some []
  raws ←
      if same line word_printraw
      then (do xs ← raw_values h.count h.ar; some (raw h.count xs ∷ []))
      else some []
  some (shown ++ raws)

-- The tests behind that of `delete`, which `continue` passes over.
unfoldable pub rest_of_line : (ℕ → List ℤ) → List ℕ → Dialogue → Option Dialogue
rest_of_line alloc line r = do
  h ← if same line word_deleteall then delete_many r.heap.count r.heap else some r.heap
  h' ←
      if rfind_zero word_input line
      then (do xs ← read_ints (length line + 1) (pos 0) (drop 5 line); build_heap alloc xs h)
      else some h
  some (record r { heap = h' })

unfoldable pub change : (ℕ → List ℤ) → List ℕ → Dialogue → Option Dialogue
change alloc line r =
    if rfind_zero word_delete line
    then (let r' : Dialogue = record r { data_value = (extract r.data_value (drop 6 line)).1 } in
        if pos_part r'.data_value == 0 then some r' else do
          h ← delete_many (pos_part r'.data_value) r.heap
          rest_of_line alloc line (record r' { heap = h }))
    else rest_of_line alloc line r

-- The loop over the lines.
unfoldable pub run : (ℕ → List ℤ) → List (List ℕ) → Dialogue → Option (List Output × Dialogue)
run alloc [] r = some ([], r)
run alloc (l ∷ ls) r =
    let line = map to_lower l in
    if rfind_zero word_exit line then some ([], r) else do
      out ← show line r.heap
      r' ← change alloc line r
      (outs, r'') ← run alloc ls r'
      some (out ++ outs, r'')
