-- ===== src/Chat/Message.antt =====
-- `chat_message`: a buffer of 4 header and 512 body bytes, and the length of the body.
use exec.Base.{
  ℕ, zero, suc, ◌+◌, ◌-◌, ◌/◌, ◌%◌, ◌^◌, ◌*◌, Option, none, some, List, [], ◌∷◌, ◌++◌, Bool, true,
  false, ◌&&◌, ◌||◌, if◌then◌else◌, ◌>>=◌, ◌==◌, ltb, leb, take, drop, length,
}
use exec.Base.Int.{ℤ, pos, negsuc}

abbrev pub header_length : ℕ
header_length = 4

abbrev pub max_body_length : ℕ
max_body_length = 512

-- `bytes` is `data_`.
pub record ChatMessage : Type 0 where
  pub bytes : List ℕ
  pub body_length : ℕ

-- The constructor; `bytes` is what the memory held.
unfoldable pub new_message : List ℕ → ChatMessage
new_message bytes = record { bytes = bytes; body_length = 0 }

-- `length()`
unfoldable pub wire_length : ChatMessage → ℕ
wire_length m = header_length + m.body_length

-- The bytes of `data()` that are sent.
unfoldable pub wire : ChatMessage → List ℕ
unfolding wire_length
wire m = take (wire_length m) m.bytes

-- `body()`, as far as `body_length` goes.
unfoldable pub body : ChatMessage → List ℕ
body m = take m.body_length (drop header_length m.bytes)

-- `body_length(new_length)`
unfoldable pub set_body_length : ℕ → ChatMessage → ChatMessage
set_body_length n m = record m {
  body_length = if ltb max_body_length n then max_body_length else n;
}

-- A `memcpy` to `data_ + offset`.
abbrev pub copy_to : List ℕ → ℕ → List ℕ → List ℕ
copy_to bytes offset src = take offset bytes ++ (src ++ drop (offset + length src) bytes)

-- `sprintf("%4d")` of a number of at most four digits.
abbrev pub digit : ℕ → ℕ
digit d = b'0' + d % 10

unfoldable pub format_4d : ℕ → List ℕ
format_4d n =
    (if ltb n 1000 then b' ' else digit (n / 1000))
    ∷ (if ltb n 100 then b' ' else digit (n / 100))
    ∷ (if ltb n 10 then b' ' else digit (n / 10))
    ∷ digit n
    ∷ []

-- `encode_header`: `sprintf_s` stops the program when the text and its NUL do not fit five bytes.
unfoldable pub encode_header : ChatMessage → Option ChatMessage
encode_header m =
    if ltb m.body_length 10000
    then some (record m { bytes = copy_to m.bytes 0 (format_4d m.body_length) })
    else none

-- The characters of `src` before its NUL, `count` at most.
abbrev pub c_string : ℕ → List ℕ → List ℕ
c_string zero src = []
c_string (suc n) [] = []
c_string (suc n) (c ∷ src) = if c == 0 then [] else c ∷ c_string n src

-- `strncat_s(dest, size, src, count)` at an empty `dest`: the characters and their NUL have to fit
-- `size` bytes; if they do not, the program is stopped.
abbrev pub strncat_s : ℕ → List ℕ → ℕ → Option (List ℕ)
strncat_s size src count =
    if ltb (length (c_string count src)) size then some (c_string count src) else none

abbrev pub is_digit : ℕ → Bool
is_digit c = leb b'0' c && leb c b'9'

-- The white space of `isspace`.
abbrev pub is_space : ℕ → Bool
is_space c = c == 32 || (leb 9 c && leb c 13)

-- `atoi`
abbrev pub digits_from : ℕ → List ℕ → ℕ
digits_from acc [] = acc
digits_from acc (c ∷ s) =
    let more = digits_from (acc * 10 + (c - b'0')) s in if is_digit c then more else acc

abbrev pub negate : ℕ → ℤ
negate zero = pos 0
negate (suc n) = negsuc n

abbrev pub signed : List ℕ → ℤ
signed [] = pos 0
signed (c ∷ s) =
    if c == b'-'
    then negate (digits_from 0 s)
    else if c == b'+'
    then pos (digits_from 0 s)
    else pos (digits_from 0 (c ∷ s))

abbrev pub atoi : List ℕ → ℤ
atoi [] = pos 0
atoi (c ∷ s) = let rest = atoi s in if is_space c then rest else signed (c ∷ s)

-- An `int` converted to `std::size_t`.
abbrev pub to_size : ℤ → ℕ
to_size (pos n) = n
to_size (negsuc n) = 2 ^ 64 - (n + 1)

-- `decode_header`: its answer and the message. `none` is the stop in `strncat_s`.
unfoldable pub decode_header : ChatMessage → Option (Bool × ChatMessage)
decode_header m = do
  header ← strncat_s header_length m.bytes header_length
  let n = to_size (atoi header)
  some (
      if ltb max_body_length n
      then (false, record m { body_length = 0 })
      else (true, record m { body_length = n }))
