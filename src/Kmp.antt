-- ===== src/Kmp.antt =====
-- The search of Project1/FileTransMain.cpp: `trim`, `getPi`, `kmp` and `intslen`. A string is its
-- characters without the NUL; `none` is an access outside an array or through NULL.
pub mod Border
pub mod Table
pub mod Naive
pub mod Search
pub mod Count
mod Tests
use exec.Base.{
  ℕ, zero, suc, ◌+◌, ◌-◌, Option, none, some, List, [], ◌∷◌, Bool, true, false, if◌then◌else◌,
  ◌>>=◌, ◌==◌, ltb, leb, length, get_elem?, store_at, replicate, ◌&&◌, take,
}
use exec.Base.Int.{ℤ, pos, negsuc}

-- `p[j]`, where the NUL stands behind the last character.
abbrev pub char_at : List ℕ → ℕ → Option ℕ
char_at [] zero = some 0
char_at [] (suc j) = none
char_at (c ∷ p) zero = some c
char_at (c ∷ p) (suc j) = char_at p j

-- `trim`
unfoldable pub trim : List ℕ → Option (List ℕ)
trim str = if leb (length str) 1 then some str else do
  c ← char_at str (length str - 1)
  some (if c == 10 then take (length str - 1) str else str)

-- `while (j > 0 && c != p[j]) j = pi[j - 1];`, on fuel
unfoldable pub fall_back : ℕ → ℕ → List ℕ → List ℕ → ℕ → Option ℕ
fall_back zero c p pi j = none
fall_back (suc fuel) c p pi j = if j == 0 then some 0 else do
  d ← char_at p j
  if c == d then some j else do k ← get_elem? pi (j - 1); fall_back fuel c p pi k

-- The body of the loop of `getPi`: `j` and `pi` after it.
unfoldable pub pi_step : List ℕ → ℕ → ℕ → List ℕ → Option (ℕ × List ℕ)
pi_step p i j pi = do
  c ← char_at p i
  j' ← fall_back (j + 1) c p pi j
  d ← char_at p j'
  if c == d then (do pi' ← store_at pi i (j' + 1); some (j' + 1, pi')) else some (j', pi)

-- The loop of `getPi`, for the `n` rounds from `i` on.
unfoldable pub pi_loop : ℕ → List ℕ → ℕ → ℕ → List ℕ → Option (List ℕ)
pi_loop zero p i j pi = some pi
pi_loop (suc n) p i j pi = do (j', pi') ← pi_step p i j pi; pi_loop n p (i + 1) j' pi'

-- `getPi`; `got` says whether `malloc` gave the table, and no cell stands for NULL.
unfoldable pub get_pi : Bool → List ℕ → Option (List ℕ)
get_pi got p = if got then pi_loop (length p - 1) p 1 0 (replicate (length p) 0) else some []

-- `a - b` of two natural numbers as an `int`
abbrev pub difference : ℕ → ℕ → ℤ
difference a b = if leb b a then pos (a - b) else negsuc (b - a - 1)

-- The body of the loop of `kmp`: `j`, `ans` and `*ansi` after it.
unfoldable pub match_step : List ℕ → List ℕ → List ℕ → ℕ → ℕ → List ℤ → ℕ → Option (ℕ × List ℤ × ℕ)
match_step s p pi i j ans ansi = do
  c ← char_at s i
  j' ← fall_back (j + 1) c p pi j
  d ← char_at p j'
  if c == d
      then (if j' + 1 == length p
          then (do
            ans' ← store_at ans ansi (difference (i + 1) (length p))
            k ← get_elem? pi j'
            some (k, ans', ansi + 1))
          else some (j' + 1, ans, ansi))
      else some (j', ans, ansi)

unfoldable pub match_loop : ℕ → List ℕ → List ℕ → List ℕ → ℕ → ℕ → List ℤ → ℕ → Option (List ℤ × ℕ)
match_loop zero s p pi i j ans ansi = some (ans, ansi)
match_loop (suc n) s p pi i j ans ansi = do
  (j', ans', ansi') ← match_step s p pi i j ans ansi
  match_loop n s p pi (i + 1) j' ans' ansi'

-- `kmp`: the array and `*ansi`, or `some none` for NULL. The flags say whether the two calls of
-- `malloc` gave their blocks.
unfoldable pub kmp : Bool → Bool → List ℕ → List ℕ → Option (Option (List ℤ × ℕ))
kmp got_pi got_ans s p = do
  pi ← get_pi got_pi p
  if got_ans
      then (do
        r ← match_loop (length s) s p pi 0 0 (replicate (length s) (negsuc 0)) 0
        some (some r))
      else some none

-- `isIntArrEnd` and `isValueSet`
abbrev pub is_int_arr_end : ℤ → Bool
is_int_arr_end (pos n) = false
is_int_arr_end (negsuc n) = true

abbrev pub is_value_set : ℤ → Bool
is_value_set (pos n) = ltb 0 n
is_value_set (negsuc n) = false

-- `intslen` with these two tests
unfoldable pub intslen : List ℤ → Option ℕ
intslen [] = none
intslen (v ∷ ar) =
    if is_int_arr_end v
    then some 0
    else do cnt ← intslen ar; some (if is_value_set v then cnt + 1 else cnt)
