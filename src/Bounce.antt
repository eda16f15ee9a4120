-- ===== src/Bounce.antt =====
-- The bouncing faces of Project1/MThread01.c, Main01.c and MThread02.c: what the three programs share.
-- The console is a parameter; `rand` and the waits give whatever they give.
pub mod Axis
pub mod Faces
pub mod Inside
mod Tests
pub mod Requests
pub mod Trail
pub mod Alone
pub mod Screen
pub mod Running
use exec.Base.{
  ℕ, zero, suc, ◌+◌, ◌-◌, ◌%◌, ◌≡◌, ◌≢◌, Option, none, some, Bool, ◌&&◌, ◌||◌, if◌then◌else◌, ◌>>=◌,
  ltb, leb, ◌==◌,
}
use exec.Base.Int.{ℤ, pos, negsuc, ltb_ℤ}

infixl 65 ◌+ℤ◌
abbrev pub ◌+ℤ◌ : ℤ → ℤ → ℤ
pos a +ℤ pos b = pos (a + b)
pos a +ℤ negsuc b = if ltb b a then pos (a - b - 1) else negsuc (b - a)
negsuc a +ℤ pos b = if ltb a b then pos (b - a - 1) else negsuc (a - b)
negsuc a +ℤ negsuc b = negsuc (a + b + 1)

abbrev pub negate : ℤ → ℤ
negate (pos zero) = pos 0
negate (pos (suc n)) = negsuc n
negate (negsuc n) = pos (suc n)

-- What a SHORT keeps of an int.
abbrev pub bias : ℤ → ℕ
bias (pos n) = (n + 32768) % 65536
bias (negsuc n) = (98303 - n % 65536) % 65536

abbrev pub short : ℤ → ℤ
short z = if ltb (bias z) 32768 then negsuc (32767 - bias z) else pos (bias z - 32768)

-- COORD
pub record Coord : Type 0 where
  pub x : ℤ
  pub y : ℤ

abbrev pub coord : ℤ → ℤ → Coord
coord a b = record { x = a; y = b }

-- `tolower` of the C locale
abbrev pub tolower : ℕ → ℕ
tolower key = if leb 65 key && leb key 90 then key + 32 else key

-- The calls of the console. A read gives no character where the screen buffer has no such place.
pub record Console (S : Type 0) : Type 0 where
  pub read_character : S → Coord → Option ℕ
  pub read_attribute : S → Coord → Option ℕ
  pub write_character : S → ℕ → Coord → S
  pub write_attribute : S → ℕ → Coord → S
