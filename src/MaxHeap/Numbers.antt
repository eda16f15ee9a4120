-- ===== src/MaxHeap/Numbers.antt =====
-- The numbers that a stream gives: each takes a character at least, so the loop ends.
use exec.Base.{
  ℕ, zero, suc, ◌+◌, ◌-◌, ◌*◌, ◌≤◌, ◌<◌, ◌≡◌, ap, List, [], ◌∷◌, Bool, true, false, length, arith,
  Bool-cases, inl, inr, Returns, returns, Returns->>=,
}
use exec.Base.Int.{ℤ}
use exec.MaxHeap.Commands.{extract, read_ints, skip_space, digits_of, in_range, number, after_space}
use exec.Chat.Message.{is_digit}

-- A successful extraction takes at least one character.
digits_of-shorter : (acc : ℕ) (s : List ℕ) → length (digits_of acc s).1 ≤ length s
digits_of-shorter acc [] = omega arith
digits_of-shorter acc (c ∷ s) = ground (arith, digits_of-shorter (acc * 10 + (c - b'0')) s)

digits_of-shrinks :
    (c : ℕ) (s : List ℕ) → is_digit c ≡ true → length (digits_of 0 (c ∷ s)).1 ≤ length s
digits_of-shrinks c s h = ground (arith, digits_of-shorter (0 * 10 + (c - b'0')) s)

in_range-rest : (b : Bool) (n : ℕ) (rest : List ℕ) → (in_range b n rest).2 ≡ rest
in_range-rest true n rest = ground arith
in_range-rest false n rest = ground arith

number-shrinks : (b : Bool) (s : List ℕ) → (number b s).0 ≡ true → length (number b s).2 < length s
number-shrinks b [] h = cc
number-shrinks b (c ∷ s) h = elim (Bool-cases (is_digit c)) [
  | inl digit ↦
      let k = digits_of 0 (c ∷ s) in
      ground (arith, digits_of-shrinks c s digit, ap length (in_range-rest b k.0 k.1))
  | inr other ↦ ground arith
]

after_space-shrinks :
    (old : ℤ) (s : List ℕ) → (after_space old s).0 ≡ true → length (after_space old s).2 < length s
after_space-shrinks old [] h = cc
after_space-shrinks old (c ∷ s) h =
    ground (arith, number-shrinks true s, number-shrinks false s, number-shrinks false (c ∷ s))

skip_space-shorter : (s : List ℕ) → length (skip_space s) ≤ length s
skip_space-shorter [] = omega arith
skip_space-shorter (c ∷ s) = ground (arith, skip_space-shorter s)

extract-shrinks :
    (old : ℤ) (s : List ℕ) → (extract old s).0 ≡ true → length (extract old s).2 < length s
unfolding extract
extract-shrinks old s h =
    omega (arith, after_space-shrinks old (skip_space s) h, skip_space-shorter s)

pub read_ints-Returns :
    (fuel : ℕ) (old : ℤ) (s : List ℕ)
    → length s < fuel
    → Returns (λ xs. length xs ≤ length s) (read_ints fuel old s)
unfolding read_ints
read_ints-Returns zero old s h = absurd (omega arith)
read_ints-Returns (suc fuel) old s h = elim (Bool-cases (extract old s).0) [
  | inl ok ↦
      let k = extract-shrinks old s ok in
      rw ok (
        Returns->>= (read_ints-Returns fuel (extract old s).1 (extract old s).2 (omega arith))
          (λ xs e. returns (omega (arith, e, k))))
  | inr stop ↦ rw stop (returns (omega arith))
]
