-- ===== src/Bounce/Inside.antt =====
-- Where the faces of Project1/MThread01.c stand: at the start, and after each round.
use exec.Base.{
  ℕ, zero, suc, ◌+◌, ◌%◌, ◌<◌, ◌≤◌, ◌≡◌, inl, inr, refl, sym, subst, ◌∙◌, arith, Bool-cases, ltb,
  Option, none, some, ◌>>=◌,
}
use exec.Base.{some-eq}
use exec.Base.Int.{ℤ, pos, negsuc, pos_part, neg_part}
use exec.Bounce.{◌+ℤ◌, negate, short, coord}
use exec.Bounce.Axis.{IsInside, IsOn, Tests, move-IsOn, short-eq}
use exec.Bounce.Faces.{getrandom, Face, Chance, begin_face, outside_x, outside_y, advance}

getrandom-eq :
    (low high : ℤ) (n rand : ℕ)
    → (high +ℤ pos 1) +ℤ negate low ≡ pos (suc n)
    → getrandom low high rand ≡ some (short (pos (rand % suc n) +ℤ low))
unfolding getrandom
getrandom-eq low high n rand e = rw (e, getrandom) refl

getrandom-inside :
    (n rand : ℕ) (v : ℤ)
    → n ≤ 32764
    → getrandom (pos 0) (pos n +ℤ negsuc 0) rand ≡ some v
    → IsInside n v
unfolding getrandom
getrandom-inside zero rand v s e = ground arith
getrandom-inside (suc n) rand v s e =
    let count : (pos (suc n) +ℤ negsuc 0 +ℤ pos 1) +ℤ negate (pos 0) ≡ pos (suc n) = ground arith in
    let chosen = getrandom-eq (pos 0) (pos (suc n) +ℤ negsuc 0) n rand count in
    let small : rand % suc n < suc n = grind arith in
    let kept = short-eq (pos (rand % suc n + 0)) (omega arith) (omega arith) in
    subst (IsInside (suc n)) (sym kept ∙ some-eq (sym chosen ∙ e)) (refl, omega arith)

getrandom-slow :
    (rand : ℕ) (v : ℤ)
    → getrandom (negsuc 2) (pos 3) rand ≡ some v
    → (pos_part v ≤ 3) × (neg_part v ≤ 3)
getrandom-slow rand v e =
    let chosen = getrandom-eq (negsuc 2) (pos 3) 6 rand refl in
    subst (λ z. (pos_part z ≤ 3) × (neg_part z ≤ 3)) (some-eq (sym chosen ∙ e))
      (slow (rand % 7) (omega arith))
  where
    slow :
        (r : ℕ)
        → r < 7
        → (pos_part (short (pos r +ℤ negsuc 2)) ≤ 3) × (neg_part (short (pos r +ℤ negsuc 2)) ≤ 3)
    slow r l = ground arith

bind-some :
    {A B : Type 0} (m : Option A) (f : A → Option B) (b : B)
    → m >>= f ≡ some b
    → (a : A) × (m ≡ some a) × (f a ≡ some b)
bind-some none f b e = absurd (ground arith)
bind-some (some a) f b e = (a, refl, e)

inside-IsOn :
    (limit : ℕ) (at by : ℤ)
    → IsInside limit at
    → (pos_part by ≤ 3) × (neg_part by ≤ 3)
    → IsOn limit at by
inside-IsOn limit at by i (r, l) = record {
  right_by = r;
  left_by = l;
  not_above = omega (arith, i);
  not_under = omega (arith, i);
  place = inl i;
}

-- A face of a thread: from column -3 to w + 2, and from row -3 to h + 3, in columns 0 to w - 1 and rows
-- 0 to h, or there after the next move.
pub record IsBouncing (w h : ℕ) (f : Face) : Type 0 where
  pub on_x : IsOn w f.coords.x f.delta.x
  pub on_y : IsOn (h + 1) f.coords.y f.delta.y

pub begin_face-IsBouncing :
    (w h my_id : ℕ) (chance : Chance) (f : Face)
    → w ≤ 32763
    → h ≤ 32763
    → begin_face (coord (pos w) (pos h)) my_id chance ≡ some f
    → IsBouncing w h f
unfolding begin_face
begin_face-IsBouncing w h my_id chance f sw sh e =
    let (x, ex, e1) = bind-some _ _ f e in
    let (y, ey, e2) = bind-some _ _ f e1 in
    let (dx, edx, e3) = bind-some _ _ f e2 in
    let (dy, edy, e4) = bind-some _ _ f e3 in
    subst (IsBouncing w h) (some-eq e4) (record {
      on_x =
          inside-IsOn w x dx (getrandom-inside w chance.rand_x x (omega arith) ex)
            (getrandom-slow chance.rand_dx dx edx);
      on_y =
          inside-IsOn (h + 1) y dy (wider y (getrandom-inside h chance.rand_y y (omega arith) ey))
            (getrandom-slow chance.rand_dy dy edy);
    })
  where
    wider : (z : ℤ) → IsInside h z → IsInside (h + 1) z
    wider z i = (i.0, omega (arith, i.1))

tests-x : (w h : ℕ) → Tests w (outside_x (coord (pos w) (pos h)))
tests-x w h (pos n) = elim (Bool-cases (ltb n w)) [
  | inl l ↦ inr (ground arith, (refl, ground arith))
  | inr l ↦ inl (ground arith, inr (ground arith))
]
tests-x w h (negsuc n) = inl (ground arith, inl (omega arith))

tests-y : (w h : ℕ) → Tests (h + 1) (outside_y (coord (pos w) (pos h)))
tests-y w h (pos n) = elim (Bool-cases (ltb h n)) [
  | inl l ↦ inl (ground arith, inr (ground arith))
  | inr l ↦ inr (ground arith, (refl, ground arith))
]
tests-y w h (negsuc n) = inl (ground arith, inl (omega arith))

pub advance-IsBouncing :
    (w h : ℕ) (f : Face)
    → w ≤ 32763
    → h ≤ 32763
    → IsBouncing w h f
    → IsBouncing w h (advance (coord (pos w) (pos h)) f)
unfolding advance
advance-IsBouncing w h f sw sh b = record {
  on_x =
      move-IsOn w (outside_x (coord (pos w) (pos h))) (omega arith) (tests-x w h) f.coords.x
        f.delta.x b.on_x;
  on_y =
      move-IsOn (h + 1) (outside_y (coord (pos w) (pos h))) (omega arith) (tests-y w h) f.coords.y
        f.delta.y b.on_y;
}
