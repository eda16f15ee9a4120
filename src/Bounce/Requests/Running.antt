-- ===== src/Bounce/Requests/Running.antt =====
-- The count of the running threads of Project1/MThread02.c under each operation.
use exec.Base.{
  ℕ, zero, suc, ◌+◌, ◌<◌, ◌≤◌, ◌≡◌, inl, inr, refl, ap, sym, ◌∙◌, true, false, arith, Bool-cases,
  ◌==◌, ◌&&◌, some, List, [], ◌∷◌, ◌++◌, set, get_elem?,
}
use exec.Base.Int.{ℤ, pos, negsuc, ltb_ℤ}
use exec.Bounce.{◌+ℤ◌, tolower}
use exec.Base.{some-eq}
use exec.Bounce.Requests.{
  Requests, Worker, key_round, start_key, stop_key, clear_key, shut_all, request_stop,
  reset_request, count_down, equal_ℤ,
}

-- 0 for a thread that has counted itself down
abbrev pub weight : Worker → ℕ
weight Worker.starting = 1
weight (Worker.bouncing f) = 1
weight Worker.leaving = 1
weight Worker.left = 1
weight Worker.ended = 0

abbrev pub running : List Worker → ℕ
running [] = 0
running (w ∷ ws) = weight w + running ws

running-append : (ws vs : List Worker) → running (ws ++ vs) ≡ running ws + running vs
running-append [] vs = omega arith
running-append (w ∷ ws) vs = omega (arith, running-append ws vs)

running-set :
    (ws : List Worker) (i : ℕ) (w v : Worker)
    → get_elem? ws i ≡ some w
    → running (set ws i v) + weight w ≡ running ws + weight v
running-set [] i w v e = absurd (ground arith)
running-set (u ∷ ws) zero w v e =
    let same : weight u ≡ weight w = ap weight (some-eq e) in omega (arith, same)
running-set (u ∷ ws) (suc i) w v e = omega (arith, running-set ws i w v e)

-- While the keys are read, `threadNr` is the number of threads that have not counted themselves down,
-- at most 32, and `threadDeleteNr` is 0 or a number that `threadNr` can have.
pub record IsCounted {S : Type 0} (b : Requests S) : Type 0 where
  pub asked : ℕ
  pub nr : b.thread_nr ≡ pos (running b.threads)
  pub few : running b.threads ≤ 32
  pub delete_nr : b.thread_delete_nr ≡ pos asked
  pub asked_few : asked ≤ 32

module _ {S : Type 0} where
  start_key-IsCounted : (k : ℕ) (b : Requests S) → IsCounted b → IsCounted (start_key k b)
  unfolding start_key
  start_key-IsCounted k b c = elim (Bool-cases ((tolower k == 97) && ltb_ℤ b.thread_nr (pos 32))) [
    | inl e ↦ rw e (record {
      asked = c.asked;
      nr =
          ap (λ z. z +ℤ pos 1) c.nr
          ∙ ap pos (sym (running-append b.threads (Worker.starting ∷ [])));
      few = omega (arith, room e, running-append b.threads (Worker.starting ∷ []));
      delete_nr = c.delete_nr;
      asked_few = c.asked_few;
    })
    | inr e ↦ rw e c
  ]
    where
      room : (tolower k == 97) && ltb_ℤ b.thread_nr (pos 32) ≡ true → running b.threads < 32
      room e =
          let e' = sym (ap (λ z. (tolower k == 97) && ltb_ℤ z (pos 32)) c.nr) ∙ e in
          ground (arith, e')

  stop_key-IsCounted : (k : ℕ) (b : Requests S) → IsCounted b → IsCounted (stop_key k b)
  unfolding stop_key request_stop
  stop_key-IsCounted k b c =
      elim (Bool-cases
        ((tolower k == 100) && (equal_ℤ b.thread_delete_nr (pos 0) && ltb_ℤ (pos 0) b.thread_nr))) [
          | inl e ↦ rw e (record {
            asked = running b.threads;
            nr = c.nr;
            few = c.few;
            delete_nr = c.nr;
            asked_few = c.few;
          })
          | inr e ↦ rw e c
        ]

  clear_key-IsCounted :
      (clear : S → S) (k : ℕ) (b : Requests S) → IsCounted b → IsCounted (clear_key clear k b)
  unfolding clear_key
  clear_key-IsCounted clear k b c = elim (Bool-cases (tolower k == 99)) [
    | inl e ↦ rw e (record {
      asked = c.asked;
      nr = c.nr;
      few = c.few;
      delete_nr = c.delete_nr;
      asked_few = c.asked_few;
    })
    | inr e ↦ rw e c
  ]

  -- One thread becomes another that weighs the same.
  pub set-IsCounted :
      (b : Requests S) (i : ℕ) (w v : Worker) (screen : S)
      → get_elem? b.threads i ≡ some w
      → weight w ≡ weight v
      → IsCounted b
      → IsCounted (record b { screen = screen; threads = set b.threads i v })
  set-IsCounted b i w v screen e same c =
      let all : running (set b.threads i v) ≡ running b.threads =
        omega (arith, running-set b.threads i w v e) in
      record {
        asked = c.asked;
        nr = c.nr ∙ ap pos (sym all);
        few = omega (arith, all, c.few);
        delete_nr = c.delete_nr;
        asked_few = c.asked_few;
      }

  pub count_down-IsCounted :
      (i : ℕ) (b : Requests S)
      → get_elem? b.threads i ≡ some Worker.left
      → IsCounted b
      → IsCounted (count_down i b)
  unfolding count_down
  count_down-IsCounted i b e c =
      let one = running-set b.threads i Worker.left Worker.ended e in
      let less : running b.threads ≡ suc (running (set b.threads i Worker.ended)) = omega arith in
      record {
        asked = c.asked;
        nr =
            ap (λ z. z +ℤ negsuc 0) (c.nr ∙ ap pos less)
            ∙ minus_one (running (set b.threads i Worker.ended));
        few = omega (arith, less, c.few);
        delete_nr = c.delete_nr;
        asked_few = c.asked_few;
      }
    where
      minus_one : (n : ℕ) → pos (suc n) +ℤ negsuc 0 ≡ pos n
      minus_one n = ground arith

  pub reset_request-IsCounted :
      (i : ℕ) (b : Requests S)
      → get_elem? b.threads i ≡ some Worker.leaving
      → IsCounted b
      → IsCounted (reset_request i b)
  unfolding reset_request
  reset_request-IsCounted i b e c =
      let one = running-set b.threads i Worker.leaving Worker.left e in
      let all : running (set b.threads i Worker.left) ≡ running b.threads = omega arith in
      record {
        asked = 0;
        nr = c.nr ∙ ap pos (sym all);
        few = omega (arith, all, c.few);
        delete_nr = refl;
        asked_few = omega arith;
      }

  pub shut_all-shut : (clear : S → S) (b : Requests S) → (shut_all clear b).shut ≡ true
  unfolding shut_all
  shut_all-shut clear b = by_count (b.thread_nr) refl
    where
      by_count : (z : ℤ) → b.thread_nr ≡ z → (shut_all clear b).shut ≡ true
      by_count (pos n) e = rw e refl
      by_count (negsuc n) e = rw e refl

  pub key_round-IsCounted :
      (clear : S → S) (k : ℕ) (b : Requests S)
      → (key_round clear k b).shut ≡ false
      → IsCounted b
      → IsCounted (key_round clear k b)
  unfolding key_round
  key_round-IsCounted clear k b h c = elim (Bool-cases (tolower k == 113)) [
    | inl e ↦
        absurd (
          ground
            (arith, e, h, shut_all-shut clear (clear_key clear k (stop_key k (start_key k b)))))
    | inr e ↦ rw e (
        clear_key-IsCounted clear k (stop_key k (start_key k b))
          (stop_key-IsCounted k (start_key k b) (start_key-IsCounted k b c)))
  ]
