-- ===== src/Bounce/Requests/Pending.antt =====
-- A request of Project1/MThread02.c that no thread takes.
use exec.Base.{
  ℕ, ◌+◌, ◌<◌, ◌≤◌, ◌≡◌, inl, inr, ap, ap₂, sym, ◌∙◌, Bool, true, false, arith, Bool-cases, ◌==◌,
  ◌%◌, if◌then◌else◌, ◌&&◌, [], ◌∷◌, set, All, All-append,
}
use exec.Base.Int.{pos, ltb_ℤ}
use exec.Bounce.{◌+ℤ◌, Coord, Console, tolower}
use exec.Bounce.Faces.{Face, advance}
use exec.Bounce.Running.{All-set, All-get_elem?}
use exec.Bounce.Requests.{
  Requests, Worker, RequestStep, RequestSteps, is_asked, key_round, start_key, stop_key, clear_key,
  request_stop, thread_round, word_draw, equal_ℤ, low_char,
}
use exec.Bounce.Requests.Running.{shut_all-shut}
use exec.Bounce.Requests.Counted.{step-still}

-- At its start or in its loop
abbrev pub IsWorking : Worker → Type 0
IsWorking Worker.starting = Unit {0}
IsWorking (Worker.bouncing f) = Unit {0}
IsWorking Worker.leaving = ⊥
IsWorking Worker.left = ⊥
IsWorking Worker.ended = ⊥

-- `threadDeleteNr` asks for a thread, and `threadNr` has passed that number; no thread is on its way out.
pub record IsPending {S : Type 0} (asked : ℕ) (b : Requests S) : Type 0 where
  pub nr : ℕ
  pub is_nr : b.thread_nr ≡ pos nr
  pub few : nr ≤ 32
  pub passed : asked < nr
  pub is_asked_nr : b.thread_delete_nr ≡ pos asked
  pub working : All IsWorking b.threads

module _ {S : Type 0} (asked : ℕ) where
  start_key-IsPending :
      (k : ℕ) (b : Requests S) → IsPending asked b → IsPending asked (start_key k b)
  unfolding start_key
  start_key-IsPending k b p = elim (Bool-cases ((tolower k == 97) && ltb_ℤ b.thread_nr (pos 32))) [
    | inl e ↦ rw e (record {
      nr = p.nr + 1;
      is_nr = ap (λ z. z +ℤ pos 1) p.is_nr;
      few = omega (arith, room e);
      passed = omega (arith, p.passed);
      is_asked_nr = p.is_asked_nr;
      working = All-append IsWorking b.threads (Worker.starting ∷ []) p.working (tt, tt);
    })
    | inr e ↦ rw e p
  ]
    where
      room : (tolower k == 97) && ltb_ℤ b.thread_nr (pos 32) ≡ true → p.nr < 32
      room e =
          let e' = sym (ap (λ z. (tolower k == 97) && ltb_ℤ z (pos 32)) p.is_nr) ∙ e in
          ground (arith, e')

  -- The next request is refused while one is pending.
  stop_key-IsPending :
      (k : ℕ) (b : Requests S) → 0 < asked → IsPending asked b → IsPending asked (stop_key k b)
  unfolding stop_key
  stop_key-IsPending k b some_asked p =
      let busy : equal_ℤ b.thread_delete_nr (pos 0) ≡ false =
        ap (λ z. equal_ℤ z (pos 0)) p.is_asked_nr ∙ nonzero asked some_asked in
      elim (Bool-cases (tolower k == 100)) [ inl e ↦ rw (e, busy) p | inr e ↦ rw e p ]
    where
      nonzero : (n : ℕ) → 0 < n → equal_ℤ (pos n) (pos 0) ≡ false
      nonzero n h = ground arith

  clear_key-IsPending :
      (clear : S → S) (k : ℕ) (b : Requests S)
      → IsPending asked b
      → IsPending asked (clear_key clear k b)
  unfolding clear_key
  clear_key-IsPending clear k b p = elim (Bool-cases (tolower k == 99)) [
    | inl e ↦ rw e (record {
      nr = p.nr;
      is_nr = p.is_nr;
      few = p.few;
      passed = p.passed;
      is_asked_nr = p.is_asked_nr;
      working = p.working;
    })
    | inr e ↦ rw e p
  ]

  key_round-IsPending :
      (clear : S → S) (k : ℕ) (b : Requests S)
      → 0 < asked
      → (key_round clear k b).shut ≡ false
      → IsPending asked b
      → IsPending asked (key_round clear k b)
  unfolding key_round
  key_round-IsPending clear k b some_asked h p = elim (Bool-cases (tolower k == 113)) [
    | inl e ↦
        absurd (
          ground
            (arith, e, h, shut_all-shut clear (clear_key clear k (stop_key k (start_key k b)))))
    | inr e ↦ rw e (
        clear_key-IsPending clear k (stop_key k (start_key k b))
          (stop_key-IsPending k (start_key k b) some_asked (start_key-IsPending k b p)))
  ]

  -- No thread takes the request for its own.
  is_asked-false : (b : Requests S) → IsPending asked b → is_asked b ≡ false
  is_asked-false b p =
      ap₂ (λ d z. ltb_ℤ (pos 0) d && equal_ℤ d (low_char z)) p.is_asked_nr p.is_nr
      ∙ other p.nr p.few p.passed
    where
      other :
          (n : ℕ)
          → n ≤ 32
          → asked < n
          → ltb_ℤ (pos 0) (pos asked) && equal_ℤ (pos asked) (low_char (pos n)) ≡ false
      other n few less = let same : n % 256 ≡ n = omega arith in ground (arith, same)

  set-IsPending :
      (b : Requests S) (i : ℕ) (v : Worker) (screen : S)
      → IsWorking v
      → IsPending asked b
      → IsPending asked (record b { screen = screen; threads = set b.threads i v })
  set-IsPending b i v screen w p = record {
    nr = p.nr;
    is_nr = p.is_nr;
    few = p.few;
    passed = p.passed;
    is_asked_nr = p.is_asked_nr;
    working = All-set IsWorking b.threads i v p.working w;
  }

module _ {S : Type 0} (console : Console S) (clear : S → S) (size : Coord) where
  step-IsPending :
      {b b' : Requests S} (asked : ℕ)
      → 0 < asked
      → RequestStep console clear size b b'
      → b'.shut ≡ false
      → IsPending asked b
      → IsPending asked b'
  unfolding thread_round
  step-IsPending {b} asked a (RequestStep.key k still) h p =
      key_round-IsPending asked clear k b a h p
  step-IsPending {b} asked a (RequestStep.begin i chance f e made) h p =
      set-IsPending asked b i (Worker.bouncing f) b.screen tt p
  step-IsPending {b} asked a (RequestStep.round i timeout f e) h p =
      let f' = advance size ((word_draw console f b.screen).0) in
      let after : Worker =
        if timeout
        then (if is_asked b then Worker.leaving else Worker.bouncing f')
        else (if is_asked b then Worker.leaving else Worker.bouncing f') in
      set-IsPending asked b i after ((word_draw console f b.screen).1)
        (works timeout (is_asked b) f' (is_asked-false asked b p)) p
    where
      works :
          (t a : Bool) (f' : Face)
          → a ≡ false
          → IsWorking (
              if t
              then (if a then Worker.leaving else Worker.bouncing f')
              else (if a then Worker.leaving else Worker.bouncing f'))
      works true true f' e = ground arith
      works true false f' e = tt
      works false true f' e = ground arith
      works false false f' e = tt
  step-IsPending {b} asked a (RequestStep.reset i e) h p =
      absurd (All-get_elem? IsWorking b.threads i Worker.leaving p.working e)
  step-IsPending {b} asked a (RequestStep.leave i e) h p =
      absurd (All-get_elem? IsWorking b.threads i Worker.left p.working e)

  steps-IsPending :
      (b b' : Requests S) (asked : ℕ)
      → 0 < asked
      → IsPending asked b
      → RequestSteps console clear size b b'
      → b'.shut ≡ false
      → IsPending asked b'
  steps-IsPending b b' asked a p (RequestSteps.stay) h = p
  steps-IsPending b b' asked a p (RequestSteps.next {b' = m} r s) h =
      step-IsPending asked a s h
        (steps-IsPending b m asked a p r (step-still console clear size s h))

  -- If the key 'a' is read behind the key 'd' before a thread looks at `threadDeleteNr`, the request is
  -- lost for good: from a state with no request, with between 1 and 31 threads counted and each thread at
  -- its start or in its loop, in every state after the two keys in which keys are still read,
  -- `threadDeleteNr` is what it was set to, `threadNr` is greater, at most 32, and each thread is at its
  -- start or in its loop.
  pub request-IsPending :
      (b b' : Requests S) (n : ℕ)
      → b.thread_delete_nr ≡ pos 0
      → b.thread_nr ≡ pos n
      → 0 < n
      → n < 32
      → All IsWorking b.threads
      → RequestSteps console clear size (key_round clear b'a' (key_round clear b'd' b)) b'
      → b'.shut ≡ false
      → IsPending n b'
  unfolding key_round clear_key stop_key start_key request_stop
  request-IsPending b b' n free nr few many working steps h =
      steps-IsPending (key_round clear b'a' (key_round clear b'd' b)) b' n few pending steps h
    where
      asks : equal_ℤ b.thread_delete_nr (pos 0) && ltb_ℤ (pos 0) b.thread_nr ≡ true
      asks = ap₂ (λ d z. equal_ℤ d (pos 0) && ltb_ℤ (pos 0) z) free nr ∙ more n few
        where
          more : (m : ℕ) → 0 < m → equal_ℤ (pos 0) (pos 0) && ltb_ℤ (pos 0) (pos m) ≡ true
          more m l = ground arith

      room : ltb_ℤ b.thread_nr (pos 32) ≡ true
      room = ap (λ z. ltb_ℤ z (pos 32)) nr ∙ has_room n many
        where
          has_room : (m : ℕ) → m < 32 → ltb_ℤ (pos m) (pos 32) ≡ true
          has_room m l = ground arith

      pending : IsPending n (start_key b'a' (stop_key b'd' b))
      pending =
          rw (asks, room)
            (record {
              nr = n + 1;
              is_nr = ap (λ z. z +ℤ pos 1) nr;
              few = omega arith;
              passed = omega arith;
              is_asked_nr = nr;
              working = All-append IsWorking b.threads (Worker.starting ∷ []) working (tt, tt);
            })
