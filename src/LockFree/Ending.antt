-- ===== src/LockFree/Ending.antt =====
-- The consumer of MyUtil/LockFreeMain.cpp comes to its end.
use exec.Base.{ℕ, ◌+◌, ◌≡◌, refl, sym, ◌∙◌, Option, none, some, List, [], ◌∷◌, true, arith}
use exec.LockFree.{LockFreeStack, Consumer, Exchange, ExchangeStep, ExchangeSteps, created}
use exec.LockFree.Joined.{joined-counts}

module _ {S : Type 0} (boost : LockFreeStack S) (iterations : ℕ) where
  prepend :
      {x y z : Exchange S}
      → ExchangeStep boost iterations x y
      → ExchangeSteps boost iterations y z
      → ExchangeSteps boost iterations x z
  prepend s (ExchangeSteps.stay) = ExchangeSteps.go ExchangeSteps.stay s
  prepend s (ExchangeSteps.go r t) = ExchangeSteps.go (prepend s r) t

  append :
      {x y z : Exchange S}
      → ExchangeSteps boost iterations x y
      → ExchangeSteps boost iterations y z
      → ExchangeSteps boost iterations x z
  append r (ExchangeSteps.stay) = r
  append r (ExchangeSteps.go q t) = ExchangeSteps.go (append r q) t

  tail-eq : {a b : ℕ} {k l : List ℕ} → a ∷ k ≡ b ∷ l → k ≡ l
  tail-eq e = cc

  -- It stands at its end.
  abbrev Ends : Exchange S → Type 0
  Ends x = (y : Exchange S) × ExchangeSteps boost iterations x y × (y.consumer ≡ Consumer.stopped)

  -- A pop in the last loop, and what the loop does behind it.
  drain_popped :
      (x : Exchange S)
      → x.consumer ≡ Consumer.draining
      → ((y : Exchange S) (v : ℕ)
          → boost.contents x.stack ≡ v ∷ boost.contents y.stack
          → y.consumer ≡ Consumer.draining
          → Ends y)
      → (r : Option ℕ) (s : S) → boost.pop x.stack ≡ (r, s)
      → Ends x
  drain_popped x c rest none s e = (
    record x { stack = s; consumer = Consumer.stopped },
    ExchangeSteps.go ExchangeSteps.stay (ExchangeStep.emptied s c e),
    refl,
  )
  drain_popped x c rest (some v) s e =
      let next : Exchange S = record x { stack = s; consumer_count = x.consumer_count + 1 } in
      let (y, steps, stops) = rest next v (boost.pop_some x.stack s v e) c in
      (y, prepend (ExchangeStep.drained v s c e) steps, stops)

  drain :
      (k : List ℕ) (x : Exchange S)
      → boost.contents x.stack ≡ k
      → x.consumer ≡ Consumer.draining
      → Ends x
  drain [] x e c =
      drain_popped x c (λ y v more c'. absurd (ground (arith, sym e ∙ more)))
        ((boost.pop x.stack).0) ((boost.pop x.stack).1) refl
  drain (v ∷ k) x e c =
      drain_popped x c (λ y w more c'. drain k y (tail-eq (sym more ∙ e)) c')
        ((boost.pop x.stack).0) ((boost.pop x.stack).1) refl

  -- The inner loop, once the flag is set.
  abbrev Empties : Exchange S → Type 0
  Empties x =
      (y : Exchange S) × ExchangeSteps boost iterations x y
      × (y.consumer ≡ Consumer.waiting)
      × (y.all_started ≡ x.all_started)

  pop_popped :
      (x : Exchange S)
      → x.consumer ≡ Consumer.popping
      → ((y : Exchange S) (v : ℕ)
          → boost.contents x.stack ≡ v ∷ boost.contents y.stack
          → y.consumer ≡ Consumer.popping
          → Empties y)
      → (r : Option ℕ) (s : S) → boost.pop x.stack ≡ (r, s)
      → Empties x
  pop_popped x c rest none s e = (
    record x { stack = s; consumer = Consumer.waiting },
    ExchangeSteps.go ExchangeSteps.stay (ExchangeStep.nothing s c e),
    refl,
    refl,
  )
  pop_popped x c rest (some v) s e =
      let next : Exchange S = record x { stack = s; consumer_count = x.consumer_count + 1 } in
      let (y, steps, waits, flag) = rest next v (boost.pop_some x.stack s v e) c in
      (y, prepend (ExchangeStep.popped v s c e) steps, waits, flag)

  pop_all :
      (k : List ℕ) (x : Exchange S)
      → boost.contents x.stack ≡ k
      → x.consumer ≡ Consumer.popping
      → Empties x
  pop_all [] x e c =
      pop_popped x c (λ y v more c'. absurd (ground (arith, sym e ∙ more))) ((boost.pop x.stack).0)
        ((boost.pop x.stack).1) refl
  pop_all (v ∷ k) x e c =
      pop_popped x c (λ y w more c'. pop_all k y (tail-eq (sym more ∙ e)) c')
        ((boost.pop x.stack).0) ((boost.pop x.stack).1) refl

  from_waiting : (x : Exchange S) → x.all_started ≡ true → x.consumer ≡ Consumer.waiting → Ends x
  from_waiting x t c =
      let next : Exchange S = record x { consumer = Consumer.draining } in
      let (y, steps, stops) = drain (boost.contents x.stack) next refl refl in
      (y, prepend (ExchangeStep.leave c t) steps, stops)

  consumer-Ends : (x : Exchange S) → x.all_started ≡ true → (c : Consumer) → x.consumer ≡ c → Ends x
  consumer-Ends x t Consumer.waiting c = from_waiting x t c
  consumer-Ends x t Consumer.popping c =
      let (y, steps, waits, flag) = pop_all (boost.contents x.stack) x refl c in
      let (z, more, stops) = from_waiting y (flag ∙ t) waits in (z, append steps more, stops)
  consumer-Ends x t Consumer.draining c = drain (boost.contents x.stack) x refl c
  consumer-Ends x t Consumer.stopped c = (x, ExchangeSteps.stay, c)

  -- From every state that the threads reach from a new stack in which `main` has set the flag, steps lead to
  -- a state in which the consumer has ended, and both counts are the number of iterations there.
  pub flag-Ends :
      (empty : S)
      → boost.contents empty ≡ []
      → (x : Exchange S) → ExchangeSteps boost iterations (created empty) x
      → x.all_started ≡ true
      → (y : Exchange S) × ExchangeSteps boost iterations x y
        × (y.consumer ≡ Consumer.stopped)
        × (y.producer_count ≡ iterations)
        × (y.consumer_count ≡ iterations)
  flag-Ends empty none_yet x r t =
      let (y, steps, stops) = consumer-Ends x t x.consumer refl in
      let (produced, consumed, no_more) =
        joined-counts boost iterations empty none_yet y (append r steps) stops in
      (y, steps, stops, produced, consumed)
