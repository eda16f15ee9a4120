-- ===== src/LockFree/Joined.antt =====
-- What is counted when the threads are joined.
use exec.Base.{ℕ, ◌+◌, ◌≡◌, refl, ap, sym, subst, ◌∙◌, some, List, [], true, length, arith}
use exec.LockFree.{
  LockFreeStack, Producer, Consumer, Exchange, ExchangeStep, ExchangeSteps, created,
}

-- How many values the producer has pushed and counted.
abbrev pub Pushes : ℕ → ℕ → Producer → ℕ → Type 0
Pushes iterations n (Producer.counting i) pushed = (pushed ≡ i) × (n ≡ i)
Pushes iterations n (Producer.pushing i value) pushed = (pushed ≡ i) × (n ≡ i + 1)
Pushes iterations n Producer.stopped pushed = (pushed ≡ iterations) × (n ≡ iterations)

-- Before its last loop the consumer may meet anything; in it the producer is at its end, and behind it the
-- stack is empty.
abbrev pub Drained : Producer → List ℕ → Consumer → Type 0
Drained p stack Consumer.waiting = Unit {0}
Drained p stack Consumer.popping = Unit {0}
Drained p stack Consumer.draining = p ≡ Producer.stopped
Drained p stack Consumer.stopped = (p ≡ Producer.stopped) × (stack ≡ [])

module _ {S : Type 0} (boost : LockFreeStack S) (iterations : ℕ) where
  -- Each value pushed was popped and counted or is on the stack.
  pub record IsBalanced (x : Exchange S) : Type 0 where
    pub pushes :
        Pushes iterations x.producer_count x.producer
          (x.consumer_count + length (boost.contents x.stack))
    pub started : x.all_started ≡ true → x.producer ≡ Producer.stopped
    pub drained : Drained x.producer (boost.contents x.stack) x.consumer

  counting_runs : {i : ℕ} → Producer.counting i ≡ Producer.stopped → ⊥
  counting_runs e = ground (arith, e)

  pushing_runs : {i value : ℕ} → Producer.pushing i value ≡ Producer.stopped → ⊥
  pushing_runs e = ground (arith, e)

  producer-Pushes :
      {x : Exchange S} {p : Producer}
      → x.producer ≡ p
      → IsBalanced x
      → Pushes iterations x.producer_count p (x.consumer_count + length (boost.contents x.stack))
  producer-Pushes {x} e b =
      subst
        (λ q.
          Pushes iterations x.producer_count q (x.consumer_count + length (boost.contents x.stack)))
        e b.pushes

  running :
      {x : Exchange S}
      → (x.producer ≡ Producer.stopped → ⊥)
      → IsBalanced x
      → x.all_started ≡ true
      → ⊥
  running n b t = n (b.started t)

  not_draining :
      (p p' : Producer) (k k' : List ℕ) (c : Consumer)
      → (p ≡ Producer.stopped → ⊥)
      → Drained p k c
      → Drained p' k' c
  not_draining p p' k k' Consumer.waiting n d = tt
  not_draining p p' k k' Consumer.popping n d = tt
  not_draining p p' k k' Consumer.draining n d = absurd (n d)
  not_draining p p' k k' Consumer.stopped n d = absurd (n (d.0))

  stack_kept :
      {x : Exchange S} (s : S)
      → boost.contents s ≡ boost.contents x.stack
      → IsBalanced x
      → IsBalanced (record x { stack = s })
  stack_kept {x} s e b = record {
    pushes =
        subst (λ k. Pushes iterations x.producer_count x.producer (x.consumer_count + length k))
          (sym e) b.pushes;
    started = b.started;
    drained = subst (λ k. Drained x.producer k x.consumer) (sym e) b.drained;
  }

  pop_counted :
      {x : Exchange S} (v : ℕ) (s : S)
      → boost.pop x.stack ≡ (some v, s)
      → IsBalanced x
      → Pushes iterations x.producer_count x.producer
          (x.consumer_count + 1 + length (boost.contents s))
  pop_counted {x} v s r b =
      let one = ap length (boost.pop_some x.stack s v r) in
      let same : x.consumer_count + length (boost.contents x.stack)
          ≡ x.consumer_count + 1 + length (boost.contents s) =
        omega arith in
      subst (Pushes iterations x.producer_count x.producer) same b.pushes

  step-IsBalanced :
      {x y : Exchange S} → ExchangeStep boost iterations x y → IsBalanced x → IsBalanced y
  step-IsBalanced {x} (ExchangeStep.count i p n) b =
      let (pushed, counted) = producer-Pushes p b in
      record {
        pushes = (pushed, omega arith);
        started = λ t. absurd (running (λ e. counting_runs (sym p ∙ e)) b t);
        drained =
            not_draining x.producer _ (boost.contents x.stack) _ x.consumer
              (λ e. counting_runs (sym p ∙ e)) b.drained;
      }
  step-IsBalanced {x} (ExchangeStep.pushed i value s p r) b =
      let (pushed, counted) = producer-Pushes p b in
      let more = ap length (boost.push_true x.stack s value r) in
      record {
        pushes = (omega arith, counted);
        started = λ t. absurd (running (λ e. pushing_runs (sym p ∙ e)) b t);
        drained =
            not_draining x.producer _ (boost.contents x.stack) _ x.consumer
              (λ e. pushing_runs (sym p ∙ e)) b.drained;
      }
  step-IsBalanced {x} (ExchangeStep.refused i value s p r) b =
      let same = boost.push_false x.stack s value r in stack_kept s same b
  step-IsBalanced {x} (ExchangeStep.all_pushed i p n) b =
      let (pushed, counted) = producer-Pushes p b in
      record {
        pushes = (pushed ∙ n, counted ∙ n);
        started = λ t. refl;
        drained =
            not_draining x.producer _ (boost.contents x.stack) _ x.consumer
              (λ e. counting_runs (sym p ∙ e)) b.drained;
      }
  step-IsBalanced {x} (ExchangeStep.joined p) b = record {
    pushes = b.pushes;
    started = λ t. p;
    drained = b.drained;
  }
  step-IsBalanced {x} (ExchangeStep.enter c f) b = record {
    pushes = b.pushes;
    started = b.started;
    drained = tt;
  }
  step-IsBalanced {x} (ExchangeStep.leave c f) b = record {
    pushes = b.pushes;
    started = b.started;
    drained = b.started f;
  }
  step-IsBalanced {x} (ExchangeStep.popped v s c r) b = record {
    pushes = pop_counted v s r b;
    started = b.started;
    drained = subst (Drained x.producer (boost.contents s)) (sym c) tt;
  }
  step-IsBalanced {x} (ExchangeStep.nothing s c r) b =
      let (was, now) = boost.pop_none x.stack s r in
      record {
        pushes =
            subst (λ k. Pushes iterations x.producer_count x.producer (x.consumer_count + length k))
              (was ∙ sym now) b.pushes;
        started = b.started;
        drained = tt;
      }
  step-IsBalanced {x} (ExchangeStep.drained v s c r) b = record {
    pushes = pop_counted v s r b;
    started = b.started;
    drained =
        subst (Drained x.producer (boost.contents s)) (sym c)
          (subst (Drained x.producer (boost.contents x.stack)) c b.drained);
  }
  step-IsBalanced {x} (ExchangeStep.emptied s c r) b =
      let (was, now) = boost.pop_none x.stack s r in
      record {
        pushes =
            subst (λ k. Pushes iterations x.producer_count x.producer (x.consumer_count + length k))
              (was ∙ sym now) b.pushes;
        started = b.started;
        drained = (subst (Drained x.producer (boost.contents x.stack)) c b.drained, now);
      }

  steps-IsBalanced :
      (empty : S)
      → boost.contents empty ≡ []
      → (x : Exchange S) → ExchangeSteps boost iterations (created empty) x
      → IsBalanced x
  steps-IsBalanced empty none_yet x (ExchangeSteps.stay) = record {
    pushes = (omega (arith, ap length none_yet), refl);
    started = λ t. absurd (ground (arith, t));
    drained = tt;
  }
  steps-IsBalanced empty none_yet x (ExchangeSteps.go {y = y} r s) =
      step-IsBalanced s (steps-IsBalanced empty none_yet y r)

  -- In every state that the threads reach from a new stack in which the consumer has ended, the counts that
  -- `main` prints are both the number of iterations, and the stack is empty.
  pub joined-counts :
      (empty : S)
      → boost.contents empty ≡ []
      → (x : Exchange S) → ExchangeSteps boost iterations (created empty) x
      → x.consumer ≡ Consumer.stopped
      → (x.producer_count ≡ iterations)
        × (x.consumer_count ≡ iterations)
        × (boost.contents x.stack ≡ [])
  joined-counts empty none_yet x r c =
      let b = steps-IsBalanced empty none_yet x r in
      let (p, no_more) = subst (Drained x.producer (boost.contents x.stack)) c b.drained in
      let (pushed, counted) =
        subst
          (λ q.
            Pushes iterations x.producer_count q
              (x.consumer_count + length (boost.contents x.stack)))
          p b.pushes in
      (counted, omega (arith, pushed, ap length no_more), no_more)
