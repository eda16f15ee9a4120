-- ===== src/LockFree.antt =====
-- MyUtil/LockFreeMain.cpp: one thread pushes numbers on a lock-free stack and one pops them. The stack of
-- boost is a parameter. A pop and the `++consumer_count` behind it are one step, as nothing reads the count
-- before the threads are joined.
pub mod Joined
pub mod Ending
mod Tests
use exec.Base.{ℕ, zero, suc, ◌+◌, ◌≡◌, ◌≢◌, Option, none, some, List, [], ◌∷◌, Bool, true, false}

-- `push` and `pop`, and what they do to the numbers that are on the stack.
pub record LockFreeStack (S : Type 0) : Type 0 where
  pub push : S → ℕ → Bool × S
  pub pop : S → Option ℕ × S
  pub contents : S → List ℕ
  pub push_true : (s s' : S) (v : ℕ) → push s v ≡ (true, s') → contents s' ≡ v ∷ contents s
  pub push_false : (s s' : S) (v : ℕ) → push s v ≡ (false, s') → contents s' ≡ contents s
  pub pop_some : (s s' : S) (v : ℕ) → pop s ≡ (some v, s') → contents s ≡ v ∷ contents s'
  pub pop_none : (s s' : S) → pop s ≡ (none, s') → (contents s ≡ []) × (contents s' ≡ [])

-- `producer` at the test of its loop, in its inner loop with the value to push, and at its end.
pub data Producer : Type 0 where
  counting : ℕ → Producer
  pushing : ℕ → ℕ → Producer
  stopped : Producer

-- `consumer` at the test of its outer loop, at the pop inside it, at the pop of its last loop, and at its end.
pub data Consumer : Type 0 where
  waiting : Consumer
  popping : Consumer
  draining : Consumer
  stopped : Consumer

-- `all_started` is `isAllThreadStarted`, which `main` sets when it has joined the producer.
pub record Exchange (S : Type 0) : Type 0 where
  pub stack : S
  pub producer : Producer
  pub consumer : Consumer
  pub producer_count : ℕ
  pub consumer_count : ℕ
  pub all_started : Bool

module _ {S : Type 0} (boost : LockFreeStack S) (iterations : ℕ) where
  pub data ExchangeStep (x : Exchange S) : Exchange S → Type 0 where
    count :
        (i : ℕ)
        → x.producer ≡ Producer.counting i
        → i ≢ iterations
        → ExchangeStep x (record x {
          producer = Producer.pushing i (x.producer_count + 1);
          producer_count = x.producer_count + 1;
        })
    pushed :
        (i value : ℕ) (s : S)
        → x.producer ≡ Producer.pushing i value
        → boost.push x.stack value ≡ (true, s)
        → ExchangeStep x (record x { stack = s; producer = Producer.counting (i + 1) })
    refused :
        (i value : ℕ) (s : S)
        → x.producer ≡ Producer.pushing i value
        → boost.push x.stack value ≡ (false, s)
        → ExchangeStep x (record x { stack = s })
    all_pushed :
        (i : ℕ)
        → x.producer ≡ Producer.counting i
        → i ≡ iterations
        → ExchangeStep x (record x { producer = Producer.stopped })
    joined : x.producer ≡ Producer.stopped → ExchangeStep x (record x { all_started = true })
    enter :
        x.consumer ≡ Consumer.waiting
        → x.all_started ≡ false
        → ExchangeStep x (record x { consumer = Consumer.popping })
    leave :
        x.consumer ≡ Consumer.waiting
        → x.all_started ≡ true
        → ExchangeStep x (record x { consumer = Consumer.draining })
    popped :
        (v : ℕ) (s : S)
        → x.consumer ≡ Consumer.popping
        → boost.pop x.stack ≡ (some v, s)
        → ExchangeStep x (record x { stack = s; consumer_count = x.consumer_count + 1 })
    nothing :
        (s : S)
        → x.consumer ≡ Consumer.popping
        → boost.pop x.stack ≡ (none, s)
        → ExchangeStep x (record x { stack = s; consumer = Consumer.waiting })
    drained :
        (v : ℕ) (s : S)
        → x.consumer ≡ Consumer.draining
        → boost.pop x.stack ≡ (some v, s)
        → ExchangeStep x (record x { stack = s; consumer_count = x.consumer_count + 1 })
    emptied :
        (s : S)
        → x.consumer ≡ Consumer.draining
        → boost.pop x.stack ≡ (none, s)
        → ExchangeStep x (record x { stack = s; consumer = Consumer.stopped })

  -- Any number of steps.
  pub data ExchangeSteps (x : Exchange S) : Exchange S → Type 0 where
    stay : ExchangeSteps x x
    go : {y z : Exchange S} → ExchangeSteps x y → ExchangeStep y z → ExchangeSteps x z

-- The threads when `main` has created them, over a new stack.
abbrev pub created : {S : Type 0} → S → Exchange S
created empty = record {
  stack = empty;
  producer = Producer.counting 0;
  consumer = Consumer.waiting;
  producer_count = 0;
  consumer_count = 0;
  all_started = false;
}
