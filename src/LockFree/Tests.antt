-- ===== src/LockFree/Tests.antt =====
-- A run with one iteration over a stack that is a list.
use exec.Base.{
  ap₂, inl, inr, some-eq, ℕ, ◌≡◌, refl, ap, sym, Option, none, some, List, [], ◌∷◌, Bool, true,
  false, length, arith, ltb, if◌then◌else◌, Bool-cases,
}
use exec.LockFree.{
  LockFreeStack, Producer, Consumer, Exchange, ExchangeStep, ExchangeSteps, created,
}
use exec.LockFree.Ending.{flag-Ends}

true≢false : true ≡ false → ⊥
true≢false e = ground arith

none≢some : {A : Type 0} {a : A} → none ≡ some a → ⊥
none≢some e = ground arith

abbrev push_list : List ℕ → ℕ → Bool × List ℕ
push_list s v = if ltb (length s) 128 then (true, v ∷ s) else (false, s)

abbrev pop_list : List ℕ → Option ℕ × List ℕ
pop_list [] = (none, [])
pop_list (v ∷ s) = (some v, s)

push_list-true : (s s' : List ℕ) (v : ℕ) → push_list s v ≡ (true, s') → s' ≡ v ∷ s
push_list-true s s' v e = elim (Bool-cases (ltb (length s) 128)) [
  | inl t ↦ sym (ap (λ (r : Bool × List ℕ). r.1) (rw t at e))
  | inr f ↦ absurd (true≢false (sym (ap (λ (r : Bool × List ℕ). r.0) (rw f at e))))
]

push_list-false : (s s' : List ℕ) (v : ℕ) → push_list s v ≡ (false, s') → s' ≡ s
push_list-false s s' v e = elim (Bool-cases (ltb (length s) 128)) [
  | inl t ↦ absurd (true≢false (ap (λ (r : Bool × List ℕ). r.0) (rw t at e)))
  | inr f ↦ sym (ap (λ (r : Bool × List ℕ). r.1) (rw f at e))
]

pop_list-some : (s s' : List ℕ) (v : ℕ) → pop_list s ≡ (some v, s') → s ≡ v ∷ s'
pop_list-some [] s' v e = absurd (none≢some (ap (λ (r : Option ℕ × List ℕ). r.0) e))
pop_list-some (w ∷ s) s' v e =
    ap₂ (λ a b. a ∷ b) (some-eq (ap (λ (r : Option ℕ × List ℕ). r.0) e))
      (ap (λ (r : Option ℕ × List ℕ). r.1) e)

pop_list-none : (s s' : List ℕ) → pop_list s ≡ (none, s') → (s ≡ []) × (s' ≡ [])
pop_list-none [] s' e = (refl, sym (ap (λ (r : Option ℕ × List ℕ). r.1) e))
pop_list-none (w ∷ s) s' e = absurd (none≢some (sym (ap (λ (r : Option ℕ × List ℕ). r.0) e)))

abbrev list_stack : LockFreeStack (List ℕ)
list_stack = record {
  push = push_list;
  pop = pop_list;
  contents = λ s. s;
  push_true = push_list-true;
  push_false = push_list-false;
  pop_some = pop_list-some;
  pop_none = pop_list-none;
}

-- The one value was pushed and the producer joined, before the consumer ran.
abbrev flagged : Exchange (List ℕ)
flagged = record {
  stack = 1 ∷ [];
  producer = Producer.stopped;
  consumer = Consumer.waiting;
  producer_count = 1;
  consumer_count = 0;
  all_started = true;
}

flagged-reached : ExchangeSteps list_stack 1 (created []) flagged
flagged-reached =
    ExchangeSteps.go
      (ExchangeSteps.go
        (ExchangeSteps.go
          (ExchangeSteps.go ExchangeSteps.stay (ExchangeStep.count 0 refl (omega arith)))
          (ExchangeStep.pushed 0 1 (1 ∷ []) refl refl))
        (ExchangeStep.all_pushed 1 refl refl))
      (ExchangeStep.joined refl)

flag-Ends_example :
    (y : Exchange (List ℕ)) × ExchangeSteps list_stack 1 flagged y
    × (y.consumer ≡ Consumer.stopped)
    × (y.producer_count ≡ 1)
    × (y.consumer_count ≡ 1)
flag-Ends_example = flag-Ends list_stack 1 [] refl flagged flagged-reached refl
