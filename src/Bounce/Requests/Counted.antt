-- ===== src/Bounce/Requests/Counted.antt =====
-- What `threadNr` of Project1/MThread02.c counts in every state.
use exec.Base.{◌≡◌, refl, Bool, true, false, arith, if◌then◌else◌}
use exec.Bounce.{Coord, Console}
use exec.Bounce.Faces.{Face, advance}
use exec.Bounce.Requests.{
  Requests, Worker, RequestStep, RequestSteps, ready, is_asked, thread_round, word_draw,
  reset_request, count_down,
}
use exec.Bounce.Requests.Running.{
  weight, IsCounted, key_round-IsCounted, set-IsCounted, count_down-IsCounted,
  reset_request-IsCounted,
}

module _ {S : Type 0} (console : Console S) (clear : S → S) (size : Coord) where
  -- Once the keys are no longer read they never are again.
  pub step-still :
      {b b' : Requests S} → RequestStep console clear size b b' → b'.shut ≡ false → b.shut ≡ false
  unfolding thread_round reset_request count_down
  step-still (RequestStep.key k still) h = still
  step-still (RequestStep.begin i chance f e made) h = h
  step-still (RequestStep.round i timeout f e) h = h
  step-still (RequestStep.reset i e) h = h
  step-still (RequestStep.leave i e) h = h

  step-IsCounted :
      {b b' : Requests S}
      → RequestStep console clear size b b'
      → b'.shut ≡ false
      → IsCounted b
      → IsCounted b'
  unfolding thread_round reset_request count_down
  step-IsCounted {b} (RequestStep.key k still) h c = key_round-IsCounted clear k b h c
  step-IsCounted {b} (RequestStep.begin i chance f e made) h c =
      set-IsCounted b i Worker.starting (Worker.bouncing f) b.screen e refl c
  step-IsCounted {b} (RequestStep.round i timeout f e) h c =
      let f' = advance size ((word_draw console f b.screen).0) in
      let after : Worker =
        if timeout
        then (if is_asked b then Worker.leaving else Worker.bouncing f')
        else (if is_asked b then Worker.leaving else Worker.bouncing f') in
      set-IsCounted b i (Worker.bouncing f) after ((word_draw console f b.screen).1) e
        (weighs timeout (is_asked b) f') c
    where
      weighs :
          (t a : Bool) (f' : Face)
          → 1
            ≡ weight (
                if t
                then (if a then Worker.leaving else Worker.bouncing f')
                else (if a then Worker.leaving else Worker.bouncing f'))
      weighs true true f' = refl
      weighs true false f' = refl
      weighs false true f' = refl
      weighs false false f' = refl
  step-IsCounted {b} (RequestStep.reset i e) h c = reset_request-IsCounted i b e c
  step-IsCounted {b} (RequestStep.leave i e) h c = count_down-IsCounted i b e c

  -- In every state that the steps of the keys and the threads lead to while `readInput` reads keys,
  -- `threadNr` is the number of threads that have not counted themselves down, at most 32, and
  -- `threadDeleteNr` is between 0 and 32.
  pub steps-IsCounted :
      (screen : S) (b : Requests S)
      → RequestSteps console clear size (ready clear screen) b
      → b.shut ≡ false
      → IsCounted b
  steps-IsCounted screen b (RequestSteps.stay) h = record {
    asked = 0;
    nr = refl;
    few = omega arith;
    delete_nr = refl;
    asked_few = omega arith;
  }
  steps-IsCounted screen b (RequestSteps.next {b'} r s) h =
      step-IsCounted s h (steps-IsCounted screen b' r (step-still s h))
