-- ===== src/Bounce/Running.antt =====
-- What holds while the threads of Project1/MThread01.c run.
use exec.Base.{
  ℕ, zero, suc, ◌+◌, ◌%◌, ◌<◌, ◌≤◌, ◌≡◌, inl, inr, refl, ap, sym, subst, ◌∙◌, Bool, true, false,
  arith, Bool-cases, ltb, ◌==◌, if◌then◌else◌, ◌&&◌, some, List, [], ◌∷◌, length, set, get_elem?,
  All, All-append, length-set, length-append,
}
use exec.Base.Int.{pos}
use exec.Bounce.{coord, Console, tolower}
use exec.Bounce.Faces.{
  Face, draw, advance, Thread, Bounce, key_pressed, release_all, shut_down, kbd_func, bounce_proc,
  Step, Reachable,
}
use exec.Bounce.Inside.{IsBouncing, begin_face-IsBouncing, advance-IsBouncing}
use exec.Base.{some-eq}

-- The thread's face bounces, if it has one.
abbrev pub IsThread : ℕ → ℕ → Thread → Type 0
IsThread w h Thread.starting = Unit {0}
IsThread w h (Thread.bouncing f) = IsBouncing w h f
IsThread w h Thread.ended = Unit {0}

-- At most 32 threads were ever started, each face bounces; `threadNr` counts the threads started until
-- `ShutDown` has counted it down, releasing the mutex once for each of them.
pub record IsRunning {S : Type 0} (w h : ℕ) (b : Bounce S) : Type 0 where
  pub few : length b.threads ≤ 32
  pub faces : All (IsThread w h) b.threads
  pub counted : b.thread_nr + b.releases ≡ length b.threads
  pub before : b.shut ≡ false → b.releases ≡ 0
  pub after : b.shut ≡ true → b.thread_nr ≡ 0

pub All-set :
    {A : Type 0} (P : A → Type 0) (xs : List A) (i : ℕ) (v : A)
    → All P xs
    → P v
    → All P (set xs i v)
All-set P [] i v all p = all
All-set P (x ∷ xs) zero v all p = (p, all.1)
All-set P (x ∷ xs) (suc i) v all p = (all.0, All-set P xs i v (all.1) p)

pub All-get_elem? :
    {A : Type 0} (P : A → Type 0) (xs : List A) (i : ℕ) (v : A)
    → All P xs
    → get_elem? xs i ≡ some v
    → P v
All-get_elem? P [] i v all e = absurd (ground arith)
All-get_elem? P (x ∷ xs) zero v all e = subst P (some-eq e) (all.0)
All-get_elem? P (x ∷ xs) (suc i) v all e = All-get_elem? P xs i v (all.1) e

release_all-eq : (n r : ℕ) → release_all n r ≡ (0, r + n)
unfolding release_all
release_all-eq zero r = ap (λ m. (0, m)) (omega arith)
release_all-eq (suc n) r = release_all-eq n (r + 1) ∙ ap (λ m. (0, m)) (omega arith)

module _ {S : Type 0} (clear : S → S) (w h : ℕ) where
  key_pressed-IsRunning :
      (key : ℕ) (b : Bounce S)
      → b.shut ≡ false
      → IsRunning w h b
      → IsRunning w h (key_pressed key b) × ((key_pressed key b).shut ≡ false)
  unfolding key_pressed
  key_pressed-IsRunning key b still run =
      elim (Bool-cases ((tolower key == 97) && ltb b.thread_nr 32)) [
        | inl e ↦ rw e (
          record {
            few = omega (
              arith,
              length-append b.threads (Thread.starting ∷ []),
              room e,
              run.counted,
              run.before still,
            );
            faces = All-append (IsThread w h) b.threads (Thread.starting ∷ []) run.faces (tt, tt);
            counted = omega (arith, length-append b.threads (Thread.starting ∷ []), run.counted);
            before = run.before;
            after = λ e'. absurd (ground (arith, still));
          },
          still,
        )
        | inr e ↦ rw e (run, still)
      ]
    where
      room : (tolower key == 97) && ltb b.thread_nr 32 ≡ true → b.thread_nr < 32
      room e = ground arith

  shut_down-IsRunning : (b : Bounce S) → IsRunning w h b → IsRunning w h (shut_down clear b)
  unfolding shut_down
  shut_down-IsRunning b run = rw (release_all-eq b.thread_nr b.releases) (record {
    few = run.few;
    faces = run.faces;
    counted = omega (arith, run.counted);
    before = λ e. absurd (ground arith);
    after = λ e. refl;
  })

module _ {S : Type 0} (console : Console S) (clear : S → S) (w h : ℕ) where
  bounce_proc-IsRunning :
      (timeout : Bool) (i : ℕ) (f : Face) (b : Bounce S)
      → w ≤ 32763
      → h ≤ 32763
      → get_elem? b.threads i ≡ some (Thread.bouncing f)
      → IsRunning w h b
      → IsRunning w h (bounce_proc console clear (coord (pos w) (pos h)) timeout i f b)
  unfolding bounce_proc draw
  bounce_proc-IsRunning timeout i f b sw sh e run = record {
    few = omega (arith, run.few, length-set b.threads i after);
    faces = All-set (IsThread w h) b.threads i after run.faces (fine timeout);
    counted = run.counted ∙ sym (length-set b.threads i after);
    before = run.before;
    after = run.after;
  }
    where
      drawn : Face
      drawn = (draw console f b.screen).0

      after : Thread
      after =
          if timeout then Thread.bouncing (advance (coord (pos w) (pos h)) drawn) else Thread.ended

      moved : IsBouncing w h drawn
      moved =
          let was = All-get_elem? (IsThread w h) b.threads i (Thread.bouncing f) run.faces e in
          record { on_x = was.on_x; on_y = was.on_y }

      fine :
          (t : Bool)
          → IsThread w h
              (if t then Thread.bouncing (advance (coord (pos w) (pos h)) drawn) else Thread.ended)
      fine true = advance-IsBouncing w h drawn sw sh moved
      fine false = tt

  Step-IsRunning :
      {b b' : Bounce S}
      → w ≤ 32763
      → h ≤ 32763
      → Step console clear (coord (pos w) (pos h)) b b'
      → IsRunning w h b
      → IsRunning w h b'
  unfolding kbd_func
  Step-IsRunning {b} sw sh (Step.key k still) run =
      let (pressed, open_still) = key_pressed-IsRunning clear w h k b still run in
      elim (Bool-cases (tolower k == 113)) [
        | inl e ↦ rw e (shut_down-IsRunning clear w h (key_pressed k b) pressed)
        | inr e ↦ rw e pressed
      ]
  Step-IsRunning {b} sw sh (Step.begin i chance f e made) run = record {
    few = omega (arith, run.few, length-set b.threads i (Thread.bouncing f));
    faces =
        All-set (IsThread w h) b.threads i (Thread.bouncing f) run.faces
          (begin_face-IsBouncing w h (b.thread_nr % 256) chance f sw sh made);
    counted = run.counted ∙ sym (length-set b.threads i (Thread.bouncing f));
    before = run.before;
    after = run.after;
  }
  Step-IsRunning {b} sw sh (Step.round i timeout f e) run =
      bounce_proc-IsRunning timeout i f b sw sh e run

  -- In every reachable state, whatever the keys, `rand`, the console and the waits for the mutex do,
  -- over a screen of w columns and h rows, of at most 32763 each: at most 32 threads were ever started;
  -- each face that is to be drawn is in columns 0 to w - 1 or at most three columns outside, and then
  -- inside after its next move, and the same for the rows 0 to h; `threadNr` counts the threads started
  -- until `ShutDown`, which leaves it at 0 and has called `ReleaseMutex` once for each.
  pub Reachable-IsRunning :
      (screen : S) (b : Bounce S)
      → w ≤ 32763
      → h ≤ 32763
      → Reachable console clear (coord (pos w) (pos h)) screen b
      → IsRunning w h b
  Reachable-IsRunning screen b sw sh (Reachable.start) = record {
    few = omega arith;
    faces = tt;
    counted = refl;
    before = λ e. refl;
    after = λ e. refl;
  }
  Reachable-IsRunning screen b sw sh (Reachable.step r s) =
      Step-IsRunning sw sh s (Reachable-IsRunning screen _ sw sh r)
