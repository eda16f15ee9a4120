-- ===== src/Bounce/Tests.antt =====
-- Runs of the faces on a console that is a screen buffer.
use exec.Base.{
  ℕ, ◌≡◌, ◌≢◌, ◌⊎◌, inl, inr, refl, false, arith, ◌&&◌, if◌then◌else◌, Option, none, some, [], ◌∷◌,
  All, not,
}
use exec.Base.Int.{pos, ltb_ℤ}
use exec.Bounce.{Coord, coord, Console}
use exec.Bounce.Faces.{Face, Bounce, Step, Reachable, kbd_func, rounds, draw}
use exec.Bounce.Running.{IsRunning, Reachable-IsRunning}
use exec.Bounce.Alone.{ShowsOnly, rounds-ShowsOnly}
use exec.Bounce.Screen.{IsConsole, Coord-cases}
use exec.Bounce.Trail.{trail_rounds}
use exec.Bounce.Trail.Marks.{IsMarked, drawn_at, trail_rounds-IsMarked}
use exec.Bounce.Requests.{
  Requests, Worker, RequestSteps, RequestStep, key_round, clear_key, stop_key, start_key,
  request_stop, ready,
}
use exec.Bounce.Requests.Running.{IsCounted}
use exec.Bounce.Requests.Counted.{steps-IsCounted}
use exec.Bounce.Requests.Pending.{IsPending, request-IsPending}

-- A screen buffer: the character and the attribute of each place that it has.
abbrev Buffer : Type 0
Buffer = Coord → Option (ℕ × ℕ)

abbrev put_character : {p q : Coord} → (q ≡ p) ⊎ (q ≢ p) → ℕ → Option (ℕ × ℕ) → Option (ℕ × ℕ)
put_character (inl e) c none = none
put_character (inl e) c (some (d, a)) = some (c, a)
put_character (inr n) c o = o

abbrev put_attribute : {p q : Coord} → (q ≡ p) ⊎ (q ≢ p) → ℕ → Option (ℕ × ℕ) → Option (ℕ × ℕ)
put_attribute (inl e) c none = none
put_attribute (inl e) c (some (d, a)) = some (d, c)
put_attribute (inr n) c o = o

abbrev character_of : Option (ℕ × ℕ) → Option ℕ
character_of none = none
character_of (some (c, a)) = some c

abbrev attribute_of : Option (ℕ × ℕ) → Option ℕ
attribute_of none = none
attribute_of (some (c, a)) = some a

abbrev buffer : Console Buffer
buffer = record {
  read_character = λ s p. character_of (s p);
  read_attribute = λ s p. attribute_of (s p);
  write_character = λ s c p q. put_character (Coord-cases q p) c (s q);
  write_attribute = λ s a p q. put_attribute (Coord-cases q p) a (s q);
}

put_here :
    (p : Coord) (w : (p ≡ p) ⊎ (p ≢ p)) (c d : ℕ) (o : Option (ℕ × ℕ))
    → character_of o ≡ some d
    → character_of (put_character w c o) ≡ some c
put_here p (inl e) c d none h = absurd (ground arith)
put_here p (inl e) c d (some (x, a)) h = refl
put_here p (inr n) c d o h = absurd (n refl)

put_nowhere :
    (p : Coord) (w : (p ≡ p) ⊎ (p ≢ p)) (c : ℕ) (o : Option (ℕ × ℕ))
    → character_of o ≡ none
    → character_of (put_character w c o) ≡ none
put_nowhere p (inl e) c none h = refl
put_nowhere p (inl e) c (some (x, a)) h = absurd (ground arith)
put_nowhere p (inr n) c o h = h

put_elsewhere :
    (p q : Coord) (w : (q ≡ p) ⊎ (q ≢ p)) (c : ℕ) (o : Option (ℕ × ℕ))
    → q ≢ p
    → character_of (put_character w c o) ≡ character_of o
put_elsewhere p q (inl e) c o n = absurd (n e)
put_elsewhere p q (inr e) c o n = refl

put_kept :
    (p q : Coord) (w : (q ≡ p) ⊎ (q ≢ p)) (a : ℕ) (o : Option (ℕ × ℕ))
    → character_of (put_attribute w a o) ≡ character_of o
put_kept p q (inl e) a none = refl
put_kept p q (inl e) a (some (x, y)) = refl
put_kept p q (inr e) a o = refl

put_attribute_here :
    (p : Coord) (w : (p ≡ p) ⊎ (p ≢ p)) (a c : ℕ) (o : Option (ℕ × ℕ))
    → character_of o ≡ some c
    → attribute_of (put_attribute w a o) ≡ some a
put_attribute_here p (inl e) a c none h = absurd (ground arith)
put_attribute_here p (inl e) a c (some (x, y)) h = refl
put_attribute_here p (inr n) a c o h = absurd (n refl)

buffer-IsConsole : IsConsole buffer
buffer-IsConsole = record {
  char_here = λ s c d p e. put_here p (Coord-cases p p) c d (s p) e;
  char_nowhere = λ s c p e. put_nowhere p (Coord-cases p p) c (s p) e;
  char_elsewhere = λ s c p q n. put_elsewhere p q (Coord-cases q p) c (s q) n;
  char_kept = λ s a p q. put_kept p q (Coord-cases q p) a (s q);
  attribute_here = λ s a c p e. put_attribute_here p (Coord-cases p p) a c (s p) e;
}

-- Ten columns and four rows, all blank
abbrev blank : Buffer
blank p =
    if (not (ltb_ℤ p.x (pos 0)) && ltb_ℤ p.x (pos 10))
      && (not (ltb_ℤ p.y (pos 0)) && ltb_ℤ p.y (pos 4))
    then some (32, 7)
    else none

blank-blank : (q : Coord) (c : ℕ) → character_of (blank q) ≡ some c → c ≡ 32
blank-blank q c e = ground (arith, e)

abbrev wiped : Buffer → Buffer
wiped s = blank

abbrev size : Coord
size = coord (pos 10) (pos 4)

-- A face of the third thread, which stands in column 8 and moves by three columns a round.
abbrev face : Face
face = record {
  my_cell = 2;
  my_attrib = 3;
  old_cell = 0;
  old_attrib = 0;
  coords = coord (pos 8) (pos 1);
  delta = coord (pos 3) (pos 0);
  old = coord (pos 0) (pos 0);
}

abbrev empty : Bounce Buffer
empty = record { screen = blank; thread_nr = 0; threads = []; shut = false; releases = 0 }

-- One thread is started by 'a'.
one_thread-Reachable : Reachable buffer wiped size blank (kbd_func wiped b'a' empty)
one_thread-Reachable = Reachable.step Reachable.start (Step.key b'a' refl)

Reachable-IsRunning_example : IsRunning 10 4 (kbd_func wiped b'a' empty)
Reachable-IsRunning_example =
    Reachable-IsRunning buffer wiped 10 4 blank (kbd_func wiped b'a' empty) (omega arith)
      (omega arith) one_thread-Reachable

rounds-ShowsOnly_example :
    ShowsOnly buffer 2
      ((rounds buffer size 5 face blank).0.coords)
      ((draw buffer ((rounds buffer size 5 face blank).0) ((rounds buffer size 5 face blank).1)).1)
rounds-ShowsOnly_example = rounds-ShowsOnly buffer buffer-IsConsole size 5 blank face blank-blank

trail_rounds-IsMarked_example :
    All
      (IsMarked buffer 3 ((trail_rounds buffer size 5 face blank).1))
      (drawn_at buffer size 5 face blank)
trail_rounds-IsMarked_example =
    trail_rounds-IsMarked buffer buffer-IsConsole size 5 face blank (omega arith) (inl refl)

-- One thread is counted and in its loop.
abbrev counted : Requests Buffer
counted = record {
  screen = blank;
  thread_nr = pos 1;
  thread_delete_nr = pos 0;
  threads = Worker.bouncing face ∷ [];
  shut = false;
  releases = 0;
}

abbrev lost : Requests Buffer
lost = key_round wiped b'a' (key_round wiped b'd' counted)

lost_open : lost.shut ≡ false
unfolding key_round clear_key stop_key start_key request_stop
lost_open = refl

first_open : (key_round wiped b'a' (ready wiped blank)).shut ≡ false
unfolding key_round clear_key stop_key start_key
first_open = refl

request-IsPending_example : IsPending 1 lost
request-IsPending_example =
    request-IsPending buffer wiped size counted lost 1 refl refl (omega arith) (omega arith)
      (tt, tt) RequestSteps.stay lost_open

steps-IsCounted_example : IsCounted (key_round wiped b'a' (ready wiped blank))
steps-IsCounted_example =
    steps-IsCounted buffer wiped size blank (key_round wiped b'a' (ready wiped blank))
      (RequestSteps.next RequestSteps.stay (RequestStep.key b'a' refl)) first_open
