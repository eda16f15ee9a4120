-- ===== src/Bounce/Faces.antt =====
-- Project1/MThread01.c: the thread of a face, the keys and the shutdown.
use exec.Base.{
  ℕ, zero, suc, ◌+◌, ◌%◌, ◌≡◌, Option, none, some, Bool, true, false, ◌&&◌, ◌||◌, not,
  if◌then◌else◌, ◌>>=◌, ltb, ◌==◌, List, [], ◌∷◌, ◌++◌, set, get_elem?,
}
use exec.Base.Int.{ℤ, pos, negsuc, ltb_ℤ}
use exec.Bounce.{◌+ℤ◌, negate, short, Coord, coord, tolower, Console}

-- `getrandom`, with what `rand` gives; the remainder by 0 is a fault.
unfoldable pub getrandom : ℤ → ℤ → ℕ → Option ℤ
getrandom low high rand = elim ((high +ℤ pos 1) +ℤ negate low) [
  | pos zero ↦ none
  | pos (suc n) ↦ some (short (pos (rand % suc n) +ℤ low))
  | negsuc n ↦ some (short (pos (rand % suc n) +ℤ low))
]

-- The locals of `BounceProc`; `old_cell` and `old_attrib` are what the last reads left.
pub record Face : Type 0 where
  pub my_cell : ℕ
  pub my_attrib : ℕ
  pub old_cell : ℕ
  pub old_attrib : ℕ
  pub coords : Coord
  pub delta : Coord
  pub old : Coord

-- What the four calls of `rand` give, and what stands in the two variables that are not set.
pub record Chance : Type 0 where
  pub rand_x : ℕ
  pub rand_y : ℕ
  pub rand_dx : ℕ
  pub rand_dy : ℕ
  pub cell : ℕ
  pub attrib : ℕ

-- `BounceProc` before its loop; `my_id` is the byte that `*MyID` reads, a signed `char`.
unfoldable pub begin_face : Coord → ℕ → Chance → Option Face
begin_face size my_id chance = do
  x ← getrandom (pos 0) (size.x +ℤ negsuc 0) chance.rand_x
  y ← getrandom (pos 0) (size.y +ℤ negsuc 0) chance.rand_y
  dx ← getrandom (negsuc 2) (pos 3) chance.rand_dx
  dy ← getrandom (negsuc 2) (pos 3) chance.rand_dy
  some (record {
    my_cell = if ltb 16 my_id && ltb my_id 128 then 1 else 2;
    my_attrib = my_id % 16;
    old_cell = chance.cell;
    old_attrib = chance.attrib;
    coords = coord x y;
    delta = coord dx dy;
    old = coord (pos 0) (pos 0);
  })

-- A variable after a read that may have given nothing.
abbrev pub read_into : ℕ → Option ℕ → ℕ
read_into before none = before
read_into before (some c) = c

module _ {S : Type 0} (console : Console S) where
  -- The part of the loop of `BounceProc` that holds `hScreenMutex`.
  unfoldable pub draw : Face → S → Face × S
  draw f screen =
      let old_cell = read_into f.old_cell (console.read_character screen f.old) in
      let old_attrib = read_into f.old_attrib (console.read_attribute screen f.old) in
      let blanked =
        if (old_cell == f.my_cell) && (old_attrib == f.my_attrib)
        then console.write_character screen 32 f.old
        else screen in
      let drawn = console.write_character blanked f.my_cell f.coords in
      (
        record f { old_cell = old_cell; old_attrib = old_attrib },
        console.write_attribute drawn f.my_attrib f.coords,
      )

-- One axis: the place and the increment of the next round. `outside` is the test of the code.
abbrev pub move_along : (ℤ → Bool) → ℤ → ℤ → ℤ × ℤ
move_along outside at by =
    let next = short (at +ℤ by) in (next, (if outside next then short (negate by) else by))

abbrev pub outside_x : Coord → ℤ → Bool
outside_x size at = ltb_ℤ at (pos 0) || not (ltb_ℤ at size.x)

abbrev pub outside_y : Coord → ℤ → Bool
outside_y size at = ltb_ℤ at (pos 0) || ltb_ℤ size.y at

-- The rest of the loop of `BounceProc`, up to its test.
unfoldable pub advance : Coord → Face → Face
advance size f =
    let (x, dx) = move_along (outside_x size) f.coords.x f.delta.x in
    let (y, dy) = move_along (outside_y size) f.coords.y f.delta.y in
    record f { old = f.coords; coords = coord x y; delta = coord dx dy }

module _ {S : Type 0} (console : Console S) (size : Coord) where
  -- The first `n` rounds of the loop of `BounceProc`, whose waits run out of time.
  unfoldable pub rounds : ℕ → Face → S → Face × S
  rounds zero f screen = (f, screen)
  rounds (suc n) f screen =
      let (f', screen') = draw console f screen in rounds n (advance size f') screen'

-- A thread that was started: before its first statement, in its loop, or at its end.
pub data Thread : Type 0 where
  starting : Thread
  bouncing : Face → Thread
  ended : Thread

-- `shut` says whether `KbdFunc` has called `ShutDown`; `releases` counts its calls of `ReleaseMutex`.
pub record Bounce (S : Type 0) : Type 0 where
  pub screen : S
  pub thread_nr : ℕ
  pub threads : List Thread
  pub shut : Bool
  pub releases : ℕ

-- The key of one round of `KbdFunc`, before the test for 'q'.
unfoldable pub key_pressed : {S : Type 0} → ℕ → Bounce S → Bounce S
key_pressed key b =
    if (tolower key == 97) && ltb b.thread_nr 32
    then record b { thread_nr = b.thread_nr + 1; threads = b.threads ++ (Thread.starting ∷ []) }
    else b

-- The loop of `ShutDown`: `threadNr` and the number of releases after it.
unfoldable pub release_all : ℕ → ℕ → ℕ × ℕ
release_all zero releases = (zero, releases)
release_all (suc n) releases = release_all n (releases + 1)

unfoldable pub shut_down : {S : Type 0} → (S → S) → Bounce S → Bounce S
shut_down clear b =
    let (n, r) = release_all b.thread_nr b.releases in
    record b { thread_nr = n; releases = r; screen = clear b.screen; shut = true }

-- `KbdFunc`: a round, and `ShutDown` behind the last one.
unfoldable pub kbd_func : {S : Type 0} → (S → S) → ℕ → Bounce S → Bounce S
kbd_func clear key b =
    let b' = key_pressed key b in if tolower key == 113 then shut_down clear b' else b'

module _ {S : Type 0} (console : Console S) (clear : S → S) (size : Coord) where
  -- A round of a thread; `timeout` is whether the wait for `hRunMutex` ran out of time.
  unfoldable pub bounce_proc : Bool → ℕ → Face → Bounce S → Bounce S
  bounce_proc timeout i f b =
      let (f', screen) = draw console f b.screen in
      let after = if timeout then Thread.bouncing (advance size f') else Thread.ended in
      record b { screen = screen; threads = set b.threads i after }

  -- One step of the main thread or of a thread that it started.
  pub data Step : Bounce S → Bounce S → Type 0 where
    key : {b : Bounce S} (k : ℕ) → b.shut ≡ false → Step b (kbd_func clear k b)
    begin :
        {b : Bounce S} (i : ℕ) (chance : Chance) (f : Face)
        → get_elem? b.threads i ≡ some Thread.starting
        → begin_face size (b.thread_nr % 256) chance ≡ some f
        → Step b (record b { threads = set b.threads i (Thread.bouncing f) })
    round :
        {b : Bounce S} (i : ℕ) (timeout : Bool) (f : Face)
        → get_elem? b.threads i ≡ some (Thread.bouncing f)
        → Step b (bounce_proc timeout i f b)

  -- `main` up to its call of `KbdFunc`, and any steps from there on.
  pub data Reachable (screen : S) : Bounce S → Type 0 where
    start :
        Reachable screen (record {
          screen = clear screen;
          thread_nr = 0;
          threads = [];
          shut = false;
          releases = 0;
        })
    step : {b b' : Bounce S} → Reachable screen b → Step b b' → Reachable screen b'
