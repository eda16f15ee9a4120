-- ===== src/Bounce/Requests.antt =====
-- Project1/MThread02.c: the key 'd' asks for the end of one thread through `threadDeleteNr`.
pub mod Pending
pub mod Running
pub mod Counted
use exec.Base.{
  ℕ, zero, suc, ◌+◌, ◌-◌, ◌*◌, ◌/◌, ◌%◌, ◌≡◌, Bool, true, false, ◌&&◌, ◌||◌, not, if◌then◌else◌,
  ltb, ◌==◌, Option, none, some, List, [], ◌∷◌, ◌++◌, set, get_elem?,
}
use exec.Base.Int.{ℤ, pos, negsuc, ltb_ℤ}
use exec.Bounce.{◌+ℤ◌, Coord, coord, tolower, Console}
use exec.Bounce.Faces.{Face, Chance, begin_face, read_into, advance}

-- The byte at `&threadNr`, and what it is as a signed `char`.
abbrev pub low_byte : ℤ → ℕ
low_byte (pos n) = n % 256
low_byte (negsuc n) = 255 - n % 256

abbrev pub low_char : ℤ → ℤ
low_char z = if ltb (low_byte z) 128 then pos (low_byte z) else negsuc (255 - low_byte z)

abbrev pub equal_ℤ : ℤ → ℤ → Bool
equal_ℤ a b = not (ltb_ℤ a b || ltb_ℤ b a)

-- A WORD after a read of one character into its first byte.
abbrev pub read_into_word : ℕ → Option ℕ → ℕ
read_into_word before none = before
read_into_word before (some c) = before / 256 * 256 + c % 256

-- A thread; `leaving` stands behind the test that was met, before the reset of `threadDeleteNr`, and
-- `left` before `threadNr--`.
pub data Worker : Type 0 where
  starting : Worker
  bouncing : Face → Worker
  leaving : Worker
  left : Worker
  ended : Worker

-- The globals; `shut` says whether `readInput` has called `shutDownAll`, `releases` counts the calls of
-- `ReleaseMutex` for `hRunMutex`.
pub record Requests (S : Type 0) : Type 0 where
  pub screen : S
  pub thread_nr : ℤ
  pub thread_delete_nr : ℤ
  pub threads : List Worker
  pub shut : Bool
  pub releases : ℕ

unfoldable pub request_stop : {S : Type 0} → Requests S → Requests S
request_stop b = record b { releases = b.releases + 1 }

-- The loop of `shutDownAll`, which counts `threadNr` down.
unfoldable pub shut_loop : ℕ → ℕ → ℕ
shut_loop zero releases = releases
shut_loop (suc n) releases = shut_loop n (releases + 1)

unfoldable pub shut_all : {S : Type 0} → (S → S) → Requests S → Requests S
shut_all clear b = elim (b.thread_nr) [
  | pos n ↦ record b {
    thread_nr = pos 0;
    releases = shut_loop n b.releases;
    screen = clear b.screen;
    shut = true;
  }
  | negsuc n ↦ record b { screen = clear b.screen; shut = true }
]

-- The three tests of a round of `readInput`.
unfoldable pub start_key : {S : Type 0} → ℕ → Requests S → Requests S
start_key key b =
    if (tolower key == 97) && ltb_ℤ b.thread_nr (pos 32)
    then record b {
      thread_nr = b.thread_nr +ℤ pos 1;
      threads = b.threads ++ (Worker.starting ∷ []);
    }
    else b

unfoldable pub stop_key : {S : Type 0} → ℕ → Requests S → Requests S
stop_key key b =
    if (tolower key == 100) && (equal_ℤ b.thread_delete_nr (pos 0) && ltb_ℤ (pos 0) b.thread_nr)
    then request_stop (record b { thread_delete_nr = b.thread_nr })
    else b

unfoldable pub clear_key : {S : Type 0} → (S → S) → ℕ → Requests S → Requests S
clear_key clear key b = if tolower key == 99 then record b { screen = clear b.screen } else b

-- A round of `readInput`, and `shutDownAll` behind the last one.
unfoldable pub key_round : {S : Type 0} → (S → S) → ℕ → Requests S → Requests S
key_round clear key b =
    let b' = clear_key clear key (stop_key key (start_key key b)) in
    if tolower key == 113 then shut_all clear b' else b'

-- The test of `bounceProc`, the same behind each result of the wait.
abbrev pub is_asked : {S : Type 0} → Requests S → Bool
is_asked b = ltb_ℤ (pos 0) b.thread_delete_nr && equal_ℤ b.thread_delete_nr (low_char b.thread_nr)

module _ {S : Type 0} (console : Console S) where
  -- The part of the loop of `bounceProc` that holds `hScreenMutex`.
  unfoldable pub word_draw : Face → S → Face × S
  word_draw f screen =
      let old_cell = read_into f.old_cell (console.read_character screen f.old) in
      let old_attrib = read_into_word f.old_attrib (console.read_character screen f.old) in
      let blanked =
        if (old_cell == f.my_cell) && (old_attrib == f.my_attrib)
        then console.write_character screen 32 f.old
        else screen in
      let drawn = console.write_character blanked f.my_cell f.coords in
      (
        record f { old_cell = old_cell; old_attrib = old_attrib },
        console.write_character drawn f.my_attrib f.coords,
      )

  -- A round of the loop of `bounceProc`; behind the drawing the moves are those of `BounceProc`.
  -- `timeout` is whether the wait for `hRunMutex` ran out of time.
  unfoldable pub thread_round : Coord → Bool → ℕ → Face → Requests S → Requests S
  thread_round size timeout i f b =
      let (f', screen) = word_draw f b.screen in
      let moved = advance size f' in
      let after =
        if timeout
        then (if is_asked b then Worker.leaving else Worker.bouncing moved)
        else (if is_asked b then Worker.leaving else Worker.bouncing moved) in
      record b { screen = screen; threads = set b.threads i after }

-- What a thread does behind its `break`: the reset stands before it, the count behind the loop.
unfoldable pub reset_request : {S : Type 0} → ℕ → Requests S → Requests S
reset_request i b = record b { thread_delete_nr = pos 0; threads = set b.threads i Worker.left }

unfoldable pub count_down : {S : Type 0} → ℕ → Requests S → Requests S
count_down i b = record b {
  thread_nr = b.thread_nr +ℤ negsuc 0;
  threads = set b.threads i Worker.ended;
}

module _ {S : Type 0} (console : Console S) (clear : S → S) (size : Coord) where
  pub data RequestStep : Requests S → Requests S → Type 0 where
    key : {b : Requests S} (k : ℕ) → b.shut ≡ false → RequestStep b (key_round clear k b)
    begin :
        {b : Requests S} (i : ℕ) (chance : Chance) (f : Face)
        → get_elem? b.threads i ≡ some Worker.starting
        → begin_face size (low_byte b.thread_nr) chance ≡ some f
        → RequestStep b (record b { threads = set b.threads i (Worker.bouncing f) })
    round :
        {b : Requests S} (i : ℕ) (timeout : Bool) (f : Face)
        → get_elem? b.threads i ≡ some (Worker.bouncing f)
        → RequestStep b (thread_round console size timeout i f b)
    reset :
        {b : Requests S} (i : ℕ)
        → get_elem? b.threads i ≡ some Worker.leaving
        → RequestStep b (reset_request i b)
    leave :
        {b : Requests S} (i : ℕ)
        → get_elem? b.threads i ≡ some Worker.left
        → RequestStep b (count_down i b)

  -- Any number of steps.
  pub data RequestSteps (b : Requests S) : Requests S → Type 0 where
    stay : RequestSteps b b
    next : {b' b'' : Requests S} → RequestSteps b b' → RequestStep b' b'' → RequestSteps b b''

-- `main` up to its call of `readInput`
abbrev pub ready : {S : Type 0} → (S → S) → S → Requests S
ready clear screen = record {
  screen = clear screen;
  thread_nr = pos 0;
  thread_delete_nr = pos 0;
  threads = [];
  shut = false;
  releases = 0;
}
