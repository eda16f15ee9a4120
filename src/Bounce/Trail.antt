-- ===== src/Bounce/Trail.antt =====
-- Project1/Main01.c: it reads the old attribute by the call for a character, writes its attribute by
-- the call for a character, and stops threads on the key 'd'.
pub mod Marks
use exec.Base.{
  ℕ, zero, suc, ◌+◌, Bool, true, false, ◌&&◌, if◌then◌else◌, ltb, ◌==◌, Option, List, [], ◌∷◌, ◌++◌,
}
use exec.Bounce.{Coord, coord, tolower, Console}
use exec.Bounce.Faces.{Face, Chance, begin_face, read_into, advance, Thread}

-- `bounceProc` before its loop; the statements are those of `BounceProc`.
unfoldable pub trail_begin : Coord → ℕ → Chance → Option Face
trail_begin = begin_face

module _ {S : Type 0} (console : Console S) where
  -- The part of the loop of `bounceProc` that holds `hScreenMutex`.
  unfoldable pub trail_draw : Face → S → Face × S
  trail_draw f screen =
      let old_cell = read_into f.old_cell (console.read_character screen f.old) in
      let old_attrib = read_into f.old_attrib (console.read_character screen f.old) in
      let blanked =
        if (old_cell == f.my_cell) && (old_attrib == f.my_attrib)
        then console.write_character screen 32 f.old
        else screen in
      let drawn = console.write_character blanked f.my_cell f.coords in
      (
        record f { old_cell = old_cell; old_attrib = old_attrib },
        console.write_character drawn f.my_attrib f.coords,
      )

  -- The first `n` rounds of the loop of `bounceProc`, whose waits run out of time. Behind the drawing
  -- the statements are those of `BounceProc`.
  unfoldable pub trail_rounds : Coord → ℕ → Face → S → Face × S
  trail_rounds size zero f screen = (f, screen)
  trail_rounds size (suc n) f screen =
      let (f', screen') = trail_draw f screen in trail_rounds size n (advance size f') screen'

-- The globals; `releases` counts the calls of `ReleaseMutex` for `hRunMutex`.
pub record Stopping (S : Type 0) : Type 0 where
  pub screen : S
  pub thread_nr : ℕ
  pub thread_delete_nr : ℕ
  pub threads : List Thread
  pub releases : ℕ

-- The loop of `stopThread` and of `shutDownAll`: the counter and the releases after it.
unfoldable pub stop_loop : ℕ → ℕ → ℕ × ℕ
stop_loop zero releases = (zero, releases)
stop_loop (suc n) releases = stop_loop n (releases + 1)

unfoldable pub stop_thread : {S : Type 0} → Stopping S → Stopping S
stop_thread b =
    let (n, r) = stop_loop b.thread_delete_nr b.releases in
    record b { thread_delete_nr = n; releases = r }

unfoldable pub shut_down_all : {S : Type 0} → (S → S) → Stopping S → Stopping S
shut_down_all clear b =
    let (n, r) = stop_loop b.thread_nr b.releases in
    record b { thread_nr = n; releases = r; screen = clear b.screen }

-- The two tests of a round of `readInput`.
unfoldable pub add_key : {S : Type 0} → ℕ → Stopping S → Stopping S
add_key key b =
    if (tolower key == 97) && ltb b.thread_nr 32
    then record b { thread_nr = b.thread_nr + 1; threads = b.threads ++ (Thread.starting ∷ []) }
    else b

unfoldable pub delete_key : {S : Type 0} → ℕ → Stopping S → Stopping S
delete_key key b =
    if (tolower key == 100) && ltb 0 b.thread_nr
    then stop_thread (record b { thread_delete_nr = b.thread_delete_nr + 1 })
    else b

-- `readInput` over the keys that are typed; without a 'q' it waits for more, which is `false`.
unfoldable pub read_input : {S : Type 0} → (S → S) → List ℕ → Stopping S → Bool × Stopping S
read_input clear [] b = (false, b)
read_input clear (key ∷ keys) b =
    let b' = delete_key key (add_key key b) in
    let rest = read_input clear keys b' in
    if tolower key == 113 then (true, shut_down_all clear b') else rest
