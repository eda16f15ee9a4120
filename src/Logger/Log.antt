-- ===== src/Logger/Log.antt =====
-- `MLog` of Project1/MLogger.cpp: the stream, the queue of messages and the thread that writes them.
use exec.Base.{
  ℕ, ◌≡◌, Option, none, some, List, [], ◌∷◌, ◌++◌, Bool, true, false, if◌then◌else◌, ◌>>=◌, ltb,
  leb,
}
use exec.Logger.{Memory, MLogMsg, new_msg, clear_msg}

-- MLogLevel, and `level - Debug` where it is not negative
abbrev pub debug : ℕ
debug = 3

-- `is_pause` and `has_writer` are not set by the constructors. A queued message stands with its address.
pub record MLog : Type 0 where
  pub os : List ℕ
  pub log_level : ℕ
  pub is_run : Bool
  pub is_pause : Bool
  pub has_writer : Bool
  pub queue : List (ℕ × MLogMsg)
  pub memory : Memory

-- `MLog(MLogLevel)`; the two flags are what stood in its memory.
unfoldable pub new_log : ℕ → Bool → Bool → Memory → MLog
new_log level pause writer memory = record {
  os = [];
  log_level = level;
  is_run = true;
  is_pause = pause;
  has_writer = writer;
  queue = [];
  memory = memory;
}

-- `get`: `false` if making the string of tabs throws, as its length is then a negative number made
-- unsigned. `digits` prints the level.
unfoldable pub get : (ℕ → List ℕ) → List ℕ → ℕ → MLog → Bool × MLog
get digits now level l =
    let os = l.os ++ (now ++ (32 ∷ (digits level ++ (58 ∷ 32 ∷ [])))) in
    if leb debug level
    then (true, record l { os = os; log_level = level })
    else (false, record l { os = os })

-- `log`; `address` is where `new MLogMsg` put the message.
unfoldable pub log : ℕ → ℕ → ℕ → List ℕ → MLog → Option MLog
log pointer_size now address text l = do
  (msg, memory) ← new_msg pointer_size now text l.memory
  some (record l { queue = (address, msg) ∷ l.queue; memory = memory })

-- `operator<<` of an object that prints as `text`
unfoldable pub write : List ℕ → MLog → MLog
write text l = record l { os = l.os ++ text }

-- `os.clear()` resets the error state of the stream and leaves its text.
unfoldable pub clear : MLog → MLog
clear l = l

-- `flush`, and `operator<<` of `std::endl`
unfoldable pub flush : ℕ → ℕ → ℕ → MLog → Option MLog
flush pointer_size now address l = do l' ← log pointer_size now address l.os l; some (clear l')

unfoldable pub write_endl : ℕ → ℕ → ℕ → MLog → Option MLog
write_endl pointer_size now address l = do
  let ended = write (10 ∷ []) l
  l' ← log pointer_size now address ended.os ended
  some (clear l')

-- `pause`, `resume`, `init` and `start`
unfoldable pub pause : MLog → MLog
pause l = record l { is_pause = true }

unfoldable pub resume : MLog → MLog
resume l = record l { is_pause = false }

unfoldable pub init : MLog → MLog
init l = if l.has_writer then l else record l { has_writer = true }

unfoldable pub start : MLog → MLog
start l = resume (init (record l { is_run = true }))

-- `shutdown`
unfoldable pub shutdown : MLog → MLog
shutdown l = l

-- The priority queue compares addresses: `top` and `pop` take the greatest.
unfoldable pub take_top : List (ℕ × MLogMsg) → Option ((ℕ × MLogMsg) × List (ℕ × MLogMsg))
take_top [] = none
take_top (e ∷ q) = elim (take_top q) [
  | none ↦ some (e, [])
  | some (t, rest) ↦ if ltb (e.0) (t.0) then some (t, e ∷ rest) else some (e, t ∷ rest)
]

-- A round of `handleLog` behind its waits: what it prints, an address, and the state.
unfoldable pub handle_log : MLog → Option (ℕ × MLog)
handle_log l = do
  (top, rest) ← take_top l.queue
  (cleared, memory) ← clear_msg (top.1) l.memory
  some (top.0, record l { queue = rest; memory = memory })

-- A caller's operation, or a round of the writer, which waits while `is_pause` is set or the queue is
-- empty. `new` gives no address at which a message stands.
pub data LogStep (pointer_size : ℕ) : MLog → List ℕ → MLog → Type 0 where
  flushed :
      {l l' : MLog} (now address : ℕ)
      → flush pointer_size now address l ≡ some l'
      → LogStep pointer_size l [] l'
  ended :
      {l l' : MLog} (now address : ℕ)
      → write_endl pointer_size now address l ≡ some l'
      → LogStep pointer_size l [] l'
  written : {l : MLog} (text : List ℕ) → LogStep pointer_size l [] (write text l)
  got :
      {l : MLog} (digits : ℕ → List ℕ) (now : List ℕ) (level : ℕ)
      → LogStep pointer_size l [] (get digits now level l).1
  initialised : {l : MLog} → LogStep pointer_size l [] (init l)
  cleared : {l : MLog} → LogStep pointer_size l [] (clear l)
  stopped : {l : MLog} → LogStep pointer_size l [] (shutdown l)
  paused : {l : MLog} → LogStep pointer_size l [] (pause l)
  resumed : {l : MLog} → LogStep pointer_size l [] (resume l)
  started : {l : MLog} → LogStep pointer_size l [] (start l)
  served :
      {l l' : MLog} {address : ℕ}
      → l.has_writer ≡ true
      → l.is_run ≡ true
      → l.is_pause ≡ false
      → handle_log l ≡ some (address, l')
      → LogStep pointer_size l (address ∷ []) l'

-- Any steps from a new `MLog` on, over memory in which nothing was deleted or given yet.
pub data LogReachable (pointer_size : ℕ) : MLog → Type 0 where
  constructed :
      (level : ℕ) (pause writer : Bool) → LogReachable pointer_size (new_log level pause writer [])
  after :
      {l l' : MLog} {printed : List ℕ}
      → LogReachable pointer_size l
      → LogStep pointer_size l printed l'
      → LogReachable pointer_size l'
