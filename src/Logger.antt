-- ===== src/Logger.antt =====
-- Project1/MLogger.cpp and MLogger.h: `MLogMsg` on a heap of blocks, with `none` for a use of memory that
-- is not there. The size of a pointer is a parameter, and so is what `ftime` gives.
pub mod Log
pub mod Owned
pub mod Served
pub mod Prefixes
pub mod Running
mod Tests
use exec.Base.{
  ℕ, zero, suc, ◌+◌, Option, none, some, List, [], ◌∷◌, ◌++◌, Bool, if◌then◌else◌, ◌>>=◌, ◌==◌, ltb,
  length, get_elem?, set,
}

-- What `new` gave: a `timeb`, or characters up to their NUL with the size of the block.
pub data Block : Type 0 where
  time : ℕ → Block
  chars : ℕ → List ℕ → Block

-- The blocks in the order in which they were given, `none` for one that was deleted.
abbrev pub Memory : Type 0
Memory = List (Option Block)

-- `wild` is what stands in a member that no constructor has set.
pub data Pointer : Type 0 where
  null : Pointer
  wild : Pointer
  to : ℕ → Pointer

abbrev pub block_at : Memory → ℕ → Option Block
block_at [] i = none
block_at (b ∷ m) zero = b
block_at (b ∷ m) (suc i) = block_at m i

-- `delete` and `delete[]`
unfoldable pub release : Pointer → Memory → Option Memory
release Pointer.null m = some m
release Pointer.wild m = none
release (Pointer.to i) m = do b ← block_at m i; some (set m i none)

-- The text that a `char*` points to.
unfoldable pub text_at : Pointer → Memory → Option (List ℕ)
text_at Pointer.null m = none
text_at Pointer.wild m = none
text_at (Pointer.to i) m = do
  b ← block_at m i
  elim b [ Block.time t ↦ none | Block.chars size text ↦ some text ]

-- The string that starts at the first character of a text.
abbrev pub before_nul : List ℕ → List ℕ
before_nul [] = []
before_nul (c ∷ cs) = let rest = before_nul cs in if c == 0 then [] else c ∷ rest

pub record MLogMsg : Type 0 where
  pub tm : Pointer
  pub msg : Pointer

module _ (pointer_size : ℕ) where
  -- `new char[sizeof(p)]` and `strcpy` into it, up to the first NUL: the block has the size of a pointer.
  unfoldable pub copy_text : List ℕ → Memory → Option (Pointer × Memory)
  copy_text text m =
      if ltb (length (before_nul text)) pointer_size
      then some
          (Pointer.to (length m), m ++ (some (Block.chars pointer_size (before_nul text)) ∷ []))
      else none

  -- `MLogMsg(const char*)`; `now` is what `ftime` gives.
  unfoldable pub new_msg : ℕ → List ℕ → Memory → Option (MLogMsg × Memory)
  new_msg now text m = do
    (p, m') ← copy_text text (m ++ (some (Block.time now) ∷ []))
    some (record { tm = Pointer.to (length m); msg = p }, m')

  -- `MLogMsg(const MLogMsg&)`, which leaves `tm` as it is.
  unfoldable pub copy_msg : MLogMsg → Memory → Option (MLogMsg × Memory)
  copy_msg other m = do
    text ← text_at other.msg m
    (p, m') ← copy_text text m
    some (record { tm = Pointer.wild; msg = p }, m')

-- `clearMsg`, which is also the destructor
unfoldable pub clear_msg : MLogMsg → Memory → Option (MLogMsg × Memory)
clear_msg self m = do
  m' ← release self.tm m
  m'' ← release self.msg m'
  some (record { tm = Pointer.null; msg = Pointer.null }, m'')

-- `operator=(const MLogMsg&)` and `operator=(MLogMsg&&)` of another message
unfoldable pub assign_msg : ℕ → MLogMsg → MLogMsg → Memory → Option (MLogMsg × Memory)
assign_msg pointer_size self other m = do
  (cleared, m') ← clear_msg self m
  text ← text_at other.msg m'
  (p, m'') ← copy_text pointer_size text m'
  some (record cleared { msg = p }, m'')

unfoldable pub move_assign_msg : MLogMsg → MLogMsg → Memory → Option (MLogMsg × Memory)
move_assign_msg self other m = do
  (cleared, m') ← clear_msg self m
  some (record { tm = other.tm; msg = other.msg }, m')

-- `MLogMsg(MLogMsg&&)`, which clears members that nothing has set.
unfoldable pub move_msg : MLogMsg → Memory → Option (MLogMsg × Memory)
move_msg other m = move_assign_msg (record { tm = Pointer.wild; msg = Pointer.wild }) other m
