-- ===== src/Logger/Owned.antt =====
-- The blocks that the queued messages of `MLog` own.
use exec.Base.{
  ℕ, zero, suc, ◌+◌, ◌<◌, ◌≤◌, ◌≡◌, ◌≢◌, inl, inr, refl, ap, sym, subst, Option, none, some, List,
  [], ◌∷◌, ◌++◌, if◌then◌else◌, ltb, ◌==◌, length, set, arith, All, Bool-cases,
}
use mathlib.Core.List.{Perm}
use mathlib.Core.List.Perm
use exec.Logger.{Memory, MLogMsg, Block, Pointer, block_at}
use exec.Logger.Log.{take_top}

abbrev pub points_at : ℕ → Pointer → ℕ
points_at i Pointer.null = 0
points_at i Pointer.wild = 0
points_at i (Pointer.to j) = if i == j then 1 else 0

-- How many members of the queued messages point at the block.
abbrev pub owners : ℕ → List (ℕ × MLogMsg) → ℕ
owners i [] = 0
owners i (e ∷ q) = points_at i e.1.tm + points_at i e.1.msg + owners i q

-- Both members point at a block.
abbrev pub HasBlocks : ℕ × MLogMsg → Type 0
HasBlocks e = (t : ℕ) × (c : ℕ) × (e.1.tm ≡ Pointer.to t) × (e.1.msg ≡ Pointer.to c)

-- Each message owns its two blocks, which were not deleted, alone.
pub record IsOwned (q : List (ℕ × MLogMsg)) (m : Memory) : Type 0 where
  pub blocks : All HasBlocks q
  pub alone : (i : ℕ) → owners i q ≤ 1
  pub live : (i : ℕ) → owners i q ≡ 1 → (b : Block) × (block_at m i ≡ some b)

pub block_at-set_ne :
    (m : Memory) (i j : ℕ) (b : Option Block) → i ≢ j → block_at (set m i b) j ≡ block_at m j
block_at-set_ne [] i j b n = refl
block_at-set_ne (x ∷ m) zero zero b n = absurd (n refl)
block_at-set_ne (x ∷ m) zero (suc j) b n = refl
block_at-set_ne (x ∷ m) (suc i) zero b n = refl
block_at-set_ne (x ∷ m) (suc i) (suc j) b n = block_at-set_ne m i j b (λ e. n (ap suc e))

pub block_at-append :
    (m n : Memory) (i : ℕ) (b : Block) → block_at m i ≡ some b → block_at (m ++ n) i ≡ some b
block_at-append [] n i b e = absurd (ground arith)
block_at-append (x ∷ m) n zero b e = e
block_at-append (x ∷ m) n (suc i) b e = block_at-append m n i b e

pub block_at-end : (m n : Memory) (b : Option Block) → block_at (m ++ (b ∷ n)) (length m) ≡ b
block_at-end [] n b = refl
block_at-end (x ∷ m) n b = block_at-end m n b

pub block_at-length : (m : Memory) (i : ℕ) (b : Block) → block_at m i ≡ some b → i < length m
block_at-length [] i b e = absurd (ground arith)
block_at-length (x ∷ m) zero b e = omega arith
block_at-length (x ∷ m) (suc i) b e = omega (arith, block_at-length m i b e)

-- What `take_top` takes is of the queue, at the greatest address.
pub record IsTaken (q : List (ℕ × MLogMsg)) (t : ℕ × MLogMsg) (rest : List (ℕ × MLogMsg))
    : Type 0 where
  pub count : (i : ℕ) → owners i q ≡ points_at i t.1.tm + points_at i t.1.msg + owners i rest
  pub one_less : length q ≡ suc (length rest)
  pub same : Perm q (t ∷ rest)
  pub greatest : All (λ e. e.0 ≤ t.0) q
  pub has : All HasBlocks q → HasBlocks t × All HasBlocks rest

abbrev pub TakenFrom : List (ℕ × MLogMsg) → Option ((ℕ × MLogMsg) × List (ℕ × MLogMsg)) → Type 0
TakenFrom q none = q ≡ []
TakenFrom q (some (t, rest)) = IsTaken q t rest

All-below : (q : List (ℕ × MLogMsg)) (a b : ℕ) → a ≤ b → All (λ e. e.0 ≤ a) q → All (λ e. e.0 ≤ b) q
All-below [] a b l all = tt
All-below (e ∷ q) a b l all = (omega (arith, all.0), All-below q a b l (all.1))

pub take_top-TakenFrom : (q : List (ℕ × MLogMsg)) → TakenFrom q (take_top q)
unfolding take_top
take_top-TakenFrom [] = refl
take_top-TakenFrom (e ∷ q) = by_rest (take_top q) (take_top-TakenFrom q)
  where
    by_rest :
        (r : Option ((ℕ × MLogMsg) × List (ℕ × MLogMsg)))
        → TakenFrom q r
        → TakenFrom (e ∷ q) (elim r [
          | none ↦ some (e, [])
          | some (t, rest) ↦ if ltb (e.0) (t.0) then some (t, e ∷ rest) else some (e, t ∷ rest)
        ])
    by_rest none empty =
        subst (λ q. IsTaken (e ∷ q) e []) (sym empty)
          (record {
            count = λ i. omega arith;
            one_less = refl;
            same = Perm.refl (e ∷ []);
            greatest = (omega arith, tt);
            has = λ h. h;
          })
    by_rest (some (t, rest)) taken = elim (Bool-cases (ltb (e.0) (t.0))) [
      | inl l ↦ rw l (record {
        count = λ i. omega (arith, taken.count i);
        one_less = ap suc taken.one_less;
        same = Perm.trans (Perm.cons e taken.same) (Perm.swap t e rest);
        greatest = (ground arith, taken.greatest);
        has = λ h. ((taken.has (h.1)).0, (h.0, (taken.has (h.1)).1));
      })
      | inr l ↦ rw l (record {
        count = λ i. omega (arith, taken.count i);
        one_less = ap suc taken.one_less;
        same = Perm.cons e taken.same;
        greatest = (omega arith, All-below q (t.0) (e.0) (ground arith) taken.greatest);
        has = λ h. (h.0, taken.has (h.1));
      })
    ]
