-- ===== src/Logger/Served.antt =====
-- The thread that writes the messages of `MLog`.
use exec.Base.{
  ℕ, ◌+◌, ◌<◌, ◌≤◌, ◌≡◌, ◌≢◌, inl, inr, refl, ap, ap₂, sym, subst, ◌∙◌, Option, none, some, List,
  [], ◌∷◌, ◌++◌, if◌then◌else◌, ◌>>=◌, ltb, ◌==◌, length, set, arith, All, Returns, returns,
  Bool-cases, length-append, Returns->>=, some-eq,
}
use mathlib.Core.List.{Perm}
use exec.Logger.{
  Memory, MLogMsg, Block, Pointer, block_at, release, new_msg, copy_text, clear_msg, before_nul,
}
use exec.Logger.Log.{MLog, take_top, handle_log, log}
use exec.Logger.Owned.{
  points_at, owners, HasBlocks, IsOwned, block_at-set_ne, block_at-append, block_at-end,
  block_at-length, IsTaken, TakenFrom, take_top-TakenFrom,
}

cleared :
    (q rest : List (ℕ × MLogMsg)) (j k : ℕ) (m : Memory)
    → All HasBlocks rest
    → ((i : ℕ) → owners i q ≡ (if i == j then 1 else 0) + (if i == k then 1 else 0) + owners i rest)
    → IsOwned q m
    → Returns
        (λ r. IsOwned rest (r.1))
        (clear_msg (record { tm = Pointer.to j; msg = Pointer.to k }) m)
unfolding clear_msg release
cleared q rest j k m others count owned =
    let cj = count j in
    let ck = count k in
    let aj = owned.alone j in
    let ak = owned.alone k in
    let differ : j ≢ k = ground arith in
    let own_j : owners j q ≡ 1 = ground arith in
    let own_k : owners k q ≡ 1 = ground arith in
    let (b, at_j) = owned.live j own_j in
    let (b', at_k) = owned.live k own_k in
    rw (at_j, block_at-set_ne m j k none differ, at_k)
      (returns (record {
        blocks = others;
        alone = λ i. omega (arith, count i, owned.alone i);
        live = λ i one. kept i one (count i) (owned.alone i);
      }))
  where
    kept :
        (i : ℕ)
        → owners i rest ≡ 1
        → owners i q ≡ (if i == j then 1 else 0) + (if i == k then 1 else 0) + owners i rest
        → owners i q ≤ 1
        → (b : Block) × (block_at (set (set m j none) k none) i ≡ some b)
    kept i one c a =
        let (b, at) = owned.live i (ground arith) in
        let nj : j ≢ i = ground arith in
        let nk : k ≢ i = ground arith in
        (b, block_at-set_ne (set m j none) k i none nk ∙ block_at-set_ne m j i none nj ∙ at)

-- The destructor of a message deletes its two blocks and leaves those of the others.
clear_msg-IsOwned :
    (q rest : List (ℕ × MLogMsg)) (t : ℕ × MLogMsg) (m : Memory)
    → IsTaken q t rest
    → IsOwned q m
    → Returns (λ r. IsOwned rest (r.1)) (clear_msg (t.1) m)
unfolding clear_msg release
clear_msg-IsOwned q rest t m taken owned =
    let (has, others) = taken.has owned.blocks in
    let (j, k, tm, msg) = has in
    subst (λ p. Returns (λ r. IsOwned rest (r.1)) (clear_msg p m)) (sym (eta tm msg))
      (cleared q rest j k m others
        (λ i. taken.count i ∙ ap₂ (λ a b. points_at i a + points_at i b + owners i rest) tm msg)
        owned)
  where
    eta : {a b : Pointer} → t.1.tm ≡ a → t.1.msg ≡ b → t.1 ≡ record { tm = a; msg = b }
    eta e e' = ap₂ (λ a b. record { tm = a; msg = b }) e e'

-- What a round of the writer does: it prints the greatest address of the queue and takes that message off.
pub record IsServed (l : MLog) (r : ℕ × MLog) : Type 0 where
  pub greatest : All (λ e. e.0 ≤ r.0) l.queue
  pub taken : (msg : MLogMsg) × Perm l.queue ((r.0, msg) ∷ r.1.queue)
  pub owned : IsOwned r.1.queue r.1.memory

pub handle_log-IsServed :
    (l : MLog) → IsOwned l.queue l.memory → 0 < length l.queue → Returns (IsServed l) (handle_log l)
unfolding handle_log
handle_log-IsServed l owned some_message = by_top (take_top l.queue) (take_top-TakenFrom l.queue)
  where
    by_top :
        (r : Option ((ℕ × MLogMsg) × List (ℕ × MLogMsg)))
        → TakenFrom l.queue r
        → Returns (IsServed l) (
            r >>= (λ top.
              clear_msg (top.0.1) l.memory
              >>= (λ c. some (top.0.0, record l { queue = top.1; memory = c.1 }))))
    by_top none empty = absurd (omega (arith, ap length empty))
    by_top (some (t, rest)) taken =
        Returns->>= (clear_msg-IsOwned l.queue rest t l.memory taken owned) (λ c owned'.
          returns (record { greatest = taken.greatest; taken = (t.1, taken.same); owned = owned' }))

-- The queue and the blocks after a new message.
grown-IsOwned :
    (pointer_size now address : ℕ) (text : List ℕ) (q : List (ℕ × MLogMsg)) (m : Memory)
    → IsOwned q m
    → IsOwned
        ((
          address,
          record {
            tm = Pointer.to (length m);
            msg = Pointer.to (length (m ++ (some (Block.time now) ∷ [])));
          },
        )
          ∷ q)
        ((m ++ (some (Block.time now) ∷ [])) ++ (some (Block.chars pointer_size text) ∷ []))
grown-IsOwned pointer_size now address text q m owned =
    let more = length-append m (some (Block.time now) ∷ []) in
    record {
      blocks = ((length m, length (m ++ (some (Block.time now) ∷ [])), refl, refl), owned.blocks);
      alone = λ i. one i (owned.alone i) (fresh i) more;
      live = λ i e. alive i (owned.alone i) (fresh i) more e;
    }
  where
    fresh : (i : ℕ) → owners i q ≡ 1 → i < length m
    fresh i e = let (b, at) = owned.live i e in block_at-length m i b at

    one :
        (i : ℕ)
        → owners i q ≤ 1
        → (owners i q ≡ 1 → i < length m)
        → length (m ++ (some (Block.time now) ∷ [])) ≡ length m + 1
        → (if i == length m then 1 else 0)
            + (if i == length (m ++ (some (Block.time now) ∷ [])) then 1 else 0)
            + owners i q
          ≤ 1
    one i a f more = elim (Bool-cases (owners i q == 1)) [
      | inl e ↦ let l = f (ground arith) in ground arith
      | inr e ↦ ground arith
    ]

    alive :
        (i : ℕ)
        → owners i q ≤ 1
        → (owners i q ≡ 1 → i < length m)
        → length (m ++ (some (Block.time now) ∷ [])) ≡ length m + 1
        → (if i == length m then 1 else 0)
            + (if i == length (m ++ (some (Block.time now) ∷ [])) then 1 else 0)
            + owners i q
          ≡ 1
        → (b : Block) × (block_at
              ((m ++ (some (Block.time now) ∷ [])) ++ (some (Block.chars pointer_size text) ∷ []))
              i
            ≡ some b)
    alive i a f more e = elim (Bool-cases (i == length m)) [
      | inl first ↦
          let at : i ≡ length m = ground arith in
          (
            Block.time now,
            block_at-append (m ++ (some (Block.time now) ∷ []))
                (some (Block.chars pointer_size text) ∷ []) i (Block.time now)
                (ap (block_at (m ++ (some (Block.time now) ∷ []))) at
                  ∙ block_at-end m [] (some (Block.time now))),
          )
      | inr later ↦ elim (Bool-cases (i == length (m ++ (some (Block.time now) ∷ [])))) [
        | inl second ↦
            let at : i ≡ length (m ++ (some (Block.time now) ∷ [])) = ground arith in
            (
              Block.chars pointer_size text,
              ap
                    (block_at (
                      (m ++ (some (Block.time now) ∷ []))
                      ++ (some (Block.chars pointer_size text) ∷ [])))
                    at
                  ∙ block_at-end (m ++ (some (Block.time now) ∷ [])) []
                      (some (Block.chars pointer_size text)),
            )
        | inr old ↦
            let (b, at) = owned.live i (ground arith) in
            (
              b,
              block_at-append (m ++ (some (Block.time now) ∷ []))
                  (some (Block.chars pointer_size text) ∷ []) i b
                  (block_at-append m (some (Block.time now) ∷ []) i b at),
            )
      ]
    ]

pub log-IsOwned :
    (pointer_size now address : ℕ) (text : List ℕ) (l l' : MLog)
    → IsOwned l.queue l.memory
    → log pointer_size now address text l ≡ some l'
    → IsOwned l'.queue l'.memory
unfolding log new_msg copy_text
log-IsOwned pointer_size now address text l l' owned e =
    elim (Bool-cases (ltb (length (before_nul text)) pointer_size)) [
      | inl fits ↦
          subst (λ k. IsOwned k.queue k.memory) (some-eq (rw fits at e))
            (grown-IsOwned pointer_size now address (before_nul text) l.queue l.memory owned)
      | inr long ↦ absurd (ground (arith, long, e))
    ]
