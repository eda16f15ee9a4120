-- ===== src/Containers/Steps.antt =====
-- One call on a stack or a queue: which values it holds afterwards.
use exec.Base.{
  ◌≡◌, ◌≢◌, refl, ap, sym, ◌∙◌, Option, none, some, List, [], ◌∷◌, ◌++◌, arith, Bool, true, false,
  if◌then◌else◌, Returns, returns, Returns->>=, Returns-mono, ◌>>=◌, subst, append_assoc,
  Bool-cases, ltb→lt, length, ◌<◌, ◌⊎◌, inl, inr, ltb,
}
use native.Mathlib.Decide.{ℕ_discrete}
use exec.Base.Int.{ℤ, pos, negsuc}
use exec.MyList.{Ptr, MyList, ins_next, rem_next}
use exec.MyList.Chain.{IsList, values, values-append, last-split, last}
use exec.MyList.Insert.{Inserted, ins_next-head, ins_next-after, ins_next-null}
use exec.MyList.Remove.{rem_next-head, rem_next-refused}
use exec.Containers.{
  stack_push, stack_pop, peek, queue_enqueue, queue_dequeue, receive_event, process_event, if_zero,
}

module _ {A : Type 0} where
  -- A well-formed list that holds these values, in order.
  pub record Holds (l : MyList A) (vs : List A) : Type 0 where
    pub cells : List (Ptr × A)
    pub is_list : IsList l cells
    pub held : values cells ≡ vs

  -- `malloc` gives NULL or an address that is not in use.
  abbrev pub IsUnused : MyList A → Ptr → Type 0
  IsUnused l fresh = fresh ≢ 0 → l.heap fresh ≡ none

  -- The outcome of storing `v`: if `malloc` gave an address, status 0 and the values `after`; if it
  -- gave NULL, status -1 and the values `before`.
  abbrev pub Stored : Ptr → List A → List A → ℤ × MyList A → Type 0
  Stored fresh before after (status, l') =
      ((fresh ≢ 0) × (status ≡ pos 0) × Holds l' after)
      ⊎ ((fresh ≡ 0) × (status ≡ negsuc 0) × Holds l' before)

  -- The outcome of taking a value: the first one with status 0, or -1 and nothing.
  abbrev pub Taken : List A → ℤ × Option A × MyList A → Type 0
  Taken [] (status, out, l') = (status ≡ negsuc 0) × (out ≡ none) × Holds l' []
  Taken (v ∷ vs) (status, out, l') = (status ≡ pos 0) × (out ≡ some v) × Holds l' vs

  insert_last :
      (l : MyList A) (xs : List (Ptr × A)) (at : Ptr) (fresh : Ptr) (v : A)
      → IsList l xs
      → at ≡ last xs
      → fresh ≢ 0
      → l.heap fresh ≡ none
      → Returns (Inserted l (xs ++ ((fresh, v) ∷ []))) (ins_next fresh l at v)
  insert_last l [] at fresh v is e ne unused = rw e (ins_next-head l [] fresh v is ne unused)
  insert_last l (c ∷ xs) at fresh v is e ne unused =
      let (ys, w, split) = last-split c xs in
      let split' = split ∙ ap (λ p. ys ++ ((p, w) ∷ [])) (sym e) in
      subst (λ k. Returns (Inserted l (k ++ ((fresh, v) ∷ []))) (ins_next fresh l at v))
        (sym split')
        (rw append_assoc
          (ins_next-after l ys at w [] fresh v (subst (IsList l) split' is) ne unused))

  stored :
      (l : MyList A) (at fresh : Ptr) (v : A) (xs ys : List (Ptr × A)) (before after : List A)
      → IsList l xs
      → values xs ≡ before
      → values ys ≡ after
      → IsUnused l fresh
      → (fresh ≢ 0 → l.heap fresh ≡ none → Returns (Inserted l ys) (ins_next fresh l at v))
      → Returns (Stored fresh before after) (ins_next fresh l at v)
  stored l at fresh v xs ys before after is e e' unused step = elim (ℕ_discrete fresh 0) [
    | yes null ↦
        rw (null, ins_next-null l at v)
          (returns (inr (refl, refl, record { cells = xs; is_list = is; held = e })))
    | no ne ↦ Returns-mono (step ne (unused ne)) λ (status, l') (ok, is', same).
        inl (ne, ok, record { cells = ys; is_list = is'; held = e' })
  ]

  -- `stack_push` puts the value on top, or reports -1 and keeps the stack when `malloc` fails.
  pub stack_push-Stored :
      (l : MyList A) (fresh : Ptr) (v : A) (vs : List A)
      → Holds l vs
      → IsUnused l fresh
      → Returns (Stored fresh vs (v ∷ vs)) (stack_push fresh l v)
  unfolding stack_push
  stack_push-Stored l fresh v vs h unused =
      stored l 0 fresh v h.cells ((fresh, v) ∷ h.cells) vs (v ∷ vs) h.is_list h.held
        (ap (λ r. v ∷ r) h.held) unused (ins_next-head l h.cells fresh v h.is_list)

  -- `queue_enqueue` puts the value at the back, or reports -1 and keeps the queue when `malloc` fails.
  pub queue_enqueue-Stored :
      (l : MyList A) (fresh : Ptr) (v : A) (vs : List A)
      → Holds l vs
      → IsUnused l fresh
      → Returns (Stored fresh vs (vs ++ (v ∷ []))) (queue_enqueue fresh l v)
  unfolding queue_enqueue
  queue_enqueue-Stored l fresh v vs h unused =
      stored l l.tail fresh v h.cells (h.cells ++ ((fresh, v) ∷ [])) vs (vs ++ (v ∷ [])) h.is_list
        h.held (values-append h.cells ((fresh, v) ∷ []) ∙ ap (λ r. r ++ (v ∷ [])) h.held) unused
        (insert_last l h.cells l.tail fresh v h.is_list h.is_list.tail_last)

  taken :
      (l : MyList A) (xs : List (Ptr × A))
      → IsList l xs
      → Returns (Taken (values xs)) (rem_next l 0)
  taken l [] is =
      rw (rem_next-refused l [] 0 is (inl refl))
        (returns (refl, refl, record { cells = []; is_list = is; held = refl }))
  taken l ((p, v) ∷ xs) is =
      Returns-mono (rem_next-head l p v xs is)
        λ (status, out, l') (ok, got, is', same, freed, keeps).
          (ok, got, record { cells = xs; is_list = is'; held = refl })

  -- `stack_pop` and `queue_dequeue` take the first value; an empty list is refused with -1.
  pub pop-Taken :
      (l : MyList A) (vs : List A)
      → Holds l vs
      → Returns (Taken vs) (stack_pop l) × Returns (Taken vs) (queue_dequeue l)
  unfolding stack_pop queue_dequeue
  pop-Taken l vs h =
      let t = subst (λ k. Returns (Taken k) (rem_next l 0)) h.held (taken l h.cells h.is_list) in
      (t, t)

  -- Peeking gives the value that would be taken next, or NULL.
  abbrev pub head_value : List A → Option A
  head_value [] = none
  head_value (v ∷ vs) = some v

  pub peek-head : (l : MyList A) (vs : List A) → Holds l vs → peek l ≡ some (head_value vs)
  unfolding peek
  peek-head l vs h = at_front h.cells h.is_list ∙ ap (λ k. some (head_value k)) h.held
    where
      at_front : (xs : List (Ptr × A)) → IsList l xs → peek l ≡ some (head_value (values xs))
      at_front [] is = ground arith
      at_front ((p, v) ∷ xs) is = ground (arith, is.chain.0, is.chain.1)

  -- `receive_event` queues a copy of the event, or reports -1 and keeps the queue when one of its two
  -- allocations fails.
  pub receive_event-Stored :
      (copied : Bool) (l : MyList A) (fresh : Ptr) (v : A) (vs : List A)
      → Holds l vs
      → IsUnused l fresh
      → Returns
          (Stored (if copied then fresh else 0) vs (vs ++ (v ∷ [])))
          (receive_event copied fresh l v)
  unfolding receive_event
  receive_event-Stored false l fresh v vs h unused = returns (inr (refl, refl, h))
  receive_event-Stored true l fresh v vs h unused =
      Returns->>= (queue_enqueue-Stored l fresh v vs h unused) λ (status, l') s. elim s [
        | inl (ne, ok, h') ↦ rw ok (returns (inl (ne, refl, h')))
        | inr (null, bad, h') ↦ rw bad (returns (inr (null, refl, h')))
      ]

  -- `process_event` dispatches the oldest event, or reports -1 if there is none.
  pub process_event-Taken :
      (l : MyList A) (vs : List A) → Holds l vs → Returns (Taken vs) (process_event l)
  unfolding process_event
  process_event-Taken l vs h = elim (Bool-cases (ltb l.size 1)) [
    | inl empty ↦ rw empty (nothing vs h (ltb→lt l.size 1 empty))
    | inr more ↦ rw more (some_taken vs h)
  ]
    where
      nothing :
          (ws : List A) → Holds l ws → l.size < 1 → Returns (Taken ws) (some (negsuc 0, none, l))
      nothing [] k e = returns (refl, refl, k)
      nothing (w ∷ ws) k e = absurd (omega (arith, k.is_list.counted, full k.cells k.held))
        where
          full : (xs : List (Ptr × A)) → values xs ≡ w ∷ ws → 0 < length xs
          full [] e = cc
          full (c ∷ xs) e = omega arith

      some_taken :
          (ws : List A)
          → Holds l ws
          → Returns (Taken ws) (do
            (status, out, l') ← queue_dequeue l
            some (if_zero status (pos 0, out, l') (negsuc 0, none, l')))
      some_taken [] k =
          Returns->>= (pop-Taken l [] k).1
            λ (status, out, l') (ok, got, k'). rw ok (returns (refl, refl, k'))
      some_taken (w ∷ ws) k =
          Returns->>= (pop-Taken l (w ∷ ws) k).1
            λ (status, out, l') (ok, got, k'). rw ok (returns (refl, got, k'))
