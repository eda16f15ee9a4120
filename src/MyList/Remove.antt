-- ===== src/MyList/Remove.antt =====
-- `list_rem_next`: the head, the element behind another, and the two refusals.
use exec.Base.{
  ◌≡◌, refl, ap, sym, ◌∙◌, Option, none, some, List, [], ◌∷◌, ◌++◌, arith, if◌then◌else◌, ◌==◌,
  false, Returns, returns, length-append, ne→==_false, ◌⊎◌, inl, inr, subst,
}
use exec.Base.Int.{ℤ, pos, negsuc}
use exec.MyList.{Ptr, ListElmt, element, Heap, write, MyList, load, rem_next}
use exec.MyList.Chain.{
  first, last, Chain, IsList, Chain-write, Apart-append, Apart-join, Chain-at, Chain-rest,
  first-append, last-append, size-ne_zero, last-split,
}

module _ {A : Type 0} where
  -- What a removal of the cell `(p, v)` returns: status 0 and `v`, the list of the other cells, `p`
  -- freed, and no address in use that was not before.
  abbrev pub Removed : MyList A → Ptr → A → List (Ptr × A) → ℤ × Option A × MyList A → Type 0
  Removed l p v xs (status, out, l') =
      (status ≡ pos 0)
      × (out ≡ some v)
      × IsList l' xs
      × (l'.destroys ≡ l.destroys)
      × (l'.heap p ≡ none)
      × ((q : Ptr) → l.heap q ≡ none → l'.heap q ≡ none)

  -- With no element given, the head is taken, and its block is freed.
  pub rem_next-head :
      (l : MyList A) (p : Ptr) (v : A) (xs : List (Ptr × A))
      → IsList l ((p, v) ∷ xs)
      → Returns (Removed l p v xs) (rem_next l 0)
  unfolding rem_next
  rem_next-head l p v xs is =
      let some_left : (l.size == 0) ≡ false = ground arith in
      let at_head : load l l.head ≡ some (element v (first xs)) = ground (arith, is.chain.1) in
      rw (some_left, at_head)
        (returns (
          refl,
          refl,
          record {
            chain = ground (arith, Chain-write l.heap p none xs is.chain.3 is.chain.2);
            head_first = refl;
            tail_last = tail xs is;
            counted = omega arith;
          },
          refl,
          ground arith,
          λ q e. ground arith,
        ))
    where
      tail :
          (ys : List (Ptr × A))
          → IsList l ((p, v) ∷ ys)
          → (if l.size == 1 then 0 else l.tail) ≡ last ys
      tail [] js = ground arith
      tail (c ∷ ys) js = ground arith

  if_same : (h : Heap A) (p : Ptr) → write h p none p ≡ none
  if_same h p = ground arith

  kept :
      (q p at : Ptr) (n : ListElmt A) (h : Heap A) {m : ListElmt A}
      → h q ≡ none
      → h at ≡ some m
      → write (write h at (some n)) p none q ≡ none
  kept q p at n h e f = ground arith

  abbrev unlinked : Heap A → Ptr → A → Ptr → Ptr → Heap A
  unlinked h at w p q = write (write h at (some (element w q))) p none

  Chain-remove :
      (h : Heap A) (ys : List (Ptr × A)) (at : Ptr) (w : A) (p : Ptr) (v : A) (zs : List (Ptr × A))
      → Chain h (ys ++ ((at, w) ∷ (p, v) ∷ zs))
      → Chain (unlinked h at w p (first zs)) (ys ++ ((at, w) ∷ zs))
  Chain-remove h [] at w p v zs c = (
    c.0,
    ground (arith, c.2.0),
    c.2.1,
    Chain-write _ p none zs (Chain-write h at _ zs c.3.3 c.2.1) c.3.2,
  )
  Chain-remove h ((q, u) ∷ ys) at w p v zs c =
      let far = Apart-append q ys ((at, w) ∷ (p, v) ∷ zs) c.2 in
      (
        c.0,
        ground (arith, far.1.0, far.1.1.0, first-append ys at w w zs ((p, v) ∷ zs), c.1),
        Apart-join q ys ((at, w) ∷ zs) far.0 (far.1.0, far.1.1.1),
        Chain-remove h ys at w p v zs c.3,
      )

  -- With an element given, the one behind it is taken; the tail moves back if that was the last.
  pub rem_next-after :
      (l : MyList A) (ys : List (Ptr × A)) (at : Ptr) (w : A) (p : Ptr) (v : A)
      (zs : List (Ptr × A))
      → IsList l (ys ++ ((at, w) ∷ (p, v) ∷ zs))
      → Returns (Removed l p v (ys ++ ((at, w) ∷ zs))) (rem_next l at)
  unfolding rem_next
  rem_next-after l ys at w p v zs is =
      let (pos_at, at_eq) = Chain-at l.heap ys at w ((p, v) ∷ zs) is.chain in
      let rest = Chain-rest l.heap ys ((at, w) ∷ (p, v) ∷ zs) is.chain in
      let many = length-append ys ((at, w) ∷ (p, v) ∷ zs) in
      let some_left = size-ne_zero l ys (at, w) ((p, v) ∷ zs) is in
      rw (some_left, ne→==_false at 0 pos_at, at_eq, ne→==_false p 0 rest.3.0, rest.3.1)
        (returns (
          refl,
          refl,
          record {
            chain = Chain-remove l.heap ys at w p v zs is.chain;
            head_first = is.head_first ∙ first-append ys at w w ((p, v) ∷ zs) zs;
            tail_last =
                tail zs rest.3.3 (is.tail_last ∙ last-append ys at w ((p, v) ∷ zs))
                ∙ sym (last-append ys at w zs);
            counted = omega (arith, many, length-append ys ((at, w) ∷ zs));
          },
          refl,
          if_same (write l.heap at _) p,
          λ q e. kept q p at _ l.heap e at_eq,
        ))
    where
      tail :
          (zs : List (Ptr × A))
          → Chain l.heap zs
          → l.tail ≡ last ((at, w) ∷ (p, v) ∷ zs)
          → (if first zs == 0 then at else l.tail) ≡ last ((at, w) ∷ zs)
      tail [] c e = refl
      tail ((q, u) ∷ zs) c e = rw (ne→==_false q 0 c.0) e

  rem_next-last :
      (l : MyList A) (ys : List (Ptr × A)) (at : Ptr) (w : A)
      → IsList l (ys ++ ((at, w) ∷ []))
      → rem_next l at ≡ some (negsuc 0, none, l)
  unfolding rem_next
  rem_next-last l ys at w is =
      let (pos_at, at_eq) = Chain-at l.heap ys at w [] is.chain in
      rw (size-ne_zero l ys (at, w) [] is, ne→==_false at 0 pos_at, at_eq)

  -- An empty list, and the last element with nothing behind it, are refused: the status is -1,
  -- nothing is written through `data`, and the list is as it was.
  pub rem_next-refused :
      (l : MyList A) (xs : List (Ptr × A)) (at : Ptr)
      → IsList l xs
      → (xs ≡ []) ⊎ (at ≡ last xs)
      → rem_next l at ≡ some (negsuc 0, none, l)
  rem_next-refused l [] at is either = empty
    where
      empty : rem_next l at ≡ some (negsuc 0, none, l)
      empty = unfold rem_next in ground arith
  rem_next-refused l (c ∷ xs) at is (inl e) = cc
  rem_next-refused l (c ∷ xs) at is (inr e) =
      let (ys, w, split) = last-split c xs in
      rem_next-last l ys at w (subst (IsList l) (split ∙ ap (λ p. ys ++ ((p, w) ∷ [])) (sym e)) is)
