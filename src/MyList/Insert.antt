-- ===== src/MyList/Insert.antt =====
-- `list_ins_next`: at the head, behind an element, and when `malloc` fails.
use exec.Base.{
  ◌≡◌, ◌≢◌, refl, ap, none, some, List, [], ◌∷◌, ◌++◌, arith, if◌then◌else◌, ◌==◌, Returns, returns,
  length-append, ne→==_false, ◌∙◌, sym,
}
use exec.Base.Int.{ℤ, pos, negsuc}
use exec.MyList.{Ptr, element, Heap, write, MyList, ins_next}
use exec.MyList.Chain.{
  first, last, Chain, IsList, Apart-of_none, Chain-write, Apart-append, Apart-join, Chain-at,
  Chain-rest, first-append, last-append,
}

module _ {A : Type 0} where
  -- What an insertion returns: status 0, the list of these cells, with `destroy` as it was.
  abbrev pub Inserted : MyList A → List (Ptr × A) → ℤ × MyList A → Type 0
  Inserted l xs (status, l') = (status ≡ pos 0) × IsList l' xs × (l'.destroys ≡ l.destroys)

  -- With no element given, the new element comes first.
  pub ins_next-head :
      (l : MyList A) (xs : List (Ptr × A)) (fresh : Ptr) (v : A)
      → IsList l xs
      → fresh ≢ 0
      → l.heap fresh ≡ none
      → Returns (Inserted l ((fresh, v) ∷ xs)) (ins_next fresh l 0 v)
  unfolding ins_next
  ins_next-head l xs fresh v is ne unused =
      let out = Apart-of_none l.heap fresh xs is.chain unused in
      rw (ne→==_false fresh 0 ne) (
        returns (
          refl,
          record {
            chain = (ne, ground arith, out, Chain-write l.heap fresh _ xs is.chain out);
            head_first = refl;
            tail_last = tail xs is;
            counted = omega arith;
          },
          refl,
        ))
    where
      tail :
          (ys : List (Ptr × A))
          → IsList l ys
          → (if l.size == 0 then fresh else l.tail) ≡ last ((fresh, v) ∷ ys)
      tail [] js = ground arith
      tail (c ∷ ys) js = ground arith

  -- The heap after the two writes behind `at`.
  abbrev linked : Heap A → Ptr → A → Ptr → A → Ptr → Heap A
  linked h at w fresh v q = write (write h fresh (some (element v q))) at (some (element w fresh))

  Chain-insert :
      (h : Heap A) (ys : List (Ptr × A)) (at : Ptr) (w : A) (zs : List (Ptr × A)) (fresh : Ptr)
      (v : A)
      → fresh ≢ 0
      → h fresh ≡ none
      → Chain h (ys ++ ((at, w) ∷ zs))
      → Chain (linked h at w fresh v (first zs)) (ys ++ ((at, w) ∷ (fresh, v) ∷ zs))
  Chain-insert h [] at w zs fresh v ne unused c =
      let out = Apart-of_none h fresh zs c.3 unused in
      let apart : at ≢ fresh = λ e. cc (ap h e) in
      (
        c.0,
        ground arith,
        (apart, c.2),
        (ne, ground arith, out, Chain-write _ at _ zs (Chain-write h fresh _ zs c.3 out) c.2),
      )
  Chain-insert h ((q, u) ∷ ys) at w zs fresh v ne unused c =
      let apart : q ≢ fresh = λ e. cc (ap h e) in
      let far = Apart-append q ys ((at, w) ∷ zs) c.2 in
      let before : q ≢ at = far.1.0 in
      (
        c.0,
        ground (arith, first-append ys at w w zs ((fresh, v) ∷ zs)),
        Apart-join q ys ((at, w) ∷ (fresh, v) ∷ zs) far.0 (before, (apart, far.1.1)),
        Chain-insert h ys at w zs fresh v ne unused c.3,
      )

  -- With an element given, the new element comes right behind it; the tail moves if it was the last.
  pub ins_next-after :
      (l : MyList A) (ys : List (Ptr × A)) (at : Ptr) (w : A) (zs : List (Ptr × A)) (fresh : Ptr)
      (v : A)
      → IsList l (ys ++ ((at, w) ∷ zs))
      → fresh ≢ 0
      → l.heap fresh ≡ none
      → Returns (Inserted l (ys ++ ((at, w) ∷ (fresh, v) ∷ zs))) (ins_next fresh l at v)
  unfolding ins_next
  ins_next-after l ys at w zs fresh v is ne unused =
      let (pos_at, at_eq) = Chain-at l.heap ys at w zs is.chain in
      rw (ne→==_false fresh 0 ne, ne→==_false at 0 pos_at, at_eq)
        (returns (
          refl,
          record {
            chain = Chain-insert l.heap ys at w zs fresh v ne unused is.chain;
            head_first = is.head_first ∙ first-append ys at w w zs ((fresh, v) ∷ zs);
            tail_last =
                tail zs (Chain-rest l.heap ys ((at, w) ∷ zs) is.chain).3
                  (is.tail_last ∙ last-append ys at w zs)
                ∙ sym (last-append ys at w ((fresh, v) ∷ zs));
            counted = omega (
              arith,
              length-append {0} ys ((at, w) ∷ zs),
              length-append {0} ys ((at, w) ∷ (fresh, v) ∷ zs),
            );
          },
          refl,
        ))
    where
      tail :
          (zs : List (Ptr × A))
          → Chain l.heap zs
          → l.tail ≡ last ((at, w) ∷ zs)
          → (if first zs == 0 then fresh else l.tail) ≡ last ((at, w) ∷ (fresh, v) ∷ zs)
      tail [] c e = refl
      tail ((p, u) ∷ zs) c e = rw (ne→==_false p 0 c.0) e

  -- When `malloc` fails, nothing changes and the status is -1.
  pub ins_next-null : (l : MyList A) (at : Ptr) (v : A) → ins_next 0 l at v ≡ some (negsuc 0, l)
  unfolding ins_next
  ins_next-null l at v = refl
