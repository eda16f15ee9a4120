-- ===== src/MyList/Destroy.antt =====
-- `list_destroy` frees every element and hands each value to `destroy` once, in order.
use exec.Base.{
  ℕ, zero, suc, ◌≡◌, refl, none, some, List, [], ◌∷◌, arith, All, Bool, length, if◌then◌else◌, ◌==◌,
  true, false, Returns, returns, Returns->>=,
}
use exec.Base.Int.{pos}
use exec.MyList.{Ptr, MyList, destroyed, destroy_loop, destroy}
use exec.MyList.Chain.{IsList, values, size-ne_zero}
use exec.MyList.Remove.{rem_next-head}

module _ {A : Type 0} where
  -- What is left of the cells `xs`: their values were handed over if there is a `destroy`, the list
  -- is empty and the blocks are freed.
  abbrev pub Destroyed : MyList A → List (Ptr × A) → List A × MyList A → Type 0
  Destroyed l xs (out, l') =
      (out ≡ (if l.destroys then values xs else []))
      × IsList l' []
      × All (λ c. l'.heap c.0 ≡ none) xs
      × ((q : Ptr) → l.heap q ≡ none → l'.heap q ≡ none)

  destroyed-cons :
      (b : Bool) (v : A) (vs : List A)
      → destroyed b (pos 0) (some v) (if b then vs else []) ≡ (if b then v ∷ vs else [])
  unfolding destroyed
  destroyed-cons true v vs = refl
  destroyed-cons false v vs = refl

  nothing : (b : Bool) → [] ≡ (if◌then◌else◌ {A = List A} b [] [])
  nothing true = refl
  nothing false = refl

  destroy_loop-Destroyed :
      (n : ℕ) (l : MyList A) (xs : List (Ptr × A))
      → IsList l xs
      → n ≡ length xs
      → Returns (Destroyed l xs) (destroy_loop n l)
  unfolding destroy_loop
  destroy_loop-Destroyed zero l [] is e =
      let done : (l.size == 0) ≡ true = ground arith in
      rw done (returns (nothing l.destroys, is, tt, λ q h. h))
  destroy_loop-Destroyed (suc n) l [] is e = absurd (omega arith)
  destroy_loop-Destroyed zero l (c ∷ xs) is e = absurd (omega arith)
  destroy_loop-Destroyed (suc n) l ((p, v) ∷ xs) is e = rw (size-ne_zero l [] (p, v) xs is) (
      Returns->>= (rem_next-head l p v xs is)
        λ (status, out, l') (ok, got, is', same, freed, keeps).
          rw (ok, got)
            (Returns->>= (destroy_loop-Destroyed n l' xs is' (omega arith))
              λ (rest, l'') (handed, is'', freed', keeps'). returns (
                rw (handed, same) (destroyed-cons l.destroys v (values xs)),
                is'',
                (keeps' p freed, freed'),
                λ q e'. keeps' q (keeps q e'),
              )))

  -- `list_destroy` empties the list and frees every element; each value is handed to `destroy` once,
  -- in order, if there is one. Addresses that were free stay free.
  pub destroy-Destroyed :
      (l : MyList A) (xs : List (Ptr × A)) → IsList l xs → Returns (Destroyed l xs) (destroy l)
  unfolding destroy
  destroy-Destroyed l xs is =
      Returns->>= (destroy_loop-Destroyed l.size l xs is is.counted)
        λ (out, l') (handed, is', freed, keeps). returns (
          handed,
          record { chain = is'.chain; head_first = refl; tail_last = refl; counted = is'.counted },
          freed,
          keeps,
        )
