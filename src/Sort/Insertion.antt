-- ===== src/Sort/Insertion.antt =====
-- `issort` sorts: its loops against an insertion into a reversed sorted prefix.
use mathlib.Core.List.{Perm, perm_middle, reverse-reverse}
use mathlib.Core.List.Perm
use exec.Base.{
  ℕ, zero, suc, ◌+◌, ◌-◌, ◌≤◌, ◌≡◌, refl, ap, ◌∙◌, inl, inr, Bool, true, false, some, List, [], ◌∷◌,
  ◌++◌, reverse_aux, arith, Returns, returns, if◌then◌else◌, Bool-cases, length, get_elem?,
  store_at-eq-set, get_elem?-reverse_aux, set-reverse_aux, length-reverse_aux, All, reverse, take,
  drop, append-nil, subst, sym, ◌⊎◌, reverse_aux-append, reverse_aux-perm, reverse_aux-perm_cons,
  append-eq-reverse_aux, get_elem?-middle,
}
use exec.Base.Int.{ℤ, pos, negsuc}
use exec.Sort.{is_positive, shift, issort_loop, issort}

pred-suc : (n : ℕ) → suc n - 1 ≡ n
pred-suc n = omega arith

module _ {A : Type 0} (compare : A → A → ℤ) where
  -- What the comparison has to be for a sort to mean something.
  pub record IsOrder : Type 0 where
    pub trans :
        (x y z : A)
        → is_positive (compare x y) ≡ false
        → is_positive (compare y z) ≡ false
        → is_positive (compare x z) ≡ false
    pub asym : (x y : A) → is_positive (compare x y) ≡ true → is_positive (compare y x) ≡ false

  -- `x` may stand before `y`.
  abbrev pub Le : A → A → Type 0
  Le x y = is_positive (compare x y) ≡ false

  -- No element may not stand before a later one.
  abbrev pub IsSorted : List A → Type 0
  IsSorted [] = Unit
  IsSorted (x ∷ xs) = All (Le x) xs × IsSorted xs

  -- The array after the inner loop: the sorted prefix comes reversed, and `post` has been passed.
  unfoldable pub slide : List A → A → List A → List A
  slide [] key post = key ∷ post
  slide (x ∷ rs) key post =
      if is_positive (compare x key)
      then slide rs key (x ∷ post)
      else reverse_aux rs (x ∷ key ∷ post)

  shift-slide :
      (rs : List A) (key hole : A) (post : List A) (i : ℕ)
      → i ≡ length rs
      → shift compare (reverse_aux rs (hole ∷ post)) key i ≡ some (slide rs key post)
  unfolding shift slide
  shift-slide [] key hole post zero e = refl
  shift-slide [] key hole post (suc i) e = absurd (omega arith)
  shift-slide (x ∷ rs) key hole post zero e = absurd (omega arith)
  shift-slide (x ∷ rs) key hole post (suc i) e =
      let at : get_elem? (reverse_aux rs (x ∷ hole ∷ post)) i ≡ some x =
        get_elem?-reverse_aux rs (x ∷ hole ∷ post) 0 i (omega arith) in
      let wr = λ (v : A).
        store_at-eq-set (reverse_aux rs (x ∷ hole ∷ post)) (i + 1) v
          (omega (arith, length-reverse_aux rs (x ∷ hole ∷ post)))
        ∙ ap some (set-reverse_aux rs (x ∷ hole ∷ post) 1 (i + 1) v (omega arith)) in
      rw at (elim (Bool-cases (is_positive (compare x key))) [
        | inl more ↦ rw (more, wr x) (shift-slide rs key x (x ∷ post) i (omega arith))
        | inr stop ↦ rw (stop, wr key)
      ])

  length-slide :
      (rs : List A) (key : A) (post : List A)
      → length (slide rs key post) ≡ length rs + 1 + length post
  unfolding slide
  length-slide [] key post = omega arith
  length-slide (x ∷ rs) key post =
      ground (arith, length-slide rs key (x ∷ post), length-reverse_aux rs (x ∷ key ∷ post))

  slide-append :
      (rs : List A) (key : A) (mid post : List A)
      → slide rs key (mid ++ post) ≡ slide rs key mid ++ post
  unfolding slide
  slide-append [] key mid post = refl
  slide-append (x ∷ rs) key mid post =
      ground (arith, slide-append rs key (x ∷ mid) post, reverse_aux-append rs (x ∷ key ∷ mid) post)

  -- Growing the tail of a sorted list inside, without touching what stands before it.
  lift :
      (rs l l' : List A)
      → (IsSorted l → IsSorted l')
      → ((r : A) → All (Le r) l → All (Le r) l')
      → IsSorted (reverse_aux rs l)
      → IsSorted (reverse_aux rs l')
  lift [] l l' s a h = s h
  lift (r ∷ rs) l l' s a h =
      lift rs (r ∷ l) (r ∷ l') (λ p. (a r p.0, s p.1)) (λ q p. (p.0, a q p.1)) h

  slide-IsSorted :
      (rs : List A) (key : A) (post : List A)
      → IsOrder
      → IsSorted (reverse_aux rs post)
      → All (Le key) post
      → IsSorted (slide rs key post)
  unfolding slide
  slide-IsSorted [] key post o s h = (h, s)
  slide-IsSorted (x ∷ rs) key post o s h = elim (Bool-cases (is_positive (compare x key))) [
    | inl more ↦ rw more (slide-IsSorted rs key (x ∷ post) o s (o.asym x key more, h))
    | inr stop ↦ rw stop (
        lift rs (x ∷ post) (x ∷ key ∷ post) (λ p. ((stop, p.0), (h, p.1)))
          (λ r p. (p.0, (o.trans r x key p.0 stop, p.1))) s)
  ]

  slide-perm :
      (rs : List A) (key : A) (post : List A) → Perm (slide rs key post) (key ∷ reverse_aux rs post)
  unfolding slide
  slide-perm [] key post = Perm.refl (key ∷ post)
  slide-perm (x ∷ rs) key post = elim (Bool-cases (is_positive (compare x key))) [
    | inl more ↦ rw more (slide-perm rs key (x ∷ post))
    | inr stop ↦ rw stop (
        Perm.trans (reverse_aux-perm rs (Perm.swap key x post))
          (reverse_aux-perm_cons rs key (x ∷ post)))
  ]

  -- The sorted prefix after one round of the outer loop, and after several.
  abbrev place : List A → A → List A
  place pre key = slide (reverse pre) key []

  abbrev feed : ℕ → List A → List A → List A
  feed zero pre rest = pre
  feed (suc n) pre [] = pre
  feed (suc n) pre (key ∷ rest) = feed n (place pre key) rest

  place-IsSorted : (pre : List A) (key : A) → IsOrder → IsSorted pre → IsSorted (place pre key)
  place-IsSorted pre key o s =
      slide-IsSorted (reverse pre) key [] o (subst IsSorted (sym (reverse-reverse pre)) s) tt

  feed-IsSorted : (n : ℕ) (pre rest : List A) → IsOrder → IsSorted pre → IsSorted (feed n pre rest)
  feed-IsSorted zero pre rest o s = s
  feed-IsSorted (suc n) pre [] o s = s
  feed-IsSorted (suc n) pre (key ∷ rest) o s =
      feed-IsSorted n (place pre key) rest o (place-IsSorted pre key o s)

  place-perm : (pre : List A) (key : A) → Perm (place pre key) (key ∷ pre)
  place-perm pre key =
      subst (λ l. Perm (place pre key) (key ∷ l)) (reverse-reverse pre)
        (slide-perm (reverse pre) key [])

  feed-perm : (n : ℕ) (pre rest : List A) → Perm (feed n pre rest) (pre ++ take n rest)
  feed-perm zero pre rest = rw append-nil (Perm.refl pre)
  feed-perm (suc n) pre [] = rw append-nil (Perm.refl pre)
  feed-perm (suc n) pre (key ∷ rest) = Perm.trans (feed-perm n (place pre key) rest) (
      Perm.trans (Perm.append (place-perm pre key) (Perm.refl (take n rest)))
        (Perm.symm (perm_middle pre (take n rest))))

  shift-place :
      (pre : List A) (key : A) (rest : List A)
      → shift compare (pre ++ (key ∷ rest)) key (length pre) ≡ some (place pre key ++ rest)
  shift-place pre key rest =
      ap (λ l. shift compare l key (length pre)) (append-eq-reverse_aux pre (key ∷ rest))
      ∙ shift-slide (reverse pre) key key rest (length pre)
          (omega (arith, length-reverse_aux pre []))
      ∙ ap some (slide-append (reverse pre) key [] rest)

  issort_loop-feed :
      (n : ℕ) (pre rest : List A) (j : ℕ)
      → j ≡ length pre
      → n ≤ length rest
      → issort_loop compare n (pre ++ rest) j ≡ some (feed n pre rest ++ drop n rest)
  unfolding issort_loop
  issort_loop-feed zero pre rest j e h = refl
  issort_loop-feed (suc n) pre [] j e h = absurd (omega arith)
  issort_loop-feed (suc n) pre (key ∷ rest) j e h =
      rw (e, get_elem?-middle pre key rest, shift-place pre key rest)
        (issort_loop-feed n (place pre key) rest (length pre + 1)
          (omega (arith, length-slide (reverse pre) key [], length-reverse_aux pre []))
          (omega arith))

  -- The first `size` elements stand in order, and are those that stood there before.
  pub record SortedTo (size : ℕ) (a a' : List A) : Type 0 where
    pub front : List A
    pub array : a' ≡ front ++ drop size a
    pub is_sorted : IsSorted front
    pub perm : Perm front (take size a)

  -- If the comparison is an order, `issort` returns 0 after sorting the first `size` elements, and
  -- leaves those behind them alone; no access is outside an array of at least `size` elements.
  -- Without the element buffer it returns -1 and changes nothing.
  pub issort-SortedTo :
      (a : List A) (size : ℕ) (allocated : Bool)
      → IsOrder
      → size ≤ length a
      → Returns
          (λ (status, a').
            ((allocated ≡ true) × (status ≡ pos 0) × SortedTo size a a')
            ⊎ ((allocated ≡ false) × (status ≡ negsuc 0) × (a' ≡ a)))
          (issort compare allocated a size)
  unfolding issort issort_loop
  issort-SortedTo a size false o h = returns (inr (refl, refl, refl))
  issort-SortedTo a zero true o h =
      returns
        (inl (refl, refl, record { front = []; array = refl; is_sorted = tt; perm = Perm.refl [] }))
  issort-SortedTo [] (suc n) true o h = absurd (omega arith)
  issort-SortedTo (x ∷ xs) (suc n) true o h =
      rw (pred-suc n, issort_loop-feed n (x ∷ []) xs 1 refl (omega arith))
        (returns (
          inl (
            refl,
            refl,
            record {
              front = feed n (x ∷ []) xs;
              array = refl;
              is_sorted = feed-IsSorted n (x ∷ []) xs o (tt, tt);
              perm = feed-perm n (x ∷ []) xs;
            },
          )))
