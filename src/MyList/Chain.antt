-- ===== src/MyList/Chain.antt =====
-- The elements that a list stands for, with their addresses, and when a heap holds them.
use exec.Base.{
  ◌≡◌, ◌≢◌, refl, ap, Option, none, some, List, [], ◌∷◌, ◌++◌, arith, length, ◌==◌, false,
  length-append, ne→==_false,
}
use exec.MyList.{Ptr, ListElmt, element, Heap, write, MyList}

module _ {A : Type 0} where
  abbrev pub first : List (Ptr × A) → Ptr
  first [] = 0
  first ((p, v) ∷ xs) = p

  abbrev pub last : List (Ptr × A) → Ptr
  last [] = 0
  last ((p, v) ∷ []) = p
  last (c ∷ d ∷ xs) = last (d ∷ xs)

  abbrev pub values : List (Ptr × A) → List A
  values [] = []
  values ((p, v) ∷ xs) = v ∷ values xs

  -- No cell of `xs` stands at `p`.
  abbrev pub Apart : Ptr → List (Ptr × A) → Type 0
  Apart p [] = Unit
  Apart p ((q, v) ∷ xs) = (p ≢ q) × Apart p xs

  -- The cells `xs` are linked in this order, end in NULL, and stand at different addresses.
  abbrev pub Chain : Heap A → List (Ptr × A) → Type 0
  Chain h [] = Unit
  Chain h ((p, v) ∷ xs) = (p ≢ 0) × (h p ≡ some (element v (first xs))) × Apart p xs × Chain h xs

  pub record IsList (l : MyList A) (xs : List (Ptr × A)) : Type 0 where
    pub chain : Chain l.heap xs
    pub head_first : l.head ≡ first xs
    pub tail_last : l.tail ≡ last xs
    pub counted : l.size ≡ length xs

  pub Apart-of_none :
      (h : Heap A) (p : Ptr) (xs : List (Ptr × A)) → Chain h xs → h p ≡ none → Apart p xs
  Apart-of_none h p [] c e = tt
  Apart-of_none h p ((q, v) ∷ xs) c e = ((λ same. cc (ap h same)), Apart-of_none h p xs c.3 e)

  -- A chain does not notice a write at an address apart from it.
  pub Chain-write :
      (h : Heap A) (p : Ptr) (o : Option (ListElmt A)) (xs : List (Ptr × A))
      → Chain h xs
      → Apart p xs
      → Chain (write h p o) xs
  Chain-write h p o [] c a = tt
  Chain-write h p o ((q, v) ∷ xs) c a = (c.0, ground arith, c.2, Chain-write h p o xs c.3 a.1)

  pub Apart-append :
      (p : Ptr) (xs ys : List (Ptr × A)) → Apart p (xs ++ ys) → Apart p xs × Apart p ys
  Apart-append p [] ys a = (tt, a)
  Apart-append p ((q, v) ∷ xs) ys a =
      ((a.0, (Apart-append p xs ys a.1).0), (Apart-append p xs ys a.1).1)

  pub Apart-join : (p : Ptr) (xs ys : List (Ptr × A)) → Apart p xs → Apart p ys → Apart p (xs ++ ys)
  Apart-join p [] ys a b = b
  Apart-join p ((q, v) ∷ xs) ys a b = (a.0, Apart-join p xs ys a.1 b)

  pub Chain-at :
      (h : Heap A) (ys : List (Ptr × A)) (p : Ptr) (v : A) (zs : List (Ptr × A))
      → Chain h (ys ++ ((p, v) ∷ zs))
      → (p ≢ 0) × (h p ≡ some (element v (first zs)))
  Chain-at h [] p v zs c = (c.0, c.1)
  Chain-at h ((q, u) ∷ ys) p v zs c = Chain-at h ys p v zs c.3

  pub Chain-rest : (h : Heap A) (ys zs : List (Ptr × A)) → Chain h (ys ++ zs) → Chain h zs
  Chain-rest h [] zs c = c
  Chain-rest h ((q, u) ∷ ys) zs c = Chain-rest h ys zs c.3

  pub first-append :
      (ys : List (Ptr × A)) (p : Ptr) (v w : A) (zs zs' : List (Ptr × A))
      → first (ys ++ ((p, v) ∷ zs)) ≡ first (ys ++ ((p, w) ∷ zs'))
  first-append [] p v w zs zs' = refl
  first-append ((q, u) ∷ ys) p v w zs zs' = refl

  pub last-append :
      (ys : List (Ptr × A)) (p : Ptr) (v : A) (zs : List (Ptr × A))
      → last (ys ++ ((p, v) ∷ zs)) ≡ last ((p, v) ∷ zs)
  last-append [] p v zs = refl
  last-append (c ∷ []) p v zs = refl
  last-append (c ∷ d ∷ ys) p v zs = last-append (d ∷ ys) p v zs

  pub first-pos : (h : Heap A) (c : Ptr × A) (xs : List (Ptr × A)) → Chain h (c ∷ xs) → c.0 ≢ 0
  first-pos h (p, v) xs c = c.0

  pub values-append : (xs ys : List (Ptr × A)) → values (xs ++ ys) ≡ values xs ++ values ys
  values-append [] ys = refl
  values-append ((p, v) ∷ xs) ys = ap (λ r. v ∷ r) (values-append xs ys)

  pub size-ne_zero :
      (l : MyList A) (ys : List (Ptr × A)) (c : Ptr × A) (zs : List (Ptr × A))
      → IsList l (ys ++ (c ∷ zs))
      → (l.size == 0) ≡ false
  size-ne_zero l ys c zs is =
      ne→==_false l.size 0 (omega (arith, is.counted, length-append ys (c ∷ zs)))

  pub last-split :
      (c : Ptr × A) (xs : List (Ptr × A))
      → (ys : List (Ptr × A)) × (w : A) × (c ∷ xs ≡ ys ++ ((last (c ∷ xs), w) ∷ []))
  last-split c [] = ([], c.1, refl)
  last-split c (d ∷ xs) = let (ys, w, e) = last-split d xs in (c ∷ ys, w, ap (λ r. c ∷ r) e)
