-- ===== src/Base/Lists.antt =====
-- Lists measured and indexed by native numbers: the arrays of the program.
use Prim.Native.Nat.{ℕ, zero, suc, ◌+◌, ◌-◌, ◌<◌, ◌≤◌}
use mathlib.Core.Path.{◌≡◌, refl, sym, ap}
use mathlib.Core.Logic.{◌≢◌}
use mathlib.Core.List.{List, [], ◌∷◌, ◌++◌, reverse, reverse_aux, Perm}
use mathlib.Core.List.Perm
use mathlib.Core.Option.{Option, none, some}
use native.Mathlib.Omega.{arith}

module _ {ℓ} {A : Type ℓ} where
  abbrev pub length : List A → ℕ
  length [] = 0
  length (x ∷ xs) = suc (length xs)

  abbrev pub get_elem? : List A → ℕ → Option A
  get_elem? [] i = none
  get_elem? (x ∷ xs) zero = some x
  get_elem? (x ∷ xs) (suc i) = get_elem? xs i

  abbrev pub get_or : List A → ℕ → A → A
  get_or [] i d = d
  get_or (x ∷ xs) zero d = x
  get_or (x ∷ xs) (suc i) d = get_or xs i d

  -- A write out of bounds changes nothing.
  abbrev pub set : List A → ℕ → A → List A
  set [] i v = []
  set (x ∷ xs) zero v = v ∷ xs
  set (x ∷ xs) (suc i) v = x ∷ set xs i v

  abbrev pub take : ℕ → List A → List A
  take zero xs = []
  take (suc n) [] = []
  take (suc n) (x ∷ xs) = x ∷ take n xs

  abbrev pub drop : ℕ → List A → List A
  drop zero xs = xs
  drop (suc n) [] = []
  drop (suc n) (x ∷ xs) = drop n xs

  abbrev pub replicate : ℕ → A → List A
  replicate zero a = []
  replicate (suc n) a = a ∷ replicate n a

  abbrev pub All {κ} : (A → Type κ) → List A → Type κ
  All P [] = Unit
  All P (x ∷ xs) = P x × All P xs

module _ {ℓ} {A : Type ℓ} where
  pub length-append : (xs ys : List A) → length (xs ++ ys) ≡ length xs + length ys
  length-append [] ys = omega arith
  length-append (x ∷ xs) ys = omega (arith, length-append xs ys)

  pub length-set : (xs : List A) (i : ℕ) (v : A) → length (set xs i v) ≡ length xs
  length-set [] i v = refl
  length-set (x ∷ xs) zero v = refl
  length-set (x ∷ xs) (suc i) v = ap suc (length-set xs i v)

  pub length-replicate : (n : ℕ) (a : A) → length (replicate n a) ≡ n
  length-replicate zero a = refl
  length-replicate (suc n) a = ap suc (length-replicate n a)

  pub length-drop : (n : ℕ) (xs : List A) → length (drop n xs) ≡ length xs - n
  length-drop zero xs = omega arith
  length-drop (suc n) [] = omega arith
  length-drop (suc n) (x ∷ xs) = omega (arith, length-drop n xs)

  pub get_elem?-eq-get_or :
      (xs : List A) (i : ℕ) (d : A) → i < length xs → get_elem? xs i ≡ some (get_or xs i d)
  get_elem?-eq-get_or [] i d h = absurd (omega arith)
  get_elem?-eq-get_or (x ∷ xs) zero d h = refl
  get_elem?-eq-get_or (x ∷ xs) (suc i) d h = get_elem?-eq-get_or xs i d (omega arith)

  pub get_or-set_self :
      (xs : List A) (i : ℕ) (v d : A) → i < length xs → get_or (set xs i v) i d ≡ v
  get_or-set_self [] i v d h = absurd (omega arith)
  get_or-set_self (x ∷ xs) zero v d h = refl
  get_or-set_self (x ∷ xs) (suc i) v d h = get_or-set_self xs i v d (omega arith)

  pub get_or-set_ne :
      (xs : List A) (i j : ℕ) (v d : A) → i ≢ j → get_or (set xs i v) j d ≡ get_or xs j d
  get_or-set_ne [] i j v d h = refl
  get_or-set_ne (x ∷ xs) zero zero v d h = absurd (h refl)
  get_or-set_ne (x ∷ xs) zero (suc j) v d h = refl
  get_or-set_ne (x ∷ xs) (suc i) zero v d h = refl
  get_or-set_ne (x ∷ xs) (suc i) (suc j) v d h = get_or-set_ne xs i j v d (λ e. h (ap suc e))

  pub get_elem?-append :
      (xs ys : List A) (i : ℕ) → i < length xs → get_elem? (xs ++ ys) i ≡ get_elem? xs i
  get_elem?-append [] ys i h = absurd (omega arith)
  get_elem?-append (x ∷ xs) ys zero h = refl
  get_elem?-append (x ∷ xs) ys (suc i) h = get_elem?-append xs ys i (omega arith)

  -- Reading and writing behind a reversed prefix.
  pub get_elem?-reverse_aux :
      (rs l : List A) (i j : ℕ) → j ≡ length rs + i → get_elem? (reverse_aux rs l) j ≡ get_elem? l i
  get_elem?-reverse_aux [] l i j e = ap (get_elem? l) (omega arith)
  get_elem?-reverse_aux (r ∷ rs) l i j e = get_elem?-reverse_aux rs (r ∷ l) (suc i) j (omega arith)

  pub set-reverse_aux :
      (rs l : List A) (i j : ℕ) (v : A)
      → j ≡ length rs + i
      → set (reverse_aux rs l) j v ≡ reverse_aux rs (set l i v)
  set-reverse_aux [] l i j v e = ap (λ k. set l k v) (omega arith)
  set-reverse_aux (r ∷ rs) l i j v e = set-reverse_aux rs (r ∷ l) (suc i) j v (omega arith)

  pub length-reverse_aux : (rs l : List A) → length (reverse_aux rs l) ≡ length rs + length l
  length-reverse_aux [] l = omega arith
  length-reverse_aux (r ∷ rs) l = omega (arith, length-reverse_aux rs (r ∷ l))

  pub All-append {κ} : (P : A → Type κ) (xs ys : List A) → All P xs → All P ys → All P (xs ++ ys)
  All-append P [] ys hx hy = hy
  All-append P (x ∷ xs) ys hx hy = (hx.0, All-append P xs ys hx.1 hy)

module _ {ℓ} {A : Type ℓ} where
  -- A store through a pointer into the array; `none` is an access outside it.
  abbrev pub store_at : List A → ℕ → A → Option (List A)
  store_at [] i v = none
  store_at (x ∷ xs) zero v = some (v ∷ xs)
  store_at (x ∷ xs) (suc i) v = elim (store_at xs i v) [ none ↦ none | some ys ↦ some (x ∷ ys) ]

  pub store_at-eq-set :
      (xs : List A) (i : ℕ) (v : A) → i < length xs → store_at xs i v ≡ some (set xs i v)
  store_at-eq-set [] i v h = absurd (omega arith)
  store_at-eq-set (x ∷ xs) zero v h = refl
  store_at-eq-set (x ∷ xs) (suc i) v h = rw (store_at-eq-set xs i v (omega arith))

  pub reverse_aux-append : (rs l m : List A) → reverse_aux rs (l ++ m) ≡ reverse_aux rs l ++ m
  reverse_aux-append [] l m = refl
  reverse_aux-append (r ∷ rs) l m = reverse_aux-append rs (r ∷ l) m

  pub reverse_aux-reverse_aux :
      (xs ys l : List A) → reverse_aux (reverse_aux xs ys) l ≡ reverse_aux ys (xs ++ l)
  reverse_aux-reverse_aux [] ys l = refl
  reverse_aux-reverse_aux (x ∷ xs) ys l = reverse_aux-reverse_aux xs (x ∷ ys) l

  pub append-eq-reverse_aux : (xs l : List A) → xs ++ l ≡ reverse_aux (reverse xs) l
  append-eq-reverse_aux xs l = sym (reverse_aux-reverse_aux xs [] l)

  pub reverse_aux-perm :
      (rs : List A) {l m : List A} → Perm l m → Perm (reverse_aux rs l) (reverse_aux rs m)
  reverse_aux-perm [] p = p
  reverse_aux-perm (r ∷ rs) p = reverse_aux-perm rs (Perm.cons r p)

  pub reverse_aux-perm_cons :
      (rs : List A) (a : A) (l : List A) → Perm (reverse_aux rs (a ∷ l)) (a ∷ reverse_aux rs l)
  reverse_aux-perm_cons [] a l = Perm.refl (a ∷ l)
  reverse_aux-perm_cons (r ∷ rs) a l =
      Perm.trans (reverse_aux-perm rs (Perm.swap a r l)) (reverse_aux-perm_cons rs a (r ∷ l))

  pub get_elem?-middle :
      (xs : List A) (a : A) (ys : List A) → get_elem? (xs ++ (a ∷ ys)) (length xs) ≡ some a
  get_elem?-middle [] a ys = refl
  get_elem?-middle (x ∷ xs) a ys = get_elem?-middle xs a ys

  pub drop-append_le :
      (n : ℕ) (xs ys : List A) → n ≤ length xs → drop n (xs ++ ys) ≡ drop n xs ++ ys
  drop-append_le zero xs ys h = refl
  drop-append_le (suc n) [] ys h = absurd (omega arith)
  drop-append_le (suc n) (x ∷ xs) ys h = drop-append_le n xs ys (omega arith)

  drop-drop_nil : (n : ℕ) → drop {A = A} n [] ≡ []
  drop-drop_nil zero = refl
  drop-drop_nil (suc n) = refl

  pub drop-drop : (n m : ℕ) (xs : List A) (k : ℕ) → k ≡ m + n → drop n (drop m xs) ≡ drop k xs
  drop-drop n zero xs k e = ap (λ j. drop j xs) (omega arith)
  drop-drop n (suc m) [] zero e = absurd (omega arith)
  drop-drop n (suc m) [] (suc k) e = drop-drop_nil n
  drop-drop n (suc m) (x ∷ xs) zero e = absurd (omega arith)
  drop-drop n (suc m) (x ∷ xs) (suc k) e = drop-drop n m xs k (omega arith)
