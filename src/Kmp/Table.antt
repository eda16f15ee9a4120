-- ===== src/Kmp/Table.antt =====
-- The inner loop of `getPi` and `kmp` finds the longest prefix to go on from, and `getPi` the table
-- of longest borders.
use exec.Base.{
  ℕ, zero, suc, ◌+◌, ◌-◌, ◌≤◌, ◌<◌, ◌≡◌, ◌≢◌, inl, inr, refl, ap, sym, subst, ◌∙◌, List, arith,
  length, get_elem?-eq-get_or, Bool-cases, ◌==◌, Returns, returns, true, false, replicate, set,
  store_at-eq-set, length-set, get_or-set_self, get_or-set_ne, Returns->>=, length-replicate,
}
use exec.Kmp.{fall_back, pi_step, pi_loop, get_pi}
use exec.Kmp.Border.{
  at, Ends, Ends-zero, Ends-suc, Ends-pred, Ends-inner, Ends-outer, IsLongest, IsTable, IsContinued,
  char_at-eq,
}

-- Falling back once keeps every candidate that the character `c` continues.
pub fall_back-IsContinued :
    (fuel c l i b j : ℕ) (p pi s : List ℕ)
    → j < fuel
    → IsTable p pi l
    → b ≤ suc l
    → b ≤ length p
    → Ends p s i j
    → j < b
    → ((k : ℕ) → k < b → Ends p s i k → at p k ≡ c → k ≤ j)
    → Returns (IsContinued p s i b c) (fall_back fuel c p pi j)
unfolding fall_back
fall_back-IsContinued zero c l i b j p pi s f t bl bp e jb m = absurd (omega arith)
fall_back-IsContinued (suc fuel) c l i b j p pi s f t bl bp e jb m = elim (Bool-cases (j == 0)) [
  | inl root ↦
      let none_left : j ≡ 0 = ground arith in
      rw root (
        returns (record {
          ends = Ends-zero p s i;
          below = omega arith;
          stops = inl refl;
          longest = λ k kb ek q. omega (arith, m k kb ek q);
        }))
  | inr inner ↦
      let pos_j : 0 < j = ground arith in
      rw (inner, char_at-eq p j (omega arith))
        (elim (Bool-cases (c == at p j)) [
          | inl hit ↦
              rw hit
                (returns (record { ends = e; below = jb; stops = inr (ground arith); longest = m }))
          | inr miss ↦
              let border = t.borders j pos_j (omega arith) in
              rw (miss, get_elem?-eq-get_or pi (j - 1) 0 (omega (arith, t.sized)))
                (fall_back-IsContinued fuel c l i b (at pi (j - 1)) p pi s
                  (omega (arith, border.below)) t bl bp (Ends-outer e border.ends)
                  (omega (arith, border.below))
                  (λ k kb ek q.
                    border.longest k (shorter k (m k kb ek q) q (ground arith))
                      (Ends-inner e ek (m k kb ek q))))
        ])
]
  where
    shorter : (k : ℕ) → k ≤ j → at p k ≡ c → c ≢ at p j → k < j
    shorter k h q d = elim (Bool-cases (k == j)) [
      | inl same ↦ absurd (d (sym q ∙ ap (at p) (ground arith)))
      | inr apart ↦ ground arith
    ]

-- What follows from the two ways in which a round can end.
pub continued-IsLongest :
    (i b j : ℕ) (p s : List ℕ)
    → IsContinued p s i b (at s i) j
    → at p j ≡ at s i
    → IsLongest p s (suc i) (suc b) (suc j)
continued-IsLongest i b j p s c h = record {
  ends = Ends-suc c.ends h;
  below = omega (arith, c.below);
  longest = longest;
}
  where
    longest : (k : ℕ) → k < suc b → Ends p s (suc i) k → k ≤ suc j
    longest zero l e = omega arith
    longest (suc k) l e = let (e', q) = Ends-pred e in omega (arith, c.longest k (omega arith) e' q)

pub broken-IsLongest :
    (i b j : ℕ) (p s : List ℕ)
    → IsContinued p s i b (at s i) j
    → at p j ≢ at s i
    → IsLongest p s (suc i) (suc b) j
broken-IsLongest i b j p s c h = record {
  ends = subst (Ends p s (suc i)) (sym none_left) (Ends-zero p s (suc i));
  below = omega (arith, c.below);
  longest = longest;
}
  where
    none_left : j ≡ 0
    none_left = elim c.stops [ inl z ↦ z | inr q ↦ absurd (h q) ]

    longest : (k : ℕ) → k < suc b → Ends p s (suc i) k → k ≤ j
    longest zero l e = omega arith
    longest (suc k) l e =
        let (e', q) = Ends-pred e in
        absurd
          (h (ap (at p) (none_left ∙ omega (arith, none_left, c.longest k (omega arith) e' q)) ∙ q))

-- The state of `getPi` before the round for `i`.
record IsFilled (p : List ℕ) (i j : ℕ) (pi : List ℕ) : Type 0 where
  table : IsTable p pi i
  current : IsLongest p p i i j
  rest : (q : ℕ) → i ≤ q → at pi q ≡ 0

longer-IsTable :
    (p pi pi' : List ℕ) (i j : ℕ)
    → IsTable p pi i
    → i < length p
    → length pi' ≡ length pi
    → ((q : ℕ) → q < i → at pi' q ≡ at pi q)
    → at pi' i ≡ j
    → IsLongest p p (suc i) (suc i) j
    → IsTable p pi' (suc i)
longer-IsTable p pi pi' i j t h len old new b = record {
  sized = len ∙ t.sized;
  within = omega arith;
  borders = λ q pos_q le_q. elim (Bool-cases (q == suc i)) [
    | inl last ↦
        let e : q ≡ suc i = ground arith in
        subst (λ k. IsLongest p p k k (at pi' (k - 1))) (sym e)
          (subst (IsLongest p p (suc i) (suc i)) (sym (ap (at pi') (omega arith) ∙ new)) b)
    | inr before ↦
        subst (IsLongest p p q q) (sym (old (q - 1) (ground arith)))
          (t.borders q pos_q (ground arith))
  ];
}

pi_step-IsFilled :
    (p pi : List ℕ) (i j : ℕ)
    → 0 < i
    → i < length p
    → IsFilled p i j pi
    → Returns (λ (j', pi'). IsFilled p (suc i) j' pi') (pi_step p i j pi)
unfolding pi_step
pi_step-IsFilled p pi i j pos_i h f = rw (char_at-eq p i h) (
    Returns->>=
      (fall_back-IsContinued (j + 1) (at p i) i i i j p pi p (omega arith) f.table (omega arith)
        (omega arith) f.current.ends f.current.below (λ k kb e q. f.current.longest k kb e))
      (λ j' c.
        rw (char_at-eq p j' (omega (arith, c.below, h))) (elim (Bool-cases (at p i == at p j')) [
          | inl hit ↦
              let long = continued-IsLongest i i j' p p c (ground arith) in
              let i_lt : i < length pi = omega (arith, h, f.table.sized) in
              let next = suc_eq j' in
              rw (hit, store_at-eq-set pi i (j' + 1) i_lt)
                (returns (record {
                  table =
                      longer-IsTable p pi (set pi i (j' + 1)) i (suc j') f.table h
                        (length-set pi i (j' + 1))
                        (λ q l. get_or-set_ne pi i q (j' + 1) 0 (λ e. omega arith))
                        (get_or-set_self pi i (j' + 1) 0 i_lt ∙ next) long;
                  current = subst (IsLongest p p (suc i) (suc i)) (sym next) long;
                  rest = λ q l.
                      get_or-set_ne pi i q (j' + 1) 0 (λ e. omega arith) ∙ f.rest q (omega arith);
                }))
          | inr miss ↦
              let short = broken-IsLongest i i j' p p c (λ e. ground (arith, e)) in
              rw miss (
                returns (record {
                  table =
                      longer-IsTable p pi pi i j' f.table h refl (λ q l. refl)
                        (f.rest i (omega arith) ∙ sym (stopped c miss)) short;
                  current = short;
                  rest = λ q l. f.rest q (omega arith);
                }))
        ])))
  where
    suc_eq : (j' : ℕ) → j' + 1 ≡ suc j'
    suc_eq j' = omega arith

    stopped : {j' : ℕ} → IsContinued p p i i (at p i) j' → (at p i == at p j') ≡ false → j' ≡ 0
    stopped {j'} c miss = elim c.stops [ inl z ↦ z | inr q ↦ ground (arith, q) ]

pi_loop-IsTable :
    (n : ℕ) (p pi : List ℕ) (i j : ℕ)
    → 0 < i
    → i + n ≡ length p
    → IsFilled p i j pi
    → Returns (λ pi'. IsTable p pi' (length p)) (pi_loop n p i j pi)
unfolding pi_loop
pi_loop-IsTable zero p pi i j pos_i e f = returns (subst (IsTable p pi) (omega arith) f.table)
pi_loop-IsTable (suc n) p pi i j pos_i e f =
    Returns->>= (pi_step-IsFilled p pi i j pos_i (omega arith) f) (λ (j', pi') f'.
      subst (λ k. Returns (λ pi'. IsTable p pi' (length p)) (pi_loop n p k j' pi')) (suc_eq i)
        (pi_loop-IsTable n p pi' (suc i) j' (omega arith) (omega arith) f'))
  where
    suc_eq : (i : ℕ) → suc i ≡ i + 1
    suc_eq i = omega arith

at-replicate : (n q : ℕ) → at (replicate n 0) q ≡ 0
at-replicate zero q = refl
at-replicate (suc n) zero = refl
at-replicate (suc n) (suc q) = at-replicate n q

-- If its block is given, `getPi` of a pattern that is not empty stays inside it and gives the table of
-- the longest proper borders of all prefixes.
pub get_pi-IsTable :
    (p : List ℕ) → 0 < length p → Returns (λ pi. IsTable p pi (length p)) (get_pi true p)
unfolding get_pi
get_pi-IsTable p h =
    pi_loop-IsTable (length p - 1) p (replicate (length p) 0) 1 0 (omega arith) (omega arith)
      (record {
        table = record {
          sized = length-replicate (length p) 0;
          within = omega arith;
          borders = λ q pos_q le_q.
              subst (λ k. IsLongest p p k k (at (replicate (length p) 0) (k - 1)))
                (one q pos_q le_q)
                (subst (IsLongest p p 1 1) (sym (at-replicate (length p) (1 - 1))) first);
        };
        current = first;
        rest = λ q l. at-replicate (length p) q;
      })
  where
    first : IsLongest p p 1 1 0
    first = record { ends = Ends-zero p p 1; below = omega arith; longest = λ k l e. omega arith }

    one : (q : ℕ) → 0 < q → q ≤ 1 → 1 ≡ q
    one q a b = omega arith
