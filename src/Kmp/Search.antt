-- ===== src/Kmp/Search.antt =====
-- `kmp` finds what the search that tries every position finds.
use exec.Base.{
  ℕ, zero, suc, ◌+◌, ◌-◌, ◌≤◌, ◌<◌, ◌≡◌, inl, inr, refl, ap, sym, subst, ◌∙◌, List, [], ◌∷◌, ◌++◌,
  map, arith, Option, none, some, length, get_elem?, get_elem?-eq-get_or, Bool-cases, ◌==◌, Returns,
  returns, ◌>>=◌, true, replicate, store_at, length-append, Returns->>=,
}
use exec.Base.Int.{ℤ, pos, negsuc}
use exec.Kmp.{difference, match_step, match_loop, kmp}
use exec.Kmp.Border.{at, Ends, Ends-zero, Ends-inner, Ends-outer, IsLongest, IsTable, char_at-eq}
use exec.Kmp.Table.{fall_back-IsContinued, continued-IsLongest, broken-IsLongest, get_pi-IsTable}
use exec.Kmp.Naive.{below, naive, below-hit, below-miss}

-- The state of `kmp` before the round for `i`.
record IsScanned (p s : List ℕ) (i j : ℕ) (ans : List ℤ) (ansi : ℕ) : Type 0 where
  current : IsLongest p s i (length p) j
  found : ans ≡ map pos (below p s (i + 1 - length p)) ++ replicate (length s - ansi) (negsuc 0)
  counted : ansi ≡ length (below p s (i + 1 - length p))
  few : ansi ≤ i

store_next :
    (xs : List ℤ) (n : ℕ) (r v : ℤ)
    → store_at (xs ++ replicate (suc n) r) (length xs) v ≡ some ((xs ++ (v ∷ [])) ++ replicate n r)
store_next [] n r v = refl
store_next (x ∷ xs) n r v = rw (store_next xs n r v) refl

length-map_pos : (xs : List ℕ) → length (map pos xs) ≡ length xs
length-map_pos [] = refl
length-map_pos (x ∷ xs) = ap suc (length-map_pos xs)

map_pos-append : (xs ys : List ℕ) → map pos (xs ++ ys) ≡ map pos xs ++ map pos ys
map_pos-append [] ys = refl
map_pos-append (x ∷ xs) ys = ap (λ k. pos x ∷ k) (map_pos-append xs ys)

-- What a round leaves.
abbrev Scanned : List ℕ → List ℕ → ℕ → ℕ × List ℤ × ℕ → Type 0
Scanned p s i (j, ans, ansi) = IsScanned p s i j ans ansi

scan_miss :
    (p s : List ℕ) (i j : ℕ) (ans : List ℤ) (ansi : ℕ) (j' : ℕ)
    → IsScanned p s i j ans ansi
    → IsLongest p s (suc i) (suc (length p)) j'
    → j' < length p
    → IsScanned p s (suc i) j' ans ansi
scan_miss p s i j ans ansi j' f b h =
    let same = below-miss p s i (λ e. omega (arith, b.longest (length p) (omega arith) e, h)) in
    record {
      current = record { ends = b.ends; below = h; longest = λ k l e. b.longest k (omega arith) e };
      found = f.found ∙ ap (λ k. map pos k ++ replicate (length s - ansi) (negsuc 0)) (sym same);
      counted = f.counted ∙ ap length (sym same);
      few = omega (arith, f.few);
    }

stored_match :
    (p s : List ℕ) (i j : ℕ) (ans : List ℤ) (ansi : ℕ)
    → i < length s
    → IsScanned p s i j ans ansi
    → Ends p s (suc i) (length p)
    → store_at ans ansi (difference (i + 1) (length p))
      ≡ some (
          map pos (below p s (suc i + 1 - length p))
          ++ replicate (length s - (ansi + 1)) (negsuc 0))
stored_match p s i j ans ansi h f e =
    let xs = map pos (below p s (i + 1 - length p)) in
    let rest = length s - (ansi + 1) in
    let room : length s - ansi ≡ suc rest = omega (arith, f.few, h) in
    let e1 : ans ≡ xs ++ replicate (suc rest) (negsuc 0) =
      f.found ∙ ap (λ n. xs ++ replicate n (negsuc 0)) room in
    let e2 : ansi ≡ length xs = f.counted ∙ sym (length-map_pos (below p s (i + 1 - length p))) in
    let e3 : difference (i + 1) (length p) ≡ pos (i + 1 - length p) = ground (arith, e.fits) in
    ap (λ a. store_at a ansi (difference (i + 1) (length p))) e1
    ∙ ap (λ n. store_at (xs ++ replicate (suc rest) (negsuc 0)) n (difference (i + 1) (length p)))
        e2
    ∙ ap (store_at (xs ++ replicate (suc rest) (negsuc 0)) (length xs)) e3
    ∙ store_next xs rest (negsuc 0) (pos (i + 1 - length p))
    ∙ ap (λ l. some (l ++ replicate rest (negsuc 0)))
        (sym (map_pos-append (below p s (i + 1 - length p)) ((i + 1 - length p) ∷ []))
          ∙ ap (map pos) (sym (below-hit p s i h e)))

scan_hit :
    (p s pi : List ℕ) (i j : ℕ) (ans : List ℤ) (ansi : ℕ)
    → i < length s
    → IsTable p pi (length p)
    → IsScanned p s i j ans ansi
    → Ends p s (suc i) (length p)
    → Returns (Scanned p s (suc i)) (do
      ans' ← store_at ans ansi (difference (i + 1) (length p))
      k ← get_elem? pi (length p - 1)
      some (k, ans', ansi + 1))
scan_hit p s pi i j ans ansi h t f e =
    let pos_m : 0 < length p = omega (arith, f.current.below) in
    let border = t.borders (length p) pos_m (omega arith) in
    let more = below-hit p s i h e in
    rw
      (
        stored_match p s i j ans ansi h f e,
        get_elem?-eq-get_or pi (length p - 1) 0 (omega (arith, t.sized)),
      )
      (returns (record {
        current = record {
          ends = Ends-outer e border.ends;
          below = border.below;
          longest = λ k l e'. border.longest k l (Ends-inner e e' (omega arith));
        };
        found = refl;
        counted =
            omega (
              arith,
              f.counted,
              length-append (below p s (i + 1 - length p)) ((i + 1 - length p) ∷ []),
            )
            ∙ ap length (sym more);
        few = omega (arith, f.few);
      }))

match_step-IsScanned :
    (p s pi : List ℕ) (i j : ℕ) (ans : List ℤ) (ansi : ℕ)
    → i < length s
    → IsTable p pi (length p)
    → IsScanned p s i j ans ansi
    → Returns (Scanned p s (suc i)) (match_step s p pi i j ans ansi)
unfolding match_step
match_step-IsScanned p s pi i j ans ansi h t f = rw (char_at-eq s i h) (
    Returns->>=
      (fall_back-IsContinued (j + 1) (at s i) (length p) i (length p) j p pi s (omega arith) t
        (omega arith) (omega arith) f.current.ends f.current.below
        (λ k kb e q. f.current.longest k kb e))
      (λ j' c.
        rw (char_at-eq p j' (omega (arith, c.below))) (elim (Bool-cases (at s i == at p j')) [
          | inl hit ↦
              let long = continued-IsLongest i (length p) j' p s c (ground arith) in
              rw hit (elim (Bool-cases (j' + 1 == length p)) [
                | inl whole ↦
                    let all : suc j' ≡ length p = ground arith in
                    rw (whole, last j' all)
                      (scan_hit p s pi i j ans ansi h t f (subst (Ends p s (suc i)) all long.ends))
                | inr part ↦
                    let next : suc j' ≡ j' + 1 = omega arith in
                    rw part (
                      returns (
                        subst (λ k. IsScanned p s (suc i) k ans ansi) next
                          (scan_miss p s i j ans ansi (suc j') f long (ground (arith, c.below)))))
              ])
          | inr miss ↦ rw miss (
              returns (
                scan_miss p s i j ans ansi j' f
                  (broken-IsLongest i (length p) j' p s c (λ e. ground (arith, e))) c.below))
        ])))
  where
    last : (j' : ℕ) → suc j' ≡ length p → j' ≡ length p - 1
    last j' e = omega arith

match_loop-found :
    (n : ℕ) (p s pi : List ℕ) (i j : ℕ) (ans : List ℤ) (ansi : ℕ)
    → i + n ≡ length s
    → IsTable p pi (length p)
    → IsScanned p s i j ans ansi
    → Returns
        (λ (ans', ansi').
          (ansi' ≡ length (naive s p))
          × (ansi' ≤ length s)
          × (ans' ≡ map pos (naive s p) ++ replicate (length s - ansi') (negsuc 0)))
        (match_loop n s p pi i j ans ansi)
unfolding match_loop
match_loop-found zero p s pi i j ans ansi e t f =
    let i_end : i ≡ length s = omega arith in
    let same : below p s (i + 1 - length p) ≡ naive s p =
      ap (λ k. below p s (k + 1 - length p)) i_end in
    returns (
      f.counted ∙ ap length same,
      omega (arith, f.few),
      f.found ∙ ap (λ k. map pos k ++ replicate (length s - ansi) (negsuc 0)) same,
    )
match_loop-found (suc n) p s pi i j ans ansi e t f =
    Returns->>= (match_step-IsScanned p s pi i j ans ansi (omega arith) t f)
      (λ (j', ans', ansi') f'.
        match_loop-found n p s pi (i + 1) j' ans' ansi' (omega arith) t
          (subst (λ k. IsScanned p s k j' ans' ansi') (next i) f'))
  where
    next : (i : ℕ) → suc i ≡ i + 1
    next i = omega arith

-- What `kmp` answers: the positions of the pattern in the text, in order, with -1 behind them.
abbrev pub IsFound : List ℕ → List ℕ → Option (List ℤ × ℕ) → Type 0
IsFound s p none = ⊥
IsFound s p (some (ans, ansi)) =
    (ansi ≡ length (naive s p))
    × (ansi ≤ length s)
    × (ans ≡ map pos (naive s p) ++ replicate (length s - ansi) (negsuc 0))

-- If both blocks are given, `kmp` with a pattern that is not empty never leaves its arrays, and finds
-- what the search that tries every position finds: its array holds these positions in order, with -1
-- in the places behind them, and `*ansi` is their number.
pub kmp-naive : (s p : List ℕ) → 0 < length p → Returns (IsFound s p) (kmp true true s p)
unfolding kmp
kmp-naive s p h = Returns->>= (get_pi-IsTable p h) (λ pi t.
    Returns->>=
      (match_loop-found (length s) p s pi 0 0 (replicate (length s) (negsuc 0)) 0 (omega arith) t
        (start h))
      (λ r f. returns f))
  where
    start : 0 < length p → IsScanned p s 0 0 (replicate (length s) (negsuc 0)) 0
    start h =
        let none_yet : 0 + 1 - length p ≡ 0 = omega arith in
        let all : length s ≡ length s - 0 = omega arith in
        let empty : below p s (0 + 1 - length p) ≡ [] = ap (below p s) none_yet in
        record {
          current = record { ends = Ends-zero p s 0; below = h; longest = λ k l e. e.fits };
          found =
              ap (λ n. replicate n (negsuc 0)) all
              ∙ sym (ap (λ k. map pos k ++ replicate (length s - 0) (negsuc 0)) empty);
          counted = sym (ap length empty);
          few = omega arith;
        }
