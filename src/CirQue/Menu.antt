-- ===== src/CirQue/Menu.antt =====
-- MyUtil/TestCircle.c: `main`, the menu loop over a circular queue that it gives to `initCirQue`.
use exec.Base.{
  ℕ, zero, suc, ◌+◌, ◌≡◌, refl, Option, none, some, List, [], ◌∷◌, ◌++◌, Returns, returns,
  Returns->>=, ◌>>=◌, ◌∙◌,
}
use exec.Base.Int.{ℤ, negsuc, pos_part}
use exec.CirQue.{CirQue, init, insert, remove, print}
use exec.CirQue.Refine.{IsValid, contents, enqueue, dequeue, printed}
use exec.CirQue.Refine.{insert_refines, remove_refines, print_repeats_oldest}

-- What `displayMenu` and the `scanf` calls behind it read in one round.
pub data Choice : Type 0 where
  insert_data : ℤ → Choice
  delete_data : ℤ → Choice
  display_data : Choice
  quit : Choice
  other : Choice

pub data Output : Type 0 where
  removed : ℕ → ℤ → Output
  displayed : ℤ × ℕ × List ℤ → Output
  invalid_choice : Output

abbrev pub Run : Type 0
Run = Option (List Output × CirQue)

abbrev pub say : List Output → Run → Run
say outs none = none
say outs (some (rest, que)) = some (outs ++ rest, que)

-- `for (i = 0; i < n; i++)`: the status of each call is dropped, and `d` is printed all the same.
delete_loop : ℕ → ℕ → ℤ → CirQue → Run
delete_loop zero i d que = some ([], que)
delete_loop (suc rounds) i d que = do
  (_, d', que') ← remove que d
  say (removed i d' ∷ []) (delete_loop rounds (i + 1) d' que')

module _ (garbage : ℤ) where
  -- `d` is not initialised: `garbage` is what it holds on entry.
  pub serve : List Choice → CirQue → Run
  unfolding delete_loop
  serve [] que = some ([], que)
  serve (insert_data i ∷ more) que = do (_, que') ← insert que i; serve more que'
  serve (delete_data n ∷ more) que = do
    (outs, que') ← delete_loop (pos_part n) 0 garbage que
    say outs (serve more que')
  serve (display_data ∷ more) que = do
    shown ← print que
    say (displayed shown ∷ []) (serve more que)
  serve (quit ∷ more) que = some ([], que)
  serve (other ∷ more) que = say (invalid_choice ∷ []) (serve more que)

  -- `main` up to its call of `disposeCirQue`, on a queue whose fields nothing has set: `block` is what
  -- `malloc` gives, and the status of `initCirQue` is dropped.
  unfoldable pub menu_main : Option (List ℤ) → CirQue → List Choice → Run
  menu_main block que choices = serve choices (init block que).1

-- The same dialogue held with a bounded list.
unfoldable pub delete_spec : ℕ → ℕ → ℤ → List ℤ → List Output × List ℤ
delete_spec zero i d q = ([], q)
delete_spec (suc rounds) i d q =
    let (_, d', q') = dequeue q d in
    let (outs, r) = delete_spec rounds (i + 1) d' q' in (removed i d' ∷ outs, r)

unfoldable pub serve_spec : ℤ → ℕ → List Choice → List ℤ → List Output × List ℤ
serve_spec garbage size [] q = ([], q)
serve_spec garbage size (insert_data i ∷ more) q = serve_spec garbage size more (enqueue size q i).1
serve_spec garbage size (delete_data n ∷ more) q =
    let (outs, q') = delete_spec (pos_part n) 0 garbage q in
    let (rest, r) = serve_spec garbage size more q' in (outs ++ rest, r)
serve_spec garbage size (display_data ∷ more) q =
    let (rest, r) = serve_spec garbage size more q in (displayed (printed q) ∷ rest, r)
serve_spec garbage size (quit ∷ more) q = ([], q)
serve_spec garbage size (other ∷ more) q =
    let (rest, r) = serve_spec garbage size more q in (invalid_choice ∷ rest, r)

-- A run that ends in a valid queue of capacity `size`, with these outputs and contents.
abbrev pub Ends : ℕ → List Output × List ℤ → List Output × CirQue → Type 0
Ends size expected (outs, que) =
    IsValid que × (que.capacity ≡ size) × ((outs, contents que) ≡ expected)

say-Ends :
    {size : ℕ} (outs : List Output) {expected : List Output × List ℤ} {r : Run}
    → Returns (Ends size expected) r
    → Returns (Ends size (outs ++ expected.0, expected.1)) (say outs r)
say-Ends outs (returns h) = returns (h.0, h.1, cc)

delete_loop_lem :
    (size rounds i : ℕ) (d : ℤ) (que : CirQue)
    → IsValid que
    → que.capacity ≡ size
    → Returns (Ends size (delete_spec rounds i d (contents que))) (delete_loop rounds i d que)
unfolding delete_loop delete_spec
delete_loop_lem size zero i d que h c = returns (h, c, refl)
delete_loop_lem size (suc rounds) i d que h c =
    Returns->>= (remove_refines que d h) λ (_, d', que') (h', c', r).
      rw (← r)
        (say-Ends (removed i d' ∷ []) (delete_loop_lem size rounds (i + 1) d' que' h' (c' ∙ c)))

serve_lem :
    (garbage : ℤ) (size : ℕ) (choices : List Choice) (que : CirQue)
    → IsValid que
    → que.capacity ≡ size
    → Returns
        (Ends size (serve_spec garbage size choices (contents que)))
        (serve garbage choices que)
unfolding serve serve_spec
serve_lem garbage size [] que h c = returns (h, c, refl)
serve_lem garbage size (insert_data i ∷ more) que h c =
    Returns->>= (insert_refines que i h)
      λ (_, que') (h', c', r). rw (← c, ← r, c) (serve_lem garbage size more que' h' (c' ∙ c))
serve_lem garbage size (delete_data n ∷ more) que h c =
    Returns->>= (delete_loop_lem size (pos_part n) 0 garbage que h c)
      λ (outs, que') (h', c', r). rw (← r) (say-Ends outs (serve_lem garbage size more que' h' c'))
serve_lem garbage size (display_data ∷ more) que h c =
    rw (print_repeats_oldest que h)
      (say-Ends (displayed (printed (contents que)) ∷ []) (serve_lem garbage size more que h c))
serve_lem garbage size (quit ∷ more) que h c = returns (h, c, refl)
serve_lem garbage size (other ∷ more) que h c =
    say-Ends (invalid_choice ∷ []) (serve_lem garbage size more que h c)

-- The loop of `main` over a valid queue, which `main` itself does not make: it never faults, and its
-- answers and what it leaves in the queue are those of the same dialogue over a bounded list.
serve_refines :
    (garbage : ℤ) (choices : List Choice) (que : CirQue)
    → IsValid que
    → Returns
        (Ends que.capacity (serve_spec garbage que.capacity choices (contents que)))
        (serve garbage choices que)
serve_refines garbage choices que h = serve_lem garbage que.capacity choices que h refl

-- What is written when nothing can be stored.
abbrev pub empty_rounds : ℕ → ℕ → ℤ → List Output
empty_rounds zero i d = []
empty_rounds (suc rounds) i d = removed i d ∷ empty_rounds rounds (i + 1) d

abbrev pub empty_outputs : ℤ → List Choice → List Output
empty_outputs garbage [] = []
empty_outputs garbage (insert_data i ∷ more) = empty_outputs garbage more
empty_outputs garbage (delete_data n ∷ more) =
    empty_rounds (pos_part n) 0 garbage ++ empty_outputs garbage more
empty_outputs garbage (display_data ∷ more) =
    displayed (negsuc 0, 0, []) ∷ empty_outputs garbage more
empty_outputs garbage (quit ∷ more) = []
empty_outputs garbage (other ∷ more) = invalid_choice ∷ empty_outputs garbage more
