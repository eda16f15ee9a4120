-- ===== src/Containers/Service.antt =====
-- What a client knows of the stack, the queue and the event queue of Project1, and its calls of one.
use exec.Base.{
  refl, true, false, ◌≡◌, Option, none, some, List, [], ◌∷◌, Bool, Returns, returns, Returns->>=,
  ◌>>=◌,
}
use exec.Base.Int.{ℤ, pos, negsuc}
use exec.MyList.{MyList}
use exec.Containers.{if_zero}
use exec.Containers.Steps.{Holds, Taken}

result : {X : Type 0} {P : X → Type 0} {r : Option X} → Returns P r → (x : X) × (r ≡ some x) × P x
result (returns h) = (_, refl, h)

module _ {A : Type 0} where
  -- The outcome of a store for which `malloc` gave all blocks, or did not.
  abbrev pub StoredBy : Bool → List A → List A → ℤ × MyList A → Type 0
  StoredBy true before after (status, l') = (status ≡ pos 0) × Holds l' after
  StoredBy false before after (status, l') = (status ≡ negsuc 0) × Holds l' before

-- What a client knows of a container: two operations, whether `malloc` gives the blocks for a store,
-- where a stored value goes, and the laws of the operations.
pub record Service (A : Type 0) : Type 0 where
  pub store : MyList A → A → Option (ℤ × MyList A)
  pub take : MyList A → Option (ℤ × Option A × MyList A)
  pub given : MyList A → Bool
  pub put : List A → A → List A
  pub stores :
      (l : MyList A) (v : A) (vs : List A)
      → Holds l vs
      → Returns (StoredBy (given l) vs (put vs v)) (store l v)
  pub takes : (l : MyList A) (vs : List A) → Holds l vs → Returns (Taken vs) (take l)

pub data Op (A : Type 0) : Type 0 where
  store : A → Op A
  take : Op A

-- What a client sees of a call.
pub data Entry (A : Type 0) : Type 0 where
  accepted : A → Entry A
  rejected : A → Entry A
  got : A → Entry A
  nothing : Entry A

module _ {A : Type 0} where
  -- Entry of a `take`, from its status and the value it wrote.
  abbrev entry : ℤ → Option A → Entry A
  entry (pos n) (some v) = got v
  entry _ _ = nothing

  -- The calls of a client, in order.
  pub run : Service A → List (Op A) → MyList A → Option (List (Entry A) × MyList A)
  run s [] l = some ([], l)
  run s (store v ∷ ops) l = do
    (status, l') ← s.store l v
    (log, l'') ← run s ops l'
    some (if_zero status (accepted v) (rejected v) ∷ log, l'')
  run s (take ∷ ops) l = do
    (status, out, l') ← s.take l
    (log, l'') ← run s ops l'
    some (entry status out ∷ log, l'')

  -- For each store of the run, whether `malloc` gives its blocks.
  unfoldable pub grants : Service A → List (Op A) → MyList A → List Bool
  grants s [] l = []
  grants s (store v ∷ ops) l =
      s.given l ∷ elim (s.store l v) [ none ↦ [] | some (status, l') ↦ grants s ops l' ]
  grants s (take ∷ ops) l = elim (s.take l) [ none ↦ [] | some (status, out, l') ↦ grants s ops l' ]

  -- The log is one of an abstract container that holds `vs` first and `ws` at the end, and refuses the
  -- stores for which `malloc` does not give the blocks, and no others.
  pub data Explains (put : List A → A → List A)
      : List A → List Bool → List (Entry A) → List A → Type 0 where
    done : {vs : List A} → Explains put vs [] [] vs
    on_accepted :
        {vs ws : List A} {v : A} {gs : List Bool} {log : List (Entry A)}
        → Explains put (put vs v) gs log ws
        → Explains put vs (true ∷ gs) (accepted v ∷ log) ws
    on_rejected :
        {vs ws : List A} {v : A} {gs : List Bool} {log : List (Entry A)}
        → Explains put vs gs log ws
        → Explains put vs (false ∷ gs) (rejected v ∷ log) ws
    on_got :
        {vs ws : List A} {v : A} {gs : List Bool} {log : List (Entry A)}
        → Explains put vs gs log ws
        → Explains put (v ∷ vs) gs (got v ∷ log) ws
    on_nothing :
        {ws : List A} {gs : List Bool} {log : List (Entry A)}
        → Explains put [] gs log ws
        → Explains put [] gs (nothing ∷ log) ws

  abbrev pub Explained :
      (List A → A → List A) → List A → List Bool → List (Entry A) × MyList A → Type 0
  Explained put vs gs (log, l') = (ws : List A) × Explains put vs gs log ws × Holds l' ws

  grants-take :
      (s : Service A) (ops : List (Op A)) (l : MyList A) {x : ℤ × Option A × MyList A}
      → s.take l ≡ some x
      → grants s (take ∷ ops) l ≡ grants s ops (x.2)
  unfolding grants
  grants-take s ops l e = rw (grants, e) refl

  -- Whatever a client calls, no call faults, and the answers are those of the abstract container.
  pub run-Explained :
      (s : Service A) (ops : List (Op A)) (l : MyList A) (vs : List A)
      → Holds l vs
      → Returns (Explained s.put vs (grants s ops l)) (run s ops l)
  unfolding run grants
  run-Explained s [] l vs h = returns (vs, done, h)
  run-Explained s (store v ∷ ops) l vs h =
      let ((status, l'), e, out) = result (s.stores l v vs h) in
      rw e (by_grant (s.given l) status l' out (λ ws k. run-Explained s ops l' ws k))
    where
      by_grant :
          (g : Bool) (status : ℤ) (l' : MyList A)
          → StoredBy g vs (s.put vs v) (status, l')
          → ((ws : List A)
              → Holds l' ws
              → Returns (Explained s.put ws (grants s ops l')) (run s ops l'))
          → Returns (Explained s.put vs (g ∷ grants s ops l')) (do
            (log, l'') ← run s ops l'
            some (if_zero status (accepted v) (rejected v) ∷ log, l''))
      by_grant true status l' (ok, h') go = rw ok (
          Returns->>= (go (s.put vs v) h')
            λ (log, l'') (ws, e, h''). returns (ws, on_accepted e, h''))
      by_grant false status l' (bad, h') go =
          rw bad
            (Returns->>= (go vs h') λ (log, l'') (ws, e, h''). returns (ws, on_rejected e, h''))
  run-Explained s (take ∷ ops) l [] h =
      let ((status, out, l'), e, (bad, o, h')) = result (s.takes l [] h) in
      rw (grants-take s ops l e, e, bad)
        (Returns->>= (run-Explained s ops l' [] h')
          λ (log, l'') (ws, e, h''). returns (ws, on_nothing e, h''))
  run-Explained s (take ∷ ops) l (v ∷ vs) h =
      let ((status, out, l'), e, (ok, o, h')) = result (s.takes l (v ∷ vs) h) in
      rw (grants-take s ops l e, e, ok, o)
        (Returns->>= (run-Explained s ops l' vs h')
          λ (log, l'') (ws, e, h''). returns (ws, on_got e, h''))
