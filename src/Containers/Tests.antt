-- ===== src/Containers/Tests.antt =====
-- A small queue in memory, and the theorems on lists, stacks, queues and events at it.
use exec.Base.{
  ℕ, ◌≡◌, refl, none, some, List, [], ◌∷◌, ◌++◌, ◌==◌, if◌then◌else◌, Bool, true, false, Returns,
  arith,
}
use exec.MyList.{Ptr, Heap, element, MyList, ins_next, rem_next, destroy}
use exec.MyList.Chain.{IsList}
use exec.MyList.Insert.{Inserted, ins_next-after}
use exec.MyList.Remove.{Removed, rem_next-after}
use exec.MyList.Destroy.{Destroyed, destroy-Destroyed}
use exec.Containers.Steps.{Holds}
use exec.Containers.Service.{Op, store, take, Explained, run, grants}
use exec.Containers.Runs.{
  Allocator, accepted_values, got_values, services-Explained, stack_service, queue_service,
  event_service, events_in_order,
}

-- 7 at address 1, 8 at 2 and 9 at 3
abbrev three : MyList ℕ
three = record {
  size = 3;
  destroys = true;
  head = 1;
  tail = 3;
  heap = λ p.
      if p == 1
      then some (element 7 2)
      else if p == 2
      then some (element 8 3)
      else if p == 3
      then some (element 9 0)
      else none;
}

abbrev cells : List (Ptr × ℕ)
cells = (1, 7) ∷ (2, 8) ∷ (3, 9) ∷ []

three-IsList : IsList three cells
three-IsList = record { chain = ground arith; head_first = refl; tail_last = refl; counted = refl }

three-Holds : Holds three (7 ∷ 8 ∷ 9 ∷ [])
three-Holds = record { cells = cells; is_list = three-IsList; held = refl }

-- Gives the addresses 4 to 6, and then NULL.
abbrev first_free : (Ptr → Bool) → Ptr
first_free used = if used 4 then (if used 5 then (if used 6 then 0 else 6) else 5) else 4

abbrev in_use : Heap ℕ → Ptr → Bool
in_use h p = elim (h p) [ none ↦ false | some e ↦ true ]

small : Allocator ℕ
small = record { malloc = λ h. first_free (in_use h); unused = λ h ne. ground arith }

abbrev script : List (Op ℕ)
script = take ∷ store 10 ∷ store 11 ∷ take ∷ take ∷ take ∷ take ∷ take ∷ []

ins_next-after_example :
    Returns (Inserted three ((1, 7) ∷ (2, 8) ∷ (4, 6) ∷ (3, 9) ∷ [])) (ins_next 4 three 2 6)
ins_next-after_example =
    ins_next-after three ((1, 7) ∷ []) 2 8 ((3, 9) ∷ []) 4 6 three-IsList (omega arith) refl

rem_next-after_example : Returns (Removed three 3 9 ((1, 7) ∷ (2, 8) ∷ [])) (rem_next three 2)
rem_next-after_example = rem_next-after three ((1, 7) ∷ []) 2 8 3 9 [] three-IsList

destroy-Destroyed_example : Returns (Destroyed three cells) (destroy three)
destroy-Destroyed_example = destroy-Destroyed three cells three-IsList

services-Explained_example :
    Returns
      (Explained (λ q v. v ∷ q) (7 ∷ 8 ∷ 9 ∷ []) (grants (stack_service small) script three))
      (run (stack_service small) script three)
    × Returns
        (Explained
          (λ q v. q ++ (v ∷ []))
          (7 ∷ 8 ∷ 9 ∷ [])
          (grants (queue_service small) script three))
        (run (queue_service small) script three)
    × Returns
        (Explained
          (λ q v. q ++ (v ∷ []))
          (7 ∷ 8 ∷ 9 ∷ [])
          (grants (event_service small (λ h. true)) script three))
        (run (event_service small (λ h. true)) script three)
services-Explained_example =
    services-Explained small (λ h. true) script three (7 ∷ 8 ∷ 9 ∷ []) three-Holds

events_in_order_example :
    Returns
      (λ (log, l').
        (ws : List ℕ) × ((7 ∷ 8 ∷ 9 ∷ []) ++ accepted_values log ≡ got_values log ++ ws)
        × Holds l' ws)
      (run (event_service small (λ h. true)) script three)
events_in_order_example =
    events_in_order small (λ h. true) script three (7 ∷ 8 ∷ 9 ∷ []) three-Holds
