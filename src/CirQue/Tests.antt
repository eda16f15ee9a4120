-- ===== src/CirQue/Tests.antt =====
-- Runs of the circular queue, and its theorems at them.
use exec.Base.{◌≡◌, refl, List, [], ◌∷◌, Returns, arith}
use exec.Base.Int.{pos, negsuc}
use exec.CirQue.{CirQue, insert, remove}
use exec.CirQue.Refine.{
  IsValid, contents, enqueue, dequeue, printed, insert_refines, remove_refines,
}
use exec.CirQue.Menu
use exec.CirQue.Menu.{
  Choice, insert_data, delete_data, display_data, quit, removed, displayed, serve_spec,
}

-- 8, then 9, round the end of a block of three
abbrev wrapped : CirQue
wrapped = record {
  cells = pos 9 ∷ pos 7 ∷ pos 8 ∷ [];
  front = 2;
  rear = 1;
  count = 2;
  capacity = 3;
}

wrapped-IsValid : IsValid wrapped
wrapped-IsValid = omega arith

abbrev script : List Choice
script = insert_data (pos 5) ∷ insert_data (pos 6) ∷ display_data ∷ delete_data (pos 4) ∷ quit ∷ []

script_output : serve_spec (negsuc 6) 3 script (pos 8 ∷ pos 9 ∷ []) ≡ (
  displayed (pos 0, 3, pos 8 ∷ pos 8 ∷ pos 8 ∷ [])
      ∷ removed 0 (pos 8)
      ∷ removed 1 (pos 9)
      ∷ removed 2 (pos 5)
      ∷ removed 3 (pos 5)
      ∷ [],
  [],
)
unfolding serve_spec Menu.delete_spec enqueue dequeue printed
script_output = refl

insert_refines_example :
    Returns
      (λ (status, after).
        IsValid after
        × (after.capacity ≡ 3)
        × ((status, contents after) ≡ enqueue 3 (pos 8 ∷ pos 9 ∷ []) (pos 5)))
      (insert wrapped (pos 5))
insert_refines_example = insert_refines wrapped (pos 5) wrapped-IsValid

remove_refines_example :
    Returns
      (λ (status, out', after).
        IsValid after
        × (after.capacity ≡ 3)
        × ((status, out', contents after) ≡ dequeue (pos 8 ∷ pos 9 ∷ []) (pos 0)))
      (remove wrapped (pos 0))
remove_refines_example = remove_refines wrapped (pos 0) wrapped-IsValid
