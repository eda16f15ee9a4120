-- ===== src/MaxHeap/Tests.antt =====
-- The heap's theorems on concrete heaps.
use exec.Base.{
  ℕ, zero, suc, ◌-◌, ◌≤◌, ◌<◌, ◌≡◌, ◌/◌, refl, none, List, [], ◌∷◌, ◌++◌, arith, Returns,
}
use exec.Base.Int.{ℤ, pos, negsuc, ◌≤ℤ◌}
use exec.MaxHeap.{Heap, new_heap, insert, delete_max, print}
use exec.MaxHeap.Valid.{IsValid, IsAlloc}
use exec.MaxHeap.Insert.{IsInserted, insert-IsInserted}
use exec.MaxHeap.Delete.{IsDeleted, delete_max-IsDeleted}
use exec.MaxHeap.Print.{print-IsDescending}
use exec.MaxHeap.Commands.{
  Dialogue, run, word_deleteall, word_exit, word_print, word_printraw, word_input,
}
use exec.Base.{replicate, length-replicate}
use exec.MaxHeap.Slots.{slot}
use exec.MaxHeap.Valid.{how_many}
use exec.MaxHeap.Insert.{insert-capacity_zero}
use exec.MaxHeap.Print.{IsDescending, printed}
use exec.MaxHeap.Dialogue.{IsUsable, run-IsUsable}

abbrev zeros : ℕ → List ℤ
zeros n = replicate n (pos 0)

zeros-IsAlloc : IsAlloc zeros
zeros-IsAlloc n = length-replicate n (pos 0)

-- A full heap of two values.
abbrev two_values : Heap
two_values = record { capacity = 2; count = 2; ar = pos 5 ∷ negsuc 2 ∷ [] }

two_values-IsValid : IsValid two_values
two_values-IsValid = record {
  ordered = λ j p k. ordered j p k;
  room = omega arith;
  allocated = refl;
}
  where
    ordered : (j : ℕ) → 0 < j → j < 2 → slot two_values.ar j ≤ℤ slot two_values.ar ((j - 1) / 2)
    ordered zero p k = absurd (omega arith)
    ordered (suc zero) p k = omega arith
    ordered (suc (suc j)) p k = absurd (omega arith)

insert-IsInserted_example :
    Returns (IsInserted (pos 7) two_values) (insert zeros (pos 7) two_values)
insert-IsInserted_example =
    insert-IsInserted zeros (pos 7) two_values zeros-IsAlloc two_values-IsValid (omega arith)

delete_max-IsDeleted_example :
    Returns (λ (x, h'). IsDeleted two_values x h') (delete_max two_values)
delete_max-IsDeleted_example = delete_max-IsDeleted two_values two_values-IsValid (omega arith)

insert-capacity_zero_example : insert zeros (pos 7) (new_heap zeros 0) ≡ none
insert-capacity_zero_example = insert-capacity_zero zeros (pos 7) zeros-IsAlloc

print-IsDescending_example :
    Returns
      (λ xs.
        IsDescending xs
        × ((v : ℤ) → printed v xs ≤ how_many v two_values)
        × (how_many (negsuc 0) two_values ≡ 0 → (v : ℤ) → printed v xs ≡ how_many v two_values))
      (print two_values)
print-IsDescending_example = print-IsDescending two_values two_values-IsValid

abbrev start : Dialogue
start = record { heap = two_values; data_value = negsuc 0 }

abbrev some_lines : List (List ℕ)
some_lines =
    (word_input ++ (b' ' ∷ b'4' ∷ b' ' ∷ b'-' ∷ b'2' ∷ []))
    ∷ word_print
    ∷ word_deleteall
    ∷ word_printraw
    ∷ word_exit
    ∷ []

run-IsUsable_example : Returns (λ (outs, r'). IsUsable r'.heap) (run zeros some_lines start)
run-IsUsable_example =
    run-IsUsable zeros some_lines start zeros-IsAlloc
      (record { valid = two_values-IsValid; capable = omega arith })
