-- ===== src/WordList/Tests.antt =====
-- The word list's theorems on a list of two words.
use exec.Base.{
  refl, none, some, List, [], ◌∷◌, ◌++◌, Bool, true, false, if◌then◌else◌, ◌==◌, arith, Returns,
}
use exec.MyList.{element, Ptr, Heap, MyList}
use exec.MaxHeap.Commands.{word_exit}
use exec.Containers.Steps.{Holds}
use exec.Containers.Runs.{Allocator}
use exec.WordList.{Word, add, madd, remove, word_all}
use exec.WordList.Lines.{Entry, run, word_remove, word_madd}
use exec.WordList.Refine.{IsAdded, madd-IsAdded, add-IsAdded, asked}
use exec.WordList.Removed.{Answered, remove-numbered}
use exec.WordList.Held.{Ends, run-IsHeld}

abbrev one : Word
one = b'1' ∷ []

abbrev two : Word
two = b'2' ∷ []

abbrev pair : MyList Word
pair = record {
  size = 2;
  destroys = true;
  head = 1;
  tail = 2;
  heap =
      λ p. if p == 1 then some (element one 2) else if p == 2 then some (element two 0) else none;
}

pair-Holds : Holds pair (one ∷ two ∷ [])
pair-Holds = record {
  cells = (1, one) ∷ (2, two) ∷ [];
  is_list = record { chain = ground arith; head_first = refl; tail_last = refl; counted = refl };
  held = refl;
}

-- Gives the addresses 4 and 5, and then NULL.
abbrev is_used : Heap Word → Ptr → Bool
is_used h p = elim (h p) [ none ↦ false | some e ↦ true ]

abbrev first_free : (Ptr → Bool) → Ptr
first_free used = if used 4 then (if used 5 then 0 else 5) else 4

two_blocks : Allocator Word
two_blocks = record { malloc = λ h. first_free (is_used h); unused = λ h ne. ground arith }

-- The third word finds no block for its element.
add-IsAdded_example :
    Returns
      (IsAdded two_blocks (λ h w. true) (two ∷ one ∷ two ∷ []) (one ∷ two ∷ []) pair)
      (add two_blocks.malloc (λ h w. true) (two ∷ one ∷ two ∷ []) pair)
add-IsAdded_example =
    add-IsAdded two_blocks (λ h w. true) (two ∷ one ∷ two ∷ []) pair (one ∷ two ∷ []) (λ h w. refl)
      pair-Holds

madd-IsAdded_example :
    Returns
      (IsAdded two_blocks (λ h w. true) (asked (two ∷ one ∷ [])) (one ∷ two ∷ []) pair)
      (madd two_blocks.malloc (λ h w. true) (two ∷ one ∷ []) pair)
madd-IsAdded_example =
    madd-IsAdded two_blocks (λ h w. true) (two ∷ one ∷ []) pair (one ∷ two ∷ []) pair-Holds

remove-numbered_example :
    Returns
      (Answered (word_all ∷ []) true (b'y' ∷ []) (one ∷ two ∷ []))
      (remove (word_all ∷ []) true (b'y' ∷ []) pair)
remove-numbered_example =
    remove-numbered (word_all ∷ []) true (b'y' ∷ []) pair (one ∷ two ∷ []) pair-Holds
      (λ e. omega arith)

abbrev script : List Entry
script =
    record { line = word_madd ++ (32 ∷ b'2' ∷ 32 ∷ b'x' ∷ 10 ∷ []); given = true; answer = [] }
    ∷ record { line = word_remove ++ (32 ∷ b'3' ∷ 10 ∷ []); given = true; answer = b'y' ∷ [] }
    ∷ record { line = word_exit ++ (10 ∷ []); given = true; answer = [] }
    ∷ []

run-IsHeld_example : Returns Ends (run two_blocks.malloc (λ h w. true) script pair)
run-IsHeld_example =
    run-IsHeld two_blocks (λ h w. true) (λ h w. refl) script pair (omega arith)
      (one ∷ two ∷ [], pair-Holds)
