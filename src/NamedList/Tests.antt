-- ===== src/NamedList/Tests.antt =====
-- A run of Project1/NamedLinkedList.cpp.
use exec.Base.{ℕ, ◌≡◌, refl, some, List, [], ◌∷◌, ◌++◌, reverse_aux, arith}
use exec.NamedList.{exit_word, run_entries}
use exec.NamedList.Entries.{listed, run_entries-listed}

abbrev two_names : List (List ℕ)
two_names = (b'A' ∷ []) ∷ (b'B' ∷ []) ∷ []

run_entries-listed_example :
    run_entries 3 (two_names ++ (exit_word ∷ [])) ≡ some (listed (reverse_aux two_names []))
run_entries-listed_example = run_entries-listed two_names [] 3 (refl, (refl, tt)) (omega arith)
