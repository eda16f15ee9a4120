-- ===== src/NamedList/Entries.antt =====
-- What Project1/NamedLinkedList.cpp prints.
use exec.Base.{
  ℕ, zero, suc, ◌+◌, ◌<◌, ◌≤◌, ◌≡◌, refl, ap, ◌∙◌, Bool, true, false, not, none, some, List, [],
  ◌∷◌, ◌++◌, length, if◌then◌else◌, ◌==◌, ltb, arith, All, reverse_aux,
}
use exec.MaxHeap.Commands.{same}
use exec.NamedList.{
  NamedNode, NamedLinkedList, node_at, new_node, add_node, exit_word, get_data, read_names,
  print_names, run_entries,
}

-- The nodes of these names, the newest first, each in front of the one before it.
abbrev linked : List (List ℕ) → List NamedNode
linked [] = []
linked (n ∷ ns) = record { s_name = n; p_next = length ns } ∷ linked ns

abbrev entries_of : List (List ℕ) → NamedLinkedList
entries_of ns = record { nodes = linked ns; p_head = length ns }

-- The names with ", " behind each but the last.
abbrev pub listed : List (List ℕ) → List (List ℕ × Bool)
listed [] = []
listed (n ∷ ns) = (n, ltb 0 (length ns)) ∷ listed ns

length-linked : (ns : List (List ℕ)) → length (linked ns) ≡ length ns
length-linked [] = refl
length-linked (n ∷ ns) = ap suc (length-linked ns)

-- The loop sees the nodes of `ns` as they are, whatever newer nodes stand in front of them.
print_names-listed :
    (ns : List (List ℕ)) (nodes : List NamedNode)
    → ((a : ℕ) → a ≤ length ns → node_at nodes a ≡ node_at (linked ns) a)
    → print_names (suc (length ns)) nodes (length ns) ≡ some (listed ns)
unfolding print_names
print_names-listed [] nodes sees = refl
print_names-listed (n ∷ ns) nodes sees =
    let size = length-linked ns in
    let newest : (suc (length ns) == length (linked ns) + 1) ≡ true = ground (arith, size) in
    let some_place : (suc (length ns) == 0) ≡ false = ground arith in
    let top =
      sees (suc (length ns)) (omega arith)
      ∙ ap
          (λ b.
            if b
            then some (record { s_name = n; p_next = length ns })
            else node_at (linked ns) (suc (length ns)))
          newest in
    rw (some_place, top, print_names-listed ns nodes (λ a l. sees a (omega arith) ∙ older a l size))
      (ap (λ b. some ((n, b) ∷ listed ns)) (more (length ns)))
  where
    older :
        (a : ℕ)
        → a ≤ length ns
        → length (linked ns) ≡ length ns
        → node_at (linked (n ∷ ns)) a ≡ node_at (linked ns) a
    older a l size =
        let other : (a == length (linked ns) + 1) ≡ false = ground (arith, size) in
        ap
          (λ b.
            if b then some (record { s_name = n; p_next = length ns }) else node_at (linked ns) a)
          other

    more : (k : ℕ) → not (k == 0) ≡ ltb 0 k
    more k = ground arith

read_names-word :
    (fuel : ℕ) (w : List ℕ) (ws : List (List ℕ)) (l : NamedLinkedList)
    → same w exit_word ≡ false
    → read_names (suc fuel) (w ∷ ws) l ≡ read_names fuel ws (add_node (new_node w l))
unfolding read_names get_data
read_names-word fuel w ws l e =
    ap
      (λ b. elim (if b then none else some (new_node w l)) [
        | none ↦ some l
        | some l' ↦ read_names fuel ws (add_node l')
      ])
      e

add_node-entries :
    (w : List ℕ) (ns : List (List ℕ)) → add_node (new_node w (entries_of ns)) ≡ entries_of (w ∷ ns)
unfolding add_node new_node
add_node-entries w ns =
    let e : length (linked ns) + 1 ≡ suc (length ns) = omega (arith, length-linked ns) in
    ap (λ k. record { nodes = linked (w ∷ ns); p_head = k }) e

read_names-entries :
    (before rest ns : List (List ℕ)) (fuel : ℕ)
    → length before < fuel
    → All (λ w. same w exit_word ≡ false) before
    → read_names fuel (before ++ (exit_word ∷ rest)) (entries_of ns)
      ≡ some (entries_of (reverse_aux before ns))
unfolding read_names get_data add_node new_node
read_names-entries [] rest ns zero f a = absurd (omega arith)
read_names-entries [] rest ns (suc fuel) f a = refl
read_names-entries (w ∷ ws) rest ns zero f a = absurd (omega arith)
read_names-entries (w ∷ ws) rest ns (suc fuel) f a =
    read_names-word fuel w (ws ++ (exit_word ∷ rest)) (entries_of ns) (a.0)
    ∙ ap (read_names fuel (ws ++ (exit_word ∷ rest))) (add_node-entries w ns)
    ∙ read_names-entries ws rest (w ∷ ns) fuel (omega arith) (a.1)

endless :
    (words : List (List ℕ)) (fuel : ℕ) (l : NamedLinkedList)
    → All (λ w. same w exit_word ≡ false) words
    → read_names fuel words l ≡ none
unfolding read_names get_data
endless words zero l a = refl
endless [] (suc fuel) l a = endless [] fuel (add_node (new_node [] l)) tt
endless (w ∷ ws) (suc fuel) l a =
    read_names-word fuel w ws l (a.0) ∙ endless ws fuel (add_node (new_node w l)) (a.1)

-- If the words up to the first "exit" are given, `main` ends as soon as it gets one round more than there
-- are words before it, uses no memory that is not there, and prints these words in reverse order, with ", "
-- behind each but the last.
pub run_entries-listed :
    (before rest : List (List ℕ)) (fuel : ℕ)
    → All (λ w. same w exit_word ≡ false) before
    → length before < fuel
    → run_entries fuel (before ++ (exit_word ∷ rest)) ≡ some (listed (reverse_aux before []))
unfolding run_entries
run_entries-listed before rest fuel a f =
    let ns = reverse_aux before [] in
    let rounds : length (linked ns) + 1 ≡ suc (length ns) = omega (arith, length-linked ns) in
    rw (read_names-entries before rest [] fuel f a) (
      ap (λ k. print_names k (linked ns) (length ns)) rounds
      ∙ print_names-listed ns (linked ns) (λ k l. refl))

-- Without "exit" the first loop of `main` never ends: at the end of the input it goes on making nodes with
-- an empty name.
pub run_entries-endless :
    (words : List (List ℕ)) (fuel : ℕ)
    → All (λ w. same w exit_word ≡ false) words
    → run_entries fuel words ≡ none
unfolding run_entries
run_entries-endless words fuel a = rw (endless words fuel (entries_of []) a) refl
