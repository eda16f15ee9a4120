-- ===== src/NamedList.antt =====
-- Project1/NamedLinkedList.cpp: nodes that put themselves in front of one list.
pub mod Entries
mod Tests
use exec.Base.{
  ℕ, zero, suc, ◌+◌, Bool, true, false, not, Option, none, some, List, [], ◌∷◌, length,
  if◌then◌else◌, ◌>>=◌, ◌==◌,
}
use exec.MaxHeap.Commands.{same}

-- NamedLinkedList, and the nodes that `new` gave, the newest first, with `pHead`; an address is the number
-- of nodes given up to it, and 0 is NULL.
pub record NamedNode : Type 0 where
  pub s_name : List ℕ
  pub p_next : ℕ

pub record NamedLinkedList : Type 0 where
  pub nodes : List NamedNode
  pub p_head : ℕ

abbrev pub node_at : List NamedNode → ℕ → Option NamedNode
node_at [] a = none
node_at (n ∷ ns) a = if a == length ns + 1 then some n else node_at ns a

-- The constructor, and `add` of the node that it made.
unfoldable pub new_node : List ℕ → NamedLinkedList → NamedLinkedList
new_node name l = record l { nodes = record { s_name = name; p_next = 0 } ∷ l.nodes }

unfoldable pub add_node : NamedLinkedList → NamedLinkedList
add_node l = elim (l.nodes) [
  | [] ↦ l
  | n ∷ ns ↦ record {
    nodes = record { s_name = n.s_name; p_next = l.p_head } ∷ ns;
    p_head = length ns + 1;
  }
]

-- "exit"
abbrev pub exit_word : List ℕ
exit_word = b'e' ∷ b'x' ∷ b'i' ∷ b't' ∷ []

-- `getData`: the words that are left, and the new node, or `none` for 0. At the end of the input the name
-- stays empty.
unfoldable pub get_data : List (List ℕ) → NamedLinkedList → List (List ℕ) × Option NamedLinkedList
get_data [] l = ([], some (new_node [] l))
get_data (w ∷ ws) l = (ws, (if same w exit_word then none else some (new_node w l)))

-- The first loop of `main`, on fuel.
unfoldable pub read_names : ℕ → List (List ℕ) → NamedLinkedList → Option NamedLinkedList
read_names zero words l = none
read_names (suc fuel) words l = elim ((get_data words l).1) [
  | none ↦ some l
  | some l' ↦ read_names fuel ((get_data words l).0) (add_node l')
]

-- The second loop of `main`, on fuel: each name, and whether ", " stands behind it.
unfoldable pub print_names : ℕ → List NamedNode → ℕ → Option (List (List ℕ × Bool))
print_names zero nodes at = none
print_names (suc fuel) nodes at = if at == 0 then some [] else do
  n ← node_at nodes at
  rest ← print_names fuel nodes n.p_next
  some ((n.s_name, not (n.p_next == 0)) ∷ rest)

-- `main`: with no node at first. The second loop gets one round more than there are nodes.
unfoldable pub run_entries : ℕ → List (List ℕ) → Option (List (List ℕ × Bool))
run_entries fuel words = do
  l ← read_names fuel words (record { nodes = []; p_head = 0 })
  print_names (length l.nodes + 1) l.nodes l.p_head
