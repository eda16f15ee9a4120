-- ===== src/MyList/Tests.antt =====
-- A list of two strings, printed.
use exec.Base.{ℕ, ◌+◌, ◌%◌, ◌≡◌, refl, some, none, List, [], ◌∷◌, if◌then◌else◌, ◌==◌, true, arith}
use exec.Base.Int.{pos}
use exec.MyList.{Ptr, MyList, element}
use exec.MyList.Chain.{IsList}
use exec.MyList.Show.{list_prt, shown, list_prt-shown}

abbrev two_strings : MyList (List ℕ)
two_strings = record {
  size = 2;
  destroys = true;
  head = 7;
  tail = 5;
  heap = λ p.
      if p == 7 then some (element (97 ∷ []) 5) else if p == 5 then some (element [] 0) else none;
}

abbrev cells : List (Ptr × List ℕ)
cells = (7, 97 ∷ []) ∷ (5, []) ∷ []

two_strings-IsList : IsList two_strings cells
two_strings-IsList = record {
  chain = ground arith;
  head_first = refl;
  tail_last = refl;
  counted = refl;
}

-- The last digit, which is all of a number below 10.
abbrev digit : ℕ → List ℕ
digit n = (b'0' + n % 10) ∷ []

list_prt-shown_example :
    list_prt digit (some two_strings) b'2' ≡ some (pos 0, shown digit b'2' ((97 ∷ []) ∷ [] ∷ []))
list_prt-shown_example = list_prt-shown digit two_strings cells b'2' two_strings-IsList
