-- ===== src/MyList/Show.antt =====
-- `list_prt` and `list_info` of Project1/MyList.c, on a list of strings: the characters that they print.
-- A string is the list of its characters up to the NUL; `decimal` is how `printf` writes a number for %d.
use exec.Base.{
  ℕ, zero, suc, ◌+◌, ◌≡◌, refl, ap, ap₂, ◌∙◌, Option, none, some, List, [], ◌∷◌, ◌++◌, Bool, true,
  false, if◌then◌else◌, ◌>>=◌, ◌==◌, ltb, length, arith, append-nil, append_assoc,
}
use exec.Base.Int.{ℤ, pos, negsuc}
use exec.MyList.{Ptr, ListElmt, MyList, load, element}
use exec.MyList.Chain.{Chain, IsList, first, values}

-- The parts of the format strings.
abbrev pub text_list : List ℕ
text_list = b'l' ∷ b'i' ∷ b's' ∷ b't' ∷ b'[' ∷ []

abbrev pub text_is : List ℕ
text_is = b']' ∷ b'=' ∷ 34 ∷ []

abbrev pub text_quote : List ℕ
text_quote = 34 ∷ 10 ∷ []

abbrev pub text_idx : List ℕ
text_idx = b'i' ∷ b'd' ∷ b'x' ∷ b'=' ∷ []

abbrev pub text_data : List ℕ
text_data = 10 ∷ b'd' ∷ b'a' ∷ b't' ∷ b'a' ∷ b'=' ∷ 34 ∷ []

abbrev pub text_len : List ℕ
text_len = 34 ∷ 10 ∷ b'l' ∷ b'e' ∷ b'n' ∷ b'=' ∷ []

abbrev pub text_empty : List ℕ
text_empty =
    b'l' ∷ b'i' ∷ b's' ∷ b't' ∷ 32 ∷ b'i' ∷ b's' ∷ 32 ∷ b'e' ∷ b'm' ∷ b'p' ∷ b't' ∷ b'y' ∷ 10 ∷ []

abbrev pub text_null : List ℕ
text_null = b'l' ∷ b'i' ∷ b's' ∷ b't' ∷ 32 ∷ b'i' ∷ b's' ∷ 32 ∷ b'N' ∷ b'U' ∷ b'L' ∷ b'L' ∷ 10 ∷ []

abbrev pub text_mode : List ℕ
text_mode =
    b'U' ∷ b'n' ∷ b's' ∷ b'u' ∷ b'p' ∷ b'p' ∷ b'o' ∷ b'r' ∷ b't' ∷ b'e' ∷ b'd' ∷ 32 ∷ b'm' ∷ b'o'
    ∷ b'd' ∷ b'e' ∷ 32 ∷ b':' ∷ 32 ∷ []

abbrev pub text_size : List ℕ
text_size =
    b's' ∷ b'i' ∷ b'z' ∷ b'e' ∷ b'o' ∷ b'f' ∷ b'(' ∷ b'l' ∷ b'i' ∷ b's' ∷ b't' ∷ b')' ∷ b'=' ∷ []

module _ (decimal : ℕ → List ℕ) where
  -- The body of the loop in mode '1' and in mode '2'.
  unfoldable pub print_element : Bool → ℕ → ListElmt (List ℕ) → List ℕ
  print_element false i e = text_list ++ (decimal i ++ (text_is ++ (e.val ++ text_quote)))
  print_element true i e =
      text_idx
      ++ (decimal i
          ++ (text_data
              ++ (e.val
                  ++ (text_len
                      ++ (decimal (length e.val)
                          ++ (if e.next == 0 then 10 ∷ [] else 10 ∷ 10 ∷ []))))))

  -- The loop of `list_prt`, on fuel.
  unfoldable pub print_from : Bool → ℕ → MyList (List ℕ) → ℕ → Ptr → Option (List ℕ)
  print_from detail zero l i at = none
  print_from detail (suc fuel) l i at = if at == 0 then some [] else do
    e ← load l at
    rest ← print_from detail fuel l (i + 1) e.next
    some (print_element detail i e ++ rest)

  -- `list_prt`: what it returns and prints. The loops get one round more than the list has elements.
  unfoldable pub list_prt : Option (MyList (List ℕ)) → ℕ → Option (ℤ × List ℕ)
  list_prt none m = some (negsuc 0, [])
  list_prt (some l) m =
      if ltb l.size 1
      then some (pos 0, text_empty)
      else if m == b'1'
      then print_from false (l.size + 1) l 0 l.head >>= (λ out. some (pos 0, out))
      else if m == b'2'
      then print_from true (l.size + 1) l 0 l.head >>= (λ out. some (pos 0, out))
      else some (pos 0, text_mode ++ (m ∷ []))

  unfoldable pub list_info : Option (MyList (List ℕ)) → ℤ × List ℕ
  list_info none = (pos 0, text_null)
  list_info (some l) = (pos 0, text_size ++ (decimal l.size ++ (10 ∷ [])))

  -- The lines for one text, each ended by a newline.
  abbrev pub lines_for : Bool → ℕ → List ℕ → List ℕ
  lines_for false i t = text_list ++ (decimal i ++ (text_is ++ (t ++ text_quote)))
  lines_for true i t =
      text_idx
      ++ (decimal i ++ (text_data ++ (t ++ (text_len ++ (decimal (length t) ++ (10 ∷ []))))))

  -- What stands between the lines of two texts.
  abbrev pub gap : Bool → List ℕ
  gap false = []
  gap true = 10 ∷ []

  -- The lines of the texts from number `i` on, with gaps between them.
  abbrev pub all_lines : Bool → ℕ → List (List ℕ) → List ℕ
  all_lines detail i [] = []
  all_lines detail i (t ∷ []) = lines_for detail i t
  all_lines detail i (t ∷ u ∷ ts) =
      lines_for detail i t ++ (gap detail ++ all_lines detail (i + 1) (u ∷ ts))

  -- What a call prints for these texts.
  abbrev pub shown : ℕ → List (List ℕ) → List ℕ
  shown m [] = text_empty
  shown m (t ∷ ts) =
      if m == b'1'
      then all_lines false 0 (t ∷ ts)
      else if m == b'2'
      then all_lines true 0 (t ∷ ts)
      else text_mode ++ (m ∷ [])

  element-last :
      (detail : Bool) (i : ℕ) (v : List ℕ)
      → print_element detail i (element v 0) ++ [] ≡ lines_for detail i v
  unfolding print_element
  element-last false i v = append-nil _
  element-last true i v = append-nil _

  element-more :
      (detail : Bool) (i : ℕ) (v : List ℕ) (p : Ptr) (rest : List ℕ)
      → (p == 0) ≡ false
      → print_element detail i (element v p) ++ rest ≡ lines_for detail i v ++ (gap detail ++ rest)
  unfolding print_element
  element-more false i v p rest ne = refl
  element-more true i v p rest ne = rw ne (simp append_assoc)

  print_from-lines :
      (detail : Bool) (l : MyList (List ℕ)) (xs : List (Ptr × List ℕ)) (i : ℕ)
      → Chain l.heap xs
      → print_from detail (suc (length xs)) l i (first xs) ≡ some (all_lines detail i (values xs))
  unfolding print_from
  print_from-lines detail l [] i c = refl
  print_from-lines detail l ((p, v) ∷ []) i c =
      let some_place : (p == 0) ≡ false = ground (arith, c.0) in
      rw (some_place, load, c.1, element-last detail i v) refl
  print_from-lines detail l ((p, v) ∷ (q, w) ∷ xs) i c =
      let some_place : (p == 0) ≡ false = ground (arith, c.0) in
      let next_place : (q == 0) ≡ false = ground (arith, c.3) in
      let rest = print_from-lines detail l ((q, w) ∷ xs) (i + 1) (c.3) in
      rw (some_place, load, c.1, rest)
        (ap some (element-more detail i v q (all_lines detail (i + 1) (w ∷ values xs)) next_place))

  -- `list_prt` of a well-formed list ends and uses no memory that is not there; it returns 0 and prints,
  -- for the empty list, a note; in mode '1' a line for each text with its position, in order; in mode
  -- '2' three lines for each, with its position, the text and its length, and an empty line between two
  -- texts; in another mode, a note.
  pub list_prt-shown :
      (l : MyList (List ℕ)) (xs : List (Ptr × List ℕ)) (m : ℕ)
      → IsList l xs
      → list_prt (some l) m ≡ some (pos 0, shown m (values xs))
  unfolding list_prt
  list_prt-shown l [] m w = rw (w.counted) refl
  list_prt-shown l (x ∷ xs) m w =
      let size : l.size ≡ suc (length xs) = w.counted in
      let long : ltb l.size 1 ≡ false = ground (arith, size) in
      rw (long, all false, all true) (by_mode (m == b'1') (m == b'2'))
    where
      all :
          (detail : Bool)
          → print_from detail (l.size + 1) l 0 l.head ≡ some (all_lines detail 0 (values (x ∷ xs)))
      all detail =
          let rounds : l.size + 1 ≡ suc (length (x ∷ xs)) = omega (arith, w.counted) in
          ap₂ (λ k p. print_from detail k l 0 p) rounds w.head_first
          ∙ print_from-lines detail l (x ∷ xs) 0 w.chain

      texts : List (List ℕ)
      texts = values (x ∷ xs)

      returned : List ℕ → Option (ℤ × List ℕ)
      returned out = some (pos 0, out)

      by_mode :
          (one two : Bool)
          → (if one
              then returned (all_lines false 0 texts)
              else if two
              then returned (all_lines true 0 texts)
              else returned (text_mode ++ (m ∷ [])))
            ≡ returned (
                if one
                then all_lines false 0 texts
                else if two
                then all_lines true 0 texts
                else text_mode ++ (m ∷ []))
      by_mode true two = refl
      by_mode false true = refl
      by_mode false false = refl
