-- ===== src/Bounce/Trail/Marks.antt =====
-- What the faces of Project1/Main01.c leave on the screen.
use exec.Base.{
  ℕ, zero, suc, ◌≡◌, ◌≢◌, ◌⊎◌, inl, inr, refl, ap, sym, subst, ◌∙◌, false, arith, ◌==◌, ◌&&◌, some,
  List, [], ◌∷◌, All,
}
use exec.Bounce.{Coord, Console}
use exec.Bounce.Faces.{Face, read_into, advance}
use exec.Bounce.Screen.{IsConsole, char_after}
use exec.Bounce.Trail.{trail_draw, trail_rounds}

both_tests : (a b m n : ℕ) → a ≡ b → m ≢ n → ((a == m) && (b == n)) ≡ false
both_tests a b m n e differ = ground arith

module _ {S : Type 0} (console : Console S) where
  -- The places where the face is drawn.
  abbrev pub drawn_at : Coord → ℕ → Face → S → List Coord
  drawn_at size zero f screen = []
  drawn_at size (suc n) f screen =
      f.coords
      ∷ drawn_at size n (advance size ((trail_draw console f screen).0))
          ((trail_draw console f screen).1)

  -- The place shows this character, if the screen has the place.
  abbrev pub IsMarked : ℕ → S → Coord → Type 0
  IsMarked mark screen p = (c : ℕ) → console.read_character screen p ≡ some c → c ≡ mark

  -- The two variables hold the same, or are about to.
  abbrev pub AreEqual : S → Face → Type 0
  AreEqual screen f =
      (f.old_cell ≡ f.old_attrib) ⊎ ((c : ℕ) × (console.read_character screen f.old ≡ some c))

  read_equal :
      (screen : S) (f : Face)
      → AreEqual screen f
      → read_into f.old_cell (console.read_character screen f.old)
        ≡ read_into f.old_attrib (console.read_character screen f.old)
  read_equal screen f (inl e) = ap (λ m. read_into m (console.read_character screen f.old)) e
  read_equal screen f (inr (c, e)) = rw e refl

  -- The test is never met, so a drawing writes at one place only.
  trail_draw-eq :
      (screen : S) (f : Face)
      → f.my_cell ≢ f.my_attrib
      → AreEqual screen f
      → (trail_draw console f screen).1
        ≡ console.write_character
            (console.write_character screen f.my_cell f.coords)
            f.my_attrib
            f.coords
  unfolding trail_draw
  trail_draw-eq screen f differ same =
      let e = read_equal screen f same in
      let t =
        both_tests (read_into f.old_cell (console.read_character screen f.old))
          (read_into f.old_attrib (console.read_character screen f.old)) f.my_cell f.my_attrib e
          differ in
      rw t refl

  draw-AreEqual :
      (size : Coord) (screen next : S) (f : Face)
      → AreEqual screen f
      → AreEqual next (advance size ((trail_draw console f screen).0))
  unfolding trail_draw advance
  draw-AreEqual size screen next f same = inl (read_equal screen f same)

  draw-IsMarked :
      IsConsole console
      → (screen : S) (f : Face) (p : Coord) → f.my_cell ≢ f.my_attrib
      → AreEqual screen f
      → (p ≡ f.coords) ⊎ IsMarked f.my_attrib screen p
      → IsMarked f.my_attrib ((trail_draw console f screen).1) p
  draw-IsMarked lawful screen f p differ same before c e =
      let e' =
        ap (λ s. console.read_character s p) (sym (trail_draw-eq screen f differ same)) ∙ e in
      elim (char_after lawful (console.write_character screen f.my_cell f.coords) f.my_attrib c
        f.coords p e') [
          | inl (here, mark) ↦ mark
          | inr (other, e'') ↦ elim (char_after lawful screen f.my_cell c f.coords p e'') [
            | inl (here, cell) ↦ absurd (other here)
            | inr (still_other, kept) ↦ elim before [
              | inl here ↦ absurd (other here)
              | inr marked ↦ marked c kept
            ]
          ]
        ]

  fields_kept :
      (size : Coord) (screen : S) (f : Face)
      → ((advance size ((trail_draw console f screen).0)).my_cell ≡ f.my_cell)
        × ((advance size ((trail_draw console f screen).0)).my_attrib ≡ f.my_attrib)
  unfolding trail_draw advance
  fields_kept size screen f = (refl, refl)

  still_differ :
      (size : Coord) (screen : S) (f : Face)
      → f.my_cell ≢ f.my_attrib
      → (advance size ((trail_draw console f screen).0)).my_cell
        ≢ (advance size ((trail_draw console f screen).0)).my_attrib
  still_differ size screen f differ e =
      let (cell, attrib) = fields_kept size screen f in differ (sym cell ∙ e ∙ attrib)

  rounds-IsMarked :
      IsConsole console
      → (size : Coord) (n : ℕ) (f : Face) (screen : S) (p : Coord) → f.my_cell ≢ f.my_attrib
      → AreEqual screen f
      → IsMarked f.my_attrib screen p
      → IsMarked f.my_attrib ((trail_rounds console size n f screen).1) p
  unfolding trail_rounds
  rounds-IsMarked lawful size zero f screen p differ same marked = marked
  rounds-IsMarked lawful size (suc n) f screen p differ same marked =
      let f' = advance size ((trail_draw console f screen).0) in
      let screen' = (trail_draw console f screen).1 in
      subst (λ m. IsMarked m ((trail_rounds console size n f' screen').1) p)
        ((fields_kept size screen f).1)
        (rounds-IsMarked lawful size n f' screen' p (still_differ size screen f differ)
          (draw-AreEqual size screen screen' f same)
          (subst (λ m. IsMarked m screen' p) (sym ((fields_kept size screen f).1))
            (draw-IsMarked lawful screen f p differ same (inr marked))))

  -- A face whose cell is not its attribute takes none of its marks away, if the screen has the place
  -- where it was at first: after any number of rounds, with no other face, each place of the screen where
  -- it was drawn shows the character whose code is the attribute.
  pub trail_rounds-IsMarked :
      IsConsole console
      → (size : Coord) (n : ℕ) (f : Face) (screen : S) → f.my_cell ≢ f.my_attrib
      → AreEqual screen f
      → All
          (IsMarked f.my_attrib ((trail_rounds console size n f screen).1))
          (drawn_at size n f screen)
  unfolding trail_rounds
  trail_rounds-IsMarked lawful size zero f screen differ same = tt
  trail_rounds-IsMarked lawful size (suc n) f screen differ same =
      let f' = advance size ((trail_draw console f screen).0) in
      let screen' = (trail_draw console f screen).1 in
      let same' = draw-AreEqual size screen screen' f same in
      let differ' = still_differ size screen f differ in
      let mark = (fields_kept size screen f).1 in
      subst
        (λ m.
          All (IsMarked m ((trail_rounds console size n f' screen').1))
            (f.coords ∷ drawn_at size n f' screen'))
        mark
        (
          rounds-IsMarked lawful size n f' screen' f.coords differ' same' (
              subst (λ m. IsMarked m screen' f.coords) (sym mark)
                (draw-IsMarked lawful screen f f.coords differ same (inl refl))),
          trail_rounds-IsMarked lawful size n f' screen' differ' same',
        )
