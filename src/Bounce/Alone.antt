-- ===== src/Bounce/Alone.antt =====
-- One face of Project1/MThread01.c alone on the screen.
use exec.Base.{
  ℕ, zero, suc, ◌≡◌, ◌≢◌, ◌⊎◌, inl, inr, refl, ap, sym, subst, ◌∙◌, arith, Bool-cases, ◌==◌, ◌&&◌,
  if◌then◌else◌, some,
}
use exec.Bounce.{Coord, Console}
use exec.Bounce.Faces.{Face, read_into, draw, advance, rounds}
use exec.Bounce.Screen.{IsConsole, char_after}

module _ {S : Type 0} (console : Console S) where
  -- Each place of the screen is blank, or the one where the face was drawn last.
  abbrev IsAlone : S → Face → Type 0
  IsAlone screen f =
      (q : Coord) (c : ℕ)
      → console.read_character screen q ≡ some c
      → (c ≡ 32)
        ⊎ ((q ≡ f.old) × (c ≡ f.my_cell) × (console.read_attribute screen q ≡ some f.my_attrib))

  -- The screen shows this cell at this place, if it has the place, and blanks elsewhere.
  abbrev pub ShowsOnly : ℕ → Coord → S → Type 0
  ShowsOnly cell place screen =
      (q : Coord) (c : ℕ)
      → console.read_character screen q ≡ some c
      → ((q ≡ place) × (c ≡ cell)) ⊎ ((q ≢ place) × (c ≡ 32))

  -- The place where the face was is blank again, whichever way the test goes.
  blanked : S → Face → S
  blanked screen f =
      if (read_into f.old_cell (console.read_character screen f.old) == f.my_cell)
        && (read_into f.old_attrib (console.read_attribute screen f.old) == f.my_attrib)
      then console.write_character screen 32 f.old
      else screen

  blanked-IsBlank :
      IsConsole console
      → (screen : S) (f : Face) → IsAlone screen f
      → (q : Coord) (c : ℕ) → console.read_character (blanked screen f) q ≡ some c
      → c ≡ 32
  unfolding blanked
  blanked-IsBlank lawful screen f alone q c e =
      elim (Bool-cases (
        (read_into f.old_cell (console.read_character screen f.old) == f.my_cell)
        && (read_into f.old_attrib (console.read_attribute screen f.old) == f.my_attrib))) [
          | inl t ↦
              let e' : console.read_character (console.write_character screen 32 f.old) q ≡ some c =
                ground (arith, e, t) in
              elim (char_after lawful screen 32 c f.old q e') [
                | inl (same, d) ↦ d
                | inr (other, kept) ↦ elim (alone q c kept) [
                  | inl d ↦ d
                  | inr (at_old, cell, attrib) ↦ absurd (other at_old)
                ]
              ]
          | inr t ↦
              let e' : console.read_character screen q ≡ some c = ground (arith, e, t) in
              elim (alone q c e') [
                | inl d ↦ d
                | inr (at_old, cell, attrib) ↦
                    let r = ap (console.read_character screen) (sym at_old) ∙ e' in
                    let a = ap (console.read_attribute screen) (sym at_old) ∙ attrib in
                    ground (arith, r, a, t, cell)
              ]
        ]

  draw-ShowsOnly :
      IsConsole console
      → (screen : S) (f : Face) → IsAlone screen f
      → ShowsOnly f.my_cell f.coords ((draw console f screen).1)
  unfolding draw blanked
  draw-ShowsOnly lawful screen f alone q c e =
      let drawn : S = console.write_character (blanked screen f) f.my_cell f.coords in
      let e' = sym (lawful.char_kept drawn f.my_attrib f.coords q) ∙ e in
      elim (char_after lawful (blanked screen f) f.my_cell c f.coords q e') [
        | inl hit ↦ inl hit
        | inr (other, kept) ↦ inr (other, blanked-IsBlank lawful screen f alone q c kept)
      ]

  draw-IsAlone :
      IsConsole console
      → (size : Coord) (screen : S) (f : Face) → IsAlone screen f
      → IsAlone ((draw console f screen).1) (advance size ((draw console f screen).0))
  unfolding draw blanked advance
  draw-IsAlone lawful size screen f alone q c e =
      elim (draw-ShowsOnly lawful screen f alone q c e) [
        | inl (same, cell) ↦
            let drawn : S = console.write_character (blanked screen f) f.my_cell f.coords in
            let e' = sym (lawful.char_kept drawn f.my_attrib f.coords q) ∙ e in
            let here = ap (console.read_character drawn) (sym same) ∙ e' in
            inr (
              same,
              cell,
              ap (console.read_attribute (console.write_attribute drawn f.my_attrib f.coords)) same
                  ∙ lawful.attribute_here drawn f.my_attrib c f.coords here,
            )
        | inr (other, blank) ↦ inl blank
      ]

  rounds-IsAlone :
      IsConsole console
      → (size : Coord) (n : ℕ) (screen : S) (f : Face) → IsAlone screen f
      → IsAlone ((rounds console size n f screen).1) ((rounds console size n f screen).0)
        × ((rounds console size n f screen).0.my_cell ≡ f.my_cell)
  unfolding rounds
  rounds-IsAlone lawful size zero screen f alone = (alone, refl)
  rounds-IsAlone lawful size (suc n) screen f alone =
      let (after, cell) =
        rounds-IsAlone lawful size n ((draw console f screen).1)
          (advance size ((draw console f screen).0)) (draw-IsAlone lawful size screen f alone) in
      (after, cell ∙ same)
    where
      same : (advance size ((draw console f screen).0)).my_cell ≡ f.my_cell
      same = unfold advance draw in refl

  -- On a screen that is blank and that no other face is drawn on, after any number of rounds the next
  -- drawing leaves the face at its place and blanks everywhere else: each round takes the face of the
  -- round before away.
  pub rounds-ShowsOnly :
      IsConsole console
      → (size : Coord) (n : ℕ) (screen : S) (f : Face)
      → ((q : Coord) (c : ℕ) → console.read_character screen q ≡ some c → c ≡ 32)
      → let (f', screen') = rounds console size n f screen in
        ShowsOnly f.my_cell f'.coords ((draw console f' screen').1)
  rounds-ShowsOnly lawful size n screen f blank =
      let (alone, cell) = rounds-IsAlone lawful size n screen f (λ q c e. inl (blank q c e)) in
      subst
        (λ m. ShowsOnly m ((rounds console size n f screen).0.coords) (
          (draw console ((rounds console size n f screen).0)
            ((rounds console size n f screen).1)).1))
        cell
        (draw-ShowsOnly lawful ((rounds console size n f screen).1)
          ((rounds console size n f screen).0) alone)
