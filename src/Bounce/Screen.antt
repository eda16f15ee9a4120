-- ===== src/Bounce/Screen.antt =====
-- What the faces rely on of the console: what is read after a write.
use exec.Base.{ℕ, ◌≡◌, ◌≢◌, ◌⊎◌, inl, inr, ap, ap₂, none, some, Option-cases, sym, ◌∙◌, arith}
use exec.Base.{some-eq}
use exec.Base.Int.{ℤ_discrete}
use exec.Bounce.{Coord, coord, Console}

pub record IsConsole {S : Type 0} (console : Console S) : Type 0 where
  pub char_here :
      (s : S) (c d : ℕ) (p : Coord)
      → console.read_character s p ≡ some d
      → console.read_character (console.write_character s c p) p ≡ some c
  pub char_nowhere :
      (s : S) (c : ℕ) (p : Coord)
      → console.read_character s p ≡ none
      → console.read_character (console.write_character s c p) p ≡ none
  pub char_elsewhere :
      (s : S) (c : ℕ) (p q : Coord)
      → q ≢ p
      → console.read_character (console.write_character s c p) q ≡ console.read_character s q
  pub char_kept :
      (s : S) (a : ℕ) (p q : Coord)
      → console.read_character (console.write_attribute s a p) q ≡ console.read_character s q
  pub attribute_here :
      (s : S) (a c : ℕ) (p : Coord)
      → console.read_character s p ≡ some c
      → console.read_attribute (console.write_attribute s a p) p ≡ some a

pub Coord-cases : (p q : Coord) → (p ≡ q) ⊎ (p ≢ q)
Coord-cases p q = elim (ℤ_discrete p.x q.x) [
  | yes ex ↦ elim (ℤ_discrete p.y q.y) [
    | yes ey ↦ inl (ap₂ coord ex ey)
    | no ny ↦ inr (λ e. ny (ap (λ (r : Coord). r.y) e))
  ]
  | no nx ↦ inr (λ e. nx (ap (λ (r : Coord). r.x) e))
]

none≢some : {A : Type 0} {a : A} → none ≡ some a → ⊥
none≢some e = ground arith

module _ {S : Type 0} {console : Console S} (lawful : IsConsole console) where
  -- A character that is read after a write is the one written, or stood there before.
  pub char_after :
      (s : S) (c d : ℕ) (p q : Coord)
      → console.read_character (console.write_character s c p) q ≡ some d
      → ((q ≡ p) × (d ≡ c)) ⊎ ((q ≢ p) × (console.read_character s q ≡ some d))
  char_after s c d p q e = elim (Coord-cases q p) [
    | inl same ↦ elim (Option-cases (console.read_character s p)) [
      | inl nothing ↦
          let still = lawful.char_nowhere s c p nothing in
          absurd (
            none≢some (
              sym still
              ∙ ap (console.read_character (console.write_character s c p)) (sym same)
              ∙ e))
      | inr (before, something) ↦
          let now = lawful.char_here s c before p something in
          inl (
            same,
            some-eq
                (sym e ∙ ap (console.read_character (console.write_character s c p)) same ∙ now),
          )
    ]
    | inr other ↦ inr (other, sym (lawful.char_elsewhere s c p q other) ∙ e)
  ]
