-- ===== src/Echo/Buffer.antt =====
-- The write buffer of the session is a view of the bytes that were read last.
use exec.Base.{
  ℕ, zero, suc, ◌+◌, ◌-◌, ◌≤◌, ◌≡◌, refl, ap, sym, ◌∙◌, List, [], ◌∷◌, ◌++◌, false, if◌then◌else◌,
  ltb, length, take, drop, drop-drop, length-append, length-drop, arith, Bool-cases, inl, inr,
}
use exec.Chat.Message.{copy_to}
use exec.Echo.Session.{
  Session, reading, writing, do_read, do_write, data_size, shown, pending, is_writing,
}

-- The view stays inside `data_`, and there is something in it while the session writes.
pub record IsInside (s : Session) : Type 0 where
  pub fills : length s.data_bytes ≡ data_size
  pub inside : s.offset + s.size ≤ data_size
  pub shows : is_writing s.state ≡ ltb 0 s.size

length-copy :
    (got : List ℕ) (memory : List ℕ)
    → length got ≤ length memory
    → length (copy_to memory 0 got) ≡ length memory
length-copy got memory h =
    length-append got (drop (0 + length got) memory)
    ∙ omega (arith, length-drop (0 + length got) memory)

pub do_read-IsInside :
    (got : List ℕ) {s : Session}
    → length got ≤ data_size
    → s.state ≡ reading
    → IsInside s
    → IsInside (do_read got s)
unfolding do_read
do_read-IsInside got {s} h r i = elim (Bool-cases (ltb 0 (length got))) [
  | inl some_bytes ↦ rw some_bytes (record {
    fills = omega (arith, length-copy got s.data_bytes, i.fills, h);
    inside = omega arith;
    shows = sym some_bytes;
  })
  | inr no_bytes ↦ rw no_bytes (record {
    fills = omega (arith, length-copy got s.data_bytes, i.fills, h);
    inside = i.inside;
    shows = i.shows;
  })
]

take-all : (xs ys : List ℕ) → take (length xs) (xs ++ ys) ≡ xs
take-all [] ys = refl
take-all (x ∷ xs) ys = ap (λ k. x ∷ k) (take-all xs ys)

length_zero : (xs : List ℕ) → ltb 0 (length xs) ≡ false → xs ≡ []
length_zero [] h = refl
length_zero (x ∷ xs) h = ground arith

pub do_read-pending :
    (got : List ℕ) (s : Session) → s.state ≡ reading → pending (do_read got s) ≡ got
unfolding do_read pending
do_read-pending got s r = elim (Bool-cases (ltb 0 (length got))) [
  | inl some_bytes ↦ rw some_bytes (take-all got (drop (0 + length got) s.data_bytes))
  | inr no_bytes ↦ rw (no_bytes, r) (sym (length_zero got no_bytes))
]

pub do_write-IsInside :
    (len : ℕ) {s : Session} → len ≤ s.size → IsInside s → IsInside (do_write len s)
unfolding do_write
do_write-IsInside len {s} h i = elim (Bool-cases (ltb 0 len)) [
  | inl some_bytes ↦
      rw some_bytes (record {
        fills = i.fills;
        inside = omega (arith, i.inside, h);
        shows = left (s.size - len);
      })
  | inr no_bytes ↦ rw no_bytes i
]
  where
    left : (n : ℕ) → is_writing (if ltb 0 n then writing else reading) ≡ ltb 0 n
    left n = ground arith

take_nil : (k : ℕ) → take {A = ℕ} k [] ≡ []
take_nil zero = refl
take_nil (suc k) = refl

-- What is sent and what is left make up what was pending.
take-split :
    (n m : ℕ) (xs : List ℕ) → n ≤ m → take n (take m xs) ++ take (m - n) (drop n xs) ≡ take m xs
take-split zero m xs h = ap (λ k. take k xs) (omega arith)
take-split (suc n) zero xs h = absurd (omega arith)
take-split (suc n) (suc m) [] h = take_nil (suc m - suc n)
take-split (suc n) (suc m) (x ∷ xs) h =
    ap (λ k. x ∷ (take n (take m xs) ++ take k (drop n xs))) (omega arith)
    ∙ ap (λ k. x ∷ k) (take-split n m xs (omega arith))

left_pending :
    (n : ℕ) (s : Session)
    → s.size ≡ n
    → s.state ≡ (if ltb 0 n then writing else reading)
    → pending s ≡ take n (drop s.offset s.data_bytes)
unfolding pending
left_pending zero s e w = ground arith
left_pending (suc n) s e w = ground arith

pub do_write-pending :
    (len : ℕ) (s : Session)
    → len ≤ s.size
    → s.state ≡ writing
    → take len (shown s) ++ pending (do_write len s) ≡ pending s
unfolding do_write pending
do_write-pending len s h w = elim (Bool-cases (ltb 0 len)) [
  | inl some_bytes ↦
      rw (some_bytes, w)
        (ap (λ k. take len (shown s) ++ k)
            (left_pending (s.size - len)
                (record s {
                  offset = s.offset + len;
                  size = s.size - len;
                  state = if ltb 0 (s.size - len) then writing else reading;
                })
                refl refl
              ∙ ap (take (s.size - len))
                  (sym (drop-drop len s.offset s.data_bytes (s.offset + len) refl)))
          ∙ take-split len s.size (drop s.offset s.data_bytes) h)
  | inr no_bytes ↦ rw no_bytes (ap (λ k. take k (shown s) ++ pending s) (none_taken no_bytes))
]
  where
    none_taken : ltb 0 len ≡ false → len ≡ 0
    none_taken e = ground arith

pub nothing : (s : Session) → s.state ≡ reading → pending s ≡ []
unfolding pending
nothing s r = rw r refl
