-- ===== src/MyList.antt =====
-- Project1/MyList.c and MyList.h: the singly linked list, with its elements on an explicit heap.
-- An address holds an element or nothing; a call of `malloc` enters as the address that it returned
-- (0 for NULL). `none` is an access through NULL or through an address that holds no element.
pub mod Chain
pub mod Insert
pub mod Remove
pub mod Destroy
pub mod Show
mod Tests
use exec.Base.{
  ℕ, zero, suc, ◌+◌, ◌-◌, Option, none, some, List, [], ◌∷◌, Bool, true, false, if◌then◌else◌,
  ◌>>=◌, ◌==◌,
}
use exec.Base.Int.{ℤ, pos, negsuc}

abbrev pub Ptr : Type 0
Ptr = ℕ

-- `ListElmt_`: `val` is `data`.
pub record ListElmt (A : Type 0) : Type 0 where
  pub val : A
  pub next : Ptr

abbrev pub element : {A : Type 0} → A → Ptr → ListElmt A
element v p = record { val = v; next = p }

abbrev pub Heap : Type 0 → Type 0
Heap A = Ptr → Option (ListElmt A)

abbrev pub write : {A : Type 0} → Heap A → Ptr → Option (ListElmt A) → Heap A
write h p c q = if p == q then c else h q

-- `List_`, and the memory that its elements live in. `destroys` says that `destroy` is not NULL;
-- `match` is never read.
pub record MyList (A : Type 0) : Type 0 where
  pub size : ℕ
  pub destroys : Bool
  pub head : Ptr
  pub tail : Ptr
  pub heap : Heap A

module _ {A : Type 0} where
  abbrev pub load : MyList A → Ptr → Option (ListElmt A)
  load l p = if p == 0 then none else l.heap p

  -- `list_init`
  pub init : Heap A → Bool → MyList A
  init h destroys = record { size = 0; destroys = destroys; head = 0; tail = 0; heap = h }

  -- `list_ins_next`: `fresh` is what `malloc` returned.
  pub ins_next : Ptr → MyList A → Ptr → A → Option (ℤ × MyList A)
  ins_next fresh l at v =
      if fresh == 0
      then some (negsuc 0, l)
      else if at == 0
      then some (
        pos 0,
        record l {
          size = l.size + 1;
          head = fresh;
          tail = if l.size == 0 then fresh else l.tail;
          heap = write l.heap fresh (some (element v l.head));
        },
      )
      else do
        e ← load l at
        some (
          pos 0,
          record l {
            size = l.size + 1;
            tail = if e.next == 0 then fresh else l.tail;
            heap =
                write (write l.heap fresh (some (element v e.next))) at
                  (some (element e.val fresh));
          },
        )

  -- `list_rem_next`: the option is what is written through `data`.
  pub rem_next : MyList A → Ptr → Option (ℤ × Option A × MyList A)
  rem_next l at =
      if l.size == 0
      then some (negsuc 0, none, l)
      else if at == 0
      then (do
        e ← load l l.head
        some (
          pos 0,
          some e.val,
          record l {
            size = l.size - 1;
            head = e.next;
            tail = if l.size == 1 then 0 else l.tail;
            heap = write l.heap l.head none;
          },
        ))
      else do
        e ← load l at
        if e.next == 0 then some (negsuc 0, none, l) else do
          n ← load l e.next
          some (
            pos 0,
            some n.val,
            record l {
              size = l.size - 1;
              tail = if n.next == 0 then at else l.tail;
              heap = write (write l.heap at (some (element e.val n.next))) e.next none;
            },
          )

  -- `list_destroy`: `size` is read anew in each round, so it bounds their number. The list holds
  -- what was handed to `destroy`.
  destroyed : Bool → ℤ → Option A → List A → List A
  destroyed true (pos zero) (some v) rest = v ∷ rest
  destroyed _ _ _ rest = rest

  destroy_loop : ℕ → MyList A → Option (List A × MyList A)
  unfolding destroyed
  destroy_loop zero l = if l.size == 0 then some ([], l) else none
  destroy_loop (suc fuel) l = if l.size == 0 then some ([], l) else do
    (status, out, l') ← rem_next l 0
    (rest, l'') ← destroy_loop fuel l'
    some (destroyed l.destroys status out rest, l'')

  pub destroy : MyList A → Option (List A × MyList A)
  unfolding destroy_loop
  destroy l = do (out, l') ← destroy_loop l.size l; some (out, record l' { head = 0; tail = 0 })
