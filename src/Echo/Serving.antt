-- ===== src/Echo/Serving.antt =====
-- What holds of every connection that was started.
use exec.Base.{
  ℕ, ◌-◌, ◌≤◌, ◌<◌, ◌≡◌, refl, ap, sym, subst, ◌∙◌, List, ◌++◌, append_assoc, append-nil, Bool,
  true, false, ◌&&◌, if◌then◌else◌, length, take, arith,
}
use exec.Echo.Session.{
  Phase, reading, writing, want_read, want_write, do_write, data_size, shown, pending, is_reading,
  is_writing, new_session,
}
use exec.Echo.Buffer.{
  IsInside, do_read-IsInside, do_read-pending, do_write-IsInside, do_write-pending, nothing,
}
use exec.Echo.Connection.{
  ErrorCode, success, would_block, failure, Connection, create, start_reading, start_writing,
  start_operations, start, close, proceed, handle_read, handle_write, Step, reads, writes,
}

abbrev pub count : Bool → ℕ
count b = if b then 1 else 0

-- While the socket is open exactly one wait is under way, the one that the session wants; no wait is
-- left when it is closed; and what was received is what was sent, followed by what is still pending.
pub record IsServing (c : Connection) : Type 0 where
  pub session : IsInside c.session_impl
  pub read_flag : c.read_in_progress ≡ (c.is_open && is_reading c.session_impl.state)
  pub write_flag : c.write_in_progress ≡ (c.is_open && is_writing c.session_impl.state)
  pub one_read : c.read_waits ≡ count (c.is_open && is_reading c.session_impl.state)
  pub one_write : c.write_waits ≡ count (c.is_open && is_writing c.session_impl.state)
  pub echoes : c.received ≡ c.sent ++ pending c.session_impl

-- A connection whose waits are all done, as the handlers leave it before `start_operations`.
record IsIdle (c : Connection) : Type 0 where
  session : IsInside c.session_impl
  opened : c.is_open ≡ true
  read_flag : c.read_in_progress ≡ false
  write_flag : c.write_in_progress ≡ false
  no_read : c.read_waits ≡ 0
  no_write : c.write_waits ≡ 0
  echoes : c.received ≡ c.sent ++ pending c.session_impl

same_session : (c : Connection) → (start_operations c).session_impl ≡ c.session_impl
unfolding start_operations start_reading start_writing want_read want_write
same_session c = ground arith

start_operations-IsServing : {c : Connection} → IsIdle c → IsServing (start_operations c)
unfolding start_operations start_reading start_writing want_read want_write
start_operations-IsServing {c} i = record {
  session = subst IsInside (sym (same_session c)) i.session;
  read_flag = ground (arith, i.opened, i.read_flag, i.write_flag);
  write_flag = ground (arith, i.opened, i.read_flag, i.write_flag);
  one_read = ground (arith, i.opened, i.read_flag, i.write_flag, i.no_read, i.no_write);
  one_write = ground (arith, i.opened, i.read_flag, i.write_flag, i.no_read, i.no_write);
  echoes = ground (arith, i.echoes);
}

proceed-IsServing : (ec : ErrorCode) {c : Connection} → IsIdle c → IsServing (proceed ec c)
unfolding proceed close
proceed-IsServing success i = start_operations-IsServing i
proceed-IsServing would_block i = start_operations-IsServing i
proceed-IsServing failure i = record {
  session = i.session;
  read_flag = i.read_flag;
  write_flag = i.write_flag;
  one_read = i.no_read;
  one_write = i.no_write;
  echoes = i.echoes;
}

reading_open :
    {c : Connection}
    → IsServing c
    → 0 < c.read_waits
    → (c.is_open ≡ true) × (c.session_impl.state ≡ reading)
reading_open {c} v h = by_case c.is_open c.session_impl.state v.one_read
  where
    by_case :
        (b : Bool) (p : Phase)
        → c.read_waits ≡ count (b && is_reading p)
        → (b ≡ true) × (p ≡ reading)
    by_case true reading e = (refl, refl)
    by_case true writing e = absurd (omega arith)
    by_case false p e = absurd (omega arith)

writing_open :
    {c : Connection}
    → IsServing c
    → 0 < c.write_waits
    → (c.is_open ≡ true) × (c.session_impl.state ≡ writing)
writing_open {c} v h = by_case c.is_open c.session_impl.state v.one_write
  where
    by_case :
        (b : Bool) (p : Phase)
        → c.write_waits ≡ count (b && is_writing p)
        → (b ≡ true) × (p ≡ writing)
    by_case true writing e = (refl, refl)
    by_case true reading e = absurd (omega arith)
    by_case false p e = absurd (omega arith)

pub start-IsServing :
    (memory : List ℕ) → length memory ≡ data_size → IsServing (start (create memory))
unfolding start create new_session pending
start-IsServing memory h = start_operations-IsServing (record {
  session = record { fills = h; inside = omega arith; shows = refl };
  opened = refl;
  read_flag = refl;
  write_flag = refl;
  no_read = refl;
  no_write = refl;
  echoes = refl;
})

-- The waits that remain when the handler of the one that is under way has cleared its flag.
cleared_read :
    {c : Connection}
    → IsServing c
    → 0 < c.read_waits
    → IsIdle (record c { read_in_progress = false; read_waits = c.read_waits - 1 })
cleared_read {c} v w =
    let (o, r) = reading_open v w in
    record {
      session = v.session;
      opened = o;
      read_flag = refl;
      write_flag = ground (arith, v.write_flag);
      no_read = ground (arith, v.one_read);
      no_write = ground (arith, v.one_write);
      echoes = v.echoes;
    }

cleared_write :
    {c : Connection}
    → IsServing c
    → 0 < c.write_waits
    → IsIdle (record c { write_in_progress = false; write_waits = c.write_waits - 1 })
cleared_write {c} v w =
    let (o, r) = writing_open v w in
    record {
      session = v.session;
      opened = o;
      read_flag = ground (arith, v.read_flag);
      write_flag = refl;
      no_read = ground (arith, v.one_read);
      no_write = ground (arith, v.one_write);
      echoes = v.echoes;
    }

handle_read-IsServing :
    (ec : ErrorCode) (got : List ℕ) (read_ec : ErrorCode) {c : Connection}
    → 0 < c.read_waits
    → length got ≤ data_size
    → IsServing c
    → IsServing (handle_read ec got read_ec c)
unfolding handle_read
handle_read-IsServing success got read_ec {c} w h v =
    let i = cleared_read v w in
    let r = (reading_open v w).1 in
    proceed-IsServing read_ec (record {
      session = do_read-IsInside got h r v.session;
      opened = i.opened;
      read_flag = refl;
      write_flag = i.write_flag;
      no_read = i.no_read;
      no_write = i.no_write;
      echoes =
          ap (λ k. k ++ got) (v.echoes ∙ ap (λ k. c.sent ++ k) (nothing c.session_impl r))
          ∙ ap (λ k. k ++ got) (append-nil c.sent)
          ∙ ap (λ k. c.sent ++ k) (sym (do_read-pending got c.session_impl r));
    })
handle_read-IsServing would_block got read_ec w h v =
    proceed-IsServing would_block (cleared_read v w)
handle_read-IsServing failure got read_ec w h v = proceed-IsServing failure (cleared_read v w)

handle_write-IsServing :
    (ec : ErrorCode) (len : ℕ) (write_ec : ErrorCode) {c : Connection}
    → 0 < c.write_waits
    → len ≤ c.session_impl.size
    → IsServing c
    → IsServing (handle_write ec len write_ec c)
unfolding handle_write
handle_write-IsServing success len write_ec {c} w h v =
    let i = cleared_write v w in
    proceed-IsServing write_ec (record {
      session = do_write-IsInside len h v.session;
      opened = i.opened;
      read_flag = i.read_flag;
      write_flag = refl;
      no_read = i.no_read;
      no_write = i.no_write;
      echoes =
          v.echoes
          ∙ ap (λ k. c.sent ++ k) (sym (do_write-pending len c.session_impl h (writing_open v w).1))
          ∙ sym (
              append_assoc c.sent (take len (shown c.session_impl))
                (pending (do_write len c.session_impl)));
    })
handle_write-IsServing would_block len write_ec w h v =
    proceed-IsServing would_block (cleared_write v w)
handle_write-IsServing failure len write_ec w h v = proceed-IsServing failure (cleared_write v w)

pub Step-IsServing : {c c' : Connection} → Step c c' → IsServing c → IsServing c'
Step-IsServing (reads ec got read_ec w h e) v = handle_read-IsServing ec got read_ec w h v
Step-IsServing (writes ec len write_ec w h e) v = handle_write-IsServing ec len write_ec w h v
