-- ===== src/Echo/Connection.antt =====
-- `connection` of MyTCPSrv01.cpp, between asio's socket and the session.
use exec.Base.{
  ℕ, ◌+◌, ◌-◌, ◌≤◌, ◌<◌, ◌≡◌, ◌≢◌, List, [], ◌++◌, Bool, true, false, not, ◌&&◌, ◌||◌,
  if◌then◌else◌, length, take,
}
use exec.Echo.Session.{
  Session, new_session, want_read, want_write, do_read, do_write, data_size, shown,
}

-- What the handlers ask of an `error_code`.
pub data ErrorCode : Type 0 where
  success : ErrorCode
  would_block : ErrorCode
  failure : ErrorCode

abbrev pub is_success : ErrorCode → Bool
is_success success = true
is_success would_block = false
is_success failure = false

abbrev pub is_would_block : ErrorCode → Bool
is_would_block success = false
is_would_block would_block = true
is_would_block failure = false

-- `read_waits` and `write_waits` count the calls of `async_wait` that have not completed; `received`
-- and `sent` hold the bytes that went over the socket.
pub record Connection : Type 0 where
  pub is_open : Bool
  pub session_impl : Session
  pub read_in_progress : Bool
  pub write_in_progress : Bool
  pub read_waits : ℕ
  pub write_waits : ℕ
  pub received : List ℕ
  pub sent : List ℕ

-- `create`; `memory` is what `data_` held.
unfoldable pub create : List ℕ → Connection
create memory = record {
  is_open = false;
  session_impl = new_session memory;
  read_in_progress = false;
  write_in_progress = false;
  read_waits = 0;
  write_waits = 0;
  received = [];
  sent = [];
}

unfoldable pub start_reading : Connection → Connection
start_reading c =
    if want_read c.session_impl && not c.read_in_progress
    then record c { read_in_progress = true; read_waits = c.read_waits + 1 }
    else c

unfoldable pub start_writing : Connection → Connection
start_writing c =
    if want_write c.session_impl && not c.write_in_progress
    then record c { write_in_progress = true; write_waits = c.write_waits + 1 }
    else c

unfoldable pub start_operations : Connection → Connection
start_operations c = start_writing (start_reading c)

-- `start`; the socket is the one that was accepted.
unfoldable pub start : Connection → Connection
start c = start_operations (record c { is_open = true })

-- `socket_.close()`
unfoldable pub close : Connection → Connection
close c = record c { is_open = false }

-- The end of `handle_read` and of `handle_write`.
unfoldable pub proceed : ErrorCode → Connection → Connection
proceed ec c = if is_success ec || is_would_block ec then start_operations c else close c

-- `handle_read`: the wait ended with `ec`; `got` and `read_ec` are what `read_some` then gives.
unfoldable pub handle_read : ErrorCode → List ℕ → ErrorCode → Connection → Connection
handle_read ec got read_ec c =
    let c' : Connection = record c { read_in_progress = false; read_waits = c.read_waits - 1 } in
    if is_success ec
    then proceed read_ec
        (record c' { session_impl = do_read got c.session_impl; received = c.received ++ got })
    else proceed ec c'

-- `handle_write`: the wait ended with `ec`; `write_some` then takes `len` bytes and gives `write_ec`.
unfoldable pub handle_write : ErrorCode → ℕ → ErrorCode → Connection → Connection
handle_write ec len write_ec c =
    let c' : Connection = record c { write_in_progress = false; write_waits = c.write_waits - 1 } in
    if is_success ec
    then proceed write_ec (record c' {
      session_impl = do_write len c.session_impl;
      sent = c.sent ++ take len (shown c.session_impl);
    })
    else proceed ec c'

-- A wait completes. As asio documents them, `read_some` fills at most the buffer, `write_some` takes
-- at most the buffer, and both move nothing when they give an error.
pub data Step (c : Connection) : Connection → Type 0 where
  reads :
      (ec : ErrorCode) (got : List ℕ) (read_ec : ErrorCode)
      → 0 < c.read_waits
      → length got ≤ data_size
      → (read_ec ≢ success → got ≡ [])
      → Step c (handle_read ec got read_ec c)
  writes :
      (ec : ErrorCode) (len : ℕ) (write_ec : ErrorCode)
      → 0 < c.write_waits
      → len ≤ c.session_impl.size
      → (write_ec ≢ success → len ≡ 0)
      → Step c (handle_write ec len write_ec c)
