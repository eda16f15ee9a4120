-- ===== src/Echo/Session.antt =====
-- `third_party_lib::session` of MyTCPSrv01.cpp.
use exec.Base.{ℕ, ◌+◌, ◌-◌, List, [], Bool, true, false, if◌then◌else◌, ltb, length, take, drop}
use exec.Chat.Message.{copy_to}

-- The anonymous enumeration of `state_`.
pub data Phase : Type 0 where
  reading : Phase
  writing : Phase

-- `data_` and `write_buffer_`, a view of `size` bytes of `data_` from `offset` on.
pub record Session : Type 0 where
  pub state : Phase
  pub data_bytes : List ℕ
  pub offset : ℕ
  pub size : ℕ

abbrev pub data_size : ℕ
data_size = 128

unfoldable pub new_session : List ℕ → Session
new_session memory = record { state = reading; data_bytes = memory; offset = 0; size = 0 }

abbrev pub is_reading : Phase → Bool
is_reading reading = true
is_reading writing = false

abbrev pub is_writing : Phase → Bool
is_writing reading = false
is_writing writing = true

unfoldable pub want_read : Session → Bool
want_read s = is_reading s.state

unfoldable pub want_write : Session → Bool
want_write s = is_writing s.state

-- `do_read`: `got` is what `read_some` put into `data_`.
unfoldable pub do_read : List ℕ → Session → Session
do_read got s =
    let s' : Session = record s { data_bytes = copy_to s.data_bytes 0 got } in
    if ltb 0 (length got) then record s' { state = writing; offset = 0; size = length got } else s'

-- `do_write`: `len` bytes were taken by `write_some`.
unfoldable pub do_write : ℕ → Session → Session
do_write len s =
    if ltb 0 len
    then (let left = s.size - len in
        record s {
          offset = s.offset + len;
          size = left;
          state = if ltb 0 left then writing else reading;
        })
    else s

-- The bytes that `write_buffer_` shows.
abbrev pub shown : Session → List ℕ
shown s = take s.size (drop s.offset s.data_bytes)

-- The bytes that wait to be sent.
unfoldable pub pending : Session → List ℕ
pending s = elim s.state [ reading ↦ [] | writing ↦ shown s ]
