-- ===== src/Logger/Tests.antt =====
-- Runs of `MLogMsg` and `MLog`.
use exec.Base.{◌≡◌, refl, List, [], ◌∷◌, none, some, true, false, ◌>>=◌, reverse_aux}
use exec.Logger.{
  Block, Pointer, new_msg, copy_msg, copy_text, text_at, clear_msg, release, move_assign_msg,
}
use exec.Logger.Log.{MLog, new_log}
use exec.Logger.Prefixes.{Line, write_lines, accumulated, all_fit, IsWritten, write_lines-IsWritten}

-- Two lines of one character each.
abbrev two_lines : List Line
two_lines =
    record { text = 97 ∷ []; now = 5; address = 100 }
    ∷ record { text = 98 ∷ []; now = 6; address = 40 }
    ∷ []

abbrev quiet : MLog
quiet = new_log 2 false false []

-- The state after `std::endl`.
abbrev queued : MLog
queued = record {
  os = 10 ∷ [];
  log_level = 2;
  is_run = true;
  is_pause = false;
  has_writer = false;
  queue = (100, record { tm = Pointer.to 0; msg = Pointer.to 1 }) ∷ [];
  memory = some (Block.time 5) ∷ some (Block.chars 8 (10 ∷ [])) ∷ [];
}

write_lines-IsWritten_example :
    IsWritten
      (reverse_aux (accumulated (quiet.os) two_lines) [])
      (all_fit 8 (accumulated (quiet.os) two_lines))
      (write_lines 8 two_lines quiet)
unfolding new_log
write_lines-IsWritten_example = write_lines-IsWritten 8 two_lines quiet [] refl

-- A moved message shares its blocks with the one it was moved from: the second destructor deletes what the
-- first one has deleted.
moved_faults :
    (new_msg 8 5 (97 ∷ []) [] >>= (λ r.
      move_assign_msg (record { tm = Pointer.null; msg = Pointer.null }) (r.0) (r.1)
      >>= (λ s. clear_msg (s.0) (s.1) >>= (λ t. clear_msg (r.0) (t.1)))))
    ≡ none
unfolding new_msg move_assign_msg copy_text clear_msg release
moved_faults = refl

-- A copied message has a member that nothing has set, which its destructor deletes.
copied_faults :
    (new_msg 8 5 (97 ∷ []) [] >>= (λ r. copy_msg 8 (r.0) (r.1))) >>= (λ r. clear_msg (r.0) (r.1))
    ≡ none
unfolding new_msg copy_msg copy_text text_at clear_msg release
copied_faults = refl
