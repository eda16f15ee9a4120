-- ===== src/Echo/Tests.antt =====
-- The echo server accepts a connection, reads three bytes, and sends two of them.
use exec.Base.{ℕ, refl, List, [], ◌∷◌, false, replicate, arith, All}
use exec.Echo.Session.{want_read, want_write, new_session, do_read}
use exec.Echo.Connection.{
  Connection, create, start, success, handle_read, handle_write, reads, writes, start_operations,
  start_reading, start_writing, proceed,
}
use exec.Echo.Serving.{IsServing}
use exec.Echo.Server.{
  Server, Reachable, begins, steps, accepts, serves, Reachable-serves, start_accept, handle_accept,
}

abbrev blank : List ℕ
blank = replicate 128 0

abbrev hello : List ℕ
hello = b'h' ∷ b'e' ∷ b'y' ∷ []

abbrev has_read : Connection
has_read = handle_read success hello success (start (create blank))

abbrev has_written : Connection
has_written = handle_write success 2 success has_read

abbrev after_write : Server
after_write = record { new_connection = create blank; connections = has_written ∷ [] }

after_write-Reachable : Reachable after_write
unfolding start_accept handle_accept start create start_operations start_reading start_writing
    want_read want_write new_session handle_read do_read proceed
after_write-Reachable =
    steps
      (steps (steps (begins blank refl) (accepts false blank refl)) (
        serves [] [] refl
          (reads success hello success (omega arith) (omega arith) (λ h. absurd (h refl)))))
      (serves [] [] refl
        (writes success 2 success (omega arith) (omega arith) (λ h. absurd (h refl))))

Reachable-serves_example : All IsServing after_write.connections
Reachable-serves_example = Reachable-serves after_write-Reachable
