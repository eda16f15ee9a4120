-- ===== src/Echo/Server.antt =====
-- `server` of MyTCPSrv01.cpp: it accepts connections for ever.
use exec.Base.{
  ℕ, ◌≡◌, refl, sym, subst, List, [], ◌∷◌, ◌++◌, Bool, true, false, if◌then◌else◌, length, All,
}
use exec.Echo.Session.{data_size}
use exec.Echo.Connection.{Connection, create, start}
use exec.Echo.Connection
use exec.Echo.Serving.{IsServing, start-IsServing, Step-IsServing}

-- `new_connection` is the one that the acceptor waits for; `connections` are those in memory.
pub record Server : Type 0 where
  pub new_connection : Connection
  pub connections : List Connection

-- `start_accept`; `memory` is what the new connection's memory held.
unfoldable pub start_accept : List ℕ → List Connection → Server
start_accept memory connections = record {
  new_connection = create memory;
  connections = connections;
}

-- `handle_accept`
unfoldable pub handle_accept : Bool → List ℕ → Server → Server
handle_accept failed memory w =
    start_accept memory (if failed then w.connections else start w.new_connection ∷ w.connections)

-- The acceptor completes, or a wait of one of the connections does.
pub data Step (w : Server) : Server → Type 0 where
  accepts :
      (failed : Bool) (memory : List ℕ)
      → length memory ≡ data_size
      → Step w (handle_accept failed memory w)
  serves :
      (before after : List Connection) {c c' : Connection}
      → w.connections ≡ before ++ (c ∷ after)
      → Connection.Step c c'
      → Step w (record w { connections = before ++ (c' ∷ after) })

pub data Reachable : Server → Type 0 where
  begins : (memory : List ℕ) → length memory ≡ data_size → Reachable (start_accept memory [])
  steps : {w w' : Server} → Reachable w → Step w w' → Reachable w'

-- What the acceptor waits for has not been started yet.
record IsFresh (c : Connection) : Type 0 where
  memory : List ℕ
  fills : length memory ≡ data_size
  created : c ≡ create memory

record IsSound (w : Server) : Type 0 where
  fresh : IsFresh w.new_connection
  serving : All IsServing w.connections

All-replace :
    (before after : List Connection) {c c' : Connection}
    → (IsServing c → IsServing c')
    → All IsServing (before ++ (c ∷ after))
    → All IsServing (before ++ (c' ∷ after))
All-replace [] after f (v, vs) = (f v, vs)
All-replace (b ∷ before) after f (v, vs) = (v, All-replace before after f vs)

fresh_start : {c : Connection} → IsFresh c → IsServing (start c)
fresh_start f = subst (λ c. IsServing (start c)) (sym f.created) (start-IsServing f.memory f.fills)

Reachable-IsSound : {w : Server} → Reachable w → IsSound w
unfolding start_accept handle_accept
Reachable-IsSound (begins memory h) = record {
  fresh = record { memory = memory; fills = h; created = refl };
  serving = tt;
}
Reachable-IsSound (steps r (accepts true memory h)) = record {
  fresh = record { memory = memory; fills = h; created = refl };
  serving = (Reachable-IsSound r).serving;
}
Reachable-IsSound (steps r (accepts false memory h)) =
    let s = Reachable-IsSound r in
    record {
      fresh = record { memory = memory; fills = h; created = refl };
      serving = (fresh_start s.fresh, s.serving);
    }
Reachable-IsSound (steps r (serves before after e st)) =
    let s = Reachable-IsSound r in
    record {
      fresh = s.fresh;
      serving = All-replace before after (Step-IsServing st) (subst (All IsServing) e s.serving);
    }

-- In every state that the server can reach, whatever it accepts and whatever the waits, reads and
-- writes of its connections give: each open connection has exactly one wait under way, the one that
-- its session wants, and a closed one has none; the write buffer lies inside the 128 bytes; and what
-- was received is what was sent followed by what is pending.
pub Reachable-serves : {w : Server} → Reachable w → All IsServing w.connections
Reachable-serves r = (Reachable-IsSound r).serving
