-- ===== src/Tunnel/Flows.antt =====
-- internal/tunnel/udp.go: udpFlows and serveUDPListener. A stream is the number under which it was
-- opened, which stands for the identity of its pointer; a source address is its text. The table is
-- shared with the goroutines that read replies, which enter by `ends`.
pub mod Accounting
use cando.Base.{
  Holds, ℕ, Bool, true, false, Option, some, none, List, [], ◌∷◌, ◌==◌, if◌then◌else◌, ◌≡◌,
}
use cando.Base.Bytes.{Bytes}
use cando.Base.Dict.{Dict, lookup, insert, remove, bytes_instance}

-- The table, the streams opened so far with their sources, and those closed so far.
pub record Flows : Type 0 where
  pub table : Dict Bytes ℕ
  pub opened : List (Bytes × ℕ)
  pub closed : List ℕ

-- newUDPFlows
unfoldable pub new_flows : Flows
new_flows = record { table = []; opened = []; closed = [] }

unfoldable pub get : Flows → Bytes → Option ℕ
get f key = lookup key f.table

unfoldable pub put : Flows → Bytes → ℕ → Flows
put f key s = record f { table = insert key s f.table }

-- `cur, ok := f.m[key]; ok && cur == stream`
unfoldable pub is_current : Option ℕ → ℕ → Bool
is_current none s = false
is_current (some cur) s = cur == s

unfoldable pub del : Flows → Bytes → ℕ → Flows
unfolding is_current
del f key s = record f {
  table = if is_current (lookup key f.table) s then remove key f.table else f.table;
  closed = s ∷ f.closed;
}

unfoldable pub streams : Dict Bytes ℕ → List ℕ → List ℕ
streams [] closed = closed
streams ((k, s) ∷ m) closed = s ∷ streams m closed

-- closeAll
unfoldable pub close_all : Flows → Flows
unfolding streams
close_all f = record f { table = []; closed = streams f.table f.closed }

-- The write of a datagram to a flow's stream; the flow is dropped if it fails.
unfoldable pub forward : Flows → Bytes → ℕ → Bool → Flows
unfolding del
forward f key s sent = if sent then f else del f key s

-- A new flow: `open()` gave the stream `s`.
unfoldable pub start_flow : Flows → Bytes → ℕ → Flows
unfolding put
start_flow f key s = put (record f { opened = (key, s) ∷ f.opened }) key s

unfoldable pub arrive_new : Flows → Bytes → Option ℕ → Bool → Flows
unfolding forward start_flow
arrive_new f key none sent = f
arrive_new f key (some s) sent = forward (start_flow f key s) key s sent

-- One round of serveUDPListener: a datagram from `key`, what `open()` gives if it is called, and
-- whether the write succeeds.
unfoldable pub arrive : Flows → Bytes → Option ℕ → Bool → Flows
unfolding forward arrive_new
arrive f key opens sent = elim (get f key) [
  | some s ↦ forward f key s sent
  | none ↦ arrive_new f key opens sent
]

-- The stream was opened for this source.
abbrev pub Opened : Flows → Bytes → ℕ → Type 0
Opened f key s = Holds f.opened (key, s)

abbrev pub Closed : Flows → ℕ → Type 0
Closed f s = Holds f.closed s

-- The ways the table changes while the listener runs: a datagram arrives, where a stream that is
-- opened is new; the goroutine that reads the replies of a flow ends.
pub data Step (f : Flows) : Flows → Type 0 where
  dropped : (key : Bytes) (sent : Bool) → Step f (arrive f key none sent)
  arrives :
      (key : Bytes) (s : ℕ) (sent : Bool)
      → ((k : Bytes) → ¬ Opened f k s)
      → ¬ Closed f s
      → Step f (arrive f key (some s) sent)
  ends : (key : Bytes) (s : ℕ) → Opened f key s → Step f (del f key s)

pub data Reach (f : Flows) : Flows → Type 0 where
  here : Reach f f
  next : {g h : Flows} → Reach f g → Step g h → Reach f h
