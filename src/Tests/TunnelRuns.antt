-- ===== src/Tests/TunnelRuns.antt =====
-- Runs of the tunnel's parts on small inputs.
use cando.Base.{
  ltb, if◌then◌else◌, ℕ, ◌≡◌, refl, inl, ◌⊎◌, Bool, true, Option, none, some, List, [], ◌∷◌, ◌++◌,
  ok, arith, ◌*◌, ◌+◌, ◌≤◌, ◌↔◌,
}
use cando.Base.Bytes.{Bytes, text, bytes_eq, eof}
use cando.Base.Int.{pos, times64}
use cando.Base.Dict.{bytes_instance}
use cando.Config.{ReconnectConfig, ClientTarget}
use cando.Protocol.{kind_reverse, kind_forward}
use cando.Protocol.Header.{read_stream_header, write_stream_header}
use cando.Tests.ConfigRuns.{listening}
use cando.Tunnel.Streams.{
  Network, tcp, dial, dialled, joined, service_map, handle_reverse_stream, handle_forward_stream,
}
use cando.Tunnel.Streams.Policy.{IsPermitted, Asks, handle_forward_stream_iff}
use cando.Tunnel.Streams.Meeting.{
  last_target, reach, handle_reverse_stream-dispatch, handle_forward_stream-dispatch,
}
use cando.Tunnel.Dispatch.{
  piped, dispatch_reverse, dispatch_forward, wait_session, found, shut_down,
}
use cando.Tunnel.Dispatch.Waiting.{EndsWell, wait_session-EndsWell}
use cando.Tunnel.Datagram.{to_socket, from_socket, cut, read_failed}
use cando.Tunnel.Datagram.Relay.{to_socket-from_socket}
use cando.Tunnel.Slots
use cando.Tunnel.Slots.{new_hub, accept_conn, turn_away, accepts, turns_away}
use cando.Tunnel.Slots.Balance.{IsBalanced, Reach-IsBalanced}
use cando.Tunnel.Flows.{new_flows, arrive, Opened, Closed, Reach, here, next, arrives, close_all}
use cando.Tunnel.Flows.Accounting.{close_all-Reach}
use cando.Tunnel.Reconnect.{
  Event, grow, min_backoff, max_backoff, min_stable, tenth, handle, failed, established, lost, woke,
  start, run,
}
use cando.Tunnel.Reconnect.Pace.{IsPaced, start-dials, dials, passed}
use cando.Tunnel.Addresses.{split_host_port, parse_ip}
use cando.Tunnel.Targets.{blocked_forward_target, IsRefused, blocked_forward_target_iff}

abbrev pace : ReconnectConfig
pace = record { min_millis = pos 500; max_millis = pos 30000 }

pace-IsPaced : IsPaced pace 500 30000
pace-IsPaced = record {
  least = refl;
  most = refl;
  positive = omega arith;
  ordered = omega arith;
  bounded = omega arith;
}

abbrev flapping : List (Event ℕ)
flapping = failed ∷ woke ∷ established 7 ∷ lost 900 ∷ woke ∷ failed ∷ []

start-dials_example :
    dials pace (start pace) flapping * 500_000_000 ≤ passed pace (start pace) flapping + 500_000_000
start-dials_example = start-dials pace 500 30000 pace-IsPaced flapping

run_twice :
    (run pace (start pace) (failed ∷ woke ∷ established 7 ∷ lost 9_000_000_000 ∷ flapping)).backoff
    ≡ pos 2_000_000_000
unfolding run start min_backoff times64 handle grow max_backoff min_stable tenth
run_twice = refl

abbrev source : Bytes
source = text "10.0.0.9:5353"

first_arrival : Reach new_flows (arrive new_flows source (some 1) true)
unfolding new_flows
first_arrival = next here (arrives source 1 true (λ k o. o) (λ c. c))

close_all-Reach_example :
    ((close_all (arrive new_flows source (some 1) true)).table ≡ [])
    × ((k : Bytes) (s : ℕ)
        → Opened (arrive new_flows source (some 1) true) k s
        → Closed (close_all (arrive new_flows source (some 1) true)) s)
close_all-Reach_example = close_all-Reach first_arrival

abbrev metadata : Bytes
metadata = text "169.254.169.254:80"

abbrev zoned : Bytes
zoned = text "[fe80::1%eth0]:80"

blocked_forward_target_iff_example : (blocked_forward_target metadata ≡ true) ↔ (
    (split_host_port metadata ≡ none)
    ⊎ ((host : Bytes) × (port : Bytes) × (ip : Bytes) × (split_host_port metadata
          ≡ some (host, port))
        × (parse_ip host ≡ some ip)
        × IsRefused ip))
blocked_forward_target_iff_example = blocked_forward_target_iff metadata

blocked_metadata : blocked_forward_target metadata ≡ true
unfolding blocked_forward_target split_host_port parse_ip bytes_eq
blocked_metadata = refl

zoned_parts : split_host_port zoned ≡ some (text "fe80::1%eth0", text "80")
unfolding split_host_port bytes_eq
zoned_parts = refl

-- The database behind the server, over a header that asks for it and four bytes more.
abbrev database : Bytes
database = text "10.0.0.5:5432"

abbrev all_up : Network → Bytes → Bool
all_up net addr = true

abbrev asked : Bytes
asked = kind_forward ∷ 0 ∷ 13 ∷ database ++ text "ping"

database-IsPermitted : IsPermitted (listening []) database
unfolding blocked_forward_target split_host_port parse_ip bytes_eq
database-IsPermitted = record { allowed = refl; listed = inl (refl, refl) }

handle_forward_stream_iff_example :
    (dialled (handle_forward_stream all_up (listening []) asked) ≡ some (tcp, database)) ↔ (
      (kind : ℕ) × (rest : Bytes) × (read_stream_header asked ≡ ok ((kind, database), rest))
      × Asks kind tcp
      × IsPermitted (listening []) database)
handle_forward_stream_iff_example =
    handle_forward_stream_iff all_up (listening []) asked tcp database

forwarded : handle_forward_stream all_up (listening []) asked ≡ joined tcp database (text "ping")
unfolding handle_forward_stream blocked_forward_target split_host_port parse_ip bytes_eq
    read_stream_header
forwarded = refl

-- The set is asked with a session that is there from the third poll on.
abbrev third : ℕ → Option ℕ
third now = if ltb now 200_000_000 then none else some 8

abbrev on_time : ℕ → ℕ
on_time now = 0

-- `done` is closed in the second wait.
wait_session-EndsWell_example :
    EndsWell third
      (some 150_000_000)
      0
      5_000_000_000
      0
      (wait_session third (some 150_000_000) on_time 52 5_000_000_000 0)
wait_session-EndsWell_example =
    wait_session-EndsWell third (some 150_000_000) on_time 0 51 5_000_000_000 0 (λ t. omega arith)
      (omega arith)

waited :
    (wait_session third none on_time 52 5_000_000_000 0 ≡ found 200_000_000 8)
    × (wait_session third (some 150_000_000) on_time 52 5_000_000_000 0 ≡ shut_down 150_000_000)
unfolding wait_session
waited = (refl, refl)

-- One service on the client.
abbrev shop : List ClientTarget
shop = record { name = text "web"; local_addr = text "127.0.0.1:80" } ∷ []

abbrev takes_all {ℓ} : {A : Type ℓ} → A → Bool
takes_all a = true

abbrev web_header : Bytes
web_header = kind_reverse ∷ 0 ∷ 3 ∷ text "web"

web_header_sent :
    dispatch_reverse {Session = ℕ} takes_all takes_all (text "web") (some 8) ≡ piped web_header
unfolding dispatch_reverse write_stream_header
web_header_sent = refl

handle_reverse_stream-dispatch_example :
    handle_reverse_stream all_up (service_map [] shop) (web_header ++ text "GET")
    ≡ reach all_up tcp (text "GET") (last_target none (text "web") shop)
handle_reverse_stream-dispatch_example =
    handle_reverse_stream-dispatch takes_all takes_all all_up (some 8) web_header (text "GET") tcp
      shop (text "web") web_header_sent

abbrev database_header : Bytes
database_header = kind_forward ∷ 0 ∷ 13 ∷ database

database_header_sent :
    dispatch_forward {Session = ℕ} takes_all takes_all database (some 8) ≡ piped database_header
unfolding dispatch_forward write_stream_header
database_header_sent = refl

handle_forward_stream-dispatch_example :
    handle_forward_stream all_up (listening []) (database_header ++ text "ping")
    ≡ dial all_up tcp database (text "ping")
handle_forward_stream-dispatch_example =
    handle_forward_stream-dispatch takes_all takes_all all_up (some 8) database_header (text "ping")
      tcp (listening []) database database-IsPermitted database_header_sent

-- Three datagrams, one of them empty.
abbrev queries : List Bytes
queries = text "a?" ∷ [] ∷ text "b?" ∷ []

to_socket-from_socket_example :
    to_socket 4 3 (from_socket queries).0 ≡ (queries, read_failed (cut eof))
to_socket-from_socket_example =
    to_socket-from_socket queries 4 3 (omega arith, (omega arith, (omega arith, tt))) (omega arith)
      (omega arith)

-- A connection is accepted, another one too, and the first is turned away.
two_accepted : Slots.Reach (new_hub {Session = ℕ}) (accept_conn (accept_conn new_hub 1) 2)
two_accepted = Slots.next (Slots.next Slots.here (accepts 1)) (accepts 2)

Reach-IsBalanced_example :
    IsBalanced (turn_away (accept_conn (accept_conn (new_hub {Session = ℕ}) 1) 2) 1)
Reach-IsBalanced_example = Reach-IsBalanced (Slots.next two_accepted (turns_away 1))
