-- ===== src/Tests/EndRuns.antt =====
-- Runs of the client's listeners and goroutines and of pipe.
use cando.Base.{ℕ, ◌≡◌, refl, Bool, true, false, not, ◌||◌, List, [], ◌∷◌, ◌++◌, arith}
use cando.Base.Bytes.{text, bytes_eq}
use cando.Base.Text.{is_empty, to_lower, lower_byte, trim_space, trim_left, trim_right, is_space}
use cando.Base.Int.{pos}
use cando.Config.{Forward, ReconnectConfig, is_udp, norm_proto}
use cando.Tunnel.Listening.{
  Socket, is_among, same_socket, same_kind, new_client, socket_of, track, serve_forward, serve_rest,
  serve_forwards, close_forwards,
}
use cando.Tunnel.Listening.Released.{Exclusive, AreFixed, close-released}
use cando.Tunnel.Listening.Rerun.{rerun_fails}
use cando.Tunnel.Reconnect.{failed, established, lost, woke}
use cando.Tunnel.Reconnect.{Event as Change}
use cando.Tunnel.Reconnect.Pool.{start_pool, run_pool}
use cando.Tunnel.Reconnect.Pool.Counted.{IsCounted, run_pool-IsCounted}
use cando.Tunnel.Pipe.{
  new_joint, new_way, Event, copies_to_a, copies_to_b, stops_to_a, closes, returns, either_stopped,
  pipe, run, joint_step, copy_one_way, stop_copy, close_both,
}
use cando.Tunnel.Pipe.Ended.{IsTornDown, pipe-IsTornDown, pipe-returns}

-- One program holds this port already, and no other is refused but those in use.
abbrev busy : Socket
busy = (false, text ":80")

-- For the port 0 of either kind a free one is found.
abbrev can_listen : List Socket → Socket → Bool
can_listen opened a =
    same_socket (true, text ":0") a
    || same_socket (false, text ":0") a
    || not (is_among a opened || same_socket busy a)

-- Of the addresses here, those that name a port.
abbrev fixed : Socket → Bool
fixed a = not (same_socket (true, text ":0") a || same_socket (false, text ":0") a)

can_listen-Exclusive : Exclusive fixed can_listen
can_listen-Exclusive opened a n h = ground arith

abbrev dns : Forward
dns = record {
  name = text "dns";
  protocol = text "udp";
  local_addr = text ":53";
  target_addr = text "1.1.1.1:53";
}

abbrev web : Forward
web = record {
  name = text "web";
  protocol = text "tcp";
  local_addr = text ":80";
  target_addr = text "10.0.0.1:80";
}

both-AreFixed : AreFixed fixed (dns ∷ web ∷ [])
unfolding socket_of is_udp norm_proto same_socket same_kind bytes_eq is_empty to_lower lower_byte
    trim_space trim_left trim_right is_space
both-AreFixed = (refl, (refl, tt))

close-released_example :
    (close_forwards (serve_forwards can_listen (dns ∷ web ∷ []) (new_client [])).0).opened ≡ []
close-released_example =
    close-released fixed can_listen can_listen-Exclusive [] (dns ∷ web ∷ []) both-AreFixed

-- The second forward cannot listen, so that Run fails.
fails_second : (serve_forwards can_listen (dns ∷ web ∷ []) (new_client [])).1 ≡ false
unfolding serve_forwards serve_forward serve_rest socket_of track new_client is_udp norm_proto
    is_among same_socket same_kind bytes_eq is_empty to_lower lower_byte trim_space trim_left
    trim_right is_space
fails_second = refl

dns_listens : can_listen [] (socket_of dns) ≡ true
unfolding socket_of is_udp norm_proto is_among same_socket same_kind bytes_eq is_empty to_lower
    lower_byte trim_space trim_left trim_right is_space
dns_listens = refl

rerun_fails_example :
    let left = (serve_forwards can_listen (dns ∷ web ∷ []) (new_client [])).0.opened in
    serve_forwards can_listen (dns ∷ web ∷ []) (new_client left) ≡ (new_client left, false)
rerun_fails_example =
    rerun_fails can_listen fixed [] dns (web ∷ []) can_listen-Exclusive both-AreFixed.0 dns_listens

-- A request goes to `b`, half of the answer comes back, and the copy to `a` stops.
abbrev exchange : List Event
exchange = copies_to_b 3 ∷ copies_to_a 2 ∷ stops_to_a ∷ closes ∷ copies_to_a 2 ∷ []

pipe-IsTornDown_example :
    IsTornDown either_stopped
      (text "pong")
      (text "ping")
      (pipe (new_joint (text "pong") (text "ping")) exchange)
pipe-IsTornDown_example = pipe-IsTornDown (text "pong") (text "ping") exchange

half_answered : (pipe (new_joint (text "pong") (text "ping")) exchange).to_a.delivered ≡ text "po"
unfolding pipe run joint_step copy_one_way stop_copy close_both either_stopped new_joint new_way
half_answered = refl

has_stopped :
    let j = pipe (new_joint (text "pong") (text "ping")) exchange in
    either_stopped j.to_a.stopped j.to_b.stopped ≡ true
unfolding pipe run joint_step copy_one_way stop_copy close_both either_stopped new_joint new_way
has_stopped = refl

-- The other copy has its turn on closed connections.
abbrev turns : List Event
turns = copies_to_b 1 ∷ copies_to_a 5 ∷ []

pipe-returns_example :
    (pipe
      (new_joint (text "pong") (text "ping"))
      (exchange ++ (closes ∷ (turns ++ (returns ∷ []))))).returned
    ≡ true
pipe-returns_example =
    pipe-returns (text "pong") (text "ping") exchange turns [] has_stopped refl refl

abbrev pace : ReconnectConfig
pace = record { min_millis = pos 500; max_millis = pos 30000 }

-- Of two goroutines, the first loses its session while that of the second is up.
abbrev two_at_once : List (ℕ × Change ℕ)
two_at_once = (0, established 70) ∷ (1, established 80) ∷ (0, lost 5) ∷ (0, woke) ∷ (0, failed) ∷ []

run_pool-IsCounted_example : IsCounted (run_pool pace (start_pool pace 2) two_at_once)
run_pool-IsCounted_example =
    run_pool-IsCounted pace 2 two_at_once (omega arith) (tt, (tt, (tt, (tt, (tt, tt)))))
