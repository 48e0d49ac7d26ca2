-- ===== src/Mux.antt =====
-- internal/mux/mux.go: the smux configuration and the set of live sessions. smux is a parameter:
-- its default configuration, and what a session reports about itself when it is asked.
pub mod Tuning
pub mod Placement
pub mod Identity
use cando.Base.{
  ℕ, ◌+◌, ◌*◌, ◌%◌, ◌^◌, ◌-◌, Bool, Option, some, none, List, [], ◌∷◌, if◌then◌else◌, length, ltb,
  false,
}
use cando.Base.Dict.{Dict, insert, remove, nat_eq}
use cando.Base.Int.{ℤ, pos, leb_ℤ, ltb_ℤ, times64}
use cando.Config.{MuxConfig}

abbrev pub default_keep_alive_seconds : ℤ
default_keep_alive_seconds = pos 10

abbrev pub default_stream_buffer : ℤ
default_stream_buffer = pos (8 * 1024 * 1024)

abbrev pub default_receive_buffer : ℤ
default_receive_buffer = pos (32 * 1024 * 1024)

-- smux.Config: the fields that are set here, and the rest. Intervals are int64 nanoseconds.
pub record SmuxConfig (Rest : Type 0) : Type 0 where
  pub version : ℕ
  pub keep_alive_interval : ℤ
  pub keep_alive_timeout : ℤ
  pub max_receive_buffer : ℤ
  pub max_stream_buffer : ℤ
  pub rest : Rest

-- `if field > 0 { field } else { def }`
unfoldable pub positive_or : ℤ → ℤ → ℤ
positive_or field def = if ltb_ℤ (pos 0) field then field else def

-- The keepalive seconds that count.
unfoldable pub keep_alive_of : MuxConfig → ℤ
keep_alive_of m =
    if leb_ℤ m.keep_alive_seconds (pos 0) then default_keep_alive_seconds else m.keep_alive_seconds

-- Config, from smux.DefaultConfig().
unfoldable pub smux_config : {Rest : Type 0} → SmuxConfig Rest → MuxConfig → SmuxConfig Rest
smux_config c m =
    let interval = times64 1_000_000_000 (keep_alive_of m) in
    let receive = positive_or m.max_receive_buffer default_receive_buffer in
    let stream = positive_or m.max_stream_buffer default_stream_buffer in
    record c {
      version = 2;
      keep_alive_interval = interval;
      keep_alive_timeout = times64 3 interval;
      max_receive_buffer = receive;
      max_stream_buffer = if ltb_ℤ receive stream then receive else stream;
    }

pub record SessionSet (Session : Type 0) : Type 0 where
  pub sessions : Dict ℕ Session
  pub next_id : ℕ

module _ {Session : Type 0} where
  -- NewSessionSet
  unfoldable pub new_session_set : SessionSet Session
  new_session_set = record { sessions = []; next_id = 0 }

  -- Add: the set and the handle; the counter is a uint64.
  unfoldable pub add : SessionSet Session → Session → SessionSet Session × ℕ
  add s sess = (
    record { sessions = insert s.next_id sess s.sessions; next_id = (s.next_id + 1) % 2 ^ 64 },
    s.next_id,
  )

  -- Remove
  unfoldable pub drop_session : SessionSet Session → ℕ → SessionSet Session
  drop_session s id = record s { sessions = remove id s.sessions }

  -- Count
  unfoldable pub count : SessionSet Session → ℕ
  count s = length s.sessions

  unfoldable pub values : Dict ℕ Session → List Session
  values [] = []
  values ((id, sess) ∷ rest) = sess ∷ values rest

  -- CloseAll: the set left behind, and the sessions that are closed.
  unfoldable pub close_all : SessionSet Session → SessionSet Session × List Session
  unfolding values
  close_all s = (record s { sessions = [] }, values s.sessions)

-- `int(^uint(0) >> 1)`
abbrev pub max_int : ℕ
max_int = 2 ^ 63 - 1

module _ {Session : Type 0} (is_closed : Session → Bool) (num_streams : Session → ℕ) where
  -- The loop of Pick, over the sessions in the order in which `range` meets them.
  unfoldable pub pick_loop : Option Session → ℕ → Dict ℕ Session → Option Session
  pick_loop best best_n [] = best
  pick_loop best best_n ((id, sess) ∷ rest) =
      let better = if is_closed sess then false else ltb (num_streams sess) best_n in
      pick_loop (if better then some sess else best) (if better then num_streams sess else best_n)
        rest

  -- Pick
  unfoldable pub pick : SessionSet Session → Option Session
  unfolding pick_loop
  pick s = pick_loop none max_int s.sessions

module _ {Session : Type 0} (is_closed : Session → Bool) where
  unfoldable pub healthy_loop : ℕ → Dict ℕ Session → ℕ
  healthy_loop n [] = n
  healthy_loop n ((id, sess) ∷ rest) = healthy_loop (if is_closed sess then n else n + 1) rest

  -- Healthy
  unfoldable pub healthy : SessionSet Session → ℕ
  unfolding healthy_loop
  healthy s = healthy_loop 0 s.sessions
