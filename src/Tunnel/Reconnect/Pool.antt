-- ===== src/Tunnel/Reconnect/Pool.antt =====
-- internal/tunnel/client.go: Run's pool of goroutines, each of which runs maintainSession over the one
-- session set of the client.
pub mod Counted
pub mod Served
use cando.Base.{ℕ, zero, suc, Bool, false, Option, none, some, List, [], ◌∷◌, ◌++◌}
use cando.Base.Int.{ℤ}
use cando.Config.{ReconnectConfig}
use cando.Mux.{SessionSet, new_session_set}
use cando.Tunnel.Reconnect.{Phase, dialing, World, Event, min_backoff, handle}

-- What a goroutine has for itself: its backoff and where it is.
abbrev pub Worker : Type 0 → Type 0
Worker Session = ℤ × Phase Session

pub record Pool (Session : Type 0) : Type 0 where
  pub workers : List (Worker Session)
  pub sessions : SessionSet Session
  pub done : Bool
  pub closed : List Session

unfoldable pub nth : {A : Type 0} → ℕ → List A → Option A
nth n [] = none
nth zero (x ∷ xs) = some x
nth (suc n) (x ∷ xs) = nth n xs

unfoldable pub set_nth : {A : Type 0} → ℕ → A → List A → List A
set_nth n y [] = []
set_nth zero y (x ∷ xs) = y ∷ xs
set_nth (suc n) y (x ∷ xs) = x ∷ set_nth n y xs

unfoldable pub copies : {A : Type 0} → ℕ → A → List A
copies zero x = []
copies (suc n) x = x ∷ copies n x

-- The client as one goroutine sees it.
unfoldable pub world_of : {Session : Type 0} → Pool Session → Worker Session → World Session
world_of p w = record {
  backoff = w.0;
  phase = w.1;
  sessions = p.sessions;
  done = p.done;
  closed = p.closed;
}

unfoldable pub put_back : {Session : Type 0} → Pool Session → ℕ → World Session → Pool Session
put_back p i w = record {
  workers = set_nth i (w.backoff, w.phase) p.workers;
  sessions = w.sessions;
  done = w.done;
  closed = w.closed;
}

module _ {Session : Type 0} (r : ReconnectConfig) where
  -- Run, with the pool's size.
  unfoldable pub start_pool : ℕ → Pool Session
  start_pool size = record {
    workers = copies size (min_backoff r, dialing);
    sessions = new_session_set;
    done = false;
    closed = [];
  }

  unfoldable pub worker_step :
      Pool Session → ℕ → Event Session → Option (Worker Session) → Pool Session
  worker_step p i e none = p
  worker_step p i e (some w) = put_back p i (handle r (world_of p w) e)

  -- Something happens to the goroutine with the index `i`, or Close is called.
  unfoldable pub pool_step : Pool Session → ℕ × Event Session → Pool Session
  pool_step p (i, e) = worker_step p i e (nth i p.workers)

  unfoldable pub run_pool : Pool Session → List (ℕ × Event Session) → Pool Session
  run_pool p [] = p
  run_pool p (e ∷ es) = run_pool (pool_step p e) es
