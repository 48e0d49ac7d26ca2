-- ===== src/Tunnel/Reconnect/Race.antt =====
-- Close of the client (internal/tunnel/client.go) while a session comes up.
use cando.Base.{◌≡◌, refl, true, List, [], ◌∷◌}
use cando.Base.Dict.{insert, nat_eq}
use cando.Config.{ReconnectConfig}
use cando.Mux.{add, close_all, new_session_set}
use cando.Tunnel.Reconnect.{
  serving, World, Event, failed, established, lost, woke, closes, min_backoff, start, close_client,
  handle_in, handle, run,
}

-- The session does not end.
abbrev pub StaysUp : {Session : Type 0} → List (Event Session) → Type 0
StaysUp [] = Unit
StaysUp (failed ∷ es) = StaysUp es
StaysUp (established s ∷ es) = StaysUp es
StaysUp (lost n ∷ es) = ⊥
StaysUp (woke ∷ es) = StaysUp es
StaysUp (closes ∷ es) = StaysUp es

-- The client after Close with a session that nothing has closed.
abbrev pub survivor : {Session : Type 0} → ReconnectConfig → Session → World Session
survivor r s = record {
  backoff = min_backoff r;
  phase = serving 0 s;
  sessions = record { sessions = (0, s) ∷ []; next_id = 1 };
  done = true;
  closed = [];
}

survivor-stays :
    {Session : Type 0} (r : ReconnectConfig) (s : Session) (es : List (Event Session))
    → StaysUp es
    → run r (survivor r s) es ≡ survivor r s
unfolding run handle handle_in close_client
survivor-stays r s [] u = refl
survivor-stays r s (failed ∷ es) u = survivor-stays r s es u
survivor-stays r s (established s' ∷ es) u = survivor-stays r s es u
survivor-stays r s (lost n ∷ es) u = absurd u
survivor-stays r s (woke ∷ es) u = survivor-stays r s es u
survivor-stays r s (closes ∷ es) u = survivor-stays r s es u

-- A dial that is under way when Close is called may still bring up its session: then the goroutine
-- serves it, the set holds it and nothing has closed it, through whatever happens, further calls of
-- Close included, until the session ends by itself.
pub run-survivor :
    {Session : Type 0} (r : ReconnectConfig) (s : Session) (es : List (Event Session))
    → StaysUp es
    → run r (start r) (closes ∷ established s ∷ es) ≡ survivor r s
unfolding run handle handle_in close_client close_all add start new_session_set insert
run-survivor r s es u = survivor-stays r s es u
