-- ===== src/Tests/MuxRuns.antt =====
-- internal/mux/mux.go at concrete inputs; a session is its load, and load 9 means closed.
use cando.Base.{ℕ, ◌≡◌, refl, [], ◌∷◌, some, true, Bool, arith, ◌==◌}
use cando.Base.Int.{pos}
use cando.Base.Dict.{nat_eq}
use cando.Config.{MuxConfig}
use cando.Mux.{SmuxConfig, SessionSet, pick, values}
use cando.Mux.Placement.{Picked, pick-Picked}
use cando.Mux.Identity.{IsHandled}

abbrev smux_default : SmuxConfig (Unit {0})
smux_default = record {
  version = 1;
  keep_alive_interval = pos 10_000_000_000;
  keep_alive_timeout = pos 30_000_000_000;
  max_receive_buffer = pos 4194304;
  max_stream_buffer = pos 65536;
  rest = tt;
}

abbrev lopsided : MuxConfig
lopsided = record {
  enable = true;
  keep_alive_seconds = pos 7;
  max_stream_buffer = pos 4096;
  max_receive_buffer = pos 1024;
}

abbrev is_nine : ℕ → Bool
is_nine n = n == 9

abbrev load_of : ℕ → ℕ
load_of n = n

abbrev three : SessionSet ℕ
three = record { sessions = (0, 5) ∷ (1, 9) ∷ (4, 2) ∷ []; next_id = 5 }

pick_least : pick is_nine load_of three ≡ some 2
unfolding pick
pick_least = refl

pick-Picked_example : Picked is_nine load_of (values three.sessions) (pick is_nine load_of three)
pick-Picked_example = pick-Picked is_nine load_of three

three-IsHandled : IsHandled three
three-IsHandled = omega arith
