-- ===== src/Protocol/Window.antt =====
-- The timestamp window of ServerAuthenticator.Handshake (internal/protocol/protocol.go).
use cando.Base.{ℕ, ◌+◌, ◌^◌, ◌≤◌, ◌<◌, ◌≡◌, ◌⊎◌, ◌↔◌, true, arith}
use cando.Protocol.Handshake.{in_window}

-- Within 45 seconds either way.
abbrev pub Near : ℕ → ℕ → Type 0
Near ts now = (ts ≤ now + 45) × (now ≤ ts + 45)

-- For a 64-bit timestamp and a clock from 45 up to 2 ^ 63 the window admits exactly the timestamps within
-- 45 seconds of the clock, and the one that is 2 ^ 63 seconds ahead of it.
pub in_window_iff :
    (ts now : ℕ)
    → ts < 2 ^ 64
    → 45 ≤ now
    → now < 2 ^ 63
    → (in_window ts now ≡ true) ↔ (Near ts now ⊎ (ts ≡ now + 2 ^ 63))
unfolding in_window
in_window_iff ts now h l k = (λ e. ground arith, λ e. ground arith)
