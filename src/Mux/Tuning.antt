-- ===== src/Mux/Tuning.antt =====
-- What Config of internal/mux/mux.go guarantees to smux.
use cando.Base.{ℕ, ◌*◌, ◌≤◌, ◌≡◌, refl, arith, ◌∙◌, ap}
use cando.Base.Int.{pos, ◌≤ℤ◌, times64, times64_exact}
use cando.Config.{MuxConfig}
use cando.Mux.{SmuxConfig, smux_config, positive_or, keep_alive_of}

-- Whatever the section holds, the stream buffer is positive and within the receive buffer, as smux
-- demands, and what the section does not set stays.
pub smux_config_buffers :
    {Rest : Type 0} (c : SmuxConfig Rest) (m : MuxConfig)
    → let d = smux_config c m in
      (pos 1 ≤ℤ d.max_stream_buffer)
      × (d.max_stream_buffer ≤ℤ d.max_receive_buffer)
      × (d.version ≡ 2)
      × (d.rest ≡ c.rest)
unfolding smux_config positive_or
smux_config_buffers c m = ground arith

interval-keep_alive_of :
    {Rest : Type 0} (c : SmuxConfig Rest) (m : MuxConfig)
    → (smux_config c m).keep_alive_interval ≡ times64 1_000_000_000 (keep_alive_of m)
unfolding smux_config
interval-keep_alive_of c m = refl

timeout-interval :
    {Rest : Type 0} (c : SmuxConfig Rest) (m : MuxConfig)
    → (smux_config c m).keep_alive_timeout ≡ times64 3 (smux_config c m).keep_alive_interval
unfolding smux_config
timeout-interval c m = refl

-- Up to three thousand million seconds the intervals do not wrap: the session is probed every
-- `k` seconds, 10 if the section says 0 or less, and is given up after three of these.
pub smux_config_keep_alive :
    {Rest : Type 0} (c : SmuxConfig Rest) (m : MuxConfig) (k : ℕ)
    → keep_alive_of m ≡ pos k
    → k ≤ 3_000_000_000
    → let d = smux_config c m in
      (d.keep_alive_interval ≡ pos (k * 1_000_000_000))
      × (d.keep_alive_timeout ≡ pos (3 * (k * 1_000_000_000)))
smux_config_keep_alive c m k e h =
    let seconds : times64 1_000_000_000 (keep_alive_of m) ≡ pos (1_000_000_000 * k) =
      rw e (times64_exact 1_000_000_000 k (omega arith) (omega arith)) in
    let once = interval-keep_alive_of c m ∙ seconds in
    let thrice : times64 3 (pos (1_000_000_000 * k)) ≡ pos (3 * (1_000_000_000 * k)) =
      times64_exact 3 (1_000_000_000 * k) (omega arith) (omega arith) in
    let swap : 1_000_000_000 * k ≡ k * 1_000_000_000 = omega arith in
    (
      once ∙ ap pos swap,
      timeout-interval c m ∙ ap (times64 3) once ∙ thrice ∙ ap (λ x. pos (3 * x)) swap,
    )
