-- ===== src/Tests/TransportRuns.antt =====
-- Runs of the transports' parts on small inputs; the keystream is made up.
use cando.Base.{some, List, sym, ℕ, ◌+◌, ◌≡◌, refl, true, false, [], ◌∷◌, arith, ◌*◌}
use cando.Base.Bytes.{Bytes, text, bytes_eq}
use cando.Base.Int.{pos, negsuc}
use cando.Config.{KcpConfig}
use cando.Transport.KcpListener.{
  Event, arrived, enqueued, taken, closes, given_up, new_kcp_listener, run,
}
use cando.Transport.Kcp.{norm_kcp, kcp_mode_params, clamp_mtu}
use cando.Config.Normalize.{or_positive}
use cando.Transport.Obfuscation.{
  xor, ObfsConn, new_obfs_conn, derive_key, read_all, write, write_loop, write_with, write_before,
  xor_key_stream, xor_from,
}
use cando.Transport.Obfuscation.Channel.{join, sent_by, read_all-write}

abbrev jumbo : KcpConfig
jumbo = record {
  mode = [];
  fec_data = pos 10;
  fec_parity = pos 0;
  mtu = pos 9000;
  snd_wnd = negsuc 3;
  rcv_wnd = pos 64;
  sock_buf = pos 0;
}

jumbo_mtu : (norm_kcp jumbo).mtu ≡ pos 1400
unfolding norm_kcp clamp_mtu or_positive
jumbo_mtu = refl

fast_mode : kcp_mode_params (text "fast") ≡ (0, 30, 2, 1)
unfolding kcp_mode_params bytes_eq
fast_mode = refl

abbrev counting : Bytes → Bytes → ℕ → ℕ
counting key nonce n = 17 * n + 5

abbrev same_bytes : Bytes → Bytes
same_bytes b = b

abbrev zero_nonce : Bytes
zero_nonce = text "abcdefghijklmnopqrstuvwx"

abbrev near : ObfsConn
near = new_obfs_conn same_bytes (text "t") zero_nonce true

abbrev far : ObfsConn
far = new_obfs_conn same_bytes (text "t") zero_nonce false

xored : xor 8 200 77 ≡ 133
unfolding xor
xored = refl

wire : sent_by counting (write counting near (text "hi")) ≡ 109 ∷ 127 ∷ []
unfolding write new_obfs_conn write_loop write_with write_before xor_key_stream xor_from xor
    derive_key join
wire = refl

-- The two bytes arrive one by one.
read_all-write_example :
    (sent : List Bytes) × (c : ObfsConn) × (d : ObfsConn) × (write counting near (text "hi")
      ≡ some (sent, c))
    × (read_all counting far ((109 ∷ []) ∷ (127 ∷ []) ∷ []) ≡ some (text "hi", d))
    × (d.rc ≡ c.wc)
unfolding join new_obfs_conn
read_all-write_example =
    read_all-write counting near far (text "hi") ((109 ∷ []) ∷ (127 ∷ []) ∷ [])
      (omega arith, (omega arith, tt)) refl (omega arith) (sym wire)

-- One session is given out, the next is in hand when the listener is closed.
abbrev late_close : List Event
late_close = arrived 5 ∷ enqueued ∷ taken ∷ arrived 6 ∷ closes ∷ given_up ∷ []

six_closed : (run new_kcp_listener late_close).closed ≡ 6 ∷ []
unfolding run new_kcp_listener
six_closed = refl
