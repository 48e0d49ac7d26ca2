-- ===== src/Transport/Kcp.antt =====
-- internal/transport/kcp.go: kcpModeParams and normKCP.
use cando.Base.{[], ◌∷◌, ◌*◌, ℕ, ◌≡◌, refl, ◌≤◌, false, if◌then◌else◌, arith}
use cando.Base.Bytes.{Bytes, text, bytes_eq}
use cando.Base.Int.{ℤ, pos, negsuc, ltb_ℤ, ◌≤ℤ◌}
use cando.Base.Text.{is_empty}
use cando.Config.{KcpConfig, default_kcp}
use cando.Config.Normalize.{or_text, or_positive, fec_unset}

-- The tuple (nodelay, interval, resend, nc).
unfoldable pub kcp_mode_params : Bytes → ℕ × ℕ × ℕ × ℕ
kcp_mode_params mode =
    if bytes_eq mode (text "normal")
    then (0, 40, 0, 0)
    else if bytes_eq mode (text "fast")
    then (0, 30, 2, 1)
    else if bytes_eq mode (text "fast2")
    then (1, 20, 2, 1)
    else (1, 10, 2, 1)

-- The MTU, once it has its default.
unfoldable pub clamp_mtu : ℤ → ℤ
clamp_mtu mtu =
    let low = if ltb_ℤ (pos 1400) mtu then pos 1400 else mtu in
    if ltb_ℤ low (pos 512) then pos 512 else low

-- normKCP
unfoldable pub norm_kcp : KcpConfig → KcpConfig
norm_kcp c = record {
  mode = or_text c.mode default_kcp.mode;
  fec_data = if fec_unset c then default_kcp.fec_data else c.fec_data;
  fec_parity = if fec_unset c then default_kcp.fec_parity else c.fec_parity;
  mtu = clamp_mtu (or_positive c.mtu default_kcp.mtu);
  snd_wnd = or_positive c.snd_wnd default_kcp.snd_wnd;
  rcv_wnd = or_positive c.rcv_wnd default_kcp.rcv_wnd;
  sock_buf = or_positive c.sock_buf default_kcp.sock_buf;
}

-- What the KCP library is given: an MTU that it accepts, windows, a buffer and both parts of the
-- error correction that are positive, and a mode.
pub record IsTuned (c : KcpConfig) : Type 0 where
  pub mtu_low : pos 512 ≤ℤ c.mtu
  pub mtu_high : c.mtu ≤ℤ pos 1400
  pub snd : pos 1 ≤ℤ c.snd_wnd
  pub rcv : pos 1 ≤ℤ c.rcv_wnd
  pub buffer : pos 1 ≤ℤ c.sock_buf
  pub data_shards : pos 1 ≤ℤ c.fec_data
  pub parity_shards : pos 1 ≤ℤ c.fec_parity
  pub named : is_empty c.mode ≡ false

clamp_mtu_bounds : (m : ℤ) → (pos 512 ≤ℤ clamp_mtu m) × (clamp_mtu m ≤ℤ pos 1400)
unfolding clamp_mtu
clamp_mtu_bounds (pos n) = ground arith
clamp_mtu_bounds (negsuc n) = ground arith

or_positive_lem : (field : ℤ) (d : ℕ) → 1 ≤ d → pos 1 ≤ℤ or_positive field (pos d)
unfolding or_positive
or_positive_lem (pos n) d h = ground arith
or_positive_lem (negsuc n) d h = ground arith

or_positive_id : (field d : ℤ) → pos 1 ≤ℤ field → or_positive field d ≡ field
unfolding or_positive
or_positive_id (pos n) d h = ground arith
or_positive_id (negsuc n) d h = ground arith

clamp_mtu_id : (m : ℤ) → pos 512 ≤ℤ m → m ≤ℤ pos 1400 → clamp_mtu m ≡ m
unfolding clamp_mtu
clamp_mtu_id (pos n) l h = ground arith
clamp_mtu_id (negsuc n) l h = ground arith

fec_tuned : (c : KcpConfig) → (pos 1 ≤ℤ (norm_kcp c).fec_data) × (pos 1 ≤ℤ (norm_kcp c).fec_parity)
unfolding norm_kcp fec_unset
fec_tuned c = ground arith

named_mode : (s : Bytes) → is_empty (or_text s (text "fast3")) ≡ false
unfolding or_text is_empty
named_mode [] = refl
named_mode (b ∷ bs) = refl

norm_kcp-IsTuned : (c : KcpConfig) → IsTuned (norm_kcp c)
norm_kcp-IsTuned c = record {
  mtu_low = unfold norm_kcp in (clamp_mtu_bounds (or_positive c.mtu (pos 1350))).0;
  mtu_high = unfold norm_kcp in (clamp_mtu_bounds (or_positive c.mtu (pos 1350))).1;
  snd = unfold norm_kcp in or_positive_lem c.snd_wnd 2048 (omega arith);
  rcv = unfold norm_kcp in or_positive_lem c.rcv_wnd 2048 (omega arith);
  buffer = unfold norm_kcp in or_positive_lem c.sock_buf (16 * 1024 * 1024) (omega arith);
  data_shards = (fec_tuned c).0;
  parity_shards = (fec_tuned c).1;
  named = unfold norm_kcp in named_mode c.mode;
}

kept_mode : (s : Bytes) → is_empty s ≡ false → or_text s (text "fast3") ≡ s
unfolding or_text is_empty
kept_mode [] h = ground arith
kept_mode (b ∷ bs) h = refl

kept_fec : (c : KcpConfig) → IsTuned c → fec_unset c ≡ false
unfolding fec_unset
kept_fec c t = let d = t.data_shards in let p = t.parity_shards in ground arith

norm_kcp_id : (c : KcpConfig) → IsTuned c → norm_kcp c ≡ c
unfolding norm_kcp
norm_kcp_id c t =
    let low = t.mtu_low in
    let mtu : or_positive c.mtu (pos 1350) ≡ c.mtu =
      or_positive_id c.mtu (pos 1350) (omega arith) in
    rw
      (
        kept_mode c.mode t.named,
        kept_fec c t,
        mtu,
        clamp_mtu_id c.mtu t.mtu_low t.mtu_high,
        or_positive_id c.snd_wnd (pos 2048) t.snd,
        or_positive_id c.rcv_wnd (pos 2048) t.rcv,
        or_positive_id c.sock_buf (pos (16 * 1024 * 1024)) t.buffer,
      )
      refl

-- normKCP gives every section an MTU between 512 and 1400, windows, a buffer and both parts of the
-- error correction that are positive, and a mode; such a section it leaves as it is.
pub norm_kcp_lem : (c : KcpConfig) → IsTuned (norm_kcp c) × (norm_kcp (norm_kcp c) ≡ norm_kcp c)
norm_kcp_lem c = (norm_kcp-IsTuned c, norm_kcp_id (norm_kcp c) (norm_kcp-IsTuned c))
