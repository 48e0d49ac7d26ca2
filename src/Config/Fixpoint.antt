-- ===== src/Config/Fixpoint.antt =====
-- Normalising a configuration of internal/config/config.go twice is normalising it once.
use mathlib.Core.List.{map}
use cando.Base.{◌≡◌, refl, ap, Option, some, none, List, [], ◌∷◌, arith, Bool-cases, inl, inr}
use cando.Base.Bytes.{Bytes, text}
use cando.Base.Int.{ℤ, pos}
use cando.Base.Text.{
  is_empty, to_lower, trim_space, lower_trim_idem, lower_byte, trim_left, trim_right, is_space,
}
use cando.Config.{
  Config, ServerConfig, ClientConfig, MuxConfig, KcpConfig, ReconnectConfig, Service, Forward,
  default_kcp, norm_proto,
}
use cando.Config.Normalize.{
  or_text, or_positive, or_nonzero, fec_unset, fill_kcp_defaults, norm_transport, norm_mux,
  norm_kcp_section, norm_service, norm_forward, norm_server, norm_reconnect, norm_client, normalize,
  option_map,
}

or_text_idem : (t def : Bytes) → or_text (or_text t def) def ≡ or_text t def
unfolding or_text is_empty
or_text_idem [] [] = refl
or_text_idem [] (d ∷ ds) = refl
or_text_idem (b ∷ bs) def = refl

or_positive_idem : (n def : ℤ) → or_positive (or_positive n def) def ≡ or_positive n def
unfolding or_positive
or_positive_idem n def = ground arith

or_nonzero_idem : (n def : ℤ) → or_nonzero (or_nonzero n def) def ≡ or_nonzero n def
unfolding or_nonzero
or_nonzero_idem n def = ground arith

fec_data_idem :
    (k : KcpConfig)
    → (fill_kcp_defaults (fill_kcp_defaults k)).fec_data ≡ (fill_kcp_defaults k).fec_data
unfolding fill_kcp_defaults fec_unset
fec_data_idem k = ground arith

fec_parity_idem :
    (k : KcpConfig)
    → (fill_kcp_defaults (fill_kcp_defaults k)).fec_parity ≡ (fill_kcp_defaults k).fec_parity
unfolding fill_kcp_defaults fec_unset
fec_parity_idem k = ground arith

fill_kcp_defaults_idem :
    (k : KcpConfig) → fill_kcp_defaults (fill_kcp_defaults k) ≡ fill_kcp_defaults k
unfolding fill_kcp_defaults
fill_kcp_defaults_idem k = λ i. record {
  mode = or_text_idem k.mode default_kcp.mode i;
  fec_data = fec_data_idem k i;
  fec_parity = fec_parity_idem k i;
  mtu = or_positive_idem k.mtu default_kcp.mtu i;
  snd_wnd = or_positive_idem k.snd_wnd default_kcp.snd_wnd i;
  rcv_wnd = or_positive_idem k.rcv_wnd default_kcp.rcv_wnd i;
  sock_buf = or_positive_idem k.sock_buf default_kcp.sock_buf i;
}

norm_transport_idem : (t : Bytes) → norm_transport (norm_transport t) ≡ norm_transport t
unfolding norm_transport or_text is_empty
norm_transport_idem t = elim (Bool-cases (is_empty (to_lower (trim_space t)))) [
  | inl e ↦ rw e (unfold to_lower lower_byte trim_space trim_left trim_right is_space in refl)
  | inr e ↦ rw (e, lower_trim_idem t, e)
]

pub norm_proto_idem : (p : Bytes) → norm_proto (norm_proto p) ≡ norm_proto p
unfolding norm_proto
norm_proto_idem p = elim (Bool-cases (is_empty (to_lower (trim_space p)))) [
  | inl e ↦ rw e (unfold to_lower lower_byte trim_space trim_left trim_right is_space in refl)
  | inr e ↦ rw (e, lower_trim_idem p, e)
]

norm_mux_idem : (m : MuxConfig) → norm_mux (norm_mux m) ≡ norm_mux m
unfolding norm_mux
norm_mux_idem m = ground arith

norm_kcp_section_idem :
    (t : Bytes) (k : KcpConfig) → norm_kcp_section t (norm_kcp_section t k) ≡ norm_kcp_section t k
unfolding norm_kcp_section
norm_kcp_section_idem t k = ground (arith, fill_kcp_defaults_idem k)

map_idem {ℓ} :
    {A : Type ℓ} (f : A → A) → ((a : A) → f (f a) ≡ f a) → (l : List A) → map f (map f l) ≡ map f l
map_idem f h [] = refl
map_idem f h (a ∷ l) = cc (h a, map_idem f h l)

option_map_idem {ℓ} :
    {A : Type ℓ} (f : A → A)
    → ((a : A) → f (f a) ≡ f a)
    → (o : Option A) → option_map f (option_map f o) ≡ option_map f o
unfolding option_map
option_map_idem f h none = refl
option_map_idem f h (some a) = ap some (h a)

norm_service_idem : (s : Service) → norm_service (norm_service s) ≡ norm_service s
unfolding norm_service
norm_service_idem s = ap (λ p. record s { protocol = p }) (norm_proto_idem s.protocol)

norm_forward_idem : (f : Forward) → norm_forward (norm_forward f) ≡ norm_forward f
unfolding norm_forward
norm_forward_idem f = ap (λ p. record f { protocol = p }) (norm_proto_idem f.protocol)

norm_server_idem : (s : ServerConfig) → norm_server (norm_server s) ≡ norm_server s
unfolding norm_server
norm_server_idem s = rw (
  norm_transport_idem s.transport,
  or_text_idem s.ws_path (text "/cando"),
  norm_mux_idem s.mux,
  norm_kcp_section_idem (norm_transport s.transport) s.kcp,
  map_idem norm_service norm_service_idem s.services,
)

norm_reconnect_idem : (r : ReconnectConfig) → norm_reconnect (norm_reconnect r) ≡ norm_reconnect r
unfolding norm_reconnect
norm_reconnect_idem r =
    rw (or_nonzero_idem r.min_millis (pos 500), or_nonzero_idem r.max_millis (pos 30000))

norm_client_idem : (cl : ClientConfig) → norm_client (norm_client cl) ≡ norm_client cl
unfolding norm_client
norm_client_idem cl = rw (
  norm_transport_idem cl.transport,
  or_text_idem cl.ws_path (text "/cando"),
  or_text_idem cl.fingerprint (text "chrome"),
  or_positive_idem cl.pool_size (pos 2),
  or_text_idem cl.host cl.sni,
  norm_mux_idem cl.mux,
  norm_reconnect_idem cl.reconnect,
  norm_kcp_section_idem (norm_transport cl.transport) cl.kcp,
  map_idem norm_forward norm_forward_idem cl.forwards,
)

-- Normalising is idempotent: a normalised configuration stays as it is.
pub normalize_idem : (c : Config) → normalize (normalize c) ≡ normalize c
unfolding normalize
normalize_idem c = rw (
  or_text_idem c.log.level (text "info"),
  option_map_idem norm_server norm_server_idem c.server,
  option_map_idem norm_client norm_client_idem c.client,
)
