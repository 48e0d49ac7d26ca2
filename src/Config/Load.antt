-- ===== src/Config/Load.antt =====
-- internal/config/config.go: Load, and what a loaded configuration is good for. The TOML decoder
-- is the parameter `unmarshal`; `none` is a file that cannot be read.
use cando.Base.{
  ℕ, ◌≡◌, subst, ◌∷◌, [], Option, some, none, Result, ok, err, Result-cases, inl, inr, arith,
}
use cando.Base.Bytes.{Bytes, text, bytes_eq_iff}
use cando.Base.Int.{ℤ, pos, ◌≤ℤ◌}
use cando.Base.Text.{is_empty}
use cando.Config.{Config, ServerConfig, ClientConfig, KcpConfig, transport_kcp}
use cando.Config.Normalize.{
  or_text, or_positive, fec_unset, fill_kcp_defaults, norm_kcp_section, norm_server, norm_client,
  normalize, option_map,
}
use cando.Config.Validate.{ConfigError, validate}
use cando.Config.Shape.{IsFilled, IsConfig}
use cando.Config.Fixpoint.{normalize_idem}
use cando.Config.Accepted.{validate_iff}

pub data LoadError : Type 0 where
  unreadable unparsable : LoadError
  invalid : ConfigError → LoadError

-- Every tunable that the KCP carrier needs is positive.
pub record IsTuned (k : KcpConfig) : Type 0 where
  pub mode : IsFilled k.mode
  pub fec_data : pos 1 ≤ℤ k.fec_data
  pub fec_parity : pos 1 ≤ℤ k.fec_parity
  pub mtu : pos 1 ≤ℤ k.mtu
  pub snd_wnd : pos 1 ≤ℤ k.snd_wnd
  pub rcv_wnd : pos 1 ≤ℤ k.rcv_wnd
  pub sock_buf : pos 1 ≤ℤ k.sock_buf

pub record IsServerReady (s : ServerConfig) : Type 0 where
  pub path : IsFilled s.ws_path
  pub tuned : s.transport ≡ transport_kcp → IsTuned s.kcp

pub record IsClientReady (cl : ClientConfig) : Type 0 where
  pub path : IsFilled cl.ws_path
  pub fingerprint : IsFilled cl.fingerprint
  pub pool : pos 1 ≤ℤ cl.pool_size
  pub tuned : cl.transport ≡ transport_kcp → IsTuned cl.kcp

abbrev pub Given {ℓ κ} : {A : Type ℓ} → (A → Type κ) → Option A → Type κ
Given P none = Unit
Given P (some a) = P a

-- What the rest of the program relies on.
pub record IsLoaded (c : Config) : Type 0 where
  pub complete : IsConfig c
  pub settled : normalize c ≡ c
  pub level : IsFilled c.log.level
  pub server : Given IsServerReady c.server
  pub client : Given IsClientReady c.client

fill_kcp_defaults-IsTuned : (k : KcpConfig) → IsTuned (fill_kcp_defaults k)
unfolding fill_kcp_defaults or_text or_positive fec_unset is_empty
fill_kcp_defaults-IsTuned k = ground arith

norm_kcp_section-IsTuned :
    (t : Bytes) (k : KcpConfig) → t ≡ transport_kcp → IsTuned (norm_kcp_section t k)
unfolding norm_kcp_section
norm_kcp_section-IsTuned t k e =
    rw ((bytes_eq_iff t transport_kcp).1 e) (fill_kcp_defaults-IsTuned k)

or_text-IsFilled : (t def : Bytes) → IsFilled def → IsFilled (or_text t def)
unfolding or_text is_empty
or_text-IsFilled [] def h = h
or_text-IsFilled (b ∷ bs) def h = λ e. cc

or_positive_bound : (n : ℤ) (k : ℕ) → pos 1 ≤ℤ pos k → pos 1 ≤ℤ or_positive n (pos k)
unfolding or_positive
or_positive_bound n k h = ground arith

norm_server-IsServerReady : (s : ServerConfig) → IsServerReady (norm_server s)
unfolding norm_server
norm_server-IsServerReady s = record {
  path = or_text-IsFilled s.ws_path (text "/cando") (λ e. cc);
  tuned = norm_kcp_section-IsTuned _ s.kcp;
}

norm_client-IsClientReady : (cl : ClientConfig) → IsClientReady (norm_client cl)
unfolding norm_client
norm_client-IsClientReady cl = record {
  path = or_text-IsFilled cl.ws_path (text "/cando") (λ e. cc);
  fingerprint = or_text-IsFilled cl.fingerprint (text "chrome") (λ e. cc);
  pool = or_positive_bound cl.pool_size 2 (omega arith);
  tuned = norm_kcp_section-IsTuned _ cl.kcp;
}

Given-option_map {ℓ κ} :
    {A : Type ℓ} (P : A → Type κ) (f : A → A)
    → ((a : A) → P (f a))
    → (o : Option A) → Given P (option_map f o)
unfolding option_map
Given-option_map P f h none = tt
Given-option_map P f h (some a) = h a

-- The steps of Load after the decoder.
unfoldable pub load_config : Config → Result LoadError Config
load_config c = let n = normalize c in elim (validate n) [ ok u ↦ ok n | err e ↦ err (invalid e) ]

unfoldable pub load_decoded : Option Config → Result LoadError Config
load_decoded none = err unparsable
load_decoded (some c) = load_config c

-- Load
unfoldable pub load : (Bytes → Option Config) → Option Bytes → Result LoadError Config
unfolding load_decoded
load unmarshal none = err unreadable
load unmarshal (some bytes) = load_decoded (unmarshal bytes)

normalize-IsLoaded : (c : Config) → validate (normalize c) ≡ ok tt → IsLoaded (normalize c)
normalize-IsLoaded c e = record {
  complete = (validate_iff (normalize c)).0 e;
  settled = normalize_idem c;
  level = unfold normalize in or_text-IsFilled c.log.level (text "info") (λ p. cc);
  server =
      unfold normalize in
      Given-option_map IsServerReady norm_server norm_server-IsServerReady c.server;
  client =
      unfold normalize in
      Given-option_map IsClientReady norm_client norm_client-IsClientReady c.client;
}

pub load_config_ok :
    (c : Config) → validate (normalize c) ≡ ok tt → load_config c ≡ ok (normalize c)
unfolding load_config
load_config_ok c e = rw (e, load_config)

pub load_config_err :
    (c : Config) (x : ConfigError)
    → validate (normalize c) ≡ err x
    → load_config c ≡ err (invalid x)
unfolding load_config
load_config_err c x e = rw (e, load_config)

load_config-IsLoaded : (c d : Config) → load_config c ≡ ok d → IsLoaded d
load_config-IsLoaded c d h = elim (Result-cases (validate (normalize c))) [
  | inl (u, e) ↦ subst IsLoaded (ground (arith, load_config_ok c e, h)) (normalize-IsLoaded c e)
  | inr (x, e) ↦ cc (load_config_err c x e, h)
]

load_decoded-IsLoaded : (o : Option Config) (d : Config) → load_decoded o ≡ ok d → IsLoaded d
unfolding load_decoded
load_decoded-IsLoaded none d h = cc
load_decoded-IsLoaded (some c) d h = load_config-IsLoaded c d h

-- A configuration that Load returns has one complete role, is its own normal form, and has every
-- default filled in that the rest of the program relies on.
pub load-IsLoaded :
    (unmarshal : Bytes → Option Config) (file : Option Bytes) (c : Config)
    → load unmarshal file ≡ ok c
    → IsLoaded c
unfolding load
load-IsLoaded unmarshal none c h = cc
load-IsLoaded unmarshal (some bytes) c h = load_decoded-IsLoaded (unmarshal bytes) c h
