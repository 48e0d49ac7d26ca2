-- ===== src/Transport/Choice/Complete.antt =====
-- internal/transport/transport.go: every transport that Validate accepts has its carrier, and both
-- sides choose the same one.
use cando.App.Roles.{RunsRole, run_config-RunsRole}
use cando.Base.{
  is_some, ◌||◌, ◌≡◌, ◌≢◌, refl, sym, ◌∙◌, Bool, true, inl, inr, Option, none, some, ◌∷◌, ◌++◌,
  length, arith, ok, Bool-cases,
}
use cando.Base.Bytes.{Bytes, text, bytes_eq}
use cando.Config.{
  Config, ClientConfig, transport_tcp, transport_tls, transport_ws, transport_wss, transport_kcp,
}
use cando.Config.Shape.{IsTransport}
use cando.Config.Validate.{validate}
use cando.App.{Runnable, run_config}
use cando.Transport.Choice.{
  Dialer, kcp, unsupported, kcp_block, kcp_dialer, new_kcp_dialer, new_client_dialer, carrier_of,
  carrier,
}

transport_supported : (t : Bytes) → IsTransport t → carrier_of t ≢ unsupported
unfolding carrier_of bytes_eq
transport_supported t (inl e) = rw e (λ x. ground arith)
transport_supported t (inr (inl e)) = rw e (λ x. ground arith)
transport_supported t (inr (inr (inl e))) = rw e (λ x. ground arith)
transport_supported t (inr (inr (inr (inl e)))) = rw e (λ x. ground arith)
transport_supported t (inr (inr (inr (inr e)))) = rw e (λ x. ground arith)

module _ {Block : Type 0} (sha256 : Bytes → Bytes) (aes_block : Bytes → Option Block) where
  -- SHA-256 gives 32 bytes, which is a size that AES takes for a key.
  pub record IsKeyed : Type 0 where
    pub digest : (b : Bytes) → length (sha256 b) ≡ 32
    pub block : (k : Bytes) → length k ≡ 32 → (b : Block) × (aes_block k ≡ some b)

  kcp_dialer-carrier :
      (cfg : ClientConfig) → IsKeyed → carrier (new_kcp_dialer sha256 aes_block cfg) ≡ kcp
  unfolding new_kcp_dialer kcp_block kcp_dialer carrier
  kcp_dialer-carrier cfg h =
      let (b, e) =
        h.block (sha256 (text "cando1-kcp" ++ 0 ∷ cfg.token))
          (h.digest (text "cando1-kcp" ++ 0 ∷ cfg.token)) in
      rw e refl

  -- NewClientDialer of a transport's name gives the dialer of the carrier that NewServerListener
  -- chooses for the same name, and none for a name that it does not know either.
  pub new_client_dialer-carrier :
      (cfg : ClientConfig)
      → IsKeyed
      → carrier (new_client_dialer sha256 aes_block cfg) ≡ carrier_of cfg.transport
  unfolding new_client_dialer carrier_of carrier
  new_client_dialer-carrier cfg h = elim (Bool-cases (bytes_eq cfg.transport transport_tcp)) [
    | inl a ↦ rw a refl
    | inr a ↦ elim (Bool-cases (bytes_eq cfg.transport transport_tls)) [
      | inl b ↦ rw (a, b) refl
      | inr b ↦
          elim (Bool-cases
            (bytes_eq cfg.transport transport_ws || bytes_eq cfg.transport transport_wss)) [
              | inl d ↦ rw (a, b, d) refl
              | inr d ↦ elim (Bool-cases (bytes_eq cfg.transport transport_kcp)) [
                | inl e ↦ rw (a, b, d, e) (kcp_dialer-carrier cfg h)
                | inr e ↦ rw (a, b, d, e) refl
              ]
            ]
    ]
  ]

  -- Whether NewClient gets a dialer.
  unfoldable pub dials : ClientConfig → Bool
  dials cfg = is_some (new_client_dialer sha256 aes_block cfg)

  carrier-some : (o : Option (Dialer Block)) → carrier o ≢ unsupported → is_some o ≡ true
  unfolding carrier
  carrier-some none n = absurd (n refl)
  carrier-some (some d) n = refl

  -- With the dialers of the transports, RunConfig of a configuration that Validate accepts never
  -- fails for want of a dialer: it runs the one role that the configuration has.
  pub run_config-dials :
      (c : Config) → IsKeyed → validate c ≡ ok tt → (r : Runnable) × ((run_config dials c).1 ≡ ok r)
  unfolding dials
  run_config-dials c h v = runs (run_config-RunsRole dials c v)
    where
      runs :
          RunsRole dials c.server c.client (run_config dials c).1
          → (r : Runnable) × ((run_config dials c).1 ≡ ok r)
      runs (inl (sv, e, i, o)) = (Runnable.server sv, o)
      runs (inr (cl, e, i, inl (d, o))) = (Runnable.client cl, o)
      runs (inr (cl, e, i, inr (d, o))) =
          let n = carrier-some (new_client_dialer sha256 aes_block cl) (λ x.
            transport_supported cl.transport i.carried
              (sym (new_client_dialer-carrier cl h) ∙ x)) in
          absurd (ground (arith, sym d ∙ n))
