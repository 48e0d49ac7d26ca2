-- ===== src/Config/Shape.antt =====
-- What a complete configuration of internal/config/config.go is, stated without Validate's code.
use cando.Base.{◌≡◌, ◌≢◌, ◌⊎◌, Option, some, none, List, [], ◌∷◌, All}
use cando.Base.Bytes.{Bytes}
use cando.Config.{
  Config, ServerConfig, ClientConfig, Service, ClientTarget, Forward, transport_tcp, transport_tls,
  transport_ws, transport_wss, transport_kcp, proto_tcp, proto_udp,
}

abbrev pub IsFilled : Bytes → Type 0
IsFilled t = t ≢ []

abbrev pub IsTransport : Bytes → Type 0
IsTransport t =
    (t ≡ transport_tcp)
    ⊎ ((t ≡ transport_tls) ⊎ ((t ≡ transport_ws) ⊎ ((t ≡ transport_wss) ⊎ (t ≡ transport_kcp))))

abbrev pub IsProto : Bytes → Type 0
IsProto p = (p ≡ proto_tcp) ⊎ (p ≡ proto_udp)

abbrev pub IsService : Service → Type 0
IsService s = IsFilled s.name × IsFilled s.bind_addr × IsProto s.protocol

abbrev pub IsTarget : ClientTarget → Type 0
IsTarget s = IsFilled s.name × IsFilled s.local_addr

abbrev pub IsForward : Forward → Type 0
IsForward f = IsFilled f.local_addr × IsFilled f.target_addr × IsProto f.protocol

-- No name occurs twice.
abbrev pub Distinct : List Bytes → Type 0
Distinct [] = Unit {0}
Distinct (n ∷ ns) = All (λ m. n ≢ m) ns × Distinct ns

abbrev pub names : List Service → List Bytes
names [] = []
names (s ∷ rest) = s.name ∷ names rest

pub record IsServer (s : ServerConfig) : Type 0 where
  pub bound : IsFilled s.bind_addr
  pub carried : IsTransport s.transport
  pub secret : IsFilled s.token
  pub services : All IsService s.services
  pub unique : Distinct (names s.services)

pub record IsClient (cl : ClientConfig) : Type 0 where
  pub dialled : IsFilled cl.server_addr
  pub carried : IsTransport cl.transport
  pub secret : IsFilled cl.token
  pub mapped : (cl.services ≢ []) ⊎ (cl.forwards ≢ [])
  pub targets : All IsTarget cl.services
  pub forwards : All IsForward cl.forwards

abbrev pub AreRoles : Option ServerConfig → Option ClientConfig → Type 0
AreRoles none none = ⊥
AreRoles (some s) (some cl) = ⊥
AreRoles (some s) none = IsServer s
AreRoles none (some cl) = IsClient cl

-- Exactly one role, and its section is complete.
abbrev pub IsConfig : Config → Type 0
IsConfig c = AreRoles c.server c.client
