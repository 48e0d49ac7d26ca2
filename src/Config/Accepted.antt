-- ===== src/Config/Accepted.antt =====
-- What Validate (internal/config/config.go) accepts, stated without its code.
use cando.Base.{
  ℕ, suc, ◌≡◌, ◌≢◌, ◌↔◌, refl, true, false, Option, some, none, List, [], ◌∷◌, arith, All, Result,
  ok, err, ◌>>◌,
}
use cando.Base.Bytes.{Bytes, bytes_eq_iff}
use cando.Base.Text.{is_empty}
use cando.Config.{
  Config, ServerConfig, ClientConfig, Service, ClientTarget, Forward, valid_transport, valid_proto,
  transport_tcp, transport_tls, transport_ws, transport_wss, transport_kcp, proto_tcp, proto_udp,
}
use cando.Config.Validate.{
  ConfigError, contains, check_service, check_services, check_targets, check_forwards,
  validate_server, validate_client, validate_roles, validate,
}
use cando.Config.Shape.{
  IsTransport, IsProto, IsService, IsTarget, IsForward, Distinct, names, IsServer, IsClient,
  AreRoles, IsConfig,
}

pub is_empty_iff : (t : Bytes) → (is_empty t ≡ false) ↔ (t ≢ [])
unfolding is_empty
is_empty_iff [] = ground arith
is_empty_iff (b ∷ bs) = ground arith

pub valid_transport_iff : (t : Bytes) → (valid_transport t ≡ true) ↔ IsTransport t
unfolding valid_transport
valid_transport_iff t = ground (
  arith,
  bytes_eq_iff t transport_tcp,
  bytes_eq_iff t transport_tls,
  bytes_eq_iff t transport_ws,
  bytes_eq_iff t transport_wss,
  bytes_eq_iff t transport_kcp,
)

valid_proto_iff : (p : Bytes) → (valid_proto p ≡ true) ↔ IsProto p
unfolding valid_proto
valid_proto_iff p = ground (arith, bytes_eq_iff p proto_tcp, bytes_eq_iff p proto_udp)

-- The names met so far do not hold `n`.
contains_iff : (seen : List Bytes) (n : Bytes) → (contains seen n ≡ false) ↔ All (λ m. m ≢ n) seen
unfolding contains
contains_iff [] n = ground arith
contains_iff (m ∷ ms) n = ground (arith, bytes_eq_iff m n, contains_iff ms n)

check_service_iff :
    (i : ℕ) (seen : List Bytes) (s : Service)
    → (check_service i seen s ≡ ok tt) ↔ (IsService s × All (λ m. m ≢ s.name) seen)
unfolding check_service
check_service_iff i seen s = ground (
  arith,
  is_empty_iff s.name,
  is_empty_iff s.bind_addr,
  valid_proto_iff s.protocol,
  contains_iff seen s.name,
)

guard_both : (m k : Result ConfigError (Unit {0})) → (m >> k) ≡ ok tt → (m ≡ ok tt) × (k ≡ ok tt)
guard_both (ok a) k h = (refl, h)
guard_both (err e) k h = cc

-- None of the names `ns` is among `seen`.
abbrev Outside : List Bytes → List Bytes → Type 0
Outside seen ns = All (λ n. All (λ m. m ≢ n) seen) ns

Outside-cons :
    (a : Bytes) (seen ns : List Bytes)
    → Outside (a ∷ seen) ns ↔ (All (λ n. a ≢ n) ns × Outside seen ns)
Outside-cons a seen [] = ((λ h. (tt, tt)), (λ h. tt))
Outside-cons a seen (n ∷ ns) =
    let (to, from) = Outside-cons a seen ns in
    (
      (λ h. let (p, q) = to h.1 in ((h.0.0, p), (h.0.1, q))),
      (λ h. ((h.0.0, h.1.0), from (h.0.1, h.1.1))),
    )

Outside-nil : (ns : List Bytes) → Outside [] ns
Outside-nil [] = tt
Outside-nil (n ∷ ns) = (tt, Outside-nil ns)

check_services_sound :
    (i : ℕ) (seen : List Bytes) (l : List Service)
    → check_services i seen l ≡ ok tt
    → All IsService l × Distinct (names l) × Outside seen (names l)
unfolding check_services
check_services_sound i seen [] h = (tt, tt, tt)
check_services_sound i seen (s ∷ rest) h =
    let (one, more) = guard_both (check_service i seen s) _ h in
    let (good, new) = (check_service_iff i seen s).0 one in
    let (goods, distinct, outside) = check_services_sound (suc i) (s.name ∷ seen) rest more in
    let (apart, outside') = (Outside-cons s.name seen (names rest)).0 outside in
    ((good, goods), (apart, distinct), (new, outside'))

check_services_complete :
    (i : ℕ) (seen : List Bytes) (l : List Service)
    → All IsService l
    → Distinct (names l)
    → Outside seen (names l)
    → check_services i seen l ≡ ok tt
unfolding check_services
check_services_complete i seen [] h d o = refl
check_services_complete i seen (s ∷ rest) h d o = rw ((check_service_iff i seen s).1 (h.0, o.0)) (
    check_services_complete (suc i) (s.name ∷ seen) rest h.1 d.1
      ((Outside-cons s.name seen (names rest)).1 (d.0, o.1)))

check_targets_iff : (i : ℕ) (l : List ClientTarget) → (check_targets i l ≡ ok tt) ↔ All IsTarget l
unfolding check_targets
check_targets_iff i [] = ground arith
check_targets_iff i (s ∷ rest) =
    ground (arith, is_empty_iff s.name, is_empty_iff s.local_addr, check_targets_iff (suc i) rest)

check_forwards_iff : (i : ℕ) (l : List Forward) → (check_forwards i l ≡ ok tt) ↔ All IsForward l
unfolding check_forwards
check_forwards_iff i [] = ground arith
check_forwards_iff i (f ∷ rest) = ground (
  arith,
  is_empty_iff f.local_addr,
  is_empty_iff f.target_addr,
  valid_proto_iff f.protocol,
  check_forwards_iff (suc i) rest,
)

check_services_iff :
    (l : List Service) → (check_services 0 [] l ≡ ok tt) ↔ (All IsService l × Distinct (names l))
check_services_iff l = (
  (λ h. let (a, b, c) = check_services_sound 0 [] l h in (a, b)),
  (λ h. check_services_complete 0 [] l h.0 h.1 (Outside-nil (names l))),
)

validate_server_iff : (s : ServerConfig) → (validate_server s ≡ ok tt) ↔ IsServer s
unfolding validate_server
validate_server_iff s = ground (
  arith,
  is_empty_iff s.bind_addr,
  valid_transport_iff s.transport,
  is_empty_iff s.token,
  check_services_iff s.services,
)

validate_client_iff : (cl : ClientConfig) → (validate_client cl ≡ ok tt) ↔ IsClient cl
unfolding validate_client
validate_client_iff cl = ground (
  arith,
  is_empty_iff cl.server_addr,
  valid_transport_iff cl.transport,
  is_empty_iff cl.token,
  check_targets_iff 0 cl.services,
  check_forwards_iff 0 cl.forwards,
)

validate_roles_iff :
    (s : Option ServerConfig) (cl : Option ClientConfig)
    → (validate_roles s cl ≡ ok tt) ↔ AreRoles s cl
unfolding validate_roles
validate_roles_iff none none = ground arith
validate_roles_iff (some s) (some cl) = ground arith
validate_roles_iff (some s) none = validate_server_iff s
validate_roles_iff none (some cl) = validate_client_iff cl

-- Validate accepts a configuration exactly when it has one role and the section of that role is
-- complete, with a known carrier, known protocols and service names that are all different.
pub validate_iff : (c : Config) → (validate c ≡ ok tt) ↔ IsConfig c
unfolding validate
validate_iff c = validate_roles_iff c.server c.client
