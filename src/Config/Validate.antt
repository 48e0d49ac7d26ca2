-- ===== src/Config/Validate.antt =====
-- internal/config/config.go: Validate.
use cando.Base.{
  ℕ, suc, Bool, true, false, ◌&&◌, ◌||◌, not, Option, some, none, List, [], ◌∷◌, Result, ok, err,
  ◌>>◌, guard,
}
use cando.Base.Bytes.{Bytes, bytes_eq}
use cando.Base.Text.{is_empty}
use cando.Config.{
  Config, ServerConfig, ClientConfig, Service, ClientTarget, Forward, valid_transport, valid_proto,
}

pub data ConfigError : Type 0 where
  no_section both_sections : ConfigError
  no_bind_addr no_server_addr no_token no_mapping : ConfigError
  bad_transport : Bytes → ConfigError
  service_fields target_fields forward_fields : ℕ → ConfigError
  service_protocol forward_protocol : ℕ → Bytes → ConfigError
  duplicate_name : Bytes → ConfigError

-- `seen[name]`, of the names met so far.
unfoldable pub contains : List Bytes → Bytes → Bool
contains [] name = false
contains (n ∷ ns) name = bytes_eq n name || contains ns name

unfoldable pub check_service : ℕ → List Bytes → Service → Result ConfigError (Unit {0})
check_service i seen s = do
  guard (not (is_empty s.name || is_empty s.bind_addr)) (service_fields i)
  guard (valid_proto s.protocol) (service_protocol i s.protocol)
  guard (not (contains seen s.name)) (duplicate_name s.name)

unfoldable pub check_services : ℕ → List Bytes → List Service → Result ConfigError (Unit {0})
check_services i seen [] = ok tt
check_services i seen (s ∷ rest) = do
  check_service i seen s
  check_services (suc i) (s.name ∷ seen) rest

unfoldable pub check_targets : ℕ → List ClientTarget → Result ConfigError (Unit {0})
check_targets i [] = ok tt
check_targets i (s ∷ rest) = do
  guard (not (is_empty s.name || is_empty s.local_addr)) (target_fields i)
  check_targets (suc i) rest

unfoldable pub check_forwards : ℕ → List Forward → Result ConfigError (Unit {0})
check_forwards i [] = ok tt
check_forwards i (f ∷ rest) = do
  guard (not (is_empty f.local_addr || is_empty f.target_addr)) (forward_fields i)
  guard (valid_proto f.protocol) (forward_protocol i f.protocol)
  check_forwards (suc i) rest

unfoldable pub validate_server : ServerConfig → Result ConfigError (Unit {0})
validate_server s = do
  guard (not (is_empty s.bind_addr)) no_bind_addr
  guard (valid_transport s.transport) (bad_transport s.transport)
  guard (not (is_empty s.token)) no_token
  check_services 0 [] s.services

abbrev pub is_nil {ℓ} : {A : Type ℓ} → List A → Bool
is_nil [] = true
is_nil (x ∷ xs) = false

unfoldable pub validate_client : ClientConfig → Result ConfigError (Unit {0})
validate_client cl = do
  guard (not (is_empty cl.server_addr)) no_server_addr
  guard (valid_transport cl.transport) (bad_transport cl.transport)
  guard (not (is_empty cl.token)) no_token
  guard (not (is_nil cl.services && is_nil cl.forwards)) no_mapping
  check_targets 0 cl.services
  check_forwards 0 cl.forwards

unfoldable pub validate_roles :
    Option ServerConfig → Option ClientConfig → Result ConfigError (Unit {0})
validate_roles none none = err no_section
validate_roles (some s) (some cl) = err both_sections
validate_roles (some s) none = validate_server s
validate_roles none (some cl) = validate_client cl

-- Config.Validate
unfoldable pub validate : Config → Result ConfigError (Unit {0})
unfolding validate_roles
validate c = validate_roles c.server c.client
