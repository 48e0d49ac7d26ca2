-- ===== src/Menu/Wizard/Pair.antt =====
-- internal/menu/wizard.go: the two files that wizard writes are a server and a client that fit.
use cando.Base.{
  ◌≡◌, ℕ, ◌≢◌, ◌⊎◌, inl, inr, refl, Bool-cases, ap, sym, subst, ◌∙◌, Bool, true, false, List, [],
  ◌∷◌, map, if◌then◌else◌, ◌==◌, arith, All,
}
use cando.Base.Bytes.{Bytes}
use cando.Base.Text.{is_empty, to_lower, lower_byte, trim_space, trim_left, trim_right, is_space}
use cando.Config.{ServerConfig, ClientConfig, ClientTarget, Forward, norm_proto}
use cando.Config.Shape.{
  IsProto, IsTransport, IsService, IsTarget, IsForward, IsServer, IsClient, Distinct, names,
}
use cando.Config.Normalize.{
  norm_server, norm_client, norm_service, norm_forward, norm_transport, or_text,
}
use cando.Menu.Mappings.{ServicePair}
use cando.Menu.Mappings.Complete.{IsMapped, IsServed}
use cando.Menu.Wizard.{WizardData}
use cando.Menu.Wizard.Answers.{HasMappings, IsReady}
use cando.Menu.Wizard.Reading.{
  written_server, written_client, written_service, written_target, written_forward, written_proto,
}

scenario_one : (n : ℕ) → n ≡ 1 → (n == 1) ≡ true
scenario_one n e = ground arith

scenario_not_two : (n : ℕ) → n ≡ 1 → (n == 2) ≡ false
scenario_not_two n e = ground arith

scenario_two : (n : ℕ) → n ≡ 2 → (n == 1) ≡ false
scenario_two n e = ground arith

scenario_is_two : (n : ℕ) → n ≡ 2 → (n == 2) ≡ true
scenario_is_two n e = ground arith

abbrev pub pair_names : List ServicePair → List Bytes
pair_names [] = []
pair_names (s ∷ rest) = s.name ∷ pair_names rest

abbrev pub target_names : List ClientTarget → List Bytes
target_names [] = []
target_names (s ∷ rest) = s.name ∷ target_names rest

-- The two ends speak the same carrier with the same secret and the same shards, every service of the
-- server has its target at the client, and the server lets the client's forwards through.
pub record IsPair (s : ServerConfig) (cl : ClientConfig) : Type 0 where
  pub transport : s.transport ≡ cl.transport
  pub token : s.token ≡ cl.token
  pub obfs : s.obfs ≡ cl.obfs
  pub ws_path : s.ws_path ≡ cl.ws_path
  pub kcp : s.kcp ≡ cl.kcp
  pub services : names s.services ≡ target_names cl.services
  pub allowed : cl.forwards ≢ [] → s.allow_forward ≡ true

norm_transport_lem : (t : Bytes) → IsTransport t → norm_transport t ≡ t
unfolding norm_transport or_text to_lower lower_byte trim_space trim_left trim_right is_space
    is_empty
norm_transport_lem t h = ground arith

norm_proto-IsProto : (p : Bytes) → IsProto (norm_proto (written_proto p))
unfolding norm_proto to_lower lower_byte trim_space trim_left trim_right is_space is_empty
norm_proto-IsProto p = ground arith

pub written_services :
    (l : List ServicePair) → names (map norm_service (map written_service l)) ≡ pair_names l
unfolding norm_service
written_services [] = refl
written_services (s ∷ l) = ap (◌∷◌ s.name) (written_services l)

written_targets : (l : List ServicePair) → target_names (map written_target l) ≡ pair_names l
written_targets [] = refl
written_targets (s ∷ l) = ap (◌∷◌ s.name) (written_targets l)

services-IsService :
    (l : List ServicePair)
    → All IsServed l
    → All IsService (map norm_service (map written_service l))
unfolding norm_service
services-IsService [] h = tt
services-IsService (s ∷ l) h =
    ((h.0.name.0, h.0.public_bind.0, norm_proto-IsProto s.protocol), services-IsService l h.1)

targets-IsTarget : (l : List ServicePair) → All IsServed l → All IsTarget (map written_target l)
targets-IsTarget [] h = tt
targets-IsTarget (s ∷ l) h = ((h.0.name.0, h.0.local_addr.0), targets-IsTarget l h.1)

forwards-IsForward :
    (l : List Forward) → All IsMapped l → All IsForward (map norm_forward (map written_forward l))
unfolding norm_forward
forwards-IsForward [] h = tt
forwards-IsForward (f ∷ l) h =
    ((h.0.local_addr.0, h.0.target_addr.0, norm_proto-IsProto f.protocol), forwards-IsForward l h.1)

-- The mappings of the two files, by the scenario.
if_services :
    (b : Bool) (l : List ServicePair)
    → All IsServed l
    → All IsService (map norm_service (if b then map written_service l else []))
if_services true l h = services-IsService l h
if_services false l h = tt

if_names :
    (b : Bool) (l : List ServicePair)
    → Distinct (pair_names l)
    → Distinct (names (map norm_service (if b then map written_service l else [])))
if_names true l h = subst Distinct (sym (written_services l)) h
if_names false l h = tt

pub written_server-IsServer :
    (d : WizardData)
    → IsReady d
    → Distinct (pair_names d.services)
    → IsServer (norm_server (written_server d))
unfolding norm_server
written_server-IsServer d h u = record {
  bound = λ e. cc;
  carried =
      subst IsTransport (sym (norm_transport_lem d.transport h.begun.carried)) h.begun.carried;
  secret = h.begun.token.0;
  services = if_services (d.scenario == 2) d.services h.begun.services;
  unique = if_names (d.scenario == 2) d.services u;
}

if_targets :
    (b : Bool) (l : List ServicePair)
    → All IsServed l
    → All IsTarget (if b then [] else map written_target l)
if_targets true l h = tt
if_targets false l h = targets-IsTarget l h

if_forwards :
    (b : Bool) (l : List Forward)
    → All IsMapped l
    → All IsForward (map norm_forward (if b then map written_forward l else []))
if_forwards true l h = forwards-IsForward l h
if_forwards false l h = tt

map-ne : {A : Type 0} {B : Type 0} (f : A → B) (l : List A) → l ≢ [] → map f l ≢ []
map-ne f [] h = absurd (h refl)
map-ne f (x ∷ l) h = λ e. cc

written_client-mapped :
    (d : WizardData)
    → HasMappings d
    → let cl = norm_client (written_client d) in (cl.services ≢ []) ⊎ (cl.forwards ≢ [])
unfolding norm_client
written_client-mapped d (inl (s, m)) =
    inr
      (rw (scenario_one d.scenario s) (map-ne norm_forward _ (map-ne written_forward d.forwards m)))
written_client-mapped d (inr (s, m)) =
    inl (rw (scenario_two d.scenario s) (map-ne written_target d.services m))

pub written_client-IsClient :
    (d : WizardData) → IsReady d → IsClient (norm_client (written_client d))
unfolding norm_client
written_client-IsClient d h = record {
  dialled = h.begun.dialled.0;
  carried =
      subst IsTransport (sym (norm_transport_lem d.transport h.begun.carried)) h.begun.carried;
  secret = h.begun.token.0;
  mapped = written_client-mapped d h.mapped;
  targets = if_targets (d.scenario == 1) d.services h.begun.services;
  forwards = if_forwards (d.scenario == 1) d.forwards h.begun.forwards;
}

written-names :
    (d : WizardData)
    → HasMappings d
    → names (norm_server (written_server d)).services
      ≡ target_names (norm_client (written_client d)).services
unfolding norm_server norm_client
written-names d (inl (s, m)) = rw (scenario_one d.scenario s, scenario_not_two d.scenario s) refl
written-names d (inr (s, m)) =
    rw (scenario_two d.scenario s, scenario_is_two d.scenario s)
      (written_services d.services ∙ sym (written_targets d.services))

pub written-IsPair :
    (d : WizardData)
    → HasMappings d
    → IsPair (norm_server (written_server d)) (norm_client (written_client d))
unfolding norm_server norm_client
written-IsPair d m = record {
  transport = refl;
  token = refl;
  obfs = refl;
  ws_path = refl;
  kcp = refl;
  services = written-names d m;
  allowed = λ n. elim (Bool-cases (d.scenario == 1)) [
    | inl e ↦ e
    | inr e ↦
        absurd (n (ap (λ b. map norm_forward (if b then map written_forward d.forwards else [])) e))
  ];
}
