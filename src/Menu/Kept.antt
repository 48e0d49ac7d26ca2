-- ===== src/Menu/Kept.antt =====
-- internal/menu/manage.go: a section that is its own normal form stays so in the editors.
use cando.Base.Decimal.{itoa}
use cando.Base.{
  ◌+◌, ℕ, zero, suc, ◌≡◌, refl, ap, ◌∙◌, Bool, true, false, not, Option, none, some, List, [], ◌∷◌,
  ◌++◌, map, All, Result, ok, err, length, if◌then◌else◌,
}
use cando.Base.Bytes.{Bytes, text, bytes_eq}
use cando.Base.Int.{ℤ, pos, negsuc}
use cando.Base.Text.{is_empty, to_lower, lower_byte, trim_space, trim_left, trim_right, is_space}
use cando.Config.{
  ServerConfig, ClientConfig, Service, Forward, ClientTarget, norm_proto, proto_udp, proto_tcp,
}
use cando.Config.Normalize.{norm_server, norm_client, norm_service, norm_forward}
use cando.Menu.{Input, ask, ask_default, ask_proto, pick_index, delete_at, remove_at, ask_required}
use cando.Menu.Editor.{
  new_forward, new_service, Command, add_forward, delete_forward, add_reverse, delete_reverse,
  add_service, delete_service, toggle_forward, done, unknown, Stuck, forward_added, reverse_named,
  service_named, forward_deleted, reverse_deleted, service_deleted, client_step, server_step, turn,
  edit, is_done,
}

module _ {A : Type 0} (f : A → A) where
  abbrev pub Fixed : List A → Type 0
  Fixed xs = All (λ x. f x ≡ x) xs

  map-Fixed : (xs : List A) → Fixed xs → map f xs ≡ xs
  map-Fixed [] h = refl
  map-Fixed (x ∷ xs) h = cc (h.0, map-Fixed xs h.1)

  Fixed-map : (xs : List A) → map f xs ≡ xs → Fixed xs
  Fixed-map [] h = tt
  Fixed-map (x ∷ xs) h = (cc h, Fixed-map xs (cc h))

  append-Fixed : (xs : List A) (y : A) → Fixed xs → f y ≡ y → Fixed (xs ++ (y ∷ []))
  append-Fixed [] y h e = (e, tt)
  append-Fixed (x ∷ xs) y h e = (h.0, append-Fixed xs y h.1 e)

  remove_at-Fixed : (n : ℕ) (xs : List A) → Fixed xs → Fixed (remove_at n xs)
  unfolding remove_at
  remove_at-Fixed zero [] h = h
  remove_at-Fixed (suc n) [] h = h
  remove_at-Fixed zero (x ∷ xs) h = h.1
  remove_at-Fixed (suc n) (x ∷ xs) h = (h.0, remove_at-Fixed n xs h.1)

  delete_at-Fixed : (xs : List A) (i : ℤ) → Fixed xs → Fixed (delete_at xs i)
  unfolding delete_at
  delete_at-Fixed xs (negsuc i) h = h
  delete_at-Fixed xs (pos i) h = remove_at-Fixed i xs h

module _ {A : Type 0} (P : A → Type 0) where
  abbrev pub Keeps : Option (A × Input) → Type 0
  Keeps none = Unit
  Keeps (some r) = P r.0

  abbrev pub Ends : Result Stuck (A × Input) → Type 0
  Ends (err e) = Unit
  Ends (ok r) = P r.0

  turn-Ends :
      (again : A → Input → Result Stuck (A × Input)) (last : Bool) (o : Option (A × Input))
      → Keeps o
      → ((a : A) (input : Input) → P a → Ends (again a input))
      → Ends (turn again last o)
  unfolding turn
  turn-Ends again last none k h = tt
  turn-Ends again true (some r) k h = k
  turn-Ends again false (some (a, input)) k h = h a input k

  -- What every command keeps, the editor keeps.
  pub edit-Ends :
      (command_of : Bytes → Command) (step : Command → A → Input → Option (A × Input)) (f : ℕ)
      (a : A) (input : Input)
      → ((c : Command) (a : A) (input : Input) → P a → Keeps (step c a input))
      → P a
      → Ends (edit command_of step f a input)
  unfolding edit
  edit-Ends command_of step zero a input k p = tt
  edit-Ends command_of step (suc f) a input k p =
      let c = command_of (to_lower (trim_space (ask input).0)) in
      turn-Ends (edit command_of step f) (is_done c) (step c a (ask input).1)
        (k c a (ask input).1 p) (λ b rest q. edit-Ends command_of step f b rest k q)

proto-norm_proto :
    (b : Bool)
    → norm_proto (if b then proto_udp else proto_tcp) ≡ (if b then proto_udp else proto_tcp)
unfolding norm_proto is_empty to_lower lower_byte trim_space trim_left trim_right is_space
proto-norm_proto true = refl
proto-norm_proto false = refl

ask_proto-norm_proto : (input : Input) → norm_proto (ask_proto input).0 ≡ (ask_proto input).0
unfolding ask_proto
ask_proto-norm_proto input =
    proto-norm_proto (bytes_eq (to_lower (trim_space (ask_default (text "tcp") input).0)) proto_udp)

-- The section is its own normal form.
abbrev pub IsSettledServer : ServerConfig → Type 0
IsSettledServer s = norm_server s ≡ s

abbrev pub IsSettledClient : ClientConfig → Type 0
IsSettledClient cl = norm_client cl ≡ cl

with_services :
    (s : ServerConfig) (xs : List Service)
    → IsSettledServer s
    → Fixed norm_service xs
    → IsSettledServer (record s { services = xs })
unfolding norm_server
with_services s xs e h =
    ap {A = ServerConfig} (λ t. record t { services = map norm_service xs }) e
    ∙ ap {B = ServerConfig} (λ ys. record s { services = ys }) (map-Fixed norm_service xs h)

services-Fixed : (s : ServerConfig) → IsSettledServer s → Fixed norm_service s.services
unfolding norm_server
services-Fixed s e = Fixed-map norm_service s.services (ap (λ t. t.services) e)

with_forwards :
    (cl : ClientConfig) (xs : List Forward)
    → IsSettledClient cl
    → Fixed norm_forward xs
    → IsSettledClient (record cl { forwards = xs })
unfolding norm_client
with_forwards cl xs e h =
    ap {A = ClientConfig} (λ t. record t { forwards = map norm_forward xs }) e
    ∙ ap {B = ClientConfig} (λ ys. record cl { forwards = ys }) (map-Fixed norm_forward xs h)

forwards-Fixed : (cl : ClientConfig) → IsSettledClient cl → Fixed norm_forward cl.forwards
unfolding norm_client
forwards-Fixed cl e = Fixed-map norm_forward cl.forwards (ap (λ t. t.forwards) e)

with_targets :
    (cl : ClientConfig) (xs : List ClientTarget)
    → IsSettledClient cl
    → IsSettledClient (record cl { services = xs })
unfolding norm_client
with_targets cl xs e = ap {A = ClientConfig} (λ t. record t { services = xs }) e

with_allowed :
    (s : ServerConfig) (b : Bool)
    → IsSettledServer s
    → IsSettledServer (record s { allow_forward = b })
unfolding norm_server
with_allowed s b e = ap {A = ServerConfig} (λ t. record t { allow_forward = b }) e

new_service-Fixed :
    (name : Bytes) (input : Input)
    → norm_service (new_service name input).0 ≡ (new_service name input).0
unfolding norm_service new_service
new_service-Fixed name input =
    let bind = (ask_default (text "0.0.0.0:8443") (ask_proto input).1).0 in
    ap {B = Service} (λ p. record { name = name; protocol = p; bind_addr = bind })
      (ask_proto-norm_proto input)

new_forward-Fixed :
    (n : ℕ) (input : Input) → norm_forward (new_forward n input).0 ≡ (new_forward n input).0
unfolding norm_forward new_forward
new_forward-Fixed n input =
    let name = ask_default (text "svc" ++ itoa (n + 1)) input in
    let local = ask_default (text "0.0.0.0:1080") (ask_proto name.1).1 in
    let target = (ask_default (text "127.0.0.1:1080") local.1).0 in
    ap {B = Forward}
      (λ p. record { name = name.0; protocol = p; local_addr = local.0; target_addr = target })
      (ask_proto-norm_proto name.1)

forward_added-settled :
    (cl : ClientConfig) (input : Input)
    → IsSettledClient cl
    → IsSettledClient (forward_added cl input).0
unfolding forward_added
forward_added-settled cl input e =
    with_forwards cl (cl.forwards ++ ((new_forward (length cl.forwards) input).0 ∷ [])) e (
      append-Fixed norm_forward cl.forwards (new_forward (length cl.forwards) input).0
        (forwards-Fixed cl e) (new_forward-Fixed (length cl.forwards) input))

service_named-settled :
    (s : ServerConfig) (o : Option (Bytes × Input))
    → IsSettledServer s
    → Keeps IsSettledServer (service_named s o)
unfolding service_named
service_named-settled s none e = tt
service_named-settled s (some (name, input)) e =
    with_services s (s.services ++ ((new_service name input).0 ∷ [])) e (
      append-Fixed norm_service s.services (new_service name input).0 (services-Fixed s e)
        (new_service-Fixed name input))

pub server_step-settled :
    (c : Command) (s : ServerConfig) (input : Input)
    → IsSettledServer s
    → Keeps IsSettledServer (server_step c s input)
unfolding server_step service_deleted
server_step-settled add_service s input e = service_named-settled s (ask_required input) e
server_step-settled delete_service s input e = with_services s _ e (
    delete_at-Fixed norm_service s.services (pick_index (length s.services) input).0
      (services-Fixed s e))
server_step-settled toggle_forward s input e = with_allowed s (not s.allow_forward) e
server_step-settled add_forward s input e = e
server_step-settled delete_forward s input e = e
server_step-settled add_reverse s input e = e
server_step-settled delete_reverse s input e = e
server_step-settled done s input e = e
server_step-settled unknown s input e = e

reverse_named-settled :
    (cl : ClientConfig) (o : Option (Bytes × Input))
    → IsSettledClient cl
    → Keeps IsSettledClient (reverse_named cl o)
unfolding reverse_named
reverse_named-settled cl none e = tt
reverse_named-settled cl (some (name, input)) e =
    with_targets cl
      (cl.services
        ++ (record { name = name; local_addr = (ask_default (text "127.0.0.1:8443") input).0 }
            ∷ []))
      e

pub client_step-settled :
    (c : Command) (cl : ClientConfig) (input : Input)
    → IsSettledClient cl
    → Keeps IsSettledClient (client_step c cl input)
unfolding client_step forward_deleted reverse_deleted
client_step-settled add_forward cl input e = forward_added-settled cl input e
client_step-settled delete_forward cl input e = with_forwards cl _ e (
    delete_at-Fixed norm_forward cl.forwards (pick_index (length cl.forwards) input).0
      (forwards-Fixed cl e))
client_step-settled add_reverse cl input e = reverse_named-settled cl (ask_required input) e
client_step-settled delete_reverse cl input e =
    with_targets cl (delete_at cl.services (pick_index (length cl.services) input).0) e
client_step-settled add_service cl input e = e
client_step-settled delete_service cl input e = e
client_step-settled toggle_forward cl input e = e
client_step-settled done cl input e = e
client_step-settled unknown cl input e = e
