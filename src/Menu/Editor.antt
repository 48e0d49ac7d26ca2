-- ===== src/Menu/Editor.antt =====
-- internal/menu/manage.go: editServer, editClient and editTunnel. An editor has fuel for its
-- commands, each of which takes a line at least.
use cando.Base.{
  ◌+◌, ℕ, zero, suc, ◌||◌, Bool, true, false, not, Option, none, some, [], ◌∷◌, ◌++◌, if◌then◌else◌,
  Result, ok, err, length,
}
use cando.Base.Bytes.{Bytes, text, bytes_eq}
use cando.Base.Text.{is_empty, to_lower, trim_space}
use cando.Base.Decimal.{itoa}
use cando.Config.{Config, ServerConfig, ClientConfig, Service, Forward}
use cando.Config.Load.{LoadError, load}
use cando.Config.Validate.{ConfigError, validate}
use cando.Menu.{Input, ask, ask_default, ask_required, ask_yes_no, ask_proto, pick_index, delete_at}

pub data Command : Type 0 where
  add_forward delete_forward add_reverse delete_reverse : Command
  add_service delete_service toggle_forward done unknown : Command

-- The switch of editClient.
unfoldable pub client_command : Bytes → Command
client_command c =
    if bytes_eq c (text "af")
    then add_forward
    else if bytes_eq c (text "df")
    then delete_forward
    else if bytes_eq c (text "ar")
    then add_reverse
    else if bytes_eq c (text "dr")
    then delete_reverse
    else if bytes_eq c (text "q") || is_empty c
    then done
    else unknown

-- The switch of editServer.
unfoldable pub server_command : Bytes → Command
server_command c =
    if bytes_eq c (text "as")
    then add_service
    else if bytes_eq c (text "ds")
    then delete_service
    else if bytes_eq c (text "tf")
    then toggle_forward
    else if bytes_eq c (text "q") || is_empty c
    then done
    else unknown

-- Why an editor does not come back: it asks for ever, or its fuel is used up.
pub data Stuck : Type 0 where
  asks_for_ever out_of_fuel : Stuck

-- The forward that is added to a list of `n`.
unfoldable pub new_forward : ℕ → Input → Forward × Input
new_forward n input =
    let name = ask_default (text "svc" ++ itoa (n + 1)) input in
    let proto = ask_proto name.1 in
    let local = ask_default (text "0.0.0.0:1080") proto.1 in
    let target = ask_default (text "127.0.0.1:1080") local.1 in
    (
      record { name = name.0; protocol = proto.0; local_addr = local.0; target_addr = target.0 },
      target.1,
    )

unfoldable pub forward_added : ClientConfig → Input → ClientConfig × Input
forward_added cl input =
    let f = new_forward (length cl.forwards) input in
    (record cl { forwards = cl.forwards ++ (f.0 ∷ []) }, f.1)

unfoldable pub new_service : Bytes → Input → Service × Input
new_service name input =
    let proto = ask_proto input in
    let bind = ask_default (text "0.0.0.0:8443") proto.1 in
    (record { name = name; protocol = proto.0; bind_addr = bind.0 }, bind.1)

unfoldable pub reverse_named : ClientConfig → Option (Bytes × Input) → Option (ClientConfig × Input)
reverse_named cl none = none
reverse_named cl (some (name, input)) =
    let local = ask_default (text "127.0.0.1:8443") input in
    some (
      record cl { services = cl.services ++ (record { name = name; local_addr = local.0 } ∷ []) },
      local.1,
    )

unfoldable pub service_named : ServerConfig → Option (Bytes × Input) → Option (ServerConfig × Input)
service_named s none = none
service_named s (some (name, input)) =
    let v = new_service name input in some (record s { services = s.services ++ (v.0 ∷ []) }, v.1)

unfoldable pub forward_deleted : ClientConfig → Input → ClientConfig × Input
forward_deleted cl input =
    let r = pick_index (length cl.forwards) input in
    (record cl { forwards = delete_at cl.forwards r.0 }, r.1)

unfoldable pub reverse_deleted : ClientConfig → Input → ClientConfig × Input
reverse_deleted cl input =
    let r = pick_index (length cl.services) input in
    (record cl { services = delete_at cl.services r.0 }, r.1)

unfoldable pub service_deleted : ServerConfig → Input → ServerConfig × Input
service_deleted s input =
    let r = pick_index (length s.services) input in
    (record s { services = delete_at s.services r.0 }, r.1)

-- The edited section and the input that is left, or the end of the editor.
unfoldable pub client_step : Command → ClientConfig → Input → Option (ClientConfig × Input)
client_step add_forward cl input = some (forward_added cl input)
client_step delete_forward cl input = some (forward_deleted cl input)
client_step add_reverse cl input = reverse_named cl (ask_required input)
client_step delete_reverse cl input = some (reverse_deleted cl input)
client_step add_service cl input = some (cl, input)
client_step delete_service cl input = some (cl, input)
client_step toggle_forward cl input = some (cl, input)
client_step done cl input = some (cl, input)
client_step unknown cl input = some (cl, input)

unfoldable pub server_step : Command → ServerConfig → Input → Option (ServerConfig × Input)
server_step add_service s input = service_named s (ask_required input)
server_step delete_service s input = some (service_deleted s input)
server_step toggle_forward s input = some (record s { allow_forward = not s.allow_forward }, input)
server_step add_forward s input = some (s, input)
server_step delete_forward s input = some (s, input)
server_step add_reverse s input = some (s, input)
server_step delete_reverse s input = some (s, input)
server_step done s input = some (s, input)
server_step unknown s input = some (s, input)

unfoldable pub is_done : Command → Bool
is_done done = true
is_done c = false

module _ {A : Type 0} where
  -- The end of an editor's turn; `again` is the turns that follow.
  unfoldable pub turn :
      (A → Input → Result Stuck (A × Input)) → Bool → Option (A × Input) → Result Stuck (A × Input)
  turn again last none = err asks_for_ever
  turn again true (some r) = ok r
  turn again false (some (a, input)) = again a input

  -- The loop of an editor.
  unfoldable pub edit :
      (Bytes → Command)
      → (Command → A → Input → Option (A × Input))
      → ℕ
      → A
      → Input
      → Result Stuck (A × Input)
  edit command_of step zero a input = err out_of_fuel
  edit command_of step (suc f) a input =
      let c = command_of (to_lower (trim_space (ask input).0)) in
      turn (edit command_of step f) (is_done c) (step c a (ask input).1)

-- editClient and editServer
unfoldable pub edit_client : ClientConfig → Input → Result Stuck (ClientConfig × Input)
edit_client cl input = edit client_command client_step (suc (length input)) cl input

unfoldable pub edit_server : ServerConfig → Input → Result Stuck (ServerConfig × Input)
edit_server s input = edit server_command server_step (suc (length input)) s input

-- What editTunnel comes to: `saved` is the configuration that it gives to saveConfig.
pub data Edited : Type 0 where
  not_loaded : LoadError → Edited
  stuck : Stuck → Edited
  no_role discarded : Edited
  invalid : ConfigError → Edited
  saved : Config → Edited

unfoldable pub confirmed : Config → Input → Result ConfigError (Unit {0}) → Edited
confirmed c input (err e) = invalid e
confirmed c input (ok u) = if (ask_yes_no true input).0 then saved c else discarded

unfoldable pub server_edited : Config → Result Stuck (ServerConfig × Input) → Edited
server_edited c (err e) = stuck e
server_edited c (ok (s, input)) =
    let d = record c { server = some s } in confirmed d input (validate d)

unfoldable pub client_edited : Config → Result Stuck (ClientConfig × Input) → Edited
client_edited c (err e) = stuck e
client_edited c (ok (cl, input)) =
    let d = record c { client = some cl } in confirmed d input (validate d)

unfoldable pub edit_role : Config → Option ServerConfig → Option ClientConfig → Input → Edited
edit_role c (some s) cl input = server_edited c (edit_server s input)
edit_role c none (some cl) input = client_edited c (edit_client cl input)
edit_role c none none input = no_role

unfoldable pub edit_loaded : Result LoadError Config → Input → Edited
edit_loaded (err e) input = not_loaded e
edit_loaded (ok c) input = edit_role c c.server c.client input

-- editTunnel, without the restart that it offers: the decoder, the files, and the input.
unfoldable pub edit_tunnel : (Bytes → Option Config) → (Bytes → Option Bytes) → Input → Edited
edit_tunnel unmarshal files input =
    let path = ask_default (text "cando1-server.toml") input in
    edit_loaded (load unmarshal (files path.0)) path.1
