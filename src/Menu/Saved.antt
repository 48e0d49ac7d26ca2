-- ===== src/Menu/Saved.antt =====
-- internal/menu/manage.go: what editTunnel saves, Load returns again.
use cando.Base.{subst, suc, ◌≡◌, refl, ap, ◌∙◌, Option, none, some, Result, ok, err, arith, length}
use cando.Base.Bytes.{Bytes, text}
use cando.Config.{Config, ServerConfig, ClientConfig}
use cando.Config.Normalize.{normalize, norm_server, norm_client, option_map}
use cando.Config.Load.{LoadError, load, load_config_ok, load_decoded, load-IsLoaded}
use cando.Config.Validate.{ConfigError, validate}
use cando.Menu.{Input, ask_default}
use cando.Menu.Editor.{
  client_command, server_command, Stuck, client_step, server_step, edit_client, edit_server, saved,
  confirmed, server_edited, client_edited, edit_role, edit_loaded, edit_tunnel,
}
use cando.Menu.Kept.{
  Ends, edit-Ends, IsSettledServer, IsSettledClient, server_step-settled, client_step-settled,
}

-- What is saved was accepted by Validate.
confirmed-saved :
    (d c : Config) (input : Input) (r : Result ConfigError (Unit {0}))
    → validate d ≡ r
    → confirmed d input r ≡ saved c
    → (d ≡ c) × (validate d ≡ ok tt)
unfolding confirmed
confirmed-saved d c input (err e) v h = absurd (ground arith)
confirmed-saved d c input (ok u) v h = (ground arith, v)

-- A part that is its own normal form, in a configuration that is.
settled_with_server :
    (c : Config) (s : ServerConfig)
    → normalize c ≡ c
    → IsSettledServer s
    → normalize (record c { server = some s }) ≡ record c { server = some s }
unfolding normalize option_map
settled_with_server c s e h =
    ap {A = Config} (λ k. record k { server = some (norm_server s) }) e
    ∙ ap {B = Config} (λ t. record c { server = some t }) h

settled_with_client :
    (c : Config) (cl : ClientConfig)
    → normalize c ≡ c
    → IsSettledClient cl
    → normalize (record c { client = some cl }) ≡ record c { client = some cl }
unfolding normalize option_map
settled_with_client c cl e h =
    ap {A = Config} (λ k. record k { client = some (norm_client cl) }) e
    ∙ ap {B = Config} (λ t. record c { client = some t }) h

settled_server :
    (c : Config) (s : ServerConfig) → normalize c ≡ c → c.server ≡ some s → IsSettledServer s
unfolding normalize option_map
settled_server c s e h = cc (ap (λ k. k.server) e, ap (option_map norm_server) h, h)

settled_client :
    (c : Config) (cl : ClientConfig) → normalize c ≡ c → c.client ≡ some cl → IsSettledClient cl
unfolding normalize option_map
settled_client c cl e h = cc (ap (λ k. k.client) e, ap (option_map norm_client) h, h)

-- What the configuration that is saved is good for.
abbrev IsAccepted : Config → Type 0
IsAccepted d = (normalize d ≡ d) × (validate d ≡ ok tt)

confirmed-IsAccepted :
    (d c : Config) (input : Input)
    → normalize d ≡ d
    → confirmed d input (validate d) ≡ saved c
    → IsAccepted c
confirmed-IsAccepted d c input e h =
    let (f, v) = confirmed-saved d c input (validate d) refl h in subst IsAccepted f (e, v)

server_edited-IsAccepted :
    (c d : Config) (r : Result Stuck (ServerConfig × Input))
    → normalize c ≡ c
    → Ends IsSettledServer r
    → server_edited c r ≡ saved d
    → IsAccepted d
unfolding server_edited
server_edited-IsAccepted c d (err x) e k h = absurd (ground arith)
server_edited-IsAccepted c d (ok (s, input)) e k h =
    confirmed-IsAccepted (record c { server = some s }) d input (settled_with_server c s e k) h

client_edited-IsAccepted :
    (c d : Config) (r : Result Stuck (ClientConfig × Input))
    → normalize c ≡ c
    → Ends IsSettledClient r
    → client_edited c r ≡ saved d
    → IsAccepted d
unfolding client_edited
client_edited-IsAccepted c d (err x) e k h = absurd (ground arith)
client_edited-IsAccepted c d (ok (cl, input)) e k h =
    confirmed-IsAccepted (record c { client = some cl }) d input (settled_with_client c cl e k) h

edit_role-IsAccepted :
    (c d : Config) (s : Option ServerConfig) (cl : Option ClientConfig) (input : Input)
    → normalize c ≡ c
    → c.server ≡ s
    → c.client ≡ cl
    → edit_role c s cl input ≡ saved d
    → IsAccepted d
unfolding edit_role edit_server edit_client
edit_role-IsAccepted c d (some s) cl input e f g h =
    server_edited-IsAccepted c d (edit_server s input) e
      (edit-Ends IsSettledServer server_command server_step (suc (length input)) s input
        server_step-settled (settled_server c s e f))
      h
edit_role-IsAccepted c d none (some cl) input e f g h =
    client_edited-IsAccepted c d (edit_client cl input) e
      (edit-Ends IsSettledClient client_command client_step (suc (length input)) cl input
        client_step-settled (settled_client c cl e g))
      h
edit_role-IsAccepted c d none none input e f g h = absurd (ground arith)

edit_loaded-IsAccepted :
    (unmarshal : Bytes → Option Config) (file : Option Bytes) (d : Config)
    (r : Result LoadError Config) (input : Input)
    → load unmarshal file ≡ r
    → edit_loaded r input ≡ saved d
    → IsAccepted d
unfolding edit_loaded
edit_loaded-IsAccepted unmarshal file d (err e) input l h = absurd (ground arith)
edit_loaded-IsAccepted unmarshal file d (ok c) input l h =
    edit_role-IsAccepted c d c.server c.client input (load-IsLoaded unmarshal file c l).settled refl
      refl h

accepted_load :
    (unmarshal : Bytes → Option Config) (bytes : Bytes) (c : Config)
    → unmarshal bytes ≡ some c
    → IsAccepted c
    → load unmarshal (some bytes) ≡ ok c
unfolding load load_decoded
accepted_load unmarshal bytes c u (e, v) = rw u (load_config_ok c (ap validate e ∙ v) ∙ ap ok e)

-- A configuration that editTunnel saves, Load returns again just as it was edited, if the decoder
-- reads back what the encoder wrote for it.
pub edit_tunnel-load :
    (unmarshal : Bytes → Option Config) (marshal : Config → Bytes) (files : Bytes → Option Bytes)
    (input : Input) (c : Config)
    → unmarshal (marshal c) ≡ some c
    → edit_tunnel unmarshal files input ≡ saved c
    → load unmarshal (some (marshal c)) ≡ ok c
unfolding edit_tunnel
edit_tunnel-load unmarshal marshal files input c u h =
    let path = ask_default (text "cando1-server.toml") input in
    accepted_load unmarshal (marshal c) c u (
      edit_loaded-IsAccepted unmarshal (files path.0) c (load unmarshal (files path.0)) path.1 refl
        h)
