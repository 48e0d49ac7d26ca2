-- ===== src/Menu/Wizard/Quoted.antt =====
-- internal/menu/wizard.go: the tables of the two files have names, keys and values that TOML takes.
use cando.Base.{
  Bool, true, false, List, [], ◌∷◌, ◌++◌, map, if◌then◌else◌, ◌==◌, arith, All, All-append,
}
use cando.Base.Bytes.{Bytes, text, bytes_eq}
use cando.Config.{Forward, is_tls, is_ws, is_udp, transport_tcp, transport_kcp}
use cando.Config.Shape.{IsTransport}
use cando.Config.Tags.Document.{IsPlain, IsBare, IsName, bare, dotted, IsPlainEntry, IsPlainTable}
use cando.Menu.Mappings.{ServicePair}
use cando.Menu.Mappings.Complete.{IsMapped, IsServed}
use cando.Menu.Wizard.{WizardData}
use cando.Menu.Wizard.Plain.{first_non_empty-IsPlain}
use cando.Menu.Wizard.Files.{
  when, tls_entries, kcp_table, mux_table, reconnect_table, log_table, udp_entry, ws_entries,
  obfs_entry, server_entries, server_service, tls_tables, kcp_tables, server_tables, client_entries,
  client_forward, client_service, client_tables,
}
use cando.Menu.Wizard.Answers.{IsReady}

transport-IsPlain : (t : Bytes) → IsTransport t → IsPlain t
transport-IsPlain t h = ground arith

module _ {A : Type 0} (P : A → Type 0) where
  when-All : (b : Bool) (xs : List A) → All P xs → All P (when b xs)
  unfolding when
  when-All true xs h = h
  when-All false xs h = tt

  pub if-All : (b : Bool) (xs ys : List A) → All P xs → All P ys → All P (if b then xs else ys)
  if-All true xs ys h k = h
  if-All false xs ys h k = k

kcp_table_plain : (section : Bytes) → IsName section → IsPlainTable (kcp_table section)
unfolding kcp_table
kcp_table_plain section h = (h, omega arith)

mux_table_plain : (section : Bytes) → IsName section → IsPlainTable (mux_table section)
unfolding mux_table
mux_table_plain section h = (h, omega arith)

-- The names of the tables of a role.
server-IsName : (a : Bytes) → IsBare a → IsName (text "server" ++ text "." ++ a)
server-IsName a h = dotted (text "server") a (omega arith) h

client-IsName : (a : Bytes) → IsBare a → IsName (text "client" ++ text "." ++ a)
client-IsName a h = dotted (text "client") a (omega arith) h

reconnect_table_plain : IsPlainTable reconnect_table
reconnect_table_plain = (client-IsName (text "reconnect") (omega arith), omega arith)

log_table_plain : IsPlainTable log_table
log_table_plain = (bare (text "log") (omega arith), omega arith)

example-IsPlain : IsPlain (text "www.example.com")
example-IsPlain = omega arith

udp_entry_plain : (p : Bytes) → All IsPlainEntry (udp_entry p)
unfolding udp_entry
udp_entry_plain p = when-All IsPlainEntry (is_udp p) _ (omega arith)

obfs_entry_plain : (d : WizardData) → All IsPlainEntry (obfs_entry d)
unfolding obfs_entry
obfs_entry_plain d =
    when-All IsPlainEntry (bytes_eq d.transport transport_tcp) _ ((omega arith, tt), tt)

ws_entries_plain : (d : WizardData) → IsReady d → All IsPlainEntry (ws_entries d)
unfolding ws_entries
ws_entries_plain d h =
    let path = first_non_empty-IsPlain d.ws_path (text "/cando") h.begun.ws_path (omega arith) in
    let host = first_non_empty-IsPlain d.host d.sni h.begun.host h.begun.sni in
    when-All IsPlainEntry (is_ws d.transport) _ ((omega arith, path), ((omega arith, host), tt))

services_plain : (l : List ServicePair) → All IsServed l → All IsPlainTable (map server_service l)
unfolding server_service
services_plain [] h = tt
services_plain (s ∷ l) h = (
  (
    server-IsName (text "services") (omega arith),
    (
      (omega arith, h.0.name.1),
      All-append IsPlainEntry (udp_entry s.protocol) _ (udp_entry_plain s.protocol)
          ((omega arith, h.0.public_bind.1), tt),
    ),
  ),
  services_plain l h.1,
)

targets_plain : (l : List ServicePair) → All IsServed l → All IsPlainTable (map client_service l)
unfolding client_service
targets_plain [] h = tt
targets_plain (s ∷ l) h = (
  (
    client-IsName (text "services") (omega arith),
    ((omega arith, h.0.name.1), ((omega arith, h.0.local_addr.1), tt)),
  ),
  targets_plain l h.1,
)

forwards_plain : (l : List Forward) → All IsMapped l → All IsPlainTable (map client_forward l)
unfolding client_forward
forwards_plain [] h = tt
forwards_plain (f ∷ l) h = (
  (
    client-IsName (text "forwards") (omega arith),
    (
      (omega arith, h.0.name.1),
      All-append IsPlainEntry (udp_entry f.protocol) _ (udp_entry_plain f.protocol)
          ((omega arith, h.0.local_addr.1), ((omega arith, h.0.target_addr.1), tt)),
    ),
  ),
  forwards_plain l h.1,
)

bind-IsPlain : (port : Bytes) → IsPlain port → IsPlain (text "0.0.0.0:" ++ port)
bind-IsPlain port h = All-append _ (text "0.0.0.0:") port (omega arith) h

server_entries_plain : (d : WizardData) → IsReady d → All IsPlainEntry (server_entries d)
unfolding server_entries
server_entries_plain d h = (
  (omega arith, bind-IsPlain d.bind_port h.begun.port),
  (
    (omega arith, transport-IsPlain d.transport h.begun.carried),
    (
      (omega arith, h.begun.token.1),
      All-append IsPlainEntry (obfs_entry d) _ (obfs_entry_plain d)
          (All-append IsPlainEntry (ws_entries d) _ (ws_entries_plain d h) ((omega arith, tt), tt)),
    ),
  ),
)

kcp_tables_plain :
    (d : WizardData) (section : Bytes) → IsName section → All IsPlainTable (kcp_tables d section)
unfolding kcp_tables
kcp_tables_plain d section h =
    when-All IsPlainTable (bytes_eq d.transport transport_kcp) _ (kcp_table_plain section h, tt)

tls_tables_plain : (d : WizardData) → IsReady d → All IsPlainTable (tls_tables d)
unfolding tls_tables
tls_tables_plain d h =
    let name = first_non_empty-IsPlain d.sni _ h.begun.sni example-IsPlain in
    when-All IsPlainTable (is_tls d.transport) _ (
      (
        server-IsName (text "tls") (omega arith),
        (omega arith, ((omega arith, name), ((omega arith, tt), ((omega arith, tt), tt)))),
      ),
      tt,
    )

pub server_tables_plain : (d : WizardData) → IsReady d → All IsPlainTable (server_tables d)
unfolding server_tables
server_tables_plain d h =
    let kcp = kcp_tables_plain d (text "server.kcp") (server-IsName (text "kcp") (omega arith)) in
    (
      log_table_plain,
      (
        (bare (text "server") (omega arith), server_entries_plain d h),
        All-append IsPlainTable (tls_tables d) _ (tls_tables_plain d h) (
            All-append IsPlainTable (kcp_tables d (text "server.kcp")) _ kcp (
              mux_table_plain (text "server.mux") (server-IsName (text "mux") (omega arith)),
              when-All IsPlainTable (d.scenario == 2) _
                  (services_plain d.services h.begun.services),
            )),
      ),
    )

chrome-IsPlain : IsPlain (text "chrome")
chrome-IsPlain = omega arith

tls_entries_plain : (d : WizardData) → IsReady d → All IsPlainEntry (tls_entries d)
unfolding tls_entries
tls_entries_plain d h =
    let sni = first_non_empty-IsPlain d.sni _ h.begun.sni example-IsPlain in
    let print = first_non_empty-IsPlain d.fingerprint _ h.begun.fingerprint chrome-IsPlain in
    when-All IsPlainEntry (is_tls d.transport) _
      ((omega arith, sni), ((omega arith, print), ((omega arith, tt), tt)))

client_entries_plain : (d : WizardData) → IsReady d → All IsPlainEntry (client_entries d)
unfolding client_entries
client_entries_plain d h = (
  (omega arith, h.begun.dialled.1),
  (
    (omega arith, transport-IsPlain d.transport h.begun.carried),
    (
      (omega arith, h.begun.token.1),
      (
        (omega arith, tt),
        All-append IsPlainEntry (tls_entries d) _ (tls_entries_plain d h)
            (All-append IsPlainEntry (ws_entries d) _ (ws_entries_plain d h) (obfs_entry_plain d)),
      ),
    ),
  ),
)

pub client_tables_plain : (d : WizardData) → IsReady d → All IsPlainTable (client_tables d)
unfolding client_tables
client_tables_plain d h =
    let kcp = kcp_tables_plain d (text "client.kcp") (client-IsName (text "kcp") (omega arith)) in
    (
      log_table_plain,
      (
        (bare (text "client") (omega arith), client_entries_plain d h),
        All-append IsPlainTable (kcp_tables d (text "client.kcp")) _ kcp (
          mux_table_plain (text "client.mux") (client-IsName (text "mux") (omega arith)),
          (
            reconnect_table_plain,
            if-All IsPlainTable (d.scenario == 1) _ _ (forwards_plain d.forwards h.begun.forwards)
                (targets_plain d.services h.begun.services),
          ),
        ),
      ),
    )
