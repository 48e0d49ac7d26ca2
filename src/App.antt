-- ===== src/App.antt =====
-- internal/app/app.go: RunConfig's choice of a role, and internal/xlog/xlog.go: the level that it
-- sets. NewClient's choice of a dialer is a parameter.
pub mod Roles
use cando.Base.{
  ℕ, Bool, true, false, not, ◌||◌, Option, some, none, ltb, if◌then◌else◌, Result, ok, err,
}
use cando.Base.Bytes.{Bytes, text, bytes_eq}
use cando.Base.Text.{to_lower, trim_space}
use cando.Config.{Config, ServerConfig, ClientConfig}

-- Level
pub data Level : Type 0 where
  debug info warn error_ silent : Level

unfoldable pub rank : Level → ℕ
rank debug = 0
rank info = 1
rank warn = 2
rank error_ = 3
rank silent = 4

unfoldable pub level_named : Bytes → Level
level_named s =
    if bytes_eq s (text "debug") || bytes_eq s (text "trace")
    then debug
    else if bytes_eq s (text "warn") || bytes_eq s (text "warning")
    then warn
    else if bytes_eq s (text "error") || bytes_eq s (text "err")
    then error_
    else if bytes_eq s (text "silent") || bytes_eq s (text "off") || bytes_eq s (text "none")
    then silent
    else info

-- SetLevel
unfoldable pub set_level : Bytes → Level
unfolding level_named
set_level s = level_named (to_lower (trim_space s))

-- Whether emit writes a line of a level.
unfoldable pub emits : Level → Level → Bool
unfolding rank
emits cur l = not (ltb (rank l) (rank cur))

pub data RunError : Type 0 where
  no_dialer no_role : RunError

-- What is run.
pub data Runnable : Type 0 where
  server : ServerConfig → Runnable
  client : ClientConfig → Runnable

-- The client, if NewClient gives one.
unfoldable pub run_client : (ClientConfig → Bool) → Option ClientConfig → Result RunError Runnable
run_client dialer none = err no_role
run_client dialer (some cl) = if dialer cl then ok (client cl) else err no_dialer

unfoldable pub role_of :
    (ClientConfig → Bool) → Option ServerConfig → Option ClientConfig → Result RunError Runnable
unfolding run_client
role_of dialer (some s) cl = ok (server s)
role_of dialer none cl = run_client dialer cl

-- RunConfig: the level that is set, and what is run.
unfoldable pub run_config : (ClientConfig → Bool) → Config → Level × Result RunError Runnable
unfolding set_level role_of
run_config dialer c = (set_level c.log.level, role_of dialer c.server c.client)
