-- ===== src/App/Roles.antt =====
-- What internal/app/app.go runs of a configuration that internal/config/config.go accepts.
use cando.Base.{
  ◌≡◌, refl, ◌⊎◌, inl, inr, Bool, true, false, Bool-cases, Option, some, none, Result, ok, err,
}
use cando.Config.{Config, ServerConfig, ClientConfig}
use cando.Config.Validate.{validate}
use cando.Config.Shape.{AreRoles, IsServer, IsClient}
use cando.Config.Accepted.{validate_iff}
use cando.App.{RunError, no_dialer, Runnable, server, client, role_of, run_client, run_config}

-- The one role of the configuration is run, with its complete section; a client only if it has its
-- dialer.
abbrev pub RunsRole :
    (ClientConfig → Bool)
    → Option ServerConfig
    → Option ClientConfig
    → Result RunError Runnable
    → Type 0
RunsRole dialer s cl r =
    ((sv : ServerConfig) × (s ≡ some sv) × IsServer sv × (r ≡ ok (server sv)))
    ⊎ ((c : ClientConfig) × (cl ≡ some c)
        × IsClient c
        × (((dialer c ≡ true) × (r ≡ ok (client c))) ⊎ ((dialer c ≡ false) × (r ≡ err no_dialer))))

role_of-RunsRole :
    (dialer : ClientConfig → Bool) (s : Option ServerConfig) (cl : Option ClientConfig)
    → AreRoles s cl
    → RunsRole dialer s cl (role_of dialer s cl)
unfolding role_of run_client
role_of-RunsRole dialer none none h = absurd h
role_of-RunsRole dialer (some s) (some cl) h = absurd h
role_of-RunsRole dialer (some s) none h = inl (s, refl, h, refl)
role_of-RunsRole dialer none (some cl) h = elim (Bool-cases (dialer cl)) [
  | inl d ↦ inr (cl, refl, h, inl (d, rw d refl))
  | inr d ↦ inr (cl, refl, h, inr (d, rw d refl))
]

-- Of a configuration that Validate accepts, RunConfig runs the server with the complete section of
-- a server, or the client with the complete section of a client, if NewClient has a dialer for it
-- and else fails with the dialer's error.
pub run_config-RunsRole :
    (dialer : ClientConfig → Bool) (c : Config)
    → validate c ≡ ok tt
    → RunsRole dialer c.server c.client (run_config dialer c).1
unfolding run_config
run_config-RunsRole dialer c h = role_of-RunsRole dialer c.server c.client ((validate_iff c).0 h)
