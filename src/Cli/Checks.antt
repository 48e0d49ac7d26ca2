-- ===== src/Cli/Checks.antt =====
-- main.go: the configuration is checked before a tunnel is run, and before one is started or
-- restarted in the background.
use cando.Base.{
  is_some, subst, if_true, if_false, if◌then◌else◌, ℕ, ◌≡◌, refl, Bool, true, false, Option, none,
  some, List, ◌∷◌, [], Result, ok, err, arith, Bool-cases, inl, inr, ap, ◌∙◌, sym, ◌⊎◌,
}
use cando.Base.Bytes.{Bytes}
use cando.Base.Text.{is_empty}
use cando.Config.{Config, ServerConfig, ClientConfig}
use cando.Config.Shape.{AreRoles}
use cando.Config.Load.{LoadError, load, IsLoaded, load-IsLoaded}
use cando.App.{RunError, Runnable, run_config, role_of, run_client}
use cando.System.{Os}
use cando.Procmgr.{Instance, for_config}
use cando.Cli.{
  World, exited, ran, Action, starting, restarting, stopping, telling, logging, Role, any, server,
  client, role_fits, run_outcome, run_loaded, run_path, run_role, parse_flags, proc_control,
  control_path, act_on, act, spawn_loaded,
}

-- What is run is the section of the configuration for the role.
abbrev pub RunsSection : Config → Runnable → Type 0
RunsSection c (Runnable.server s) = c.server ≡ some s
RunsSection c (Runnable.client cl) = (c.server ≡ none) × (c.client ≡ some cl)

-- The role that the command asks for.
abbrev pub HasRole : Role → Runnable → Type 0
HasRole any r = Unit
HasRole server (Runnable.server s) = Unit
HasRole server (Runnable.client cl) = ⊥
HasRole client (Runnable.server s) = ⊥
HasRole client (Runnable.client cl) = Unit

run_outcome-ran :
    (ends : Runnable → Bool) (o : Result RunError Runnable) (r : Runnable)
    → run_outcome ends o ≡ ran r
    → o ≡ ok r
unfolding run_outcome
run_outcome-ran ends (err e) r h = absurd (ground arith)
run_outcome-ran ends (ok s) r h = ground arith

run_client-RunsSection :
    (dialer : ClientConfig → Bool) (s : Option ServerConfig) (c : Option ClientConfig)
    (r : Runnable)
    → role_of dialer s c ≡ ok r
    → ((sv : ServerConfig) × (s ≡ some sv) × (r ≡ Runnable.server sv))
      ⊎ ((cl : ClientConfig) × (s ≡ none) × (c ≡ some cl) × (r ≡ Runnable.client cl))
unfolding role_of run_client
run_client-RunsSection dialer (some s) c r h = inl (s, refl, ground arith)
run_client-RunsSection dialer none none r h = absurd (ground arith)
run_client-RunsSection dialer none (some cl) r h = inr (cl, refl, refl, ground arith)

run_loaded-ran :
    (w : World) (role : Role) (o : Result LoadError Config) (r : Runnable)
    → run_loaded w role o ≡ ran r
    → (c : Config) × (o ≡ ok c)
      × (role_fits role c ≡ true)
      × (role_of w.dialer c.server c.client ≡ ok r)
unfolding run_loaded run_config
run_loaded-ran w role (err e) r h = absurd (ground arith)
run_loaded-ran w role (ok c) r h = elim (Bool-cases (role_fits role c)) [
  | inl f ↦
      (c, refl, f, run_outcome-ran w.run_ends (role_of w.dialer c.server c.client) r (fits f h))
  | inr f ↦ absurd (misfit f h)
]
  where
    fits :
        role_fits role c ≡ true
        → (if role_fits role c
            then run_outcome w.run_ends (role_of w.dialer c.server c.client)
            else exited 1)
          ≡ ran r
        → run_outcome w.run_ends (role_of w.dialer c.server c.client) ≡ ran r
    fits f h =
        sym (
          if_true (role_fits role c) (run_outcome w.run_ends (role_of w.dialer c.server c.client))
            (exited 1) f)
        ∙ h

    misfit :
        role_fits role c ≡ false
        → (if role_fits role c
            then run_outcome w.run_ends (role_of w.dialer c.server c.client)
            else exited 1)
          ≡ ran r
        → ⊥
    misfit f h = ground (
      arith,
      if_false (role_fits role c) (run_outcome w.run_ends (role_of w.dialer c.server c.client))
          (exited 1) f,
    )

-- With one role only, the role that fits is the one that is run.
role_fits-HasRole :
    (role : Role) (c : Config) (r : Runnable)
    → IsLoaded c
    → role_fits role c ≡ true
    → RunsSection c r
    → HasRole role r
unfolding role_fits
role_fits-HasRole any c r l f s = tt
role_fits-HasRole server c (Runnable.server s) l f e = tt
role_fits-HasRole server c (Runnable.client cl) l f e = ground (arith, ap is_some e.0)
role_fits-HasRole client c (Runnable.client cl) l f e = tt
role_fits-HasRole client c (Runnable.server s) l f e = both c.server c.client l.complete e f
  where
    both :
        (a : Option ServerConfig) (b : Option ClientConfig)
        → AreRoles a b
        → a ≡ some s
        → is_some b ≡ true
        → ⊥
    both none b h e f = ground arith
    both (some a) none h e f = ground arith
    both (some a) (some b) h e f = h

run_path-ran :
    (w : World) (os : Os) (role : Role) (o : Result ℕ Bytes) (r : Runnable)
    → run_path w os role o ≡ ran r
    → (path : Bytes) × (o ≡ ok path)
      × (is_empty path ≡ false)
      × (run_loaded w role (load w.unmarshal (os.files path)) ≡ ran r)
unfolding run_path
run_path-ran w os role (err n) r h = absurd (ground arith)
run_path-ran w os role (ok []) r h = absurd (unfold is_empty in ground arith)
run_path-ran w os role (ok (b ∷ path)) r h =
    (b ∷ path, refl, unfold is_empty in refl, unfold is_empty in h)

dialed :
    (dialer : ClientConfig → Bool) (c : Config) (r : Runnable)
    → role_of dialer c.server c.client ≡ ok r
    → RunsSection c r
dialed dialer c r h = elim (run_client-RunsSection dialer c.server c.client r h) [
  | inl (s, e, f) ↦ subst (RunsSection c) (sym f) e
  | inr (cl, n, e, f) ↦ subst (RunsSection c) (sym f) (n, e)
]

-- A tunnel that a `-c`, `server` or `client` command runs is the section of a configuration that Load
-- returns for the path of the flag, so that it is complete and has its defaults; and it has the role
-- that the command asks for.
pub run_role-IsLoaded :
    (w : World) (os : Os) (role : Role) (args : List Bytes) (r : Runnable)
    → run_role w os role args ≡ ran r
    → (path : Bytes) × (c : Config) × (parse_flags [] args ≡ ok path)
      × (load w.unmarshal (os.files path) ≡ ok c)
      × IsLoaded c
      × RunsSection c r
      × HasRole role r
unfolding run_role
run_role-IsLoaded w os role args r h =
    let (path, e, n, g) = run_path-ran w os role (parse_flags [] args) r h in
    let (c, l, f, s) = run_loaded-ran w role (load w.unmarshal (os.files path)) r g in
    let i = load-IsLoaded w.unmarshal (os.files path) c l in
    let q = dialed w.dialer c r s in (path, c, e, l, i, q, role_fits-HasRole role c r i f q)

abbrev pub Spawns : Action → Type 0
Spawns starting = Unit
Spawns restarting = Unit
Spawns stopping = ⊥
Spawns telling = ⊥
Spawns logging = ⊥

act-invalid :
    (w : World) (os : Os) (a : Action) (path : Bytes) (i : Instance) (e : LoadError)
    → Spawns a
    → load w.unmarshal (os.files path) ≡ err e
    → act w os a path i ≡ (exited 1, os)
unfolding act spawn_loaded
act-invalid w os starting path i e s h = rw h refl
act-invalid w os restarting path i e s h = rw h refl
act-invalid w os stopping path i e s h = absurd s
act-invalid w os telling path i e s h = absurd s
act-invalid w os logging path i e s h = absurd s

act_on-invalid :
    (w : World) (os : Os) (a : Action) (path : Bytes) (i : Option Instance) (e : LoadError)
    → Spawns a
    → load w.unmarshal (os.files path) ≡ err e
    → act_on w os a path i ≡ (exited 1, os)
unfolding act_on
act_on-invalid w os a path none e s h = refl
act_on-invalid w os a path (some i) e s h = act-invalid w os a path i e s h

-- `start` and `restart` with a configuration that Load refuses fail and change nothing: nothing is
-- spawned, and a tunnel that runs goes on.
pub proc_control-invalid :
    (w : World) (os : Os) (a : Action) (args : List Bytes) (b : ℕ) (path : Bytes) (e : LoadError)
    → Spawns a
    → parse_flags [] args ≡ ok (b ∷ path)
    → load w.unmarshal (os.files (b ∷ path)) ≡ err e
    → proc_control w os a args ≡ (exited 1, os)
unfolding proc_control control_path is_empty
proc_control-invalid w os a args b path e s p h =
    rw p (act_on-invalid w os a (b ∷ path) (for_config w.abs (b ∷ path)) e s h)
