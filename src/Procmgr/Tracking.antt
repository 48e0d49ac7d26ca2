-- ===== src/Procmgr/Tracking.antt =====
-- internal/procmgr/procmgr.go over time: Start, Stop and Restart of one configuration, while other
-- programs run, and processes end.
use cando.Base.{
  if◌then◌else◌, ℕ, zero, suc, ◌≡◌, ◌≢◌, ◌<◌, refl, Bool, true, false, Option, none, some, List,
  arith, ◌∙◌, ap, sym, subst, ◌⊎◌, inl, inr,
}
use cando.Base.Bytes.{Bytes}
use cando.Base.Int.{pos}
use cando.System.{
  Os, Proc, running, zombie, ending, Life, set_proc, gone, ended, older, older_as, orphan,
  orphan_as, set_proc_same, set_proc_other,
}
use cando.Procmgr.{Instance, read_pid, command}
use cando.Procmgr.Kills.{aged}

abbrev pub IsAlive : Life → Type 0
IsAlive running = Unit
IsAlive zombie = ⊥
IsAlive (ending n) = Unit

-- A process of the command that is alive, and whether the caller may signal it.
abbrev pub Runs : Bool → List Bytes → Option Proc → Type 0
Runs a c none = ⊥
Runs a c (some p) = (p.argv ≡ c) × (p.allowed ≡ a) × IsAlive p.life

gone_ends : (a : Bool) (c : List Bytes) (p : Proc) → Runs a c (gone p) → ⊥
unfolding gone
gone_ends a c p = ends a c p p.child
  where
    ends :
        (a : Bool) (c : List Bytes) (p : Proc) (b : Bool)
        → Runs a c (if b then some (record p { life = zombie }) else none)
        → ⊥
    ends a c p true (e, f, z) = z
    ends a c p false r = r

-- Time brings no process to life, and changes no command.
older_as-Runs :
    (a : Bool) (c : List Bytes) (l : Life) (p : Proc)
    → p.life ≡ l
    → Runs a c (older_as l p)
    → Runs a c (some p)
unfolding older_as
older_as-Runs a c running p e r = r
older_as-Runs a c zombie p e r = r
older_as-Runs a c (ending zero) p e r = absurd (gone_ends a c p r)
older_as-Runs a c (ending (suc n)) p e (f, g, u) = (f, g, subst IsAlive (sym e) tt)

pub older-Runs : (a : Bool) (c : List Bytes) (o : Option Proc) → Runs a c (older o) → Runs a c o
unfolding older
older-Runs a c none r = r
older-Runs a c (some p) r = older_as-Runs a c p.life p refl r

pub aged-Runs :
    (n : ℕ) (a : Bool) (c : List Bytes) (o : Option Proc) → Runs a c (aged n o) → Runs a c o
unfolding aged
aged-Runs zero a c o r = r
aged-Runs (suc n) a c o r = older-Runs a c o (aged-Runs n a c (older o) r)

pub ended-Runs : (a : Bool) (c : List Bytes) (o : Option Proc) → Runs a c (ended o) → ⊥
unfolding ended
ended-Runs a c none r = r
ended-Runs a c (some p) r = gone_ends a c p r

orphan_as-Runs :
    (a : Bool) (c : List Bytes) (l : Life) (p : Proc)
    → p.life ≡ l
    → Runs a c (orphan_as l p)
    → Runs a c (some p)
unfolding orphan_as
orphan_as-Runs a c running p e r = r
orphan_as-Runs a c zombie p e r = absurd r
orphan_as-Runs a c (ending n) p e r = r

pub orphan-Runs : (a : Bool) (c : List Bytes) (o : Option Proc) → Runs a c (orphan o) → Runs a c o
unfolding orphan
orphan-Runs a c none r = r
orphan-Runs a c (some p) r = orphan_as-Runs a c p.life p refl r

pub same : (q n : ℕ) → (q ≡ n) ⊎ (q ≢ n)
same q n = ground arith

-- A change of one process.
pub set_proc-Runs :
    (a : Bool) (c : List Bytes) (n q : ℕ) (o : Option Proc) (procs : ℕ → Option Proc)
    → Runs a c (set_proc n o procs q)
    → ((q ≡ n) × Runs a c o) ⊎ ((q ≢ n) × Runs a c (procs q))
set_proc-Runs a c n q o procs r = elim (same q n) [
  | inl e ↦ inl (e, subst (λ x. Runs a c x) (ap (set_proc n o procs) e ∙ set_proc_same n o procs) r)
  | inr e ↦ inr (e, subst (λ x. Runs a c x) (set_proc_other n q o procs (λ x. e (sym x))) r)
]

-- At most one process of the configuration's command is alive: the one in the pid file.
pub record IsTracked (exe : Bytes) (i : Instance) (os : Os) : Type 0 where
  pub log : os.writable i.log_path ≡ true
  pub pid : os.writable i.pid_path ≡ true
  pub tracked :
      (a : Bool) (q : ℕ)
      → Runs a (command exe i) (os.procs q)
      → (a ≡ true) × (0 < q) × (read_pid i os ≡ some (pos q))

-- None is.
abbrev pub IsIdle : Bytes → Instance → Os → Type 0
IsIdle exe i os = (a : Bool) (q : ℕ) → Runs a (command exe i) (os.procs q) → ⊥
