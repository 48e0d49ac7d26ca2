-- ===== src/Procmgr/Lingering.antt =====
-- internal/procmgr/procmgr.go: how long a child that has ended is told as running.
use cando.Base.{ℕ, suc, ◌≡◌, none, some}
use cando.Base.Bytes.{Bytes}
use cando.Base.Int.{pos}
use cando.System.{Os, Proc, zombie, tick, exits, set_proc}
use cando.Procmgr.{Instance, read_pid}

-- What happens in a system while nobody starts, stops or restarts a configuration and the number `pid`
-- is not given to a process: time passes, and processes end and start.
pub data Passes (pid : ℕ) : Os → Os → Type 0 where
  now : (os : Os) → Passes pid os os
  ticks : (os os' : Os) → Passes pid (tick os) os' → Passes pid os os'
  exit : (os os' : Os) (q : ℕ) → Passes pid (exits q os) os' → Passes pid os os'
  other_starts :
      (os os' : Os) (q : ℕ) (p : Proc)
      → (q ≡ pid → ⊥)
      → Passes pid (record os { procs = set_proc q (some p) os.procs }) os'
      → Passes pid os os'

module _ (i : Instance) (k : ℕ) where
  -- The pid file names the number, and under it stands a child that has ended.
  abbrev Lingers : Os → Proc → Type 0
  Lingers os p =
      (read_pid i os ≡ some (pos (suc k))) × (os.procs (suc k) ≡ some (record p { life = zombie }))

  abbrev Absent : Os → Type 0
  Absent os = (read_pid i os ≡ some (pos (suc k))) × (os.procs (suc k) ≡ none)
