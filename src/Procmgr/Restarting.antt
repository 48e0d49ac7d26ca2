-- ===== src/Procmgr/Restarting.antt =====
-- internal/procmgr/procmgr.go: Restart, and internal/menu/manage.go: the restart that the editor
-- offers.
use cando.Base.{ℕ, suc, ◌≡◌, ◌<◌, ◌^◌, refl, true, Option, none, some, ap, ◌∙◌}
use cando.Base.Bytes.{Bytes}
use cando.Base.Int.{pos}
use cando.System.{Os, Proc}
use cando.Procmgr.{Instance, read_pid, status, start, stop, restart, start_after, Spawn, StopError}
use cando.Procmgr.Kills.{Down}
use cando.Procmgr.Stopping.{stop-IsStopped}
use cando.Procmgr.Starting.{status-some, stop-status, start-status, fresh}

start_after-none :
    (exe : Bytes) (i : Instance) (spawn : Spawn) (r : Option StopError × Os)
    → r.0 ≡ none
    → start_after exe i spawn r ≡ start exe i spawn r.1
unfolding start_after
start_after-none exe i spawn (none, os) e = refl
start_after-none exe i spawn (some x, os) e = absurd (cc e)

-- Restart of a process that runs stops it and starts another.
restart_run :
    (exe : Bytes) (i : Instance) (spawn : Spawn) (os : Os) (j : ℕ) (p : Proc)
    → read_pid i os ≡ some (pos (suc j))
    → os.procs (suc j) ≡ some p
    → p.allowed ≡ true
    → restart exe i spawn os ≡ start exe i spawn (stop i os).1
unfolding restart
restart_run exe i spawn os j p r e a =
    rw (status-some i os j p r e)
      (start_after-none exe i spawn (stop i os) (stop-IsStopped i os j p r e a).0)

-- Restart of a configuration whose process runs and may be signalled, with files that can be written
-- and removed and a number for the new process: it returns the number without an error, Status tells
-- it, the command runs under it, and before it was started nothing ran any more under the old number.
pub restart-status :
    (exe : Bytes) (i : Instance) (j k : ℕ) (grace : Option ℕ) (os : Os) (p : Proc)
    → read_pid i os ≡ some (pos (suc j))
    → os.procs (suc j) ≡ some p
    → p.allowed ≡ true
    → os.removable i.pid_path ≡ true
    → os.writable i.log_path ≡ true
    → os.writable i.pid_path ≡ true
    → suc k < 2 ^ 63
    → ((restart exe i (some (suc k, grace)) os).0 ≡ (pos (suc k), none))
      × (status i (restart exe i (some (suc k, grace)) os).1 ≡ (true, pos (suc k)))
      × ((restart exe i (some (suc k, grace)) os).1.procs (suc k) ≡ some (fresh exe i grace))
      × Down p.child ((stop i os).1.procs (suc j))
restart-status exe i j k grace os p r e a m l w h =
    let s = (stop-IsStopped i os j p r e a).1 in
    let t =
      start-status exe i k grace (stop i os).1 none (ap (λ x. x.0) (stop-status i os j p r e a m))
        (ap (λ f. f i.log_path) s.writable ∙ l) (ap (λ f. f i.pid_path) s.writable ∙ w) h in
    rw (restart_run exe i (some (suc k, grace)) os j p r e a) (t.0, t.2, t.1, s.down)
