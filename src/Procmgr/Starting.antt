-- ===== src/Procmgr/Starting.antt =====
-- internal/procmgr/procmgr.go: what Start, Status and Restart make of the process of a configuration.
use cando.Base.{
  [], ℕ, suc, ◌≡◌, ◌≢◌, ◌^◌, ◌<◌, refl, true, false, Option, none, some, ◌∙◌, ap, if_true,
}
use cando.Base.Bytes.{Bytes}
use cando.Base.Int.{ℤ, pos}
use cando.Base.Decimal.{itoa, atoi-itoa}
use cando.System.{
  set_file, Os, Proc, running, write_file, set_proc_same, set_file_same, set_file_other,
}
use cando.Procmgr.{
  Instance, stop, read_pid, parsed, status, status_of, command, Spawn, created, spawned, launch,
  start, already_running, write_pid,
}
use cando.Procmgr.Kills.{process_alive-none, process_alive-some, leb_pos}
use cando.Procmgr.Stopping.{stop-IsStopped}

-- The number in the pid file, and what stands under it.
pub status-some :
    (i : Instance) (os : Os) (k : ℕ) (p : Proc)
    → read_pid i os ≡ some (pos (suc k))
    → os.procs (suc k) ≡ some p
    → status i os ≡ (true, pos (suc k))
unfolding status status_of
status-some i os k p r e = rw (r, leb_pos k, process_alive-some k os p e) refl

pub status-none :
    (i : Instance) (os : Os) (k : ℕ)
    → read_pid i os ≡ some (pos (suc k))
    → os.procs (suc k) ≡ none
    → status i os ≡ (false, pos 0)
unfolding status status_of
status-none i os k r e = rw (r, leb_pos k, process_alive-none k os e) refl

-- What WriteFile of a number leaves for readPid.
pub read_pid-write_file :
    (i : Instance) (n : ℕ) (os : Os)
    → n < 2 ^ 63
    → read_pid i (write_file i.pid_path (itoa n) os) ≡ some (pos n)
unfolding read_pid write_file parsed
read_pid-write_file i n os h =
    rw (set_file_same i.pid_path (some (itoa n)) os.files) (atoi-itoa n h)

-- What a fresh process of the configuration is.
abbrev pub fresh : Bytes → Instance → Option ℕ → Proc
fresh exe i grace = record {
  argv = command exe i;
  allowed = true;
  child = true;
  grace = grace;
  life = running;
}

pub created_rest :
    (path : Bytes) (o : Option Bytes) (os : Os)
    → ((created path o os).procs ≡ os.procs)
      × ((created path o os).writable ≡ os.writable)
      × ((created path o os).removable ≡ os.removable)
unfolding created write_file
created_rest path none os = (refl, refl, refl)
created_rest path (some b) os = (refl, refl, refl)

-- Start of a process that is given a number, where both files can be written.
pub start_run :
    (exe : Bytes) (i : Instance) (k : ℕ) (grace : Option ℕ) (os : Os)
    → (status i os).0 ≡ false
    → os.writable i.log_path ≡ true
    → os.writable i.pid_path ≡ true
    → start exe i (some (suc k, grace)) os ≡ (
      (pos (suc k), none),
      write_file i.pid_path
          (itoa (suc k))
          (spawned exe i (suc k) grace (created i.log_path (os.files i.log_path) os)),
    )
unfolding start launch
start_run exe i k grace os s l w =
    rw (s, l, (created_rest i.log_path (os.files i.log_path) os).1, w) refl

pub started_proc :
    (exe : Bytes) (i : Instance) (k : ℕ) (grace : Option ℕ) (os : Os)
    → (write_file i.pid_path (itoa (suc k)) (spawned exe i (suc k) grace os)).procs (suc k)
      ≡ some (fresh exe i grace)
unfolding write_file spawned
started_proc exe i k grace os = set_proc_same (suc k) (some (fresh exe i grace)) os.procs

pub start_again :
    (exe : Bytes) (i : Instance) (n : ℤ) (spawn : Spawn) (os : Os)
    → status i os ≡ (true, n)
    → start exe i spawn os ≡ ((n, some (already_running n)), os)
unfolding start
start_again exe i n spawn os e = rw e refl

-- Start, with nothing running, files that can be written and a process that gets a number: it
-- returns the number without an error, the command runs under it, Status tells so, and a second
-- Start with anything changes nothing and returns the number with an error.
pub start-status :
    (exe : Bytes) (i : Instance) (k : ℕ) (grace : Option ℕ) (os : Os) (spawn : Spawn)
    → (status i os).0 ≡ false
    → os.writable i.log_path ≡ true
    → os.writable i.pid_path ≡ true
    → suc k < 2 ^ 63
    → ((start exe i (some (suc k, grace)) os).0 ≡ (pos (suc k), none))
      × ((start exe i (some (suc k, grace)) os).1.procs (suc k) ≡ some (fresh exe i grace))
      × (status i (start exe i (some (suc k, grace)) os).1 ≡ (true, pos (suc k)))
      × (start exe i spawn (start exe i (some (suc k, grace)) os).1 ≡ (
        (pos (suc k), some (already_running (pos (suc k)))),
        (start exe i (some (suc k, grace)) os).1,
      ))
start-status exe i k grace os spawn s l w h =
    let os' = spawned exe i (suc k) grace (created i.log_path (os.files i.log_path) os) in
    let p = started_proc exe i k grace (created i.log_path (os.files i.log_path) os) in
    let st =
      status-some i (write_file i.pid_path (itoa (suc k)) os') k (fresh exe i grace)
        (read_pid-write_file i (suc k) os' h) p in
    rw (start_run exe i k grace os s l w) (
      refl,
      p,
      st,
      start_again exe i (pos (suc k)) spawn (write_file i.pid_path (itoa (suc k)) os') st,
    )

status-no_file :
    (i : Instance) (os : Os) → os.files i.pid_path ≡ none → status i os ≡ (false, pos 0)
unfolding status status_of read_pid parsed
status-no_file i os e = rw e refl

untracked_run :
    (exe : Bytes) (i : Instance) (k : ℕ) (grace : Option ℕ) (os : Os)
    → status i os ≡ (false, pos 0)
    → os.writable i.log_path ≡ true
    → os.writable i.pid_path ≡ false
    → start exe i (some (suc k, grace)) os ≡ (
      (pos (suc k), some write_pid),
      spawned exe i (suc k) grace (created i.log_path (os.files i.log_path) os),
    )
unfolding start launch
untracked_run exe i k grace os s l w =
    rw (s, l, (created_rest i.log_path (os.files i.log_path) os).1, w) refl

spawned_proc :
    (exe : Bytes) (i : Instance) (k : ℕ) (grace : Option ℕ) (os : Os)
    → (spawned exe i (suc k) grace os).procs (suc k) ≡ some (fresh exe i grace)
unfolding spawned
spawned_proc exe i k grace os = set_proc_same (suc k) (some (fresh exe i grace)) os.procs

created_other :
    (path q : Bytes) (o : Option Bytes) (os : Os)
    → path ≢ q
    → (created path o os).files q ≡ os.files q
unfolding created write_file
created_other path q none os n = set_file_other path q (some []) os.files n
created_other path q (some b) os n = refl

-- After Stop of a process that is tracked and that the caller may signal, Status tells of nothing, if
-- the pid file can be removed.
pub stop-status :
    (i : Instance) (os : Os) (k : ℕ) (p : Proc)
    → read_pid i os ≡ some (pos (suc k))
    → os.procs (suc k) ≡ some p
    → p.allowed ≡ true
    → os.removable i.pid_path ≡ true
    → status i (stop i os).1 ≡ (false, pos 0)
stop-status i os k p r e a h =
    let s = (stop-IsStopped i os k p r e a).1 in
    status-no_file i (stop i os).1 (
      ap (λ f. f i.pid_path)
        (s.files ∙ if_true (os.removable i.pid_path) (set_file i.pid_path none os.files) os.files h)
      ∙ set_file_same i.pid_path none os.files)

-- Start whose pid file cannot be written leaves a process that runs and that Status does not tell,
-- where there was no pid file.
pub start-untracked :
    (exe : Bytes) (i : Instance) (k : ℕ) (grace : Option ℕ) (os : Os)
    → os.files i.pid_path ≡ none
    → i.log_path ≢ i.pid_path
    → os.writable i.log_path ≡ true
    → os.writable i.pid_path ≡ false
    → ((start exe i (some (suc k, grace)) os).0 ≡ (pos (suc k), some write_pid))
      × ((start exe i (some (suc k, grace)) os).1.procs (suc k) ≡ some (fresh exe i grace))
      × (status i (start exe i (some (suc k, grace)) os).1 ≡ (false, pos 0))
unfolding spawned
start-untracked exe i k grace os f n l w =
    let os' = created i.log_path (os.files i.log_path) os in
    let r : start exe i (some (suc k, grace)) os
        ≡ ((pos (suc k), some write_pid), spawned exe i (suc k) grace os') =
      untracked_run exe i k grace os (status-no_file i os f) l w in
    rw r (
      refl,
      spawned_proc exe i k grace os',
      status-no_file i (spawned exe i (suc k) grace os')
          (created_other i.log_path i.pid_path (os.files i.log_path) os n ∙ f),
    )
