-- ===== src/System.antt =====
-- What internal/procmgr uses of Go's os, os/exec and syscall packages: files by their path, a table
-- of processes, signals, and time in steps of the tenth of a second that Stop sleeps.
use cando.Base.{
  ℕ, zero, suc, ◌+◌, ◌≡◌, Bool, false, Option, none, some, List, ◌∷◌, ◌==◌, if◌then◌else◌, Result,
  ok, err, arith,
}
use cando.Base.Bytes.{Bytes, bytes_eq, bytes_eq_iff}

pub data Signal : Type 0 where
  sigterm sigkill : Signal

pub data Errno : Type 0 where
  esrch eperm : Errno

-- A process that SIGTERM has reached may take some time to end; a child that has ended stays in the
-- table as a zombie, as its parent does not wait for it.
pub data Life : Type 0 where
  running zombie : Life
  ending : ℕ → Life

-- `allowed` is whether the caller may send it signals, `child` whether the caller is the parent, and
-- `grace` how many tenths of a second it takes to end on SIGTERM, if it does not ignore it.
pub record Proc : Type 0 where
  pub argv : List Bytes
  pub allowed : Bool
  pub child : Bool
  pub grace : Option ℕ
  pub life : Life

-- `sent` are the signals that were delivered, the last one first, and `clock` the tenths of a second
-- that passed. A path that cannot be read has no file.
pub record Os : Type 0 where
  pub files : Bytes → Option Bytes
  pub writable : Bytes → Bool
  pub removable : Bytes → Bool
  pub procs : ℕ → Option Proc
  pub sent : List (ℕ × Signal)
  pub clock : ℕ

unfoldable pub set_file : Bytes → Option Bytes → (Bytes → Option Bytes) → Bytes → Option Bytes
set_file path content files q = if bytes_eq path q then content else files q

unfoldable pub set_proc : ℕ → Option Proc → (ℕ → Option Proc) → ℕ → Option Proc
set_proc pid p procs q = if pid == q then p else procs q

-- os.WriteFile, and os.Remove, whose error nobody looks at.
unfoldable pub write_file : Bytes → Bytes → Os → Os
write_file path content os = record os { files = set_file path (some content) os.files }

unfoldable pub remove_file : Bytes → Os → Os
remove_file path os = record os {
  files = if os.removable path then set_file path none os.files else os.files;
}

-- The process ends.
unfoldable pub gone : Proc → Option Proc
gone p = if p.child then some (record p { life = zombie }) else none

unfoldable pub asked_to_end : Life → Option ℕ → Proc → Option Proc
asked_to_end running none p = some p
asked_to_end running (some zero) p = gone p
asked_to_end running (some (suc n)) p = some (record p { life = ending n })
asked_to_end zombie g p = some p
asked_to_end (ending n) g p = some p

unfoldable pub deliver : Signal → Proc → Option Proc
deliver sigterm p = asked_to_end p.life p.grace p
deliver sigkill p = gone p

unfoldable pub kill_proc : Signal → ℕ → Os → Option Proc → Result Errno Os
kill_proc s pid os none = err esrch
kill_proc s pid os (some p) =
    if p.allowed
    then ok (record os { procs = set_proc pid (deliver s p) os.procs; sent = (pid, s) ∷ os.sent })
    else err eperm

-- syscall.Kill
unfoldable pub kill : Signal → ℕ → Os → Result Errno Os
kill s pid os = kill_proc s pid os (os.procs pid)

-- syscall.Kill with signal 0, which delivers nothing.
unfoldable pub probe : Option Proc → Result Errno (Unit {0})
probe none = err esrch
probe (some p) = if p.allowed then ok tt else err eperm

unfoldable pub older_as : Life → Proc → Option Proc
older_as running p = some p
older_as zombie p = some p
older_as (ending zero) p = gone p
older_as (ending (suc n)) p = some (record p { life = ending n })

unfoldable pub older : Option Proc → Option Proc
older none = none
older (some p) = older_as p.life p

-- time.Sleep for a tenth of a second.
unfoldable pub tick : Os → Os
tick os = record os { procs = λ q. older (os.procs q); clock = os.clock + 1 }

-- The process under a number ends by itself.
unfoldable pub ended : Option Proc → Option Proc
ended none = none
ended (some p) = gone p

unfoldable pub exits : ℕ → Os → Os
exits pid os = record os { procs = set_proc pid (ended (os.procs pid)) os.procs }

-- The process that started the children ends, and init waits for them.
unfoldable pub orphan_as : Life → Proc → Option Proc
orphan_as running p = some (record p { child = false })
orphan_as zombie p = none
orphan_as (ending n) p = some (record p { child = false })

unfoldable pub orphan : Option Proc → Option Proc
orphan none = none
orphan (some p) = orphan_as p.life p

unfoldable pub caller_ends : Os → Os
caller_ends os = record os { procs = λ q. orphan (os.procs q) }

pub set_proc_same :
    (pid : ℕ) (p : Option Proc) (procs : ℕ → Option Proc) → set_proc pid p procs pid ≡ p
unfolding set_proc
set_proc_same pid p procs = ground arith

pub set_proc_other :
    (pid q : ℕ) (p : Option Proc) (procs : ℕ → Option Proc)
    → (pid ≡ q → ⊥)
    → set_proc pid p procs q ≡ procs q
unfolding set_proc
set_proc_other pid q p procs n = ground arith

pub set_file_same :
    (path : Bytes) (c : Option Bytes) (files : Bytes → Option Bytes)
    → set_file path c files path ≡ c
unfolding set_file
set_file_same path c files = ground (arith, bytes_eq_iff path path)

pub set_file_other :
    (path q : Bytes) (c : Option Bytes) (files : Bytes → Option Bytes)
    → (path ≡ q → ⊥)
    → set_file path c files q ≡ files q
unfolding set_file
set_file_other path q c files n = ground (arith, bytes_eq_iff path q)
