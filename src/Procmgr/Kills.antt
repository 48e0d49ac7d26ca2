-- ===== src/Procmgr/Kills.antt =====
-- internal/procmgr/procmgr_unix.go: what a signal and time make of a process, and which process is
-- told as alive.
use cando.Base.{
  ℕ, zero, suc, ◌≡◌, ◌≢◌, refl, Bool, true, false, Option, none, some, ◌∷◌, if◌then◌else◌, ok, err,
  arith, if_true, if_false, sym,
}
use cando.Base.Int.{pos, negsuc, leb_ℤ}
use cando.System.{
  Os, Proc, Life, eperm, esrch, Signal, sigkill, running, zombie, ending, kill_proc, probe,
  set_proc, gone, older, older_as, deliver, asked_to_end, set_proc_same, set_proc_other,
}
use cando.Procmgr.{process_alive, or_else, answers}

-- A process after some tenths of a second in which nothing is sent to it.
unfoldable pub aged : ℕ → Option Proc → Option Proc
unfolding older
aged zero p = p
aged (suc n) p = aged n (older p)

-- The caller may send signals to what there is; `c` is whether it is the caller's child.
abbrev pub Owned : Bool → Option Proc → Type 0
Owned c none = Unit
Owned c (some p) = (p.allowed ≡ true) × (p.child ≡ c)

-- Nothing runs; only a child may stay as a zombie.
abbrev pub Down : Bool → Option Proc → Type 0
Down c none = Unit
Down c (some p) = (c ≡ true) × (p.life ≡ zombie)

pub gone-Owned : (c : Bool) (p : Proc) → Owned c (some p) → Owned c (gone p)
unfolding gone
gone-Owned true p h = rw h.1 (h.0, refl)
gone-Owned false p h = rw h.1 tt

older_as-Owned : (c : Bool) (l : Life) (p : Proc) → Owned c (some p) → Owned c (older_as l p)
unfolding older_as
older_as-Owned c running p h = h
older_as-Owned c zombie p h = h
older_as-Owned c (ending zero) p h = gone-Owned c p h
older_as-Owned c (ending (suc n)) p h = h

pub older-Owned : (c : Bool) (o : Option Proc) → Owned c o → Owned c (older o)
unfolding older
older-Owned c none h = tt
older-Owned c (some p) h = older_as-Owned c p.life p h

gone-Down : (c : Bool) (p : Proc) → p.child ≡ c → Down c (gone p)
unfolding gone
gone-Down true p h = rw h (refl, refl)
gone-Down false p h = rw h tt

deliver-Down : (c : Bool) (p : Proc) → p.child ≡ c → Down c (deliver sigkill p)
unfolding deliver
deliver-Down c p h = gone-Down c p h

-- What force_kill leaves.
-- The system lets the caller send the signal.
pub kill_proc-allowed :
    (s : Signal) (pid : ℕ) (os : Os) (p : Proc)
    → p.allowed ≡ true
    → kill_proc s pid os (some p)
      ≡ ok (record os { procs = set_proc pid (deliver s p) os.procs; sent = (pid, s) ∷ os.sent })
unfolding kill_proc
kill_proc-allowed s pid os p h =
    if_true p.allowed
      (ok (record os { procs = set_proc pid (deliver s p) os.procs; sent = (pid, s) ∷ os.sent }))
      (err eperm) h

pub kill_proc-denied :
    (s : Signal) (pid : ℕ) (os : Os) (p : Proc)
    → p.allowed ≡ false
    → kill_proc s pid os (some p) ≡ err eperm
unfolding kill_proc
kill_proc-denied s pid os p h =
    if_false p.allowed
      (ok (record os { procs = set_proc pid (deliver s p) os.procs; sent = (pid, s) ∷ os.sent }))
      (err eperm) h

pub kill_proc-none : (s : Signal) (pid : ℕ) (os : Os) → kill_proc s pid os none ≡ err esrch
unfolding kill_proc
kill_proc-none s pid os = refl

pub kill_proc-Down :
    (c : Bool) (k : ℕ) (os : Os) (o : Option Proc)
    → os.procs (suc k) ≡ o
    → Owned c o
    → Down c ((or_else os (kill_proc sigkill (suc k) os o)).procs (suc k))
unfolding or_else
kill_proc-Down c k os none e h = rw (kill_proc-none sigkill (suc k) os, e) tt
kill_proc-Down c k os (some p) e h =
    rw
      (
        kill_proc-allowed sigkill (suc k) os p h.0,
        set_proc_same (suc k) (deliver sigkill p) os.procs,
      )
      (deliver-Down c p h.1)

-- A signal changes one process, and besides only what was sent.
delivered_other :
    (s : Signal) (pid : ℕ) (os : Os) (p : Proc) (a : Bool) (q : ℕ)
    → q ≢ pid
    → (or_else os (
          if a
          then ok
              (record os { procs = set_proc pid (deliver s p) os.procs; sent = (pid, s) ∷ os.sent })
          else err eperm)).procs
        q
      ≡ os.procs q
unfolding or_else
delivered_other s pid os p true q n = set_proc_other pid q (deliver s p) os.procs (λ x. n (sym x))
delivered_other s pid os p false q n = refl

pub kill_proc-other :
    (s : Signal) (pid : ℕ) (os : Os) (o : Option Proc) (q : ℕ)
    → q ≢ pid
    → (or_else os (kill_proc s pid os o)).procs q ≡ os.procs q
unfolding or_else kill_proc
kill_proc-other s pid os none q n = refl
kill_proc-other s pid os (some p) q n = delivered_other s pid os p p.allowed q n

pub kill_proc-rest :
    (s : Signal) (pid : ℕ) (os : Os) (o : Option Proc)
    → ((or_else os (kill_proc s pid os o)).clock ≡ os.clock)
      × ((or_else os (kill_proc s pid os o)).files ≡ os.files)
      × ((or_else os (kill_proc s pid os o)).writable ≡ os.writable)
      × ((or_else os (kill_proc s pid os o)).removable ≡ os.removable)
unfolding or_else kill_proc
kill_proc-rest s pid os none = (refl, refl, refl, refl)
kill_proc-rest s pid os (some p) = ground arith

pub leb_pos : (k : ℕ) → leb_ℤ (pos (suc k)) (pos 0) ≡ false
leb_pos k = ground arith

pub leb_negative : (n : ℕ) → leb_ℤ (negsuc n) (pos 0) ≡ true
leb_negative n = ground arith

pub process_alive-negative : (n : ℕ) (os : Os) → process_alive os (negsuc n) ≡ false
unfolding process_alive
process_alive-negative n os =
    if_true (leb_ℤ (negsuc n) (pos 0)) false (answers (probe (os.procs 0))) (leb_negative n)

pub answers_any : (p : Proc) → answers (probe (some p)) ≡ true
unfolding answers probe
answers_any p = ground arith

pub process_alive-none :
    (k : ℕ) (os : Os) → os.procs (suc k) ≡ none → process_alive os (pos (suc k)) ≡ false
unfolding process_alive answers probe
process_alive-none k os e = rw (leb_pos k, e) refl

pub process_alive-some :
    (k : ℕ) (os : Os) (p : Proc) → os.procs (suc k) ≡ some p → process_alive os (pos (suc k)) ≡ true
unfolding process_alive
process_alive-some k os p e = rw (leb_pos k, e) (answers_any p)

pub asked_to_end-Owned :
    (c : Bool) (l : Life) (g : Option ℕ) (p : Proc)
    → Owned c (some p)
    → Owned c (asked_to_end l g p)
unfolding asked_to_end
asked_to_end-Owned c running none p h = h
asked_to_end-Owned c running (some zero) p h = gone-Owned c p h
asked_to_end-Owned c running (some (suc n)) p h = h
asked_to_end-Owned c zombie g p h = h
asked_to_end-Owned c (ending n) g p h = h
