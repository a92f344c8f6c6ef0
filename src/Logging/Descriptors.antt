-- ===== src/Logging/Descriptors.antt =====
-- The log file's descriptors, in histories in which Lua calls after the last write has finished.
use luaw.Prelude.{
  ℕ, ◌+◌, ◌≡◌, refl, Bool, true, List, [], ◌∷◌, Option, none, some, if◌then◌else◌, length, subst,
  arith,
}
use luaw.Prelude.Int.{ℤ, pos, negsuc, eqb}
use luaw.Logging.{
  LogState, log_not_open, opening_log, log_is_open, Event, execute, is_open, open_log_file,
  write_log, on_log_open, on_log_write, close_log,
}
use luaw.Logging.Files.{Flight, Usage, use_file, use_files, unused, is_last}

abbrev Head : ℤ → List ℤ → ℕ → Type 0
Head f [] k = ⊥
Head f (g ∷ fs) k = (g ≡ f) × (length fs ≡ k)

-- The log's file is open while the log is, and until the callback of a rotation.
abbrev Good : LogState → Option Flight → ℤ → List ℤ → ℕ → Type 0
Good log_is_open none f fs k = Head f fs k
Good log_is_open (some Flight.plain) f fs k = Head f fs k
Good log_not_open (some Flight.last) f fs k = Head f fs k
Good log_not_open none f fs k = length fs ≡ k
Good opening_log none f fs k = length fs ≡ k
Good _ _ f fs k = ⊥

abbrev IsGood : Usage → Type 0
IsGood u = Good u.log.log_state u.flight u.log.logfile u.files u.leaked

abbrev Keeps : Option Usage → Type 0
Keeps none = ⊥
Keeps (some u) = IsGood u

eqb-same : (f : ℤ) → eqb f f ≡ true
eqb-same (pos n) = ground arith
eqb-same (negsuc n) = ground arith

module _ (cs : List ℤ) (ws : List (ℤ × List ℕ)) (k : ℕ) where
  abbrev at : LogState → Option Flight → ℤ → List ℤ → Usage
  at st x f fs = record {
    log = record { log_state = st; logfile = f; closes = cs; writes = ws };
    flight = x;
    files = fs;
    leaked = k;
  }

  opens-Good :
      (named allocated : Bool) (rc : ℤ) (st : LogState) (x : Option Flight) (f : ℤ) (fs : List ℤ)
      → Good st x f fs k
      → Keeps (use_file (Event.opens named allocated rc) (at st x f fs))
  unfolding execute open_log_file
  opens-Good named allocated rc log_not_open none f fs v = ground arith
  opens-Good named allocated rc opening_log none f fs v = ground arith
  opens-Good named allocated rc log_is_open none f fs v = ground arith
  opens-Good named allocated rc st (some x) f fs v = v

  writes-Good :
      (str : Option (List ℕ)) (allocated rotate : Bool) (rc : ℤ) (st : LogState) (x : Option Flight)
      (f : ℤ) (fs : List ℤ)
      → Good st x f fs k
      → Keeps (use_file (Event.writes str allocated rotate rc) (at st x f fs))
  unfolding execute write_log close_log
  writes-Good none allocated rotate rc st none f fs v = subst (Good st none f fs) (omega arith) v
  writes-Good (some str) allocated rotate rc log_not_open none f fs v = ground arith
  writes-Good (some str) allocated rotate rc opening_log none f fs v = ground arith
  writes-Good (some str) allocated rotate rc log_is_open none f [] v = absurd v
  writes-Good (some str) allocated rotate rc log_is_open none f (g ∷ fs) v =
      ground (arith, eqb-same f)
  writes-Good str allocated rotate rc st (some x) f fs v = v

  opened-Good :
      (r : ℤ) (st : LogState) (x : Option Flight) (f : ℤ) (fs : List ℤ)
      → Good st x f fs k
      → Keeps (use_file (Event.opened r) (at st x f fs))
  unfolding execute on_log_open
  opened-Good (negsuc r) st x f fs v = v
  opened-Good (pos r) log_not_open x f fs v = v
  opened-Good (pos r) log_is_open x f fs v = v
  opened-Good (pos r) opening_log none f fs v = ground arith
  opened-Good (pos r) opening_log (some x) f fs v = absurd v

  written-Good :
      (r : ℤ) (st : LogState) (x : Option Flight) (f : ℤ) (fs : List ℤ)
      → Good st x f fs k
      → Keeps (use_file (Event.written r) (at st x f fs))
  unfolding execute on_log_write close_log
  written-Good r st none f fs v = v
  written-Good r st (some Flight.last) f fs v = v
  written-Good (pos r) log_is_open (some Flight.plain) f fs v = ground arith
  written-Good r log_not_open (some Flight.plain) f fs v = absurd v
  written-Good r opening_log (some Flight.plain) f fs v = absurd v
  written-Good (negsuc r) log_is_open (some Flight.plain) f [] v = absurd v
  written-Good (negsuc r) log_is_open (some Flight.plain) f (g ∷ fs) v = ground (arith, eqb-same f)

  rotated-Good :
      (st : LogState) (x : Option Flight) (f : ℤ) (fs : List ℤ)
      → Good st x f fs k
      → Keeps (use_file Event.rotated (at st x f fs))
  unfolding execute close_log
  rotated-Good st none f fs v = v
  rotated-Good st (some Flight.plain) f fs v = v
  rotated-Good log_is_open (some Flight.last) f fs v = absurd v
  rotated-Good opening_log (some Flight.last) f fs v = absurd v
  rotated-Good log_not_open (some Flight.last) f [] v = absurd v
  rotated-Good log_not_open (some Flight.last) f (g ∷ fs) v = ground (arith, eqb-same f)

use_file-Good : (e : Event) (u : Usage) → IsGood u → Keeps (use_file e u)
use_file-Good (Event.opens named allocated rc) u v =
    opens-Good u.log.closes u.log.writes u.leaked named allocated rc u.log.log_state u.flight
      u.log.logfile u.files v
use_file-Good (Event.writes str allocated rotate rc) u v =
    writes-Good u.log.closes u.log.writes u.leaked str allocated rotate rc u.log.log_state u.flight
      u.log.logfile u.files v
use_file-Good (Event.opened r) u v =
    opened-Good u.log.closes u.log.writes u.leaked r u.log.log_state u.flight u.log.logfile u.files
      v
use_file-Good (Event.written r) u v =
    written-Good u.log.closes u.log.writes u.leaked r u.log.log_state u.flight u.log.logfile u.files
      v
use_file-Good Event.rotated u v =
    rotated-Good u.log.closes u.log.writes u.leaked u.log.log_state u.flight u.log.logfile u.files v

use_files-Good :
    (es : List Event) (u : Usage) → IsGood u → (v : Usage) × (use_files es u ≡ some v) × IsGood v
use_files-Good [] u good = (u, refl, good)
use_files-Good (e ∷ es) u good = rest (use_file e u) (use_file-Good e u good) (use_files-Good es)
  where
    rest :
        (o : Option Usage)
        → Keeps o
        → ((u : Usage) → IsGood u → (v : Usage) × (use_files es u ≡ some v) × IsGood v)
        → (v : Usage) × (elim o [ none ↦ none | some w ↦ use_files es w ] ≡ some v) × IsGood v
    rest none k next = absurd k
    rest (some w) k next = next w k

-- The current file, if there is one.
abbrev pub current : Usage → ℕ
current u = if is_open u.log.log_state then 1 else if is_last u.flight then 1 else 0

Good-count :
    (st : LogState) (x : Option Flight) (f : ℤ) (fs : List ℤ) (k : ℕ)
    → Good st x f fs k
    → length fs ≡ (if is_open st then 1 else if is_last x then 1 else 0) + k
Good-count log_is_open none f (g ∷ fs) k v = ground arith
Good-count log_is_open (some Flight.plain) f (g ∷ fs) k v = ground arith
Good-count log_not_open (some Flight.last) f (g ∷ fs) k v = ground arith
Good-count log_not_open none f fs k v = ground arith
Good-count opening_log none f fs k v = ground arith
Good-count log_is_open none f [] k v = absurd v
Good-count log_is_open (some Flight.plain) f [] k v = absurd v
Good-count log_not_open (some Flight.last) f [] k v = absurd v
Good-count log_is_open (some Flight.last) f fs k v = absurd v
Good-count log_not_open (some Flight.plain) f fs k v = absurd v
Good-count opening_log (some x) f fs k v = absurd v

-- Let no open fail, let Lua call `write` and `open` only while no write is in flight, and let libuv call
-- back once for each open and write that it took. Then, in every history from the program's start, only
-- files are written and closed that are open, and the open files are the current one, which is there
-- while the log is open and until the callback of a rotation, and one for each rotation whose write
-- libuv refused.
pub unused-use_files :
    (f : ℤ) (es : List Event)
    → (u : Usage) × (use_files es (unused f) ≡ some u) × (length u.files ≡ current u + u.leaked)
unused-use_files f es =
    let (u, p, good) = use_files-Good es (unused f) refl in
    (u, p, Good-count u.log.log_state u.flight u.log.logfile u.files u.leaked good)
