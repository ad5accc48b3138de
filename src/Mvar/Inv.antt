-- ===== src/Mvar/Inv.antt =====
-- The processes of `mvar` take turns: what holds of the three semaphores, of who sleeps where, and of
-- the variable, between any two steps.
use tp_so.Prelude.{
  ℕ, ◌≡◌, ◌≢◌, refl, ap, subst, ◌⊎◌, true, false, List, [], ◌∷◌, ◌++◌, All, All-map, Absent,
  Distinct, update, update_elim,
}
use tp_so.Gate.{Gate}
use tp_so.Mvar.{
  Loc, start, lock, access, show, unlock, pass, Worker, Role, writer, reader, Mvar, resting,
}

-- Whose turn it is: anyone may write, or a writer is at it, or anyone may read, or a reader is at it.
pub data Turn : Type 0 where
  can_write : Turn
  writing : ℕ → Turn
  can_read : Turn
  reading : ℕ → Turn

-- In the wait for the first semaphore of its loop.
abbrev pub sleeping : Worker
sleeping = record { at = lock; asleep = true }

abbrev pub IsWriter : Role → Type 0
IsWriter (writer val) = Unit {0}
IsWriter (reader id) = ⊥

abbrev pub IsReader : Role → Type 0
IsReader (writer val) = ⊥
IsReader (reader id) = Unit {0}

abbrev pub NotAt : Turn → ℕ → Type 0
NotAt can_write t = Unit {0}
NotAt (writing u) t = t ≢ u
NotAt can_read t = Unit {0}
NotAt (reading u) t = t ≢ u

-- The values in the texts that were printed.
abbrev pub first : List ℕ → ℕ
first [] = 0
first (c ∷ text) = c

abbrev pub values : List (List ℕ) → List ℕ
values [] = []
values (text ∷ texts) = first text ∷ values texts

abbrev pub Is : ℕ → Gate → Type 0
Is n g = (g.value ≡ n) × (g.waiting ≡ [])

-- All that was written has been printed, or all but the value in the variable.
-- For the values written and the texts shown.
abbrev pub NoneLeft : List ℕ → List (List ℕ) → Type 0
NoneLeft ws ss = ws ≡ values ss

abbrev pub OneLeft : ℕ → List ℕ → List (List ℕ) → Type 0
OneLeft c ws ss = ws ≡ values ss ++ (c ∷ [])

-- A writer at each place of its loop, with the mutex and the variable.
abbrev pub Writes : Loc → Gate → ℕ → List ℕ → List (List ℕ) → Type 0
Writes start g c ws ss = ⊥
Writes lock g c ws ss = Is 1 g × NoneLeft ws ss
Writes access g c ws ss = Is 0 g × NoneLeft ws ss
Writes (show d) g c ws ss = ⊥
Writes unlock g c ws ss = Is 0 g × OneLeft c ws ss
Writes pass g c ws ss = Is 1 g × OneLeft c ws ss

abbrev pub Reads : Loc → Gate → ℕ → List ℕ → List (List ℕ) → Type 0
Reads start g c ws ss = ⊥
Reads lock g c ws ss = Is 1 g × OneLeft c ws ss
Reads access g c ws ss = Is 0 g × OneLeft c ws ss
Reads (show d) g c ws ss = Is 0 g × OneLeft d ws ss
Reads unlock g c ws ss = Is 0 g × NoneLeft ws ss
Reads pass g c ws ss = Is 1 g × NoneLeft ws ss

module _ (role : ℕ → Role) where
  -- The process at work, given as the entry of the table that it has.
  abbrev pub WriterAt : ℕ → Worker → Mvar → Type 0
  WriterAt u w m =
      IsWriter (role u) × (w.asleep ≡ false) × Writes w.at m.mutex m.val m.written m.shown

  abbrev pub ReaderAt : ℕ → Worker → Mvar → Type 0
  ReaderAt u w m =
      IsReader (role u) × (w.asleep ≡ false) × Reads w.at m.mutex m.val m.written m.shown

  abbrev pub Phase : Turn → Mvar → Type 0
  Phase can_write m = Is 1 m.empty × (m.full.value ≡ 0) × Is 1 m.mutex × NoneLeft m.written m.shown
  Phase (writing u) m = (m.empty.value ≡ 0) × (m.full.value ≡ 0) × WriterAt u (m.workers u) m
  Phase can_read m =
      (m.empty.value ≡ 0) × Is 1 m.full × Is 1 m.mutex × OneLeft m.val m.written m.shown
  Phase (reading u) m = (m.empty.value ≡ 0) × (m.full.value ≡ 0) × ReaderAt u (m.workers u) m

  pub record Inv (turn : Turn) (m : Mvar) : Type 0 where
    pub idle : (t : ℕ) → NotAt turn t → (m.workers t ≡ resting) ⊎ (m.workers t ≡ sleeping)
    pub writers : All (λ t. IsWriter (role t) × (m.workers t ≡ sleeping)) m.empty.waiting
    pub readers : All (λ t. IsReader (role t) × (m.workers t ≡ sleeping)) m.full.waiting
    pub writers_once : Distinct m.empty.waiting
    pub readers_once : Distinct m.full.waiting
    pub phase : Phase turn m

-- A process that is not in a list of sleepers may change.
pub sleepers_kept {ℓ} :
    (P : ℕ → Type ℓ) (ws : ℕ → Worker) (t : ℕ) (w : Worker) (xs : List ℕ)
    → ws t ≢ sleeping
    → All (λ u. P u × (ws u ≡ sleeping)) xs
    → All (λ u. P u × (update ws t w u ≡ sleeping)) xs
sleepers_kept P ws t w xs awake h =
    All-map (λ u. P u × (ws u ≡ sleeping)) (λ u. P u × (update ws t w u ≡ sleeping)) xs
      (λ u p. (
        p.0,
        update_elim (λ x. x ≡ sleeping) ws t w u
            (λ e. absurd (awake (subst (λ x. ws x ≡ sleeping) e p.1))) (λ _. p.1),
      ))
      h

-- So may one that has just left it.
pub sleepers_left {ℓ} :
    (P : ℕ → Type ℓ) (ws : ℕ → Worker) (t : ℕ) (w : Worker) (xs : List ℕ)
    → Absent t xs
    → All (λ u. P u × (ws u ≡ sleeping)) xs
    → All (λ u. P u × (update ws t w u ≡ sleeping)) xs
sleepers_left P ws t w [] a h = tt
sleepers_left P ws t w (x ∷ xs) a h = (
  (h.0.0, update_elim (λ v. v ≡ sleeping) ws t w x (λ e. absurd (a.0 e)) (λ _. h.0.1)),
  sleepers_left P ws t w xs a.1 h.1,
)

-- Who is awake waits in no list of sleepers.
pub awake-Absent {ℓ} :
    (P : ℕ → Type ℓ) (ws : ℕ → Worker) (t : ℕ) (xs : List ℕ)
    → ws t ≢ sleeping
    → All (λ u. P u × (ws u ≡ sleeping)) xs
    → Absent t xs
awake-Absent P ws t xs awake h =
    All-map (λ u. P u × (ws u ≡ sleeping)) (λ u. u ≢ t) xs
      (λ u p e. awake (subst (λ x. ws x ≡ sleeping) e p.1)) h

pub values-append :
    (xs : List (List ℕ)) (c : ℕ) (text : List ℕ)
    → values (xs ++ ((c ∷ text) ∷ [])) ≡ values xs ++ (c ∷ [])
values-append [] c text = refl
values-append (x ∷ xs) c text = ap (λ r. first x ∷ r) (values-append xs c text)

module _ (role : ℕ → Role) where
  -- A process that is not asleep goes on, and perhaps the two counters, the mutex and the variable
  -- change with it; the waiting processes stay.
  pub changes :
      {turn : Turn} (turn' : Turn) {m : Mvar} (t : ℕ) (w : Worker) (a b : ℕ) (g : Gate) (c : ℕ)
      (ws : List ℕ) (ss : List (List ℕ))
      → Inv role turn m
      → m.workers t ≢ sleeping
      → (NotAt turn' t → (w ≡ resting) ⊎ (w ≡ sleeping))
      → ((s : ℕ) → s ≢ t → NotAt turn' s → (m.workers s ≡ resting) ⊎ (m.workers s ≡ sleeping))
      → let m' = record m {
        workers = update m.workers t w;
        empty = record (m.empty) { value = a };
        full = record (m.full) { value = b };
        mutex = g;
        val = c;
        written = ws;
        shown = ss;
      } in
        Phase role turn' m' → Inv role turn' m'
  changes turn' {m} t w a b g c ws ss v awake rests others phase = record {
    idle = λ s n.
        update_elim (λ x. (x ≡ resting) ⊎ (x ≡ sleeping)) m.workers t w s
          (λ e. rests (subst (NotAt turn') e n)) (λ d. others s d n);
    writers = sleepers_kept (λ s. IsWriter (role s)) m.workers t w m.empty.waiting awake v.writers;
    readers = sleepers_kept (λ s. IsReader (role s)) m.workers t w m.full.waiting awake v.readers;
    writers_once = v.writers_once;
    readers_once = v.readers_once;
    phase = phase;
  }
