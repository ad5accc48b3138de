-- ===== src/Mvar/Moves.antt =====
-- The moves of the processes of `mvar` from turn to turn.
use tp_so.Prelude.{
  ℕ, ◌≡◌, ◌≢◌, refl, sym, ap, subst, ◌⊎◌, inl, false, List, [], ◌∷◌, All, All-map, Absent, Distinct,
  update, update_elim,
}
use tp_so.Gate.{Gate, gate_wait, gate_post, gate_wait-one, gate_post-none}
use tp_so.Mvar.{Loc, Worker, Role, writer, reader, Mvar, resting, awake_at}
use tp_so.Mvar.Inv.{
  Turn, can_write, writing, can_read, reading, sleeping, IsWriter, IsReader, Is, NoneLeft, OneLeft,
  Writes, Reads, Inv, WriterAt, ReaderAt, changes, sleepers_left, awake-Absent,
}

pub update_self {ℓ} : {A : Type ℓ} (f : ℕ → A) (l : ℕ) (v : A) → update f l v l ≡ v
update_self f l v = update_elim (λ x. x ≡ v) f l v l (λ _. refl) (λ n. absurd (n refl))

pub awake : (w : Worker) → w.asleep ≡ false → w ≢ sleeping
awake w a e = cc (ap (λ (x : Worker). x.asleep) e)

-- The mutex is taken where it is free, and given back where nobody waits for it.
pub taken : (t : ℕ) (g : Gate) → Is 1 g → Is 0 (gate_wait t g)
taken t g h = rw (gate_wait-one t g h.0) (refl, h.1)

pub given_back : (g : Gate) → Is 0 g → Is 1 (gate_post g)
given_back g h = rw ((gate_post-none g h.0 h.1).0) (refl, h.1)

one_role : (r : Role) → IsWriter r → IsReader r → ⊥
one_role (writer val) w r = r
one_role (reader id) w r = w

-- Two processes that are in no list of sleepers may change.
both_left {ℓ} :
    (P : ℕ → Type ℓ) (ws : ℕ → Worker) (r u : ℕ) (w x : Worker) (xs : List ℕ)
    → Absent r xs
    → Absent u xs
    → All (λ t. P t × (ws t ≡ sleeping)) xs
    → All (λ t. P t × (update (update ws r w) u x t ≡ sleeping)) xs
both_left P ws r u w x xs a b h =
    sleepers_left P (update ws r w) u x xs b (sleepers_left P ws r w xs a h)

module _ (role : ℕ → Role) where
  -- Some turn for which the invariant holds.
  abbrev pub Turns : Mvar → Type 0
  Turns m = (turn : Turn) × Inv role turn m

  writers_only :
      (r : ℕ) (xs : List ℕ) (m : Mvar)
      → IsReader (role r)
      → All (λ t. IsWriter (role t) × (m.workers t ≡ sleeping)) xs
      → Absent r xs
  writers_only r xs m i h =
      All-map (λ t. IsWriter (role t) × (m.workers t ≡ sleeping)) (λ t. t ≢ r) xs
        (λ t p q. one_role (role r) (subst (λ x. IsWriter (role x)) q p.0) i) h

  readers_only :
      (r : ℕ) (xs : List ℕ) (m : Mvar)
      → IsWriter (role r)
      → All (λ t. IsReader (role t) × (m.workers t ≡ sleeping)) xs
      → Absent r xs
  readers_only r xs m i h =
      All-map (λ t. IsReader (role t) × (m.workers t ≡ sleeping)) (λ t. t ≢ r) xs
        (λ t p q. one_role (role r) i (subst (λ x. IsReader (role x)) q p.0)) h

  -- A writer at work goes on with its loop.
  pub writer_goes_on :
      (u : ℕ) (m : Mvar) (l : Loc) (g : Gate) (c : ℕ) (ws : List ℕ)
      → Inv role (writing u) m
      → Writes l g c ws m.shown
      → Turns
          (record m { workers = update m.workers u (awake_at l); mutex = g; val = c; written = ws })
  writer_goes_on u m l g c ws v h = (
    writing u,
    changes role (writing u) u (awake_at l) m.empty.value m.full.value g c ws m.shown v
        (awake (m.workers u) v.phase.2.1) (λ n. absurd (n refl)) (λ s d n. v.idle s d)
        (v.phase.0, v.phase.1, rw (update_self m.workers u (awake_at l)) (v.phase.2.0, refl, h)),
  )

  -- The last step of a writer, with nobody waiting to read.
  pub writer_ends :
      (u : ℕ) (m : Mvar)
      → Inv role (writing u) m
      → Is 1 m.mutex × OneLeft m.val m.written m.shown
      → m.full.waiting ≡ []
      → Inv role can_read
          (record m { workers = update m.workers u resting; full = record (m.full) { value = 1 } })
  writer_ends u m v h e =
      changes role can_read u resting m.empty.value 1 m.mutex m.val m.written m.shown v
        (awake (m.workers u) v.phase.2.1) (λ _. inl refl) (λ s d n. v.idle s d)
        (v.phase.0, (refl, e), h.0, h.1)

  -- With somebody waiting, the first of them is at it next.
  pub writer_hands_over :
      (u r : ℕ) (rs : List ℕ) (m : Mvar)
      → Inv role (writing u) m
      → Is 1 m.mutex × OneLeft m.val m.written m.shown
      → m.full.waiting ≡ r ∷ rs
      → Inv role (reading r) (record m {
        workers = update (update m.workers r (record (m.workers r) { asleep = false })) u resting;
        full = record (m.full) { waiting = rs };
      })
  writer_hands_over u r rs m v h e =
      let up = awake (m.workers u) v.phase.2.1 in
      let woken : Worker = record (m.workers r) { asleep = false } in
      let ws = update m.workers r woken in
      let slept : All (λ t. IsReader (role t) × (m.workers t ≡ sleeping)) (r ∷ rs) =
        subst (All (λ t. IsReader (role t) × (m.workers t ≡ sleeping))) e v.readers in
      let once : Distinct (r ∷ rs) = subst Distinct e v.readers_once in
      let apart : r ≢ u = λ q. up (subst (λ x. m.workers x ≡ sleeping) q slept.0.1) in
      record {
        idle = λ s n.
            update_elim (λ x. (x ≡ resting) ⊎ (x ≡ sleeping)) ws u resting s (λ _. inl refl)
              (λ d.
                update_elim (λ x. (x ≡ resting) ⊎ (x ≡ sleeping)) m.workers r woken s
                  (λ q. absurd (n q)) (λ _. v.idle s d));
        writers =
            both_left (λ t. IsWriter (role t)) m.workers r u woken resting m.empty.waiting
              (writers_only r m.empty.waiting m slept.0.0 v.writers)
              (awake-Absent (λ t. IsWriter (role t)) m.workers u m.empty.waiting up v.writers)
              v.writers;
        readers =
            both_left (λ t. IsReader (role t)) m.workers r u woken resting rs once.0
              (awake-Absent (λ t. IsReader (role t)) m.workers u (r ∷ rs) up slept).1 slept.1;
        writers_once = v.writers_once;
        readers_once = once.1;
        phase = (
          v.phase.0,
          v.phase.1,
          update_elim (λ w. ReaderAt role r w m) ws u resting r (λ q. absurd (apart q))
              (λ _. rw (update_self m.workers r woken) (
                slept.0.0,
                refl,
                subst (λ (w : Worker). Reads w.at m.mutex m.val m.written m.shown) (sym slept.0.1)
                    h,
              )),
        );
      }

  -- A reader at work goes on with its loop.
  pub reader_goes_on :
      (u : ℕ) (m : Mvar) (l : Loc) (g : Gate) (ss : List (List ℕ))
      → Inv role (reading u) m
      → Reads l g m.val m.written ss
      → Turns (record m { workers = update m.workers u (awake_at l); mutex = g; shown = ss })
  reader_goes_on u m l g ss v h = (
    reading u,
    changes role (reading u) u (awake_at l) m.empty.value m.full.value g m.val m.written ss v
        (awake (m.workers u) v.phase.2.1) (λ n. absurd (n refl)) (λ s d n. v.idle s d)
        (v.phase.0, v.phase.1, rw (update_self m.workers u (awake_at l)) (v.phase.2.0, refl, h)),
  )

  -- The last step of a reader, with nobody waiting to write.
  pub reader_ends :
      (u : ℕ) (m : Mvar)
      → Inv role (reading u) m
      → Is 1 m.mutex × NoneLeft m.written m.shown
      → m.empty.waiting ≡ []
      → Inv role can_write (record m {
        workers = update m.workers u resting;
        empty = record (m.empty) { value = 1 };
      })
  reader_ends u m v h e =
      changes role can_write u resting 1 m.full.value m.mutex m.val m.written m.shown v
        (awake (m.workers u) v.phase.2.1) (λ _. inl refl) (λ s d n. v.idle s d)
        ((refl, e), v.phase.1, h.0, h.1)

  -- With somebody waiting, the first of them is at it next.
  pub reader_hands_over :
      (u r : ℕ) (rs : List ℕ) (m : Mvar)
      → Inv role (reading u) m
      → Is 1 m.mutex × NoneLeft m.written m.shown
      → m.empty.waiting ≡ r ∷ rs
      → Inv role (writing r) (record m {
        workers = update (update m.workers r (record (m.workers r) { asleep = false })) u resting;
        empty = record (m.empty) { waiting = rs };
      })
  reader_hands_over u r rs m v h e =
      let up = awake (m.workers u) v.phase.2.1 in
      let woken : Worker = record (m.workers r) { asleep = false } in
      let ws = update m.workers r woken in
      let slept : All (λ t. IsWriter (role t) × (m.workers t ≡ sleeping)) (r ∷ rs) =
        subst (All (λ t. IsWriter (role t) × (m.workers t ≡ sleeping))) e v.writers in
      let once : Distinct (r ∷ rs) = subst Distinct e v.writers_once in
      let apart : r ≢ u = λ q. up (subst (λ x. m.workers x ≡ sleeping) q slept.0.1) in
      record {
        idle = λ s n.
            update_elim (λ x. (x ≡ resting) ⊎ (x ≡ sleeping)) ws u resting s (λ _. inl refl)
              (λ d.
                update_elim (λ x. (x ≡ resting) ⊎ (x ≡ sleeping)) m.workers r woken s
                  (λ q. absurd (n q)) (λ _. v.idle s d));
        readers =
            both_left (λ t. IsReader (role t)) m.workers r u woken resting m.full.waiting
              (readers_only r m.full.waiting m slept.0.0 v.readers)
              (awake-Absent (λ t. IsReader (role t)) m.workers u m.full.waiting up v.readers)
              v.readers;
        writers =
            both_left (λ t. IsWriter (role t)) m.workers r u woken resting rs once.0
              (awake-Absent (λ t. IsWriter (role t)) m.workers u (r ∷ rs) up slept).1 slept.1;
        readers_once = v.readers_once;
        writers_once = once.1;
        phase = (
          v.phase.0,
          v.phase.1,
          update_elim (λ w. WriterAt role r w m) ws u resting r (λ q. absurd (apart q))
              (λ _. rw (update_self m.workers r woken) (
                slept.0.0,
                refl,
                subst (λ (w : Worker). Writes w.at m.mutex m.val m.written m.shown) (sym slept.0.1)
                    h,
              )),
        );
      }
