-- ===== src/Mvar/Steps.antt =====
-- Every step of a process of `mvar` keeps the invariant, for some turn.
use tp_so.Prelude.{
  ℕ, ◌≡◌, refl, sym, ap, ◌∙◌, subst, inl, inr, true, false, List, [], ◌∷◌, ◌++◌, arith, Bool-cases,
  ◌==◌,
}
use tp_so.Gate.{
  gate_wait, gate_post, goes_through-one, goes_through-zero, gate_wait-one, gate_wait-zero,
  gate_post-none, gate_post-some,
}
use tp_so.Mvar.{
  Loc, start, lock, access, show, unlock, pass, Worker, Role, writer, reader, Mvar, resting,
  print_text, wake, waits, posts, mvar_writer_entry, mvar_reader_entry, act, step, run,
}
use tp_so.Mvar.Inv.{
  Turn, can_write, writing, can_read, reading, IsWriter, IsReader, NotAt, Is, NoneLeft, OneLeft,
  Writes, Reads, Inv, values-append,
}
use tp_so.Mvar.Moves.{
  taken, given_back, Turns, writer_goes_on, writer_ends, writer_hands_over, reader_goes_on,
  reader_ends, reader_hands_over,
}
use tp_so.Mvar.Waits.{writer_starts, writer_sleeps, reader_starts, reader_sleeps}

module _ (role : ℕ → Role) where
  writer_passes :
      (u : ℕ) (m : Mvar) (xs : List ℕ)
      → m.full.waiting ≡ xs
      → Inv role (writing u) m
      → Is 1 m.mutex × OneLeft m.val m.written m.shown
      → Turns role (record m { full = gate_post m.full; workers = posts m.full start u m.workers })
  unfolding wake
  writer_passes u m [] e v h =
      let p = gate_post-none m.full v.phase.1 e in
      rw (p.0, p.1) (can_read, writer_ends role u m v h e)
  writer_passes u m (r ∷ rs) e v h =
      let p = gate_post-some m.full r rs e in
      rw (p.0, p.1) (reading r, writer_hands_over role u r rs m v h e)

  reader_passes :
      (u : ℕ) (m : Mvar) (xs : List ℕ)
      → m.empty.waiting ≡ xs
      → Inv role (reading u) m
      → Is 1 m.mutex × NoneLeft m.written m.shown
      → Turns role
          (record m { empty = gate_post m.empty; workers = posts m.empty start u m.workers })
  unfolding wake
  reader_passes u m [] e v h =
      let p = gate_post-none m.empty v.phase.0 e in
      rw (p.0, p.1) (can_write, reader_ends role u m v h e)
  reader_passes u m (r ∷ rs) e v h =
      let p = gate_post-some m.empty r rs e in
      rw (p.0, p.1) (writing r, reader_hands_over role u r rs m v h e)

  writer_step :
      (u val : ℕ) (l : Loc) (m : Mvar)
      → Inv role (writing u) m
      → Writes l m.mutex m.val m.written m.shown
      → Turns role (mvar_writer_entry val u l m)
  unfolding mvar_writer_entry
  writer_step u val start m v q = absurd q
  writer_step u val lock m v q = rw (goes_through-one m.mutex q.0.0) (
      writer_goes_on role u m access (gate_wait u m.mutex) m.val m.written v
        (taken u m.mutex q.0, q.1))
  writer_step u val access m v q =
      writer_goes_on role u m unlock m.mutex val (m.written ++ (val ∷ [])) v
        (q.0, ap (λ r. r ++ (val ∷ [])) q.1)
  writer_step u val (show c) m v q = absurd q
  writer_step u val unlock m v q =
      rw ((gate_post-none m.mutex q.0.0 q.0.1).1, wake)
        (writer_goes_on role u m pass (gate_post m.mutex) m.val m.written v
          (given_back m.mutex q.0, q.1))
  writer_step u val pass m v q = writer_passes u m m.full.waiting refl v q

  reader_step :
      (u id : ℕ) (l : Loc) (m : Mvar)
      → Inv role (reading u) m
      → Reads l m.mutex m.val m.written m.shown
      → Turns role (mvar_reader_entry id u l m)
  unfolding mvar_reader_entry print_text
  reader_step u id start m v q = absurd q
  reader_step u id lock m v q =
      rw (goes_through-one m.mutex q.0.0)
        (reader_goes_on role u m access (gate_wait u m.mutex) m.shown v (taken u m.mutex q.0, q.1))
  reader_step u id access m v q = reader_goes_on role u m (show m.val) m.mutex m.shown v q
  reader_step u id (show c) m v q =
      reader_goes_on role u m unlock m.mutex (m.shown ++ (print_text c id ∷ [])) v
        (q.0, q.1 ∙ sym (values-append m.shown c _))
  reader_step u id unlock m v q =
      rw ((gate_post-none m.mutex q.0.0 q.0.1).1, wake)
        (reader_goes_on role u m pass (gate_post m.mutex) m.shown v (given_back m.mutex q.0, q.1))
  reader_step u id pass m v q = reader_passes u m m.empty.waiting refl v q

  writer_waits :
      (u : ℕ) (turn : Turn) (m : Mvar)
      → IsWriter (role u)
      → m.workers u ≡ resting
      → NotAt turn u
      → Inv role turn m
      → Turns role
          (record m { empty = gate_wait u m.empty; workers = waits m.empty lock u m.workers })
  writer_waits u can_write m i e n v =
      rw (gate_wait-one u m.empty v.phase.0.0, goes_through-one m.empty v.phase.0.0)
        (writing u, writer_starts role u m i e v)
  writer_waits u (writing s) m i e n v =
      rw (gate_wait-zero u m.empty v.phase.0, goes_through-zero m.empty v.phase.0)
        (writing s, writer_sleeps role u m (writing s) i e v.phase.0 n v)
  writer_waits u can_read m i e n v =
      rw (gate_wait-zero u m.empty v.phase.0, goes_through-zero m.empty v.phase.0)
        (can_read, writer_sleeps role u m can_read i e v.phase.0 n v)
  writer_waits u (reading s) m i e n v =
      rw (gate_wait-zero u m.empty v.phase.0, goes_through-zero m.empty v.phase.0)
        (reading s, writer_sleeps role u m (reading s) i e v.phase.0 n v)

  reader_waits :
      (u : ℕ) (turn : Turn) (m : Mvar)
      → IsReader (role u)
      → m.workers u ≡ resting
      → NotAt turn u
      → Inv role turn m
      → Turns role (record m { full = gate_wait u m.full; workers = waits m.full lock u m.workers })
  reader_waits u can_write m i e n v =
      rw (gate_wait-zero u m.full v.phase.1, goes_through-zero m.full v.phase.1)
        (can_write, reader_sleeps role u m can_write i e v.phase.1 n v)
  reader_waits u (writing s) m i e n v =
      rw (gate_wait-zero u m.full v.phase.1, goes_through-zero m.full v.phase.1)
        (writing s, reader_sleeps role u m (writing s) i e v.phase.1 n v)
  reader_waits u can_read m i e n v =
      rw (gate_wait-one u m.full v.phase.1.0, goes_through-one m.full v.phase.1.0)
        (reading u, reader_starts role u m i e v)
  reader_waits u (reading s) m i e n v =
      rw (gate_wait-zero u m.full v.phase.1, goes_through-zero m.full v.phase.1)
        (reading s, reader_sleeps role u m (reading s) i e v.phase.1 n v)

  first_wait :
      (r : Role) (u : ℕ) (turn : Turn) (m : Mvar)
      → role u ≡ r
      → m.workers u ≡ resting
      → NotAt turn u
      → Inv role turn m
      → Turns role (act r u start m)
  unfolding act mvar_writer_entry mvar_reader_entry
  first_wait (writer val) u turn m e w n v = writer_waits u turn m (subst IsWriter (sym e) tt) w n v
  first_wait (reader id) u turn m e w n v = reader_waits u turn m (subst IsReader (sym e) tt) w n v

  at_work :
      (r : Role) (u : ℕ) (m : Mvar)
      → IsWriter r
      → Inv role (writing u) m
      → Turns role (act r u (m.workers u).at m)
  unfolding act
  at_work (writer val) u m i v = writer_step u val (m.workers u).at m v v.phase.2.2
  at_work (reader id) u m i v = absurd i

  at_reading :
      (r : Role) (u : ℕ) (m : Mvar)
      → IsReader r
      → Inv role (reading u) m
      → Turns role (act r u (m.workers u).at m)
  unfolding act
  at_reading (writer val) u m i v = absurd i
  at_reading (reader id) u m i v = reader_step u id (m.workers u).at m v v.phase.2.2

  -- A process that has not got the turn rests, and makes its first wait, or sleeps on.
  idle_step :
      (t : ℕ) (turn : Turn) (m : Mvar) → NotAt turn t → Inv role turn m → Turns role (step role t m)
  unfolding step
  idle_step t turn m n v = elim (v.idle t n) [
    | inl e ↦
        let awake : (m.workers t).asleep ≡ false = ap (λ (w : Worker). w.asleep) e in
        let at_start : (m.workers t).at ≡ start = ap (λ (w : Worker). w.at) e in
        rw (awake, at_start) (first_wait (role t) t turn m refl e n v)
    | inr e ↦
        let asleep : (m.workers t).asleep ≡ true = ap (λ (w : Worker). w.asleep) e in
        rw asleep (turn, v)
  ]

  pub step-Turns : (t : ℕ) (turn : Turn) (m : Mvar) → Inv role turn m → Turns role (step role t m)
  unfolding step
  step-Turns t can_write m v = idle_step t can_write m tt v
  step-Turns t can_read m v = idle_step t can_read m tt v
  step-Turns t (writing u) m v = elim (Bool-cases (t == u)) [
    | inl e ↦
        let q : u ≡ t = ground arith in
        let own = subst (λ x. Inv role (writing x) m) q v in
        rw (own.phase.2.1) (at_work (role t) t m own.phase.2.0 own)
    | inr e ↦ idle_step t (writing u) m (λ q. absurd (ground arith)) v
  ]
  step-Turns t (reading u) m v = elim (Bool-cases (t == u)) [
    | inl e ↦
        let q : u ≡ t = ground arith in
        let own = subst (λ x. Inv role (reading x) m) q v in
        rw (own.phase.2.1) (at_reading (role t) t m own.phase.2.0 own)
    | inr e ↦ idle_step t (reading u) m (λ q. absurd (ground arith)) v
  ]

  pub run-Turns : (ts : List ℕ) (m : Mvar) → Turns role m → Turns role (run role ts m)
  unfolding run
  run-Turns [] m v = v
  run-Turns (t ∷ ts) m v = run-Turns ts (step role t m) (step-Turns t v.0 m v.1)
