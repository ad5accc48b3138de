-- ===== src/ProcessTable/Listing.antt =====
-- What `get_process_list` writes into the caller's buffer.
use native.Mathlib.Decide.{ℕ_discrete}
use tp_so.Prelude.{
  ℕ, zero, suc, ◌+◌, ◌≤◌, ◌<◌, ◌≡◌, ◌≢◌, ◌⊎◌, refl, sym, ◌∙◌, subst, true, false, not, ◌&&◌, ltb,
  lt→ltb, ltb→lt, List, [], ◌∷◌, pos, arith, length, All, Bool-cases, inl, inr, and_true,
}
use tp_so.Machine.{Pcb, System, max_processes, killed, eq_state, eq_state_sound}
use tp_so.ProcessTable.{ProcessInfo, info_of, is_listed, list_from, get_process_list}

-- An entry that describes a process of the table: what is in each of its fields.
pub record Describes (x : ProcessInfo) (p : Pcb) : Type 0 where
  pub pid : x.pid ≡ p.pid
  pub name : x.name ≡ p.name
  pub rsp : x.rsp ≡ p.rsp
  pub rbp : x.rbp ≡ p.rbp
  pub priority : x.priority ≡ p.priority
  pub state : x.state ≡ p.state
  pub foreground : x.foreground ≡ p.foreground

info_of-Describes : (p : Pcb) → Describes (info_of p) p
info_of-Describes p = record {
  pid = refl;
  name = refl;
  rsp = refl;
  rbp = refl;
  priority = refl;
  state = refl;
  foreground = refl;
}

-- A process that has a pid and has not been killed.
pub record Lives (p : Pcb) : Type 0 where
  pub numbered : 0 < p.pid
  pub not_killed : p.state ≢ killed

-- An entry that describes a process of the table that is alive.
pub record IsAlive (t : ℕ → Pcb) (x : ProcessInfo) : Type 0 where
  pub slot : ℕ
  pub in_table : slot < max_processes
  pub alive : Lives (t slot)
  pub copied : Describes x (t slot)

-- Some entry of the list describes the process.
abbrev pub IsIn : Pcb → List ProcessInfo → Type 0
IsIn p [] = ⊥
IsIn p (x ∷ l) = Describes x p ⊎ IsIn p l

-- A list of at most `room` entries, each of a living process, and of all living processes from slot
-- `i` on where it does not fill the room.
pub record Lists (t : ℕ → Pcb) (i n room : ℕ) (l : List ProcessInfo) : Type 0 where
  pub fits : length l ≤ room
  pub living : All (IsAlive t) l
  pub complete :
      length l < room → (slot : ℕ) → i ≤ slot → slot < i + n → Lives (t slot) → IsIn (t slot) l

listed-Lives : (p : Pcb) → is_listed p ≡ true → Lives p
listed-Lives p e =
    let both = and_true (ltb 0 p.pid) (not (eq_state p.state killed)) e in
    record {
      numbered = ltb→lt 0 p.pid both.0;
      not_killed = λ d.
          let c : not (eq_state killed killed) ≡ true =
            subst (λ z. not (eq_state z killed) ≡ true) d both.1 in
          cc;
    }

unlisted : (p : Pcb) → is_listed p ≡ false → Lives p → ⊥
unlisted p e v = elim (Bool-cases (eq_state p.state killed)) [
  | inl d ↦ v.not_killed (eq_state_sound p.state killed d)
  | inr d ↦
      let h : (ltb 0 p.pid && not (eq_state p.state killed)) ≡ true =
        rw (d, lt→ltb 0 p.pid v.numbered) refl in
      let c : true ≡ false = sym h ∙ e in cc
]

list_from-Lists :
    (n i room : ℕ) (t : ℕ → Pcb) → i + n ≤ max_processes → Lists t i n room (list_from n i room t)
unfolding list_from
list_from-Lists zero i room t h = record {
  fits = omega arith;
  living = tt;
  complete = λ _ s a b. absurd (omega arith);
}
list_from-Lists (suc n) i zero t h = record {
  fits = omega arith;
  living = tt;
  complete = λ b. absurd (omega arith);
}
list_from-Lists (suc n) i (suc room) t h = elim (Bool-cases (is_listed (t i))) [
  | inl e ↦
      let r = list_from-Lists n (suc i) room t (omega arith) in
      rw e (record {
        fits = omega (arith, r.fits);
        living = (
          record {
            slot = i;
            in_table = omega arith;
            alive = listed-Lives (t i) e;
            copied = info_of-Describes (t i);
          },
          r.living,
        );
        complete = λ b s p q v. elim (ℕ_discrete s i) [
          | yes d ↦
              inl (subst (λ z. Describes (info_of (t i)) (t z)) (sym d) (info_of-Describes (t i)))
          | no nd ↦ inr (r.complete (omega arith) s (omega arith) (omega arith) v)
        ];
      })
  | inr e ↦
      let r = list_from-Lists n (suc i) (suc room) t (omega arith) in
      rw e (record {
        fits = r.fits;
        living = r.living;
        complete = λ b s p q v. elim (ℕ_discrete s i) [
          | yes d ↦ absurd (unlisted (t i) e (subst (λ z. Lives (t z)) d v))
          | no nd ↦ r.complete b s (omega arith) (omega arith) v
        ];
      })
]

module _ {M : Type 0} where
  -- `get_process_list` writes no more entries than the buffer holds, each of which has the fields of a
  -- process of the table that has a pid and is not killed; where it does not fill the buffer, every
  -- such process is among them.
  pub get_process_list-IsAlive :
      (room : ℕ) (k : System M) → Lists k.procs 0 max_processes room (get_process_list (pos room) k)
  unfolding get_process_list
  get_process_list-IsAlive room k = list_from-Lists max_processes 0 room k.procs (omega arith)
