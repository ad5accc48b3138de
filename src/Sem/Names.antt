-- ===== src/Sem/Names.antt =====
-- Semaphores by name: what `sem_open` finds.
use tp_so.Prelude.{
  ℕ, zero, suc, ◌-◌, ◌≤◌, ◌<◌, ◌≡◌, refl, sym, ap, ◌∙◌, ◌≢◌, some, none, Bool, true, false, not,
  List, [], ◌∷◌, ◌&&◌, arith, length, take, update, on_some_elim, ℤ, pos, find_from,
  find_from_cases, find_from-lt, inl, inr, update_elim, fun_ext,
}
use tp_so.Machine.{Sem, System, max_sems, max_sem_name}
use tp_so.Sem.{
  sem_name_eq, sem_name_copy, sem_open, sem_reopen, sem_create, find_sem, free_sem, is_named,
  incr16, lock_registry, unlock_registry,
}

sem_name_eq_refl : (a : List ℕ) → sem_name_eq a a ≡ true
unfolding sem_name_eq
sem_name_eq_refl [] = refl
sem_name_eq_refl (x ∷ xs) = ground (arith, sem_name_eq_refl xs)

sem_name_eq_sound : (a b : List ℕ) → sem_name_eq a b ≡ true → a ≡ b
unfolding sem_name_eq
sem_name_eq_sound [] [] h = refl
sem_name_eq_sound [] (y ∷ ys) h = cc
sem_name_eq_sound (x ∷ xs) [] h = cc
sem_name_eq_sound (x ∷ xs) (y ∷ ys) h = ground (arith, sem_name_eq_sound xs ys)

take-short : (n : ℕ) (a : List ℕ) → length a ≤ n → take n a ≡ a
take-short zero [] h = refl
take-short zero (x ∷ xs) h = absurd (omega arith)
take-short (suc n) [] h = refl
take-short (suc n) (x ∷ xs) h = ap (λ r. x ∷ r) (take-short n xs (omega arith))

length-take-le : (n : ℕ) (a : List ℕ) → length (take n a) ≤ n
length-take-le zero a = omega arith
length-take-le (suc n) [] = omega arith
length-take-le (suc n) (x ∷ xs) = omega (arith, length-take-le n xs)

-- A search finds an index that passes where no index below it does.
find_from-first :
    (n : ℕ) (p : ℕ → Bool) (i : ℕ)
    → i < n
    → p i ≡ true
    → ((j : ℕ) → j < i → p j ≡ false)
    → find_from n 0 p ≡ some i
find_from-first n p i b h before = elim (find_from_cases n p) [
  | inl (e, all) ↦ let c : true ≡ false = sym h ∙ all i b in cc
  | inr (j, e, c, hj, first) ↦ ground (arith, before j, first i)
]

find_from-none : (n : ℕ) (p : ℕ → Bool) → find_from n 0 p ≡ none → (j : ℕ) → j < n → p j ≡ false
find_from-none n p e = elim (find_from_cases n p) [ inl (_, all) ↦ all | inr (j, f, _, _, _) ↦ cc ]

copy-named :
    (name : List ℕ) → length name < max_sem_name → sem_name_eq (sem_name_copy name) name ≡ true
unfolding sem_name_copy
copy-named name b = rw (take-short (max_sem_name - 1) name (omega arith)) (sem_name_eq_refl name)

and_right : (a b : Bool) → (a && b) ≡ true → b ≡ true
and_right true b p = p
and_right false b p = cc

-- Every stored name fits its array with its terminator.
abbrev pub ShortNames : (ℕ → Sem) → Type 0
ShortNames t = (i : ℕ) → i < max_sems → length (t i).name < max_sem_name

module _ {M : Type 0} where
  find_sem-lock :
      (name : List ℕ) {i : ℕ} (s : System M)
      → find_sem name s ≡ some i
      → find_sem name (lock_registry s) ≡ some i
  unfolding find_sem
  find_sem-lock name s e = e

  find_sem-reopen :
      (name : List ℕ) (i : ℕ) (k : System M) → find_sem name (sem_reopen i k) ≡ find_sem name k
  unfolding find_sem sem_reopen
  find_sem-reopen name i k = ap (find_from max_sems 0) (fun_ext λ q. ground arith)

  find_sem-create :
      (name : List ℕ) (v i : ℕ) (k : System M)
      → length name < max_sem_name
      → i < max_sems
      → find_sem name k ≡ none
      → find_sem name (sem_create name v i k) ≡ some i
  unfolding find_sem sem_create
  find_sem-create name v i k b h e =
      find_from-first max_sems _ i h (ground (arith, copy-named name b)) (λ j l.
        ground (arith, find_from-none max_sems (λ q. is_named name (k.sems q)) e j (omega arith)))

  pub free_sem-lt : (k : System M) (j : ℕ) → free_sem k ≡ some j → j < max_sems
  unfolding free_sem
  free_sem-lt k j f = find_from-lt max_sems _ j f

  find_sem-unlock :
      (name : List ℕ) (s : System M) {i j : ℕ}
      → find_sem name s ≡ some j
      → pos j ≡ pos i
      → find_sem name (unlock_registry s) ≡ some i
  unfolding find_sem
  find_sem-unlock name s e p = e ∙ cc

  -- A semaphore that was opened under a short name is found under it.
  pub find_sem-open :
      (name : List ℕ) (v i : ℕ) (k : System M)
      → length name < max_sem_name
      → (sem_open (some name) v k).0 ≡ pos i
      → find_sem name (sem_open (some name) v k).1 ≡ some i
  unfolding sem_open
  find_sem-open name v i k b =
      on_some_elim Finds (find_sem name (lock_registry k))
        (λ j e p.
          find_sem-unlock name (sem_reopen j (lock_registry k))
            (find_sem-reopen name j (lock_registry k) ∙ e) p)
        (λ e.
          on_some_elim Finds (free_sem (lock_registry k))
            (λ j f p.
              find_sem-unlock name (sem_create name v j (lock_registry k))
                (find_sem-create name v j (lock_registry k) b (free_sem-lt (lock_registry k) j f) e)
                p)
            (λ f p. cc))
    where
      Finds : ℤ × System M → Type 0
      Finds r = r.0 ≡ pos i → find_sem name r.1 ≡ some i

  -- Opening a name of at most 31 characters again gives the same semaphore, and counts one more
  -- user of it.
  sem_open_again :
      (name : List ℕ) (v w i : ℕ) (k : System M)
      → length name < max_sem_name
      → (sem_open (some name) v k).0 ≡ pos i
      → let s = (sem_open (some name) v k).1 in
        let r = sem_open (some name) w s in
        (r.0 ≡ pos i)
        × (r.1.sems ≡ update s.sems i (record (s.sems i) { users = incr16 (s.sems i).users }))
  sem_open_again name v w i k b e =
      found (sem_open (some name) v k).1 (find_sem-open name v i k b e)
    where
      found :
          (s : System M)
          → find_sem name s ≡ some i
          → let r = sem_open (some name) w s in
            (r.0 ≡ pos i)
            × (r.1.sems ≡ update s.sems i (record (s.sems i) { users = incr16 (s.sems i).users }))
      found s e = unfold sem_open sem_reopen in rw (find_sem-lock name s e, sem_open) (refl, refl)

  long_name-absent :
      (name : List ℕ) (k : System M)
      → max_sem_name ≤ length name
      → ShortNames k.sems
      → find_sem name k ≡ none
  unfolding find_sem
  long_name-absent name k b h = elim (find_from_cases max_sems (λ q. is_named name (k.sems q))) [
    | inl (e, _) ↦ e
    | inr (j, e, l, p, _) ↦ absurd (longer j l (and_right (k.sems j).active _ p))
  ]
    where
      longer : (j : ℕ) → j < max_sems → sem_name_eq (k.sems j).name name ≡ true → ⊥
      longer j l p =
          let same : length (k.sems j).name ≡ length name =
            ap length (sem_name_eq_sound (k.sems j).name name p) in
          omega (arith, h j l)

  create-ShortNames :
      (name : List ℕ) (v i : ℕ) (k : System M)
      → ShortNames k.sems
      → ShortNames (sem_create name v i k).sems
  unfolding sem_create sem_name_copy
  create-ShortNames name v i k h = λ j b.
      update_elim (λ (x : Sem). length x.name < max_sem_name) k.sems i _ j
        (λ _. omega (arith, length-take-le (max_sem_name - 1) name)) (λ _. h j b)

  free_sem-active : (k : System M) (i : ℕ) → (k.sems i).active ≡ true → free_sem k ≢ some i
  unfolding free_sem
  free_sem-active k i a e = elim (find_from_cases max_sems (λ q. not (k.sems q).active)) [
    | inl (n, _) ↦ cc
    | inr (j, f, _, p, _) ↦ ground arith
  ]

  open_long-other :
      (name : List ℕ) (w i : ℕ) (s : System M)
      → max_sem_name ≤ length name
      → ShortNames s.sems
      → (s.sems i).active ≡ true
      → (sem_open (some name) w s).0 ≢ pos i
  unfolding sem_open
  open_long-other name w i s b h a = rw (long_name-absent name (lock_registry s) b h) (
      on_some_elim (λ (r : ℤ × System M). r.0 ≢ pos i) (free_sem (lock_registry s))
        (λ j f p. free_sem-active (lock_registry s) i a (f ∙ ground arith)) (λ _ p. cc))

  open_long-creates :
      (name : List ℕ) (v i : ℕ) (k : System M)
      → max_sem_name ≤ length name
      → ShortNames k.sems
      → let r = sem_open (some name) v k in
        r.0 ≡ pos i → ShortNames r.1.sems × ((r.1.sems i).active ≡ true)
  unfolding sem_open
  open_long-creates name v i k b h = rw (long_name-absent name (lock_registry k) b h) (
      on_some_elim
        (λ (r : ℤ × System M). r.0 ≡ pos i → ShortNames r.1.sems × ((r.1.sems i).active ≡ true))
        (free_sem (lock_registry k))
        (λ j f p.
          (create-ShortNames name v j (lock_registry k) h, unfold sem_create in ground arith))
        (λ _ p. cc))

  -- A name of 32 characters or more, opened again at once, gives another semaphore or none: the
  -- stored copy is cut to 31 characters, and the search compares the copy with the whole name.
  pub sem_open_long :
      (name : List ℕ) (v w i : ℕ) (k : System M)
      → max_sem_name ≤ length name
      → ShortNames k.sems
      → (sem_open (some name) v k).0 ≡ pos i
      → (sem_open (some name) w (sem_open (some name) v k).1).0 ≢ pos i
  sem_open_long name v w i k b h e =
      let made = open_long-creates name v i k b h e in
      open_long-other name w i (sem_open (some name) v k).1 b made.0 made.1
