-- ===== src/Command/Lookup.antt =====
-- The binary searches find a command by its whole name, whatever the case of the letters.
use tp_so.Prelude.{
  ℕ, zero, suc, ◌+◌, ◌-◌, ◌/◌, ◌<◌, ◌≡◌, ◌↔◌, refl, sym, ap, ap₂, ◌∙◌, subst, Bool, true, false,
  ◌&&◌, ◌||◌, not, ltb, ◌==◌, List, [], ◌∷◌, length, arith, ℤ, pos, minus_one, eq_ℤ, eq_ℤ_sound,
  inl, inr, if_elim, and_true, true_of_not, Bool-cases, if◌then◌else◌,
}
use tp_so.Command.{
  commands, n_commands, command_at, command_name, my_tolower, ci_cmp_prefix, is_negative,
  is_positive, lb_prefix, ub_prefix, ci_same, cr_find_cmd_idx_ci_exact,
}

-- The small letter of each of the 26 capitals, which stands 32 places behind it; what is no capital is
-- left as it is.
abbrev pub small : ℕ → ℕ
small c = if ltb c b'A' || ltb b'Z' c then c else c + 32

-- The text in small letters.
unfoldable pub lower : List ℕ → List ℕ
lower [] = []
lower (c ∷ cs) = small c ∷ lower cs

-- The code's letters are these.
my_tolower-small : (c : ℕ) → my_tolower c ≡ small c
unfolding my_tolower
my_tolower-small c = ground arith

tolower-small : (c : ℕ) → my_tolower (small c) ≡ my_tolower c
unfolding my_tolower
tolower-small c = ground arith

length-lower : (s : List ℕ) → length (lower s) ≡ length s
unfolding lower
length-lower [] = refl
length-lower (c ∷ s) = ap suc (length-lower s)

-- The comparison reads the token in small letters.
cmp-lower : (name tok : List ℕ) → ci_cmp_prefix name (lower tok) ≡ ci_cmp_prefix name tok
unfolding ci_cmp_prefix lower
cmp-lower name [] = refl
cmp-lower [] (b ∷ tok) = refl
cmp-lower (a ∷ name) (b ∷ tok) =
    ap₂
      (λ db rest.
        if not (my_tolower a == db)
        then (if ltb (my_tolower a) db then minus_one else pos 1)
        else rest)
      (tolower-small b) (cmp-lower name tok)

-- One round of a search.
lb-lower :
    (fuel lo hi : ℕ) (tok : List ℕ) → lb_prefix fuel lo hi (lower tok) ≡ lb_prefix fuel lo hi tok
unfolding lb_prefix
lb-lower zero lo hi tok = refl
lb-lower (suc fuel) lo hi tok =
    let mid = lo + (hi - lo) / 2 in
    ap
      (λ z.
        if ltb lo hi
        then (if is_negative z
            then lb_prefix fuel (mid + 1) hi (lower tok)
            else lb_prefix fuel lo mid (lower tok))
        else lo)
      (cmp-lower (command_name mid) tok)
    ∙ ap₂
        (λ above below.
          if ltb lo hi
          then (if is_negative (ci_cmp_prefix (command_name mid) tok) then above else below)
          else lo)
        (lb-lower fuel (mid + 1) hi tok) (lb-lower fuel lo mid tok)

ub-lower :
    (fuel lo hi : ℕ) (tok : List ℕ) → ub_prefix fuel lo hi (lower tok) ≡ ub_prefix fuel lo hi tok
unfolding ub_prefix
ub-lower zero lo hi tok = refl
ub-lower (suc fuel) lo hi tok =
    let mid = lo + (hi - lo) / 2 in
    ap
      (λ z.
        if ltb lo hi
        then (if not (is_positive z)
            then ub_prefix fuel (mid + 1) hi (lower tok)
            else ub_prefix fuel lo mid (lower tok))
        else lo)
      (cmp-lower (command_name mid) tok)
    ∙ ap₂
        (λ above below.
          if ltb lo hi
          then (if not (is_positive (ci_cmp_prefix (command_name mid) tok)) then above else below)
          else lo)
        (ub-lower fuel (mid + 1) hi tok) (ub-lower fuel lo mid tok)

same-lower : (xs ys : List ℕ) → ci_same xs (lower ys) ≡ ci_same xs ys
unfolding ci_same lower
same-lower [] [] = refl
same-lower [] (b ∷ ys) = refl
same-lower (a ∷ xs) [] = refl
same-lower (a ∷ xs) (b ∷ ys) =
    ap₂ (λ d r. my_tolower a == d && r) (tolower-small b) (same-lower xs ys)

same_sound : (xs ys : List ℕ) → ci_same xs ys ≡ true → lower xs ≡ lower ys
unfolding ci_same lower
same_sound [] [] h = refl
same_sound [] (b ∷ ys) h = cc
same_sound (a ∷ xs) [] h = cc
same_sound (a ∷ xs) (b ∷ ys) h =
    let both = and_true (my_tolower a == my_tolower b) (ci_same xs ys) h in
    let same : my_tolower a ≡ my_tolower b = ground arith in
    let first : small a ≡ small b = sym (my_tolower-small a) ∙ (same ∙ my_tolower-small b) in
    ap₂ (λ d r. d ∷ r) first (same_sound xs ys both.1)

-- What is tested once the searches have found `lo` and `hi`.
decide : ℕ → ℕ → List ℕ → ℤ
decide lo hi token =
    if length token == 0
    then minus_one
    else if not (hi == lo + 1)
    then minus_one
    else if not (length (command_name lo) == length token)
    then minus_one
    else if not (ci_same (command_name lo) token)
    then minus_one
    else pos lo

find-decide :
    (tok : List ℕ)
    → cr_find_cmd_idx_ci_exact tok
      ≡ decide (lb_prefix 6 0 n_commands tok) (ub_prefix 6 0 n_commands tok) tok
unfolding cr_find_cmd_idx_ci_exact decide
find-decide tok = refl

decide-lower : (lo hi : ℕ) (tok : List ℕ) → decide lo hi (lower tok) ≡ decide lo hi tok
unfolding decide
decide-lower lo hi tok =
    ap₂
      (λ n same.
        if n == 0
        then minus_one
        else if not (hi == lo + 1)
        then minus_one
        else if not (length (command_name lo) == n)
        then minus_one
        else if not same
        then minus_one
        else pos lo)
      (length-lower tok) (same-lower (command_name lo) tok)

find-lower : (tok : List ℕ) → cr_find_cmd_idx_ci_exact (lower tok) ≡ cr_find_cmd_idx_ci_exact tok
find-lower tok =
    find-decide (lower tok)
    ∙ decide-lower (lb_prefix 6 0 n_commands (lower tok)) (ub_prefix 6 0 n_commands (lower tok)) tok
    ∙ ap₂ (λ lo hi. decide lo hi tok) (lb-lower 6 0 n_commands tok) (ub-lower 6 0 n_commands tok)
    ∙ sym (find-decide tok)

-- Every number below `n` passes.
below : ℕ → (ℕ → Bool) → Bool
below zero p = true
below (suc n) p = p n && below n p

below_sound : (n : ℕ) (p : ℕ → Bool) → below n p ≡ true → (i : ℕ) → i < n → p i ≡ true
unfolding below
below_sound zero p h i l = absurd (omega arith)
below_sound (suc n) p h i l =
    let both = and_true (p n) (below n p) h in
    elim (Bool-cases (i == n)) [
      | inl e ↦ ap p (ground arith) ∙ both.0
      | inr e ↦ below_sound n p both.1 i (ground arith)
    ]

every_name :
    below n_commands (λ i. eq_ℤ (cr_find_cmd_idx_ci_exact (lower (command_name i))) (pos i)) ≡ true
unfolding below lower my_tolower command_at cr_find_cmd_idx_ci_exact lb_prefix ub_prefix
    ci_cmp_prefix ci_same
every_name = refl

name-nonempty : (cs : List (List ℕ × ℕ)) (i : ℕ) → 0 < length (command_at cs i).0 → i < length cs
unfolding command_at
name-nonempty [] i h = absurd (omega arith)
name-nonempty (c ∷ cs) zero h = omega arith
name-nonempty (c ∷ cs) (suc i) h = omega (arith, name-nonempty cs i h)

-- The command of this index has the name `tok` up to case.
abbrev pub IsNamed : ℕ → List ℕ → Type 0
IsNamed i tok = (i < n_commands) × (lower (command_name i) ≡ lower tok)

decide-IsNamed : (lo hi i : ℕ) (tok : List ℕ) → decide lo hi tok ≡ pos i → IsNamed i tok
unfolding decide
decide-IsNamed lo hi i tok =
    if_elim Goal (length tok == 0) (λ _ e. cc)
      (λ nonempty.
        if_elim Goal (not (hi == lo + 1)) (λ _ e. cc)
          (λ _.
            if_elim Goal (not (length (command_name lo) == length tok)) (λ _ e. cc)
              (λ len.
                if_elim Goal (not (ci_same (command_name lo) tok)) (λ _ e. cc)
                  (λ same e.
                    subst (λ x. IsNamed x tok) (same_index e)
                      (
                        name-nonempty commands lo (long (true_of_not _ len) nonempty),
                        same_sound (command_name lo) tok (true_of_not _ same),
                      )))))
  where
    Goal : ℤ → Type 0
    Goal z = z ≡ pos i → IsNamed i tok

    same_index : pos lo ≡ pos i → lo ≡ i
    same_index e = cc

    long :
        (length (command_name lo) == length tok) ≡ true
        → (length tok == 0) ≡ false
        → 0 < length (command_name lo)
    long e n = ground arith

-- A token is found as command `i` if and only if it is the name of command `i` of the table, up to the case of its letters: the
-- search by prefix hides no command behind another.
pub cr_find_cmd_idx_ci_exact-IsNamed :
    (tok : List ℕ) (i : ℕ) → (cr_find_cmd_idx_ci_exact tok ≡ pos i) ↔ IsNamed i tok
cr_find_cmd_idx_ci_exact-IsNamed tok i = (
  λ e. decide-IsNamed _ _ i tok (sym (find-decide tok) ∙ e),
  λ n.
      sym (find-lower tok)
      ∙ ap cr_find_cmd_idx_ci_exact (sym n.1)
      ∙ eq_ℤ_sound _ (pos i) (below_sound n_commands _ every_name i n.0),
)
