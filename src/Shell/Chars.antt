-- ===== src/Shell/Chars.antt =====
-- What the loops of Userland/shell/shell.c over the characters of a line do.
use tp_so.Prelude.{
  ℕ, zero, suc, ◌≤◌, ◌<◌, ◌≡◌, ◌≢◌, ◌||◌, refl, ap, ◌∙◌, inl, inr, Bool-cases, none, some, true,
  false, ◌==◌, List, [], ◌∷◌, ◌++◌, take, drop, length, arith, All,
}
use tp_so.Shell.Means.{IsBlank, NoBlank, Blanks, EndsWell, StartsWell, word_of, name_of}
use tp_so.Shell.{
  sh_first_token, sh_strcpy, token_of, blank, sh_trim_left, sh_trim_right, ends_in_ampersand,
  without_last, find_bar,
}

pub is_blank : (c : ℕ) → IsBlank c → blank c ≡ true
is_blank c (inl e) = ground arith
is_blank c (inr e) = ground arith

pub no_blank : (c : ℕ) → NoBlank c → blank c ≡ false
no_blank c (p, q) = ground (arith, p, q)

pub trim_right-Blanks : (bs : List ℕ) → Blanks bs → sh_trim_right bs ≡ []
unfolding sh_trim_right
trim_right-Blanks [] h = refl
trim_right-Blanks (b ∷ bs) h = rw (trim_right-Blanks bs h.1, is_blank b h.0)

pub trim_right-EndsWell : (s bs : List ℕ) → EndsWell s → Blanks bs → sh_trim_right (s ++ bs) ≡ s
unfolding sh_trim_right
trim_right-EndsWell [] bs e h = absurd e
trim_right-EndsWell (c ∷ []) bs e h = rw (trim_right-Blanks bs h, no_blank c e.0)
trim_right-EndsWell (c ∷ d ∷ s) bs e h =
    let q : (length (d ∷ s) == 0) ≡ false = ground arith in
    rw (trim_right-EndsWell (d ∷ s) bs e h, q)

pub trim_left-StartsWell : (bs s : List ℕ) → Blanks bs → StartsWell s → sh_trim_left (bs ++ s) ≡ s
unfolding sh_trim_left
trim_left-StartsWell [] [] h e = refl
trim_left-StartsWell [] (c ∷ s) h e = rw (no_blank c e)
trim_left-StartsWell (b ∷ bs) s h e = rw (is_blank b h.0) (trim_left-StartsWell bs s h.1 e)

pub find_bar-none : (s : List ℕ) → All (λ c. c ≢ 124) s → find_bar s ≡ none
unfolding find_bar
find_bar-none [] h = refl
find_bar-none (c ∷ s) h =
    let q : (c == 124) ≡ false = ground (arith, h.0) in rw (find_bar-none s h.1, q)

pub find_bar-first :
    (s rest : List ℕ) → All (λ c. c ≢ 124) s → find_bar (s ++ (124 ∷ rest)) ≡ some (length s)
unfolding find_bar
find_bar-first [] rest h = refl
find_bar-first (c ∷ s) rest h =
    let q : (c == 124) ≡ false = ground (arith, h.0) in rw (find_bar-first s rest h.1, q)

pub blank-plain : (b : ℕ) → IsBlank b → b ≢ 124
blank-plain b (inl e) = λ d. absurd (omega arith)
blank-plain b (inr e) = λ d. absurd (omega arith)

pub Blanks-plain : (bs : List ℕ) → Blanks bs → All (λ c. c ≢ 124) bs
Blanks-plain [] h = tt
Blanks-plain (b ∷ bs) h = (blank-plain b h.0, Blanks-plain bs h.1)

pub take-append {ℓ} : {A : Type ℓ} (xs ys : List A) → take (length xs) (xs ++ ys) ≡ xs
take-append [] ys = refl
take-append (x ∷ xs) ys = ap (λ r. x ∷ r) (take-append xs ys)

pub drop-append {ℓ} :
    {A : Type ℓ} (xs : List A) (y : A) (ys : List A) → drop (suc (length xs)) (xs ++ (y ∷ ys)) ≡ ys
drop-append [] y ys = refl
drop-append (x ∷ xs) y ys = drop-append xs y ys

pub nonempty : (s : List ℕ) (c : ℕ) (t : List ℕ) → (length (s ++ (c ∷ t)) == 0) ≡ false
nonempty [] c t = ground arith
nonempty (d ∷ s) c t = ground arith

pub ampersand-last : (s : List ℕ) → ends_in_ampersand (s ++ (38 ∷ [])) ≡ true
unfolding ends_in_ampersand
ampersand-last [] = refl
ampersand-last (c ∷ s) = rw (nonempty s 38 [], ampersand-last s)

pub without_last-append : (s : List ℕ) → without_last (s ++ (38 ∷ [])) ≡ s
unfolding without_last
without_last-append [] = refl
without_last-append (c ∷ s) = rw (nonempty s 38 [], without_last-append s)

pub no_ampersand : (s : List ℕ) → EndsWell s → ends_in_ampersand s ≡ false
unfolding ends_in_ampersand
no_ampersand [] e = absurd e
no_ampersand (c ∷ []) e = ground (arith, e.1)
no_ampersand (c ∷ d ∷ s) e =
    let q : (length (d ∷ s) == 0) ≡ false = ground arith in rw q (no_ampersand (d ∷ s) e)

pub EndsWell-append : (xs s : List ℕ) → EndsWell s → EndsWell (xs ++ s)
EndsWell-append [] s e = e
EndsWell-append (x ∷ []) [] e = absurd e
EndsWell-append (x ∷ []) (c ∷ s) e = e
EndsWell-append (x ∷ y ∷ xs) s e = EndsWell-append (y ∷ xs) s e

pub EndsWell-nonempty : (s : List ℕ) → EndsWell s → (length s == 0) ≡ false
EndsWell-nonempty [] e = absurd e
EndsWell-nonempty (c ∷ s) e = ground arith

pub StartsWell-nonempty : (s : List ℕ) → StartsWell s → (length s == 0) ≡ false
StartsWell-nonempty [] e = absurd e
StartsWell-nonempty (c ∷ s) e = ground arith

pub take-all {ℓ} : {A : Type ℓ} (n : ℕ) (xs : List A) → length xs ≤ n → take n xs ≡ xs
take-all zero [] h = refl
take-all zero (x ∷ xs) h = absurd (omega arith)
take-all (suc n) [] h = refl
take-all (suc n) (x ∷ xs) h = ap (λ r. x ∷ r) (take-all n xs (omega arith))

pub token_of-word_of : (n : ℕ) (s : List ℕ) → token_of n s ≡ take n (word_of s)
unfolding token_of word_of
token_of-word_of zero s = refl
token_of-word_of (suc n) [] = refl
token_of-word_of (suc n) (c ∷ s) = elim (Bool-cases (c == b' ' || c == 9)) [
  | inl e ↦ rw e refl
  | inr e ↦ rw e (ap (λ r. c ∷ r) (token_of-word_of n s))
]

pub first_token-name : (c : List ℕ) → StartsWell c → sh_first_token c 32 ≡ name_of c
unfolding sh_first_token
first_token-name c h = ap (token_of 31) (trim_left-StartsWell [] c tt h) ∙ token_of-word_of 31 c

pub strcpy-all : (c : List ℕ) → length c < 256 → sh_strcpy c 256 ≡ c
unfolding sh_strcpy
strcpy-all c h = take-all 255 c (omega arith)
