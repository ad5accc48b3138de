-- ===== src/Keyboard/Ring.antt =====
-- The circular buffer of key events as a queue of at most 32, which forgets the oldest.
use tp_so.Prelude.{
  ℕ, zero, suc, ◌+◌, ◌-◌, ◌%◌, ◌≤◌, ◌<◌, ◌≡◌, refl, sym, ap, ap₂, ◌∙◌, ◌≢◌, false, List, [], ◌∷◌,
  ◌++◌, append_assoc, append-nil, ◌==◌, ==_false, if_elim, arith, length, length-append, drop,
  update,
}
use tp_so.Keyboard.{KeyEvent, Keyboard, next_index, drop_oldest, push_event, get_next_key}

-- The list of the first `n` values of a function.
unfoldable pub listing : ℕ → (ℕ → KeyEvent) → List KeyEvent
listing zero f = []
listing (suc n) f = f 0 ∷ listing n (λ i. f (suc i))

listing-cong :
    (n : ℕ) (f g : ℕ → KeyEvent) → ((i : ℕ) → i < n → f i ≡ g i) → listing n f ≡ listing n g
unfolding listing
listing-cong zero f g e = refl
listing-cong (suc n) f g e =
    ap (λ x. x ∷ listing n (λ i. f (suc i))) (e 0 (omega arith))
    ∙ ap (λ xs. g 0 ∷ xs) (listing-cong n _ _ (λ i h. e (suc i) (omega arith)))

listing-snoc : (n : ℕ) (f : ℕ → KeyEvent) → listing (suc n) f ≡ listing n f ++ (f n ∷ [])
unfolding listing
listing-snoc zero f = refl
listing-snoc (suc n) f = ap (λ xs. f 0 ∷ xs) (listing-snoc n (λ i. f (suc i)))

length-listing : (n : ℕ) (f : ℕ → KeyEvent) → length (listing n f) ≡ n
unfolding listing
length-listing zero f = refl
length-listing (suc n) f = ap suc (length-listing n (λ i. f (suc i)))

-- The events in the buffer, oldest first.
unfoldable pub events : Keyboard → List KeyEvent
unfolding listing
events b = listing b.count (λ i. b.buf ((b.nextkey + i) % 32))

pub record IsRing (b : Keyboard) : Type 0 where
  pub next_in : b.nextkey < 32
  pub count_in : b.count ≤ 32
  pub last_at : b.lastkey ≡ (b.nextkey + b.count) % 32

pub length-events : (b : Keyboard) → length (events b) ≡ b.count
unfolding events
length-events b = length-listing b.count _

-- The buffer without its oldest event.
rest_of : Keyboard → Keyboard
rest_of b = record b { nextkey = next_index b.nextkey; count = b.count - 1 }

events-cons :
    (b : Keyboard) (n : ℕ)
    → b.count ≡ suc n
    → events b ≡ b.buf (b.nextkey % 32) ∷ events (rest_of b)
unfolding events rest_of listing
events-cons b n e =
    ap (λ m. listing m (λ i. b.buf ((b.nextkey + i) % 32))) e
    ∙ ap (λ i. b.buf i ∷ listing n (λ j. b.buf ((b.nextkey + suc j) % 32))) (omega arith)
    ∙ ap (λ xs. b.buf (b.nextkey % 32) ∷ xs)
        (listing-cong n _ _ (λ i h. ap b.buf (omega arith))
          ∙ ap (λ m. listing m (λ j. b.buf (((b.nextkey + 1) % 32 + j) % 32))) (omega arith))

rest_of-IsRing : (b : Keyboard) → IsRing b → 0 < b.count → IsRing (rest_of b)
unfolding rest_of
rest_of-IsRing b v h = record {
  next_in = omega arith;
  count_in = omega (arith, v.count_in);
  last_at = omega (arith, v.last_at);
}

-- An event put into a buffer with room goes behind those that are there.
put : KeyEvent → Keyboard → Keyboard
put ev b = record b {
  buf = update b.buf b.lastkey ev;
  lastkey = next_index b.lastkey;
  count = b.count + 1;
}

events-put :
    (ev : KeyEvent) (b : Keyboard)
    → IsRing b
    → b.count < 32
    → (events (put ev b) ≡ events b ++ (ev ∷ [])) × IsRing (put ev b)
unfolding events put
events-put ev b v h = (
  ap (λ m. listing m after) {y = suc b.count} (omega arith)
      ∙ listing-snoc b.count after
      ∙ ap₂ (λ xs x. xs ++ (x ∷ []))
          (listing-cong b.count after (λ i. b.buf ((b.nextkey + i) % 32))
            (λ i l.
              let ne : (b.nextkey + i) % 32 ≢ b.lastkey = omega (arith, v.last_at) in
              rw (==_false ((b.nextkey + i) % 32) b.lastkey ne) refl))
          (ground (arith, v.last_at)),
  record { next_in = v.next_in; count_in = omega arith; last_at = omega (arith, v.last_at) },
)
  where
    after : ℕ → KeyEvent
    after i = update b.buf b.lastkey ev ((b.nextkey + i) % 32)

-- The last 32 of a list.
pub newest : List KeyEvent → List KeyEvent
newest xs = drop (length xs - 32) xs

drop-append : (k : ℕ) (xs ys : List KeyEvent) → k ≤ length xs → drop k (xs ++ ys) ≡ drop k xs ++ ys
drop-append zero xs ys h = refl
drop-append (suc k) [] ys h = absurd (omega arith)
drop-append (suc k) (x ∷ xs) ys h = drop-append k xs ys (omega arith)

drop_by : (m n : ℕ) (xs : List KeyEvent) → m ≡ n → drop m xs ≡ drop n xs
drop_by m n xs e = ap (λ k. drop k xs) e

drop-drop : (k m : ℕ) (xs : List KeyEvent) → drop m (drop k xs) ≡ drop (k + m) xs
drop-drop zero m xs = drop_by m (0 + m) xs (omega arith)
drop-drop (suc k) zero [] = drop_by (suc k) (suc k + 0) [] (omega arith)
drop-drop (suc k) (suc m) [] = drop_by (suc (k + suc m)) (suc k + suc m) [] (omega arith)
drop-drop (suc k) m (x ∷ xs) =
    drop-drop k m xs ∙ drop_by (suc (k + m)) (suc k + m) (x ∷ xs) (omega arith)

length-drop : (k : ℕ) (xs : List KeyEvent) → length (drop k xs) ≡ length xs - k
length-drop zero xs = omega arith
length-drop (suc k) [] = omega arith
length-drop (suc k) (x ∷ xs) = omega (arith, length-drop k xs)

pub newest_short : (xs : List KeyEvent) → length xs ≤ 32 → newest xs ≡ xs
unfolding newest
newest_short xs h = drop_by (length xs - 32) 0 xs (omega arith)

newest-append : (xs ys : List KeyEvent) → newest (newest xs ++ ys) ≡ newest (xs ++ ys)
unfolding newest
newest-append xs ys =
    let k = length xs - 32 in
    ap (λ zs. drop (length zs - 32) zs) (sym (drop-append k xs ys (omega arith)))
    ∙ drop-drop k (length (drop k (xs ++ ys)) - 32) (xs ++ ys)
    ∙ ap (λ n. drop n (xs ++ ys)) (omega (arith, length-drop k (xs ++ ys), length-append xs ys))

-- Dropping the oldest of a full buffer.
drop_oldest-events :
    (b : Keyboard)
    → IsRing b
    → let c = drop_oldest b in
      IsRing c × (c.count < 32) × (events c ≡ drop (b.count - 31) (events b))
unfolding drop_oldest rest_of
drop_oldest-events b v =
    if_elim
      (λ (c : Keyboard). IsRing c × (c.count < 32) × (events c ≡ drop (b.count - 31) (events b)))
      (b.count == 32)
      (λ e.
        let full : b.count ≡ suc 31 = ground arith in
        (
          rest_of-IsRing b v (omega arith),
          omega arith,
          sym (
              drop_by (b.count - 31) 1 (events b) (omega arith)
              ∙ ap (drop 1) (events-cons b 31 full)),
        ))
      (λ e. (
        v,
        ground (arith, v.count_in),
        drop_by 0 (b.count - 31) (events b) (ground (arith, v.count_in)),
      ))

pub push_event-newest :
    (ev : KeyEvent) (b : Keyboard)
    → IsRing b
    → (events (push_event ev b) ≡ newest (events b ++ (ev ∷ []))) × IsRing (push_event ev b)
unfolding push_event put newest
push_event-newest ev b v =
    let d = drop_oldest-events b v in
    let p = events-put ev (drop_oldest b) d.0 d.1 in
    (
      p.0
          ∙ ap (λ xs. xs ++ (ev ∷ [])) d.2
          ∙ sym (drop-append (b.count - 31) (events b) (ev ∷ []) (omega (arith, length-events b)))
          ∙ ap (λ k. drop k (events b ++ (ev ∷ [])))
              (omega (arith, length-append (events b) (ev ∷ []), length-events b)),
      p.1,
    )

-- Events pushed one after the other.
pub push_all : List KeyEvent → Keyboard → Keyboard
push_all [] b = b
push_all (ev ∷ evs) b = push_all evs (push_event ev b)

-- After any number of key events without a read, the buffer holds the last 32 of those that it held
-- and those pushed, in order, and its positions are valid.
pub push_all-newest :
    (evs : List KeyEvent) (b : Keyboard)
    → IsRing b
    → (events (push_all evs b) ≡ newest (events b ++ evs)) × IsRing (push_all evs b)
unfolding push_all
push_all-newest [] b v = (
  sym (
      ap newest (append-nil (events b))
      ∙ newest_short (events b) (omega (arith, length-events b, v.count_in))),
  v,
)
push_all-newest (ev ∷ evs) b v =
    let p = push_event-newest ev b v in
    let rest = push_all-newest evs (push_event ev b) p.1 in
    (
      rest.0
          ∙ ap (λ xs. newest (xs ++ evs)) p.0
          ∙ newest-append (events b ++ (ev ∷ [])) evs
          ∙ ap newest (append_assoc (events b) (ev ∷ []) evs),
      rest.1,
    )

-- Reading takes the oldest event.
pub get_next_key-events :
    (b : Keyboard) (ev : KeyEvent) (evs : List KeyEvent)
    → IsRing b
    → events b ≡ ev ∷ evs
    → let r = get_next_key b in (r.0 ≡ ev) × (events r.1 ≡ evs) × IsRing r.1
unfolding get_next_key rest_of
get_next_key-events b ev evs v e =
    let n : b.count ≡ suc (length evs) = sym (length-events b) ∙ ap length e in
    let c : b.buf (b.nextkey % 32) ∷ events (rest_of b) ≡ ev ∷ evs =
      sym (events-cons b (length evs) n) ∙ e in
    let at : b.nextkey % 32 ≡ b.nextkey = omega (arith, v.next_in) in
    let first : b.buf b.nextkey ≡ ev = ap b.buf (sym at) ∙ cc in
    let no : (b.count == 0) ≡ false = ground arith in
    rw no (first, cc, rest_of-IsRing b v (omega arith))

pub get_next_key-IsRing : (b : Keyboard) → IsRing b → IsRing (get_next_key b).1
unfolding get_next_key rest_of
get_next_key-IsRing b v =
    if_elim (λ (r : KeyEvent × Keyboard). IsRing r.1) (b.count == 0) (λ _. v)
      (λ e. rest_of-IsRing b v (ground arith))
