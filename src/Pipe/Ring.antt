-- ===== src/Pipe/Ring.antt =====
-- A pipe's buffer as the queue of the bytes in it, oldest first.
use tp_so.Prelude.{
  ℕ, zero, suc, ◌+◌, ◌-◌, ◌%◌, ◌≤◌, ◌<◌, ◌≡◌, refl, sym, ap, ap₂, ◌∙◌, ◌≢◌, List, [], ◌∷◌, ◌++◌,
  ==_false, arith, length, take, drop, update,
}
use tp_so.Machine.{Pipe, pipe_buf_size}
use tp_so.Pipe.{copy_out, advance, next_pos, take_bytes, put_byte}

unfoldable pub contents : Pipe → List ℕ
contents p = copy_out p.count p.buffer p.read_pos

-- The positions lie in the buffer, and the bytes stand between them.
pub record IsRing (p : Pipe) : Type 0 where
  pub read_in : p.read_pos < pipe_buf_size
  pub count_in : p.count ≤ pipe_buf_size
  pub write_at : p.write_pos ≡ (p.read_pos + p.count) % pipe_buf_size

advance_lem : (n at : ℕ) → at < pipe_buf_size → advance n at ≡ (at + n) % pipe_buf_size
unfolding advance next_pos
advance_lem zero at h = omega arith
advance_lem (suc n) at h = omega (arith, advance_lem n ((at + 1) % pipe_buf_size) (omega arith))

length-copy_out : (n : ℕ) (buffer : ℕ → ℕ) (at : ℕ) → length (copy_out n buffer at) ≡ n
unfolding copy_out
length-copy_out zero buffer at = refl
length-copy_out (suc n) buffer at = ap suc (length-copy_out n buffer (next_pos at))

-- Entry `d` from `at` on is none of the first `n`.
copy_out-update :
    (n d at w b : ℕ) (buffer : ℕ → ℕ)
    → at < pipe_buf_size
    → n ≤ d
    → d < pipe_buf_size
    → w ≡ (at + d) % pipe_buf_size
    → copy_out n (update buffer w b) at ≡ copy_out n buffer at
unfolding copy_out next_pos
copy_out-update zero d at w b buffer h l m e = refl
copy_out-update (suc n) zero at w b buffer h l m e = absurd (omega arith)
copy_out-update (suc n) (suc d) at w b buffer h l m e =
    let ne : at ≢ w = omega arith in
    rw (==_false at w ne) (
      ap (λ r. buffer at ∷ r)
        (copy_out-update n d ((at + 1) % pipe_buf_size) w b buffer (omega arith) (omega arith)
          (omega arith) (omega arith)))

copy_out-suc :
    (n : ℕ) (buffer : ℕ → ℕ) (at : ℕ)
    → copy_out (suc n) buffer at ≡ copy_out n buffer at ++ (buffer (advance n at) ∷ [])
unfolding copy_out advance
copy_out-suc zero buffer at = refl
copy_out-suc (suc n) buffer at = ap (λ r. buffer at ∷ r) (copy_out-suc n buffer (next_pos at))

copy_out-take :
    (n m : ℕ) (buffer : ℕ → ℕ) (at : ℕ)
    → n ≤ m
    → copy_out n buffer at ≡ take n (copy_out m buffer at)
unfolding copy_out
copy_out-take zero m buffer at h = refl
copy_out-take (suc n) zero buffer at h = absurd (omega arith)
copy_out-take (suc n) (suc m) buffer at h =
    ap (λ r. buffer at ∷ r) (copy_out-take n m buffer (next_pos at) (omega arith))

copy_out-drop :
    (n m : ℕ) (buffer : ℕ → ℕ) (at : ℕ)
    → n ≤ m
    → copy_out (m - n) buffer (advance n at) ≡ drop n (copy_out m buffer at)
unfolding copy_out advance
copy_out-drop zero m buffer at h = ap (λ k. copy_out k buffer at) (omega arith)
copy_out-drop (suc n) zero buffer at h = absurd (omega arith)
copy_out-drop (suc n) (suc m) buffer at h =
    ap (λ k. copy_out k buffer (advance n (next_pos at))) (omega arith)
    ∙ copy_out-drop n m buffer (next_pos at) (omega arith)

-- Writing a byte into a ring with room puts it behind the bytes there, and keeps the ring valid.
pub put_byte-contents :
    (b : ℕ) (p : Pipe)
    → IsRing p
    → p.count < pipe_buf_size
    → (contents (put_byte b p) ≡ contents p ++ (b ∷ [])) × IsRing (put_byte b p)
unfolding contents put_byte
put_byte-contents b p v h = (
  ap (λ n. copy_out n after p.read_pos) (omega arith)
      ∙ copy_out-suc p.count after p.read_pos
      ∙ ap₂ (λ xs x. xs ++ (x ∷ []))
          (copy_out-update p.count p.count p.read_pos p.write_pos b p.buffer v.read_in (omega arith)
            h v.write_at)
          (ap after (advance_lem p.count p.read_pos v.read_in ∙ sym v.write_at) ∙ ground arith),
  record {
    read_in = v.read_in;
    count_in = omega arith;
    write_at = unfold next_pos in ground (arith, v.write_at);
  },
)
  where
    after : ℕ → ℕ
    after = update p.buffer p.write_pos b

-- Reading takes the oldest bytes out, in order, and keeps the ring valid.
pub take_bytes-contents :
    (n : ℕ) (p : Pipe)
    → IsRing p
    → n ≤ p.count
    → (copy_out n p.buffer p.read_pos ≡ take n (contents p))
      × (contents (take_bytes n p) ≡ drop n (contents p))
      × IsRing (take_bytes n p)
unfolding contents take_bytes
take_bytes-contents n p v h = (
  copy_out-take n p.count p.buffer p.read_pos h,
  copy_out-drop n p.count p.buffer p.read_pos h,
  record {
    read_in = omega (arith, advance_lem n p.read_pos v.read_in);
    count_in = omega (arith, v.count_in);
    write_at = omega (arith, advance_lem n p.read_pos v.read_in, v.write_at, v.read_in);
  },
)

pub length-contents : (p : Pipe) → length (contents p) ≡ p.count
unfolding contents
length-contents p = length-copy_out p.count p.buffer p.read_pos
