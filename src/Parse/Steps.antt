-- ===== src/Parse/Steps.antt =====
-- A buffer that holds given bytes at an offset, and what one case of the parser reads there.
use tpm_luks.Common.{ℕ, ◌+◌, ◌^◌, ◌≤◌, ◌<◌, ◌≡◌, refl, ap, arith}
use tpm_luks.Common.{
  List, [], ◌∷◌, ◌++◌, length, length-append, take, drop, drop-drop, le→leb, lt→leb, lt→ltb,
  append-nil, some,
}
use tpm_luks.Common.Memory.{done, read_at}
use tpm_luks.Bytes.{be32, be16, le32, le16, u32, load32, load16, native_load32, native_load16}
use tpm_luks.Bytes.Laws.{
  word_of-be32, word_of-be16, native_word_of-le32, native_word_of-le16, length-be32, length-be16,
  length-le32, length-le16,
}
use tpm_luks.Buffer.{
  TpmBuffer, IsBuffer, tpm_buffer_load32, tpm_buffer_load16, tpm_buffer_load32_native,
  tpm_buffer_load16_native,
}
use tpm_luks.Parse.{Slot, Value, bytes, next, copy_out}

-- What the parser stores for the bytes of an area: nothing for none.
abbrev pub copied : List ℕ → List Value
copied [] = []
copied (x ∷ xs) = bytes (x ∷ xs) ∷ []

pub record Shows (tb : TpmBuffer) (off : ℕ) (bs : List ℕ) : Type 0 where
  pub room : off + length bs ≤ tb.used
  pub content : take (length bs) (drop off tb.buffer) ≡ bs

split_take :
    (xs ys l : List ℕ)
    → take (length (xs ++ ys)) l ≡ xs ++ ys
    → (take (length xs) l ≡ xs) × (take (length ys) (drop (length xs) l) ≡ ys)
split_take [] ys l h = (refl, h)
split_take (x ∷ xs) ys [] h = cc
split_take (x ∷ xs) ys (z ∷ l) h = let (a, b) = split_take xs ys l (ap (drop 1) h) in (cc, b)

pub Shows-front :
    (tb : TpmBuffer) (off : ℕ) (xs ys : List ℕ) → Shows tb off (xs ++ ys) → Shows tb off xs
Shows-front tb off xs ys s = record {
  room = omega (arith, s.room, length-append xs ys);
  content = (split_take xs ys (drop off tb.buffer) s.content).0;
}

pub Shows-back :
    (tb : TpmBuffer) (off : ℕ) (xs ys : List ℕ)
    → Shows tb off (xs ++ ys)
    → Shows tb (off + length xs) ys
Shows-back tb off xs ys s = record {
  room = omega (arith, s.room, length-append xs ys);
  content =
      rw (drop-drop (length xs) off tb.buffer) at
        ((split_take xs ys (drop off tb.buffer) s.content).1);
}

module _ (tb : TpmBuffer) (b : IsBuffer tb) where
  pub read_at-Shows :
      (off : ℕ) (bs : List ℕ) → Shows tb off bs → read_at tb.buffer off (length bs) ≡ done bs
  unfolding read_at
  read_at-Shows off bs s = rw (
    le→leb (off + length bs) (length tb.buffer) (omega (arith, s.room, b.fits, b.allocated)),
    s.content,
  )

  pub load32-Shows :
      (off v : ℕ) → v < 2 ^ 32 → Shows tb off (be32 v) → tpm_buffer_load32 tb off ≡ done v
  unfolding tpm_buffer_load32 load32
  load32-Shows off v h s =
      let u : u32 (off + 3) ≡ off + 3 = omega (arith, b.fits, b.small, s.room, length-be32 v) in
      rw (
        u,
        lt→leb tb.used (off + 3) (omega (arith, s.room, length-be32 v)),
        rw (length-be32 v) at (read_at-Shows off (be32 v) s),
        word_of-be32 v h,
      )

  pub native_load32-Shows :
      (off v : ℕ) → v < 2 ^ 32 → Shows tb off (le32 v) → tpm_buffer_load32_native tb off ≡ done v
  unfolding tpm_buffer_load32_native native_load32
  native_load32-Shows off v h s =
      let u : u32 (off + 3) ≡ off + 3 = omega (arith, b.fits, b.small, s.room, length-le32 v) in
      rw (
        u,
        lt→leb tb.used (off + 3) (omega (arith, s.room, length-le32 v)),
        rw (length-le32 v) at (read_at-Shows off (le32 v) s),
        native_word_of-le32 v h,
      )

  pub load16-Shows :
      (off v : ℕ) → v < 2 ^ 16 → Shows tb off (be16 v) → tpm_buffer_load16 tb off ≡ done v
  unfolding tpm_buffer_load16 load16
  load16-Shows off v h s =
      let u : u32 (off + 1) ≡ off + 1 = omega (arith, b.fits, b.small, s.room, length-be16 v) in
      rw (
        u,
        lt→leb tb.used (off + 1) (omega (arith, s.room, length-be16 v)),
        rw (length-be16 v) at (read_at-Shows off (be16 v) s),
        word_of-be16 v h,
      )

  pub native_load16-Shows :
      (off v : ℕ) → v < 2 ^ 16 → Shows tb off (le16 v) → tpm_buffer_load16_native tb off ≡ done v
  unfolding tpm_buffer_load16_native native_load16
  native_load16-Shows off v h s =
      let u : u32 (off + 1) ≡ off + 1 = omega (arith, b.fits, b.small, s.room, length-le16 v) in
      rw (
        u,
        lt→leb tb.used (off + 1) (omega (arith, s.room, length-le16 v)),
        rw (length-le16 v) at (read_at-Shows off (le16 v) s),
        native_word_of-le16 v h,
      )

  pub copy_out-Shows :
      (bs : List ℕ) (space : ℕ) (off : ℕ) (vs : List Value) (ss : List Slot)
      → Shows tb off bs
      → length bs ≤ space
      → copy_out tb (length bs) (some space) (record { offset = off; values = vs; slots = ss })
        ≡ next (record { offset = off + length bs; values = vs ++ copied bs; slots = ss })
  unfolding copy_out
  copy_out-Shows [] space off vs ss s h =
      let u : u32 (off + 0) ≡ off + 0 = omega (arith, b.fits, b.small, s.room) in rw (u, append-nil)
  copy_out-Shows (x ∷ bs) space off vs ss s h =
      let n = length (x ∷ bs) in
      let u : u32 (off + n) ≡ off + n = omega (arith, b.fits, b.small, s.room) in
      rw (lt→ltb 0 n (omega arith), le→leb n space h, read_at-Shows off (x ∷ bs) s, u)
