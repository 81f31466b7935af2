-- ===== src/Bytes/Laws.antt =====
-- Storing and loading words: the loads undo the stores, and a swapped word stored natively is big-endian.
use tpm_luks.Common.{ℕ, ◌+◌, ◌^◌, ◌≤◌, ◌<◌, ◌≡◌, refl, arith, List}
use tpm_luks.Common.{length, le→leb, take-append, ap}
use tpm_luks.Common.Memory.{done, read_at, splice, length-splice, drop-splice}
use tpm_luks.Bytes.{
  be32, be16, le32, le16, word_of, native_word_of, load32, swap32, u32, sign_extend,
}

pub read_at-splice :
    (m : List ℕ) (o : ℕ) (bs : List ℕ) (n : ℕ)
    → n ≡ length bs
    → o + n ≤ length m
    → read_at (splice m o bs) o n ≡ done bs
unfolding read_at
read_at-splice m o bs n e h =
    rw (length-splice m o bs, le→leb _ _ h, drop-splice m o bs (omega arith))
      (ap done (take-append n bs _ e))

pub word_of-be32 : (v : ℕ) → v < 2 ^ 32 → word_of 0 (be32 v) ≡ v
unfolding be32
word_of-be32 v h = omega arith

pub word_of-be16 : (v : ℕ) → v < 2 ^ 16 → word_of 0 (be16 v) ≡ v
unfolding be16
word_of-be16 v h = omega arith

pub native_word_of-le32 : (v : ℕ) → v < 2 ^ 32 → native_word_of (le32 v) ≡ v
unfolding le32
native_word_of-le32 v h = omega arith

pub native_word_of-le16 : (v : ℕ) → v < 2 ^ 16 → native_word_of (le16 v) ≡ v
unfolding le16
native_word_of-le16 v h = omega arith

-- `STORE32N(o, 0, htonl(v))` leaves the bytes of `STORE32(o, 0, v)`.
pub le32-swap32 : (v : ℕ) → le32 (swap32 v) ≡ be32 v
unfolding le32 swap32 be32
le32-swap32 v = ground arith

pub be32-u32 : (v : ℕ) → be32 (u32 v) ≡ be32 v
unfolding be32
be32-u32 v = ground arith

pub length-be32 : (v : ℕ) → length (be32 v) ≡ 4
unfolding be32
length-be32 v = refl

pub length-be16 : (v : ℕ) → length (be16 v) ≡ 2
unfolding be16
length-be16 v = refl

pub length-le32 : (v : ℕ) → length (le32 v) ≡ 4
unfolding le32
length-le32 v = refl

pub length-le16 : (v : ℕ) → length (le16 v) ≡ 2
unfolding le16
length-le16 v = refl

pub load32-splice :
    (m : List ℕ) (o v : ℕ) → v < 2 ^ 32 → o + 4 ≤ length m → load32 (splice m o (be32 v)) o ≡ done v
unfolding load32
load32-splice m o v hv h =
    rw (read_at-splice m o (be32 v) 4 (omega (arith, length-be32 v)) h)
      (ap done (word_of-be32 v hv))

pub sign_extend-small : (w : ℕ) → w < 2 ^ 31 → sign_extend w ≡ w
unfolding sign_extend
sign_extend-small w h = ground arith
