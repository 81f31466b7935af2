-- ===== src/Crypt/Mask.antt =====
-- TPM_MGF1 against the mask generation function of PKCS #1.
use tpm_luks.Common.{
  ◌^◌, ◌%◌, ℕ, zero, suc, ◌+◌, ◌-◌, ◌≤◌, ◌<◌, ◌≡◌, ap, refl, sym, ◌∙◌, arith, le→leb, lt→leb,
  lt→ltb, le→ltb, ◌==◌, inl, inr, lt_or_le, take-length,
}
use tpm_luks.Common.{List, [], ◌∷◌, ◌++◌, length, take, length-take, Bool, true, false}
use tpm_luks.Common.Memory.{
  done, fault, ◌>>=◌, splice, length-splice, splice-append, splice-nil, read_at, write_at,
}
use tpm_luks.Bytes.{be32, le32, swap32}
use tpm_luks.Bytes.Laws.{length-be32, le32-swap32}
use tpm_luks.Crypt.{
  hash_streams, tpm_sha1, native_bytes, counter_bytes, seed_and_counter, mgf1_loop, tpm_mgf1,
}

-- T = Hash(seed || I2OSP(c, 4)) || Hash(seed || I2OSP(c + 1, 4)) || ...
pub mask_blocks : (List ℕ → List ℕ) → List ℕ → ℕ → ℕ → List ℕ
mask_blocks sha1 seed zero c = []
mask_blocks sha1 seed (suc k) c = sha1 (seed ++ be32 c) ++ mask_blocks sha1 seed k (c + 1)

native_bytes-le32 : (v : ℕ) → native_bytes 4 v ≡ le32 v
unfolding le32
native_bytes-le32 v = ground arith

-- With a long of four bytes the counter is stored big-endian, and fills its array.
counter_short : (c : ℕ) → counter_bytes 4 c ≡ done (be32 c)
unfolding counter_bytes write_at splice
counter_short c = ap done (native_bytes-le32 (swap32 c) ∙ le32-swap32 c)

-- With a long of eight bytes the store runs past the end of the array.
counter_long : (c : ℕ) → counter_bytes 8 c ≡ fault
unfolding counter_bytes write_at
counter_long c = refl

read_all : (n : ℕ) (bs : List ℕ) → n ≡ length bs → read_at bs 0 n ≡ done bs
unfolding read_at
read_all n bs e = rw (le→leb (0 + n) (length bs) (omega arith), take-length n bs e)

read_part : (n : ℕ) (bs : List ℕ) → n ≤ length bs → read_at bs 0 n ≡ done (take n bs)
unfolding read_at
read_part n bs h = rw (le→leb (0 + n) (length bs) (omega arith))

write_inside :
    (m : List ℕ) (o : ℕ) (bs : List ℕ)
    → o + length bs ≤ length m
    → write_at m o bs ≡ done (splice m o bs)
unfolding write_at
write_inside m o bs h = rw (le→leb _ _ h)

take_more : (xs ys : List ℕ) (k : ℕ) → take (length xs + k) (xs ++ ys) ≡ xs ++ take k ys
take_more [] ys k = let e : 0 + k ≡ k = omega arith in rw e
take_more (x ∷ xs) ys k =
    let e : suc (length xs) + k ≡ suc (length xs + k) = omega arith in
    rw e (ap (λ t. x ∷ t) (take_more xs ys k))

take_less : (xs ys : List ℕ) (k : ℕ) → k ≤ length xs → take k (xs ++ ys) ≡ take k xs
take_less xs ys zero h = refl
take_less [] ys (suc k) h = absurd (omega arith)
take_less (x ∷ xs) ys (suc k) h = ap (λ t. x ∷ t) (take_less xs ys k (omega arith))

module _ (sha1 : List ℕ → List ℕ) (digest : (bs : List ℕ) → length (sha1 bs) ≡ 20) (seed : List ℕ)
    (seeded : 0 < length seed) where
  hash_runs :
      (c : ℕ)
      → tpm_sha1 sha1 true (seed_and_counter (length seed) seed (be32 c))
        ≡ done (sha1 (seed ++ be32 c))
  unfolding tpm_sha1 hash_streams
  hash_runs c =
      let some_seed : (length seed == 0) ≡ false = ground arith in
      rw (some_seed, read_all (length seed) seed refl, read_all 4 (be32 c) (sym (length-be32 c)))

  digest_runs :
      (c : ℕ)
      → (counter_bytes 4 c >>= λ counter.
          tpm_sha1 sha1 true (seed_and_counter (length seed) seed counter))
        ≡ done (sha1 (seed ++ be32 c))
  digest_runs c = rw (counter_short c) (hash_runs c)

  mgf1_loop_runs :
      (fuel mask_len : ℕ) (mask : List ℕ) (c out_len : ℕ)
      → mask_len ≤ length mask
      → mask_len - out_len ≤ fuel
      → out_len ≤ mask_len
      → mask_len + 20 ≤ 2 ^ 32
      → c ≤ out_len
      → mgf1_loop sha1 true 4 seed (length seed) mask_len fuel mask c out_len
        ≡ done (splice mask out_len (take (mask_len - out_len) (mask_blocks sha1 seed fuel c)))
  unfolding mgf1_loop mask_blocks
  mgf1_loop_runs zero mask_len mask c out_len room enough below small count =
      let none_left : mask_len - out_len ≡ 0 = omega arith in
      rw (le→leb mask_len out_len (omega arith), none_left)
        (ap done (sym (splice-nil mask out_len)))
  mgf1_loop_runs (suc fuel) mask_len mask c out_len room enough below small count =
      elim (lt_or_le out_len mask_len) [
        | inr full ↦
            let none_left : mask_len - out_len ≡ 0 = omega arith in
            rw (le→leb mask_len out_len full, none_left) (ap done (sym (splice-nil mask out_len)))
        | inl more ↦
            let block = sha1 (seed ++ be32 c) in
            let blocks = mask_blocks sha1 seed fuel (c + 1) in
            let twenty = digest (seed ++ be32 c) in
            let next : (c + 1) % 2 ^ 32 ≡ c + 1 = omega arith in
            let moved : (out_len + 20) % 2 ^ 32 ≡ out_len + 20 = omega arith in
            elim (lt_or_le (out_len + 20) mask_len) [
              | inl whole ↦
                  let rest =
                    mgf1_loop_runs fuel mask_len (splice mask out_len block) (c + 1) (out_len + 20)
                      (omega (arith, length-splice mask out_len block)) (omega arith) (omega arith)
                      small (omega arith) in
                  let size : mask_len - out_len ≡ length block + (mask_len - (out_len + 20)) =
                    omega arith in
                  let joined : splice (splice mask out_len block) (out_len + 20)
                        (take (mask_len - (out_len + 20)) blocks)
                      ≡ splice mask out_len (block ++ take (mask_len - (out_len + 20)) blocks) =
                    rw twenty at (
                      splice-append mask out_len block (take (mask_len - (out_len + 20)) blocks)) in
                  rw (
                    lt→leb mask_len out_len more,
                    next,
                    moved,
                    lt→ltb (out_len + 20) mask_len whole,
                    digest_runs c,
                    write_inside mask out_len block (omega arith),
                    rest,
                    joined,
                    size,
                    take_more block blocks (mask_len - (out_len + 20)),
                  )
              | inr part ↦
                  let size = mask_len - out_len in
                  let start = splice mask out_len (take size block) in
                  let short : length (take size block) ≡ size =
                    omega (arith, length-take size block) in
                  let none_left : mask_len - mask_len ≡ 0 = omega arith in
                  let rest =
                    rw (none_left, splice-nil start mask_len) at
                      (mgf1_loop_runs fuel mask_len start (c + 1) mask_len
                        (omega (arith, length-splice mask out_len (take size block))) (omega arith)
                        (omega arith) small (omega arith)) in
                  rw (
                    lt→leb mask_len out_len more,
                    next,
                    moved,
                    le→ltb (out_len + 20) mask_len part,
                    digest_runs c,
                    read_part size block (omega arith),
                    write_inside mask out_len (take size block) (omega arith),
                    rest,
                    take_less block blocks size (omega arith),
                  )
            ]
      ]

  -- TPM_MGF1 where an unsigned long has four bytes and the hash context can be allocated: for a
  -- seed that is not empty and a mask that fits its array, whose length is below 2^32 by a block at
  -- least, so that no sum wraps, the first `mask_len` bytes of the array
  -- become those of MGF1 of PKCS #1, the hashes of the seed with a big-endian counter one behind
  -- the other, and the rest of the array stays.
  pub mgf1-mask_blocks :
      (mask_len : ℕ) (mask : List ℕ)
      → mask_len ≤ length mask
      → mask_len + 20 ≤ 2 ^ 32
      → tpm_mgf1 sha1 true 4 seed (length seed) mask_len mask
        ≡ done (splice mask 0 (take mask_len (mask_blocks sha1 seed mask_len 0)))
  unfolding tpm_mgf1
  mgf1-mask_blocks mask_len mask room small =
      let whole : mask_len - 0 ≡ mask_len = omega arith in
      rw whole at (
        mgf1_loop_runs mask_len mask_len mask 0 0 room (omega arith) (omega arith) small
          (omega arith))

-- TPM_MGF1 where an unsigned long has eight bytes: a call for any mask at all stores the counter
-- past the end of its array of four bytes, whatever the hash, the seed and the output array are.
pub mgf1_long_overflows :
    (sha1 : List ℕ → List ℕ) (context : Bool) (seed : List ℕ) (seed_len mask_len : ℕ)
    (mask : List ℕ)
    → 0 < mask_len
    → tpm_mgf1 sha1 context 8 seed seed_len mask_len mask ≡ fault
unfolding tpm_mgf1
mgf1_long_overflows sha1 context seed seed_len zero mask h = absurd (omega arith)
mgf1_long_overflows sha1 context seed seed_len (suc n) mask h = ground arith
