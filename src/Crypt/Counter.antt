-- ===== src/Crypt/Counter.antt =====
-- AES in counter mode: the output is the input under XOR with the key stream, and running the
-- routine twice gives the input back.
use tpm_luks.Common.{
  ℕ, zero, suc, ◌+◌, ◌-◌, ◌*◌, ◌≤◌, ◌<◌, ◌≡◌, ap₂, refl, ap, ◌∙◌, arith, bit_xor, le→leb, lt→leb,
  leb, ◌==◌, inl, inr, lt_or_le, take-length,
}
use tpm_luks.Common.{
  List, [], ◌∷◌, ◌++◌, length, length-append, take, drop, length-drop, All, true, false,
}
use tpm_luks.Common.Bits.{bit_xor_twice}
use tpm_luks.Common.Memory.{done, splice, length-splice, read_at, write_at}
use tpm_luks.Bytes.{u32, be32, load32, word_of}
use tpm_luks.Bytes.Laws.{length-be32}
use tpm_luks.Crypt.{tpm_xor, next_counter, ctr_loop, tpm_aes_ctr128_encrypt}

abbrev pub xor_all : List ℕ → List ℕ → List ℕ
xor_all [] ys = []
xor_all (x ∷ xs) [] = []
xor_all (x ∷ xs) (y ∷ ys) = bit_xor x y ∷ xor_all xs ys

-- The counter block with its last word increased, modulo 2^32.
pub bump : List ℕ → List ℕ
bump ctr = splice ctr 12 (be32 (u32 (word_of 0 (take 4 (drop 12 ctr)) + 1)))

length-bump : (ctr : List ℕ) → length (bump ctr) ≡ length ctr
unfolding bump
length-bump ctr = length-splice ctr 12 _

pub keystream : (List ℕ → List ℕ) → ℕ → List ℕ → List ℕ
keystream aes zero ctr = []
keystream aes (suc k) ctr = aes ctr ++ keystream aes k (bump ctr)

pub tpm_xor_runs :
    (n : ℕ) (xs ys : List ℕ)
    → n ≤ length xs
    → n ≤ length ys
    → tpm_xor xs ys n ≡ done (xor_all (take n xs) ys)
unfolding tpm_xor
tpm_xor_runs zero xs ys h k = refl
tpm_xor_runs (suc n) [] ys h k = absurd (omega arith)
tpm_xor_runs (suc n) (x ∷ xs) [] h k = absurd (omega arith)
tpm_xor_runs (suc n) (x ∷ xs) (y ∷ ys) h k = rw (tpm_xor_runs n xs ys (omega arith) (omega arith))

xor_all-append :
    (ps xs qs : List ℕ)
    → xor_all xs (ps ++ qs) ≡ xor_all (take (length ps) xs) ps ++ xor_all (drop (length ps) xs) qs
xor_all-append [] xs qs = refl
xor_all-append (p ∷ ps) [] qs = refl
xor_all-append (p ∷ ps) (x ∷ xs) qs = ap (λ t. bit_xor x p ∷ t) (xor_all-append ps xs qs)

xor_all_short : (xs ps qs : List ℕ) → length xs ≤ length ps → xor_all xs (ps ++ qs) ≡ xor_all xs ps
xor_all_short [] ps qs h = refl
xor_all_short (x ∷ xs) [] qs h = absurd (omega arith)
xor_all_short (x ∷ xs) (p ∷ ps) qs h =
    ap (λ t. bit_xor x p ∷ t) (xor_all_short xs ps qs (omega arith))

next_counter_runs : (ctr : List ℕ) → length ctr ≡ 16 → next_counter ctr ≡ done (bump ctr)
unfolding next_counter load32 read_at write_at bump
next_counter_runs ctr h =
    let r : leb (12 + 4) (length ctr) ≡ true = le→leb _ _ (omega arith) in rw (r, length-be32 _, r)

abbrev pub IsByte : ℕ → Type 0
IsByte x = x < 256

pub xor_all_twice :
    (xs ks : List ℕ)
    → All IsByte xs
    → All IsByte ks
    → length xs ≤ length ks
    → xor_all (xor_all xs ks) ks ≡ xs
xor_all_twice [] ks hx hk h = refl
xor_all_twice (x ∷ xs) [] hx hk h = absurd (omega arith)
xor_all_twice (x ∷ xs) (k ∷ ks) (hx, hxs) (hk, hks) h =
    ap₂ ◌∷◌ (bit_xor_twice x k hx hk) (xor_all_twice xs ks hxs hks (omega arith))

length-xor_all : (xs ks : List ℕ) → length xs ≤ length ks → length (xor_all xs ks) ≡ length xs
length-xor_all [] ks h = refl
length-xor_all (x ∷ xs) [] h = absurd (omega arith)
length-xor_all (x ∷ xs) (k ∷ ks) h = ap suc (length-xor_all xs ks (omega arith))

All-append : (xs ys : List ℕ) → All IsByte xs → All IsByte ys → All IsByte (xs ++ ys)
All-append [] ys h k = k
All-append (x ∷ xs) ys (h, hs) k = (h, All-append xs ys hs k)

module _ (aes : List ℕ → List ℕ) (block : (ctr : List ℕ) → length (aes ctr) ≡ 16) where
  ctr_loop_runs :
      (fuel : ℕ) (xs : List ℕ) (n : ℕ) (ctr : List ℕ)
      → length ctr ≡ 16
      → n ≡ length xs
      → n ≤ fuel
      → (ctr' : List ℕ) × (ctr_loop aes fuel xs n ctr
          ≡ done (xor_all xs (keystream aes fuel ctr), ctr'))
  unfolding ctr_loop keystream
  ctr_loop_runs zero [] n ctr hc e h = (ctr, rw e)
  ctr_loop_runs zero (x ∷ xs) n ctr hc e h = absurd (omega arith)
  ctr_loop_runs (suc fuel) [] n ctr hc e h = (ctr, rw e)
  ctr_loop_runs (suc fuel) (x ∷ xs) n ctr hc e h =
      let input : List ℕ = x ∷ xs in
      let some_left : (n == 0) ≡ false = ground arith in
      elim (lt_or_le 16 n) [
        | inl long ↦
            let (ctr', ih) =
              ctr_loop_runs fuel (drop 16 input) (n - 16) (bump ctr) (length-bump ctr ∙ hc)
                (omega (arith, length-drop 16 input)) (omega arith) in
            let this : tpm_xor input (aes ctr) 16 ≡ done (xor_all (take 16 input) (aes ctr)) =
              tpm_xor_runs 16 input (aes ctr) (omega arith) (omega (arith, block ctr)) in
            let split : xor_all input (aes ctr ++ keystream aes fuel (bump ctr))
                ≡ xor_all (take 16 input) (aes ctr)
                  ++ xor_all (drop 16 input) (keystream aes fuel (bump ctr)) =
              rw (block ctr) at (xor_all-append (aes ctr) input (keystream aes fuel (bump ctr))) in
            (ctr', rw (some_left, lt→leb n 16 long, this, next_counter_runs ctr hc, ih, split))
        | inr last ↦
            let whole : take n input ≡ input = take-length n input e in
            let this : tpm_xor input (aes ctr) n ≡ done (xor_all input (aes ctr)) =
              rw whole at
                (tpm_xor_runs n input (aes ctr) (omega arith) (omega (arith, block ctr))) in
            (
              ctr,
              rw (
                some_left,
                le→leb n 16 last,
                this,
                xor_all_short input (aes ctr) (keystream aes fuel (bump ctr))
                    (omega (arith, block ctr)),
              ),
            )
      ]

  -- TPM_AES_ctr128_Encrypt of `n` bytes ends normally, and what it writes is the input under XOR
  -- with the blocks that AES makes of the counter, of the counter with its last word one
  -- higher, and so on, the last word wrapping at 2^32 and the rest of the counter fixed.
  pub encrypt-keystream :
      (xs ctr : List ℕ)
      → length ctr ≡ 16
      → (ctr' : List ℕ) × (tpm_aes_ctr128_encrypt aes xs (length xs) ctr
          ≡ done (xor_all xs (keystream aes (length xs) ctr), ctr'))
  encrypt-keystream xs ctr h =
      unfold tpm_aes_ctr128_encrypt in
      ctr_loop_runs (length xs) xs (length xs) ctr h refl (omega arith)

  length-keystream : (k : ℕ) (ctr : List ℕ) → length (keystream aes k ctr) ≡ 16 * k
  unfolding keystream
  length-keystream zero ctr = refl
  length-keystream (suc k) ctr = omega (
    arith,
    length-append (aes ctr) (keystream aes k (bump ctr)),
    block ctr,
    length-keystream k (bump ctr),
  )

  keystream-IsByte :
      ((ctr : List ℕ) → All IsByte (aes ctr))
      → (k : ℕ) (ctr : List ℕ) → All IsByte (keystream aes k ctr)
  unfolding keystream
  keystream-IsByte h zero ctr = tt
  keystream-IsByte h (suc k) ctr =
      All-append (aes ctr) (keystream aes k (bump ctr)) (h ctr) (keystream-IsByte h k (bump ctr))

  -- Decryption is encryption: for a block cipher that maps 16 bytes to 16 bytes, running the
  -- routine on its own output, from the same counter, gives back the bytes that were encrypted.
  pub encrypt_twice :
      (xs ctr : List ℕ)
      → ((c : List ℕ) → All IsByte (aes c))
      → length ctr ≡ 16
      → All IsByte xs
      → (out : List ℕ) × (c : List ℕ) × (d : List ℕ) × (tpm_aes_ctr128_encrypt aes xs
            (length xs)
            ctr
          ≡ done (out, c))
        × (tpm_aes_ctr128_encrypt aes out (length xs) ctr ≡ done (xs, d))
  encrypt_twice xs ctr bytes h hx =
      let n = length xs in
      let ks = keystream aes n ctr in
      let long : length xs ≤ length ks = omega (arith, length-keystream n ctr) in
      let out = xor_all xs ks in
      let len = length-xor_all xs ks long in
      let (c, first) = encrypt-keystream xs ctr h in
      let (d, again) = encrypt-keystream out ctr h in
      let back = xor_all_twice xs ks hx (keystream-IsByte bytes n ctr) long in
      (out, c, d, first, rw (len, back) at again)
