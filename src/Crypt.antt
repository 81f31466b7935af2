-- ===== src/Crypt.antt =====
-- The cryptographic helpers of swtpm-utils/lib/tpmutil.c over OpenSSL's primitives: the XOR of
-- arrays, AES in counter mode as the TPM counts, hashes of lists of streams, MGF1, and the
-- parser of a printed hash. AES_encrypt under a key and SHA1 are parameters.
pub mod Counter
pub mod Mask
pub mod Hash
use tpm_luks.Common.{
  ◌%◌, ℕ, zero, suc, ◌+◌, ◌-◌, ◌*◌, ◌/◌, ◌^◌, ltb, leb, ◌==◌, if◌then◌else◌, ◌&&◌, bit_or, bit_xor,
}
use tpm_luks.Common.{List, [], ◌∷◌, ◌++◌, take, drop, replicate, Bool, Option, none, some}
use tpm_luks.Common.Memory.{Outcome, done, failed, fault, ◌>>=◌, read_at, write_at}
use tpm_luks.Bytes.{u8, u32, be32, load32, swap32, err_mem_err, hash_size}

abbrev pub aes_block_size : ℕ
aes_block_size = 16

-- TPM_XOR: the bytes stored to `out`.
unfoldable pub tpm_xor : List ℕ → List ℕ → ℕ → Outcome (List ℕ)
tpm_xor in1 in2 zero = done []
tpm_xor (x ∷ in1) (y ∷ in2) (suc n) = tpm_xor in1 in2 n >>= λ out. done (bit_xor x y ∷ out)
tpm_xor in1 in2 (suc n) = fault

-- The low four bytes of the counter are increased; the others stay.
unfoldable pub next_counter : List ℕ → Outcome (List ℕ)
next_counter ctr = load32 ctr 12 >>= λ cint. write_at ctr 12 (be32 (u32 (cint + 1)))

module _ (aes : List ℕ → List ℕ) where
  -- One round takes a byte at least; the result is the output and the counter that is left in
  -- the caller's array.
  unfoldable pub ctr_loop : ℕ → List ℕ → ℕ → List ℕ → Outcome (List ℕ × List ℕ)
  ctr_loop zero data_in data_size ctr = if data_size == 0 then done ([], ctr) else fault
  ctr_loop (suc fuel) data_in data_size ctr =
      let pad_buffer = aes ctr in
      let last = tpm_xor data_in pad_buffer data_size >>= λ out. done (out, ctr) in
      let more = tpm_xor data_in pad_buffer aes_block_size >>= λ out. next_counter ctr >>= λ ctr'.
      ctr_loop fuel (drop aes_block_size data_in) (data_size - aes_block_size) ctr' >>= λ rest.
      done (out ++ rest.0, rest.1) in
      if data_size == 0
      then done ([], ctr)
      else (if leb data_size aes_block_size then last else more)

  -- Its return code is always 0.
  unfoldable pub tpm_aes_ctr128_encrypt : List ℕ → ℕ → List ℕ → Outcome (List ℕ × List ℕ)
  unfolding ctr_loop tpm_xor next_counter load32 read_at write_at be32
  tpm_aes_ctr128_encrypt data_in data_size ctr = ctr_loop data_size data_in data_size ctr

-- An argument pair of TPM_SHA1: a length and a pointer to bytes.
pub record Stream : Type 0 where
  pub size : ℕ
  pub bytes : List ℕ

-- The bytes that the store of an unsigned long of `n` bytes leaves, lowest first.
abbrev pub native_bytes : ℕ → ℕ → List ℕ
native_bytes zero v = []
native_bytes (suc n) v = u8 v ∷ native_bytes n (v / 2 ^ 8)

-- `*(unsigned long *)counter = htonl(count)` on an array of four bytes, where an unsigned long
-- has `long_size` bytes.
unfoldable pub counter_bytes : ℕ → ℕ → Outcome (List ℕ)
counter_bytes long_size count = write_at (replicate 4 0) 0 (native_bytes long_size (swap32 count))

-- A sum of unsigned longs of `long_size` bytes.
abbrev pub wrap_long : ℕ → ℕ → ℕ
wrap_long long_size v = v % 2 ^ (8 * long_size)

-- The arguments of both calls of TPM_SHA1 in TPM_MGF1.
abbrev pub seed_and_counter : ℕ → List ℕ → List ℕ → List Stream
seed_and_counter seed_len seed counter =
    record { size = seed_len; bytes = seed }
    ∷ record { size = 4; bytes = counter }
    ∷ record { size = 0; bytes = [] }
    ∷ []

module _ (sha1 : List ℕ → List ℕ) where
  -- TPM_SHA1_valist after its first block: the list ends at the first length of 0.
  unfoldable pub hash_streams : List ℕ → List Stream → Outcome (List ℕ)
  hash_streams text [] = fault
  hash_streams text (s ∷ streams) =
      let more = read_at s.bytes 0 s.size >>= λ bs. hash_streams (text ++ bs) streams in
      if s.size == 0 then done (sha1 text) else more

  -- `context` says whether the hash context can be allocated.
  unfoldable pub tpm_sha1 : Bool → List Stream → Outcome (List ℕ)
  unfolding hash_streams read_at
  tpm_sha1 context streams = if context then hash_streams [] streams else failed err_mem_err

  -- `mask_len` is the value of a uint32_t; `count` and `out_len` are unsigned longs.
  module _ (context : Bool) (long_size : ℕ) (seed : List ℕ) (seed_len mask_len : ℕ) where
    -- The loop with `out_len` bytes of the mask done. A round adds a byte at least, unless
    -- `out_len` wraps.
    unfoldable pub mgf1_loop : ℕ → List ℕ → ℕ → ℕ → Outcome (List ℕ)
    mgf1_loop zero mask count out_len = if leb mask_len out_len then done mask else fault
    mgf1_loop (suc fuel) mask count out_len =
        let digest = counter_bytes long_size count >>= λ counter.
        tpm_sha1 context (seed_and_counter seed_len seed counter) in
        let whole = digest >>= λ md. write_at mask out_len md >>= λ mask.
        mgf1_loop fuel mask (wrap_long long_size (count + 1))
          (wrap_long long_size (out_len + hash_size)) in
        let part = digest >>= λ md. read_at md 0 (mask_len - out_len) >>= λ bs.
        write_at mask out_len bs >>= λ mask.
        mgf1_loop fuel mask (wrap_long long_size (count + 1)) mask_len in
        if leb mask_len out_len
        then done mask
        else (if ltb (wrap_long long_size (out_len + hash_size)) mask_len then whole else part)

    -- The test for an output length above 2^32 blocks is constantly false for a 32-bit length.
    unfoldable pub tpm_mgf1 : List ℕ → Outcome (List ℕ)
    unfolding mgf1_loop counter_bytes tpm_sha1 write_at read_at
    tpm_mgf1 mask = mgf1_loop mask_len mask 0 0

-- The digit of a character, as parseHash tests and computes it.
abbrev pub hex_value : ℕ → Option ℕ
hex_value c =
    if leb b'0' c && leb c b'9'
    then some (c - b'0')
    else if leb b'A' c && leb c b'F'
    then some (c - b'A' + 10)
    else if leb b'a' c && leb c b'f'
    then some (c - b'a' + 10)
    else none

abbrev pub hash_round :
    Option ℕ → ℕ → ℕ → List ℕ → (ℕ → List ℕ → Outcome (ℕ × List ℕ)) → Outcome (ℕ × List ℕ)
hash_round none i byte hash go_on = done (1, hash)
hash_round (some v) i byte hash go_on =
    let byte' = bit_or (u8 (byte * 2 ^ 4)) v in
    write_at hash (i / 2) (byte' ∷ []) >>= λ hash'. go_on byte' hash'

-- The loop of parseHash at index `i`, with so many rounds left: the code that is returned, and
-- the hash. The byte is stored after each digit.
unfoldable pub hash_loop : ℕ → List ℕ → ℕ → ℕ → List ℕ → Outcome (ℕ × List ℕ)
hash_loop zero string i byte hash = done (0, hash)
hash_loop (suc left) [] i byte hash = fault
hash_loop (suc left) (c ∷ string) i byte hash =
    hash_round (hex_value c) i byte hash (λ byte' hash'. hash_loop left string (i + 1) byte' hash')

unfoldable pub parse_hash : List ℕ → List ℕ → Outcome (ℕ × List ℕ)
unfolding hash_loop write_at
parse_hash string hash = hash_loop 40 string 0 0 hash
