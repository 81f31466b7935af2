-- ===== src/Bytes.antt =====
-- The byte-order macros of swtpm-utils/lib/tpm.h (STORE32, LOAD16N, ...) and the error codes there.
-- A machine word is its unsigned value; `native` order is the little-endian order of x86-64.
pub mod Laws
use tpm_luks.Common.{ℕ, Bool, ◌==◌, ◌+◌, ◌*◌, ◌/◌, ◌%◌, ◌^◌, ◌-◌, ltb, if◌then◌else◌, List, [], ◌∷◌}
use tpm_luks.Common.Memory.{Outcome, done, fault, read_at, ◌>>=◌}

abbrev pub err_mask : ℕ
err_mask = 0x80000000

abbrev pub err_hmac_fail : ℕ
err_hmac_fail = 0x80001001

abbrev pub err_null_arg : ℕ
err_null_arg = 0x80001002

abbrev pub err_bad_arg : ℕ
err_bad_arg = 0x80001003

abbrev pub err_crypt_err : ℕ
err_crypt_err = 0x80001004

abbrev pub err_mem_err : ℕ
err_mem_err = 0x80001006

abbrev pub err_buffer : ℕ
err_buffer = 0x8000100a

abbrev pub err_bad_file : ℕ
err_bad_file = 0x80001007

abbrev pub err_structure : ℕ
err_structure = 0x8000100b

abbrev pub err_bad_response_tag : ℕ
err_bad_response_tag = 0x8000100f

abbrev pub err_bad_resp : ℕ
err_bad_resp = 0x80001013

abbrev pub hash_size : ℕ
hash_size = 20

abbrev pub nonce_size : ℕ
nonce_size = 20

abbrev pub return_offset : ℕ
return_offset = 6

abbrev pub data_offset : ℕ
data_offset = 10

abbrev pub u8 : ℕ → ℕ
u8 x = x % 2 ^ 8

abbrev pub u16 : ℕ → ℕ
u16 x = x % 2 ^ 16

abbrev pub u32 : ℕ → ℕ
u32 x = x % 2 ^ 32

abbrev pub u64 : ℕ → ℕ
u64 x = x % 2 ^ 64

-- An `int` assigned to an `unsigned long`: the sign bit is copied upwards.
unfoldable pub sign_extend : ℕ → ℕ
sign_extend w = if ltb (u32 w) (2 ^ 31) then u32 w else u32 w + (2 ^ 64 - 2 ^ 32)

-- The bytes that STORE32 and STORE16 leave, and those of STORE32N and STORE16N.
unfoldable pub be32 : ℕ → List ℕ
be32 v = (v / 2 ^ 24 % 256) ∷ (v / 2 ^ 16 % 256) ∷ (v / 2 ^ 8 % 256) ∷ (v % 256) ∷ []

unfoldable pub be16 : ℕ → List ℕ
be16 v = (v / 2 ^ 8 % 256) ∷ (v % 256) ∷ []

unfoldable pub le32 : ℕ → List ℕ
le32 v = (v % 256) ∷ (v / 2 ^ 8 % 256) ∷ (v / 2 ^ 16 % 256) ∷ (v / 2 ^ 24 % 256) ∷ []

unfoldable pub le16 : ℕ → List ℕ
le16 v = (v % 256) ∷ (v / 2 ^ 8 % 256) ∷ []

-- The word that a list of bytes stands for, highest byte first.
abbrev pub word_of : ℕ → List ℕ → ℕ
word_of acc [] = acc
word_of acc (b ∷ bs) = word_of (acc * 256 + b) bs

-- The same, lowest byte first.
abbrev pub native_word_of : List ℕ → ℕ
native_word_of [] = 0
native_word_of (b ∷ bs) = b + 256 * native_word_of bs

unfoldable pub load32 : List ℕ → ℕ → Outcome ℕ
load32 m o = read_at m o 4 >>= λ bs. done (word_of 0 bs)

unfoldable pub load16 : List ℕ → ℕ → Outcome ℕ
load16 m o = read_at m o 2 >>= λ bs. done (word_of 0 bs)

unfoldable pub native_load32 : List ℕ → ℕ → Outcome ℕ
native_load32 m o = read_at m o 4 >>= λ bs. done (native_word_of bs)

unfoldable pub native_load16 : List ℕ → ℕ → Outcome ℕ
native_load16 m o = read_at m o 2 >>= λ bs. done (native_word_of bs)

-- `htonl` and `ntohl` on a little-endian machine.
unfoldable pub swap32 : ℕ → ℕ
swap32 v = v % 256 * 2 ^ 24 + v / 2 ^ 8 % 256 * 2 ^ 16 + v / 2 ^ 16 % 256 * 2 ^ 8 + v / 2 ^ 24 % 256

-- `ret & ERR_MASK`: the top bit of the code.
abbrev pub is_error : ℕ → Bool
is_error ret = ret / 2 ^ 31 % 2 == 1
