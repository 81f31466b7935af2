-- ===== src/Buffer.antt =====
-- `struct tpm_buffer` (swtpm-utils/lib/tpm.h) and its accessors (swtpm-utils/lib/tpmutil.c).
pub mod Laws
use tpm_luks.Common.{ℕ, Bool, ◌+◌, ◌^◌, ◌≤◌, ◌<◌, leb, ltb, if◌then◌else◌, List, length, take, drop}
use tpm_luks.Common.{replicate, ◌++◌}
use tpm_luks.Common.Memory.{Outcome, done, failed, fault, ◌>>=◌, splice, write_at, read_at}
use tpm_luks.Bytes.{u32, be32, load32, load16, native_load32, native_load16, err_buffer}

-- `buffer` is the memory behind the pointer. `size` is what the code takes its length to be, and
-- `used` how much of it is filled.
pub record TpmBuffer : Type 0 where
  pub size : ℕ
  pub used : ℕ
  pub flags : ℕ
  pub buffer : List ℕ

abbrev pub max_buff_size : ℕ
max_buff_size = 4096

-- What STACK_TPM_BUFFER declares.
unfoldable pub stack_tpm_buffer : TpmBuffer
stack_tpm_buffer = record {
  size = max_buff_size;
  used = 0;
  flags = 1;
  buffer = replicate max_buff_size 0;
}

-- A buffer as the library keeps it: its memory is as long as it says, and a response code is
-- never mistaken for a length.
pub record IsBuffer (tb : TpmBuffer) : Type 0 where
  pub fits : tb.used ≤ tb.size
  pub allocated : tb.size ≤ length tb.buffer
  pub small : tb.size < 2 ^ 31

unfoldable pub tpm_buffer_load32 : TpmBuffer → ℕ → Outcome ℕ
tpm_buffer_load32 tb off =
    if leb tb.used (u32 (off + 3)) then failed err_buffer else load32 tb.buffer off

unfoldable pub tpm_buffer_load32_native : TpmBuffer → ℕ → Outcome ℕ
tpm_buffer_load32_native tb off =
    if leb tb.used (u32 (off + 3)) then failed err_buffer else native_load32 tb.buffer off

unfoldable pub tpm_buffer_load16 : TpmBuffer → ℕ → Outcome ℕ
tpm_buffer_load16 tb off =
    if leb tb.used (u32 (off + 1)) then failed err_buffer else load16 tb.buffer off

unfoldable pub tpm_buffer_load16_native : TpmBuffer → ℕ → Outcome ℕ
tpm_buffer_load16_native tb off =
    if leb tb.used (u32 (off + 1)) then failed err_buffer else native_load16 tb.buffer off

unfoldable pub tpm_buffer_store32 : TpmBuffer → ℕ → Outcome TpmBuffer
tpm_buffer_store32 tb val =
    if ltb tb.size (u32 (tb.used + 4))
    then failed err_buffer
    else (write_at tb.buffer tb.used (be32 val) >>= λ m.
        done (record tb { buffer = m; used = u32 (tb.used + 4) }))

-- The source is read up to its `size`, not only as far as it is used.
unfoldable pub tpm_buffer_store : TpmBuffer → TpmBuffer → ℕ → ℕ → Outcome TpmBuffer
tpm_buffer_store dest src soff slen =
    if ltb dest.size (u32 (dest.used + slen))
    then failed err_buffer
    else (if ltb src.size (u32 (soff + slen))
        then failed err_buffer
        else (read_at src.buffer soff slen >>= λ bs. write_at dest.buffer dest.used bs >>= λ m.
            done (record dest { buffer = m; used = u32 (dest.used + slen) })))

-- SET_TPM_BUFFER: at most `size` bytes are copied.
unfoldable pub set_tpm_buffer : TpmBuffer → List ℕ → ℕ → Outcome TpmBuffer
set_tpm_buffer tb src len =
    let to_copy = if ltb len tb.size then len else tb.size in
    read_at src 0 to_copy >>= λ bs.
    write_at tb.buffer 0 bs >>= λ m. done (record tb { buffer = m; used = to_copy })
