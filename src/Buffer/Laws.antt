-- ===== src/Buffer/Laws.antt =====
-- Bounds of the accessors of `struct tpm_buffer`.
use tpm_luks.Common.{ℕ, ◌+◌, ◌≤◌, ◌≡◌, arith}
use tpm_luks.Bytes.{load32}
use tpm_luks.Buffer.{TpmBuffer, IsBuffer, tpm_buffer_load32}

-- An offset inside the used part is loaded from; the guard does not wrap there.
pub load32_inside :
    (tb : TpmBuffer) (off : ℕ)
    → IsBuffer tb
    → off + 4 ≤ tb.used
    → tpm_buffer_load32 tb off ≡ load32 tb.buffer off
unfolding tpm_buffer_load32
load32_inside tb off b h = ground (arith, b.fits, b.small)
