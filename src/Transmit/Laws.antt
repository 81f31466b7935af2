-- ===== src/Transmit/Laws.antt =====
-- Which responses TPM_Transmit accepts, and with which code.
use tpm_luks.Common.{ℕ, ◌+◌, ◌^◌, ◌≤◌, ◌<◌, ◌≡◌, ◌≢◌, arith, lt→leb, le→leb, ◌==◌, true, false}
use tpm_luks.Common.Memory.{done, failed}
use tpm_luks.Bytes.{load32, u32, err_buffer, err_bad_resp}
use tpm_luks.Buffer.{TpmBuffer, tpm_buffer_load32}
use tpm_luks.Transmit.{Settings, receive, judge, check_tag}

-- A character device and no instance word.
pub record IsDevice (s : Settings) : Type 0 where
  pub device : s.chardev ≡ true
  pub plain : s.use_vtpm ≡ false

load_inside :
    (tb : TpmBuffer) (off v : ℕ)
    → off + 4 ≤ tb.used
    → tb.used < 2 ^ 32
    → load32 tb.buffer off ≡ done v
    → tpm_buffer_load32 tb off ≡ done v
unfolding tpm_buffer_load32
load_inside tb off v inside small e =
    let u : u32 (off + 3) ≡ off + 3 = omega arith in
    rw (u, lt→leb tb.used (off + 3) (omega arith)) e

-- What TPM_Transmit makes of a response from a character device, when the transport succeeded:
-- if the length in the header is the number of bytes that were received, and these are ten at
-- least, the code of the response is returned.
pub receive-result :
    (s : Settings) (tag_out result : ℕ) (tb : TpmBuffer)
    → IsDevice s
    → 10 ≤ tb.used
    → tb.used < 2 ^ 32
    → load32 tb.buffer 2 ≡ done tb.used
    → load32 tb.buffer 6 ≡ done result
    → receive s tag_out 0 tb ≡ done (result, tb)
unfolding receive judge check_tag
receive-result s tag_out result tb d long small size code =
    let same : (tb.used == tb.used) ≡ true = ground arith in
    rw (
      d.device,
      d.plain,
      load_inside tb 2 tb.used (omega arith) small size,
      same,
      load_inside tb 6 result (omega arith) small code,
    )

-- A response of which the header gives another length than was received is refused.
pub receive_refuses_length :
    (s : Settings) (tag_out size : ℕ) (tb : TpmBuffer)
    → IsDevice s
    → 6 ≤ tb.used
    → tb.used < 2 ^ 32
    → load32 tb.buffer 2 ≡ done size
    → tb.used ≢ size
    → receive s tag_out 0 tb ≡ done (err_bad_resp, tb)
unfolding receive judge check_tag
receive_refuses_length s tag_out size tb d long small e other =
    let differ : (tb.used == size) ≡ false = ground (arith, other) in
    rw (d.device, d.plain, load_inside tb 2 size (omega arith) small e, differ)

no_code : (tb : TpmBuffer) → tb.used < 10 → tpm_buffer_load32 tb 6 ≡ failed err_buffer
unfolding tpm_buffer_load32
no_code tb short = rw (le→leb tb.used 9 (omega arith))

-- What TPM_Transmit makes of a response of six to nine bytes from a character device whose header
-- gives this length: it has no return code, and counts as a success.
pub receive_short_succeeds :
    (s : Settings) (tag_out : ℕ) (tb : TpmBuffer)
    → IsDevice s
    → 6 ≤ tb.used
    → tb.used < 10
    → load32 tb.buffer 2 ≡ done tb.used
    → receive s tag_out 0 tb ≡ done (0, tb)
unfolding receive judge check_tag
receive_short_succeeds s tag_out tb d long short size =
    let same : (tb.used == tb.used) ≡ true = ground arith in
    rw (
      d.device,
      d.plain,
      load_inside tb 2 tb.used (omega arith) (omega arith) size,
      same,
      no_code tb short,
    )
