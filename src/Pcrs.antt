-- ===== src/Pcrs.antt =====
-- The commands on PCRs of swtpm-utils/lib/pcrs.c that need no session, and the commands on random
-- numbers of swtpm-utils/lib/rng.c.
use tpm_luks.Common.{ℕ, ◌+◌, ◌%◌, ◌==◌, if◌then◌else◌, Bool}
use tpm_luks.Common.{List, [], ◌∷◌, Option, none, some}
use tpm_luks.Common.Memory.{done, ◌>>=◌, read_at, write_at}
use tpm_luks.Common.Effects.{Call, ◌>>>=◌, lift, return, fail}
use tpm_luks.Bytes.{swap32, is_error, err_null_arg, err_mem_err, hash_size, data_offset}
use tpm_luks.Buffer.{TpmBuffer, tpm_buffer_load32}
use tpm_luks.Build.{word, ptr}
use tpm_luks.Session.Open.{System, exchange, request}
use tpm_luks.Serialize.Pcr.{PcrSelection, tpm_write_pcr_selection}
use tpm_luks.Serialize.Signed.{tss_alloc_tpm_buffer}
use tpm_luks.Command.{send_unchecked}

module _ {W : Type 0} (sys : System W) where
  -- The new value of the register, when the caller asked for it.
  unfoldable pub tpm_extend : ℕ → List ℕ → Bool → Call W (Option (List ℕ))
  tpm_extend pcr_index event want_digest =
      request sys "00 c1 T l l %"
        (word (swap32 0x14) ∷ word (swap32 pcr_index) ∷ word hash_size ∷ ptr (some event) ∷ [])
      >>>= λ tb.
          if want_digest
          then lift (read_at tb.buffer data_offset hash_size >>= λ bs. done (some bs))
          else return none

  unfoldable pub tpm_pcr_read : ℕ → Bool → Call W (List ℕ)
  tpm_pcr_read pcrindex wanted =
      if wanted
      then (request sys "00 c1 T 00 00 00 15 L" (word pcrindex ∷ []) >>>= λ tb.
          lift (read_at tb.buffer data_offset hash_size))
      else fail err_null_arg

  abbrev pub with_allocated : Option TpmBuffer → (TpmBuffer → Call W ℕ) → Call W ℕ
  with_allocated none k = fail err_mem_err
  with_allocated (some tb) k = k tb

  -- `memory` is what malloc gives for a size.
  unfoldable pub tpm_pcr_reset : (ℕ → Option (List ℕ)) → PcrSelection → Call W ℕ
  tpm_pcr_reset memory selection =
      with_allocated (tss_alloc_tpm_buffer memory (2 + selection.size_of_select + 10)) (λ buffer.
        lift (tpm_write_pcr_selection buffer selection).0 >>>= λ written.
        if is_error written.0
        then return written.0
        else (exchange sys "00 c1 T l %"
              (word (swap32 0xc8) ∷ word written.0 ∷ ptr (some (written.1).buffer) ∷ [])
            >>>= λ answer. return answer.0))

  -- As many bytes as the response says are copied to the caller's buffer, however many were asked
  -- for.
  unfoldable pub tpm_get_random : ℕ → List ℕ → Call W (ℕ × List ℕ)
  tpm_get_random bytesreq buffer =
      send_unchecked sys "00 c1 T l l" (word (swap32 0x46) ∷ word (swap32 bytesreq) ∷ [])
      >>>= λ answer.
          if answer.0 == 0
          then lift (
              tpm_buffer_load32 answer.1 data_offset >>= λ n.
              read_at (answer.1).buffer (data_offset + 4) n >>= λ bs.
              write_at buffer 0 bs >>= λ buffer'. done (n, buffer'))
          else fail answer.0

  unfoldable pub tpm_stir_random : List ℕ → ℕ → Call W ℕ
  tpm_stir_random bytes datalen =
      send_unchecked sys "00 c1 T l @"
        (word (swap32 0x47) ∷ word (datalen % 256) ∷ ptr (some bytes) ∷ [])
      >>>= λ answer. return answer.0
