-- ===== src/Hmac/Unprotected.antt =====
-- A response without authorization, from TPM_Transmit (swtpm-utils/lib/tpmutil.c) to the check of
-- its digest (swtpm-utils/lib/hmac.c).
use tpm_luks.Common.{
  ℕ, ◌^◌, ◌≤◌, ◌<◌, ◌≡◌, refl, sym, arith, lt→leb, List, [], ◌∷◌, ◌++◌, append_assoc, length-append,
}
use tpm_luks.Common.Memory.{done, read_at}
use tpm_luks.Bytes.{be32, load16, load32, native_load32, native_word_of}
use tpm_luks.Bytes.Laws.{length-be32, word_of-be32}
use tpm_luks.Buffer.{TpmBuffer, tpm_buffer_load32, tpm_buffer_load32_native}
use tpm_luks.Hmac.{Range, read_header, check1_tagged, tss_checkhmac1, tag_rsp_command}
use tpm_luks.Hmac.Check.{read_middle, header_to_check}
use tpm_luks.Transmit.{Settings, receive}
use tpm_luks.Transmit.Laws.{IsDevice, receive-result}

-- A response of `used` bytes with the tag 0xc4 and the code 0, and what lies behind its header.
abbrev pub unprotected : ℕ → ℕ → List ℕ → TpmBuffer
unprotected size used body = record {
  size = size;
  used = used;
  flags = 1;
  buffer = 0x00 ∷ 0xc4 ∷ (be32 used ++ (be32 0 ++ body));
}

module _ (size used : ℕ) (body : List ℕ) where
  tag_bytes : read_at (unprotected size used body).buffer 0 2 ≡ done (0x00 ∷ 0xc4 ∷ [])
  tag_bytes = read_middle [] (0x00 ∷ 0xc4 ∷ []) (be32 used ++ (be32 0 ++ body)) 0 2 refl refl

  used_bytes : read_at (unprotected size used body).buffer 2 4 ≡ done (be32 used)
  used_bytes =
      read_middle (0x00 ∷ 0xc4 ∷ []) (be32 used) (be32 0 ++ body) 2 4 refl (sym (length-be32 used))

  code_bytes : read_at (unprotected size used body).buffer 6 4 ≡ done (be32 0)
  code_bytes = rw append_assoc at (
      read_middle ((0x00 ∷ 0xc4 ∷ []) ++ be32 used) (be32 0) body 6 4
        (omega (arith, length-append (0x00 ∷ 0xc4 ∷ []) (be32 used), length-be32 used))
        (sym (length-be32 0)))

-- The digest of a response can be stripped on the way. Any bytes that begin with the tag 0xc4 of a
-- response without authorization, the number of bytes and the code 0, whatever follows, are
-- accepted by TPM_Transmit from a character device as the successful response to a request with
-- any tag, and TSS_checkhmac1 of any command returns 0 for them, whatever the nonce, the keys and
-- the ranges are.
pub receive-unprotected :
    (sha1 : List ℕ → List ℕ) (hmac : List ℕ → List ℕ → List ℕ) (s : Settings)
    (tag_out size used command keylen : ℕ) (body ononce key : List ℕ) (ranges : List Range)
    → IsDevice s
    → 10 ≤ used
    → used < 2 ^ 32
    → (receive s tag_out 0 (unprotected size used body) ≡ done (0, unprotected size used body))
      × (tss_checkhmac1 sha1 hmac (unprotected size used body) command ononce key keylen ranges
          ≡ done 0)
unfolding read_header check1_tagged tpm_buffer_load32 tpm_buffer_load32_native load32 load16
    native_load32
receive-unprotected sha1 hmac s tag_out size used command keylen body ononce key ranges d long
      small =
    let tb = unprotected size used body in
    let sized : load32 tb.buffer 2 ≡ done used =
      rw (used_bytes size used body, word_of-be32 used small) in
    let code : load32 tb.buffer 6 ≡ done 0 =
      rw (code_bytes size used body, word_of-be32 0 (omega arith)) in
    let header : read_header tb
        ≡ done
            (record { bufsize = used; tag = tag_rsp_command; result = native_word_of (be32 0) }) =
      rw (
        lt→leb used 5 (omega arith),
        used_bytes size used body,
        tag_bytes size used body,
        lt→leb used 9 (omega arith),
        code_bytes size used body,
        word_of-be32 used small,
      ) in
    (
      receive-result s tag_out 0 tb d long small sized code,
      header_to_check sha1 hmac tb command ononce key keylen ranges _ header,
    )
