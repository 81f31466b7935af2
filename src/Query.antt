-- ===== src/Query.antt =====
-- The commands on capabilities of swtpm-utils/lib/miscfunc.c, TPM_TickStampBlob of ticks.c, and
-- sha.c. TPM_GetCapability is with Keyswap.
use tpm_luks.Common.{
  ℕ, ◌+◌, ◌==◌, if◌then◌else◌, Bool, List, [], ◌∷◌, Option, none, some, codes, drop,
}
use tpm_luks.Common.Memory.{Outcome, done, failed, fault, ◌>>=◌, read_at}
use tpm_luks.Common.Effects.{Call, ◌>>>=◌, lift, return, fail}
use tpm_luks.Bytes.{
  u32, swap32, load32, be32, is_error, err_null_arg, hash_size, nonce_size, data_offset,
}
use tpm_luks.Buffer.{TpmBuffer, stack_tpm_buffer, set_tpm_buffer, tpm_buffer_load32}
use tpm_luks.Build.{word, ptr, tss_buildbuff}
use tpm_luks.Session.{Session, session_oiap, session_osap}
use tpm_luks.Session.Open.{
  System, request, tss_session_open, tss_session_close, et_owner, et_keyhandle,
}
use tpm_luks.Serialize.Signed.{tss_alloc_tpm_buffer}
use tpm_luks.Transmit.{tpm_transmit}
use tpm_luks.Keyswap.{tpm_get_capability}
use tpm_luks.Command.{
  no_session, word_input, bytes_input, end_input, end_range, auth_args, or_close, finally, room_for,
  check_reply, authorized, send_unchecked, copy_sized, copy_buffer, digest_in,
}

abbrev pub err_bad_size : ℕ
err_bad_size = 0x80001009

abbrev pub current_ticks_size : ℕ
current_ticks_size = 32

-- The size and the bytes of a capability that may be NULL.
abbrev pub capability_size : Option TpmBuffer → ℕ
capability_size none = 0
capability_size (some scap) = scap.used

abbrev pub capability_bytes : Option TpmBuffer → Option (List ℕ)
capability_bytes none = none
capability_bytes (some scap) = some scap.buffer

-- The capability and its signature out of a response: the buffers, and the signature's size.
unfoldable pub signed_capability :
    TpmBuffer → ℕ → ℕ → TpmBuffer → Option (List ℕ) → ℕ → Outcome (TpmBuffer × ℕ × Option (List ℕ))
signed_capability tb rlen ssize resp sig siglen =
    set_tpm_buffer resp (drop (data_offset + 4 + 4) tb.buffer) rlen >>= λ resp.
    copy_sized tb (u32 (data_offset + 4 + 4 + rlen + 4)) ssize sig siglen >>= λ copied.
    done (resp, copied.0, copied.1)

-- Both lengths in such a response.
unfoldable pub signed_sizes : TpmBuffer → Outcome (ℕ × ℕ)
signed_sizes tb = tpm_buffer_load32 tb (data_offset + 4) >>= λ rlen.
    tpm_buffer_load32 tb (u32 (data_offset + 4 + 4 + rlen)) >>= λ ssize. done (rlen, ssize)

module _ {W : Type 0} (sys : System W) where
  -- Behind the check of `resp`.
  unfoldable pub get_capability_signed :
      ℕ
      → Option (List ℕ)
      → List ℕ
      → ℕ
      → Option TpmBuffer
      → TpmBuffer
      → Option (List ℕ)
      → ℕ
      → Call W (TpmBuffer × ℕ × Option (List ℕ))
  get_capability_signed keyhandle none anti_replay caparea scap resp sig siglen =
      request sys "00 c1 T l l % l @" (
        word (swap32 0x64)
        ∷ word (swap32 keyhandle)
        ∷ word nonce_size
        ∷ ptr (some anti_replay)
        ∷ word (swap32 caparea)
        ∷ word (capability_size scap)
        ∷ ptr (capability_bytes scap)
        ∷ [])
      >>>= λ tb.
          lift (signed_sizes tb >>= λ sizes. signed_capability tb sizes.0 sizes.1 resp sig siglen)
  get_capability_signed keyhandle (some keypass) anti_replay caparea scap resp sig siglen =
      authorized sys (session_osap + session_oiap) keypass et_keyhandle keyhandle 0x64
        (word_input 0x64
          ∷ bytes_input nonce_size anti_replay
          ∷ word_input caparea
          ∷ word_input (capability_size scap)
          ∷ record { size = capability_size scap; data_at = capability_bytes scap }
          ∷ end_input
          ∷ [])
        "00 c2 T l l % l @ L % o %"
        (word (swap32 keyhandle)
          ∷ word nonce_size
          ∷ ptr (some anti_replay)
          ∷ word (swap32 caparea)
          ∷ word (capability_size scap)
          ∷ ptr (capability_bytes scap)
          ∷ [])
      >>>= λ reply. lift (
          signed_sizes reply.response >>= λ sizes.
          check_reply sys reply 0x64 (
            record { size = u32 (4 + 4 + sizes.0 + 4 + sizes.1); position = data_offset }
            ∷ end_range
            ∷ [])
          >>= λ ret. signed_capability reply.response sizes.0 sizes.1 resp sig siglen)

  unfoldable pub tpm_get_capability_signed :
      ℕ
      → Option (List ℕ)
      → List ℕ
      → ℕ
      → Option TpmBuffer
      → Option TpmBuffer
      → Option (List ℕ)
      → ℕ
      → Call W (TpmBuffer × ℕ × Option (List ℕ))
  tpm_get_capability_signed keyhandle keypass anti_replay caparea scap none sig siglen =
      room_for sys keyhandle >>>= λ room. fail err_null_arg
  tpm_get_capability_signed keyhandle keypass anti_replay caparea scap (some resp) sig siglen =
      room_for sys keyhandle >>>= λ room.
      get_capability_signed keyhandle keypass anti_replay caparea scap resp sig siglen

  unfoldable pub tpm_set_capability :
      ℕ → Option (List ℕ) → ℕ → TpmBuffer → Option (List ℕ) → Call W ℕ
  tpm_set_capability caparea subcap subcaplen set_value none =
      send_unchecked sys "00 c1 T l l @ @" (
        word (swap32 0x3f)
        ∷ word (swap32 caparea)
        ∷ word subcaplen
        ∷ ptr subcap
        ∷ word set_value.used
        ∷ ptr (some set_value.buffer)
        ∷ [])
      >>>= λ answer. return answer.0
  tpm_set_capability caparea subcap subcaplen set_value (some operatorauth) =
      authorized sys (session_osap + session_oiap) operatorauth et_owner 0 0x3f
        (word_input 0x3f
          ∷ word_input caparea
          ∷ word_input subcaplen
          ∷ record { size = subcaplen; data_at = subcap }
          ∷ word_input set_value.used
          ∷ bytes_input set_value.used set_value.buffer
          ∷ end_input
          ∷ [])
        "00 c2 T l l @ @ L % o %"
        (word (swap32 caparea)
          ∷ word subcaplen
          ∷ ptr subcap
          ∷ word set_value.used
          ∷ ptr (some set_value.buffer)
          ∷ [])
      >>>= λ reply. lift (check_reply sys reply 0x3f (end_range ∷ []))

  unfoldable pub tpm_reset : Call W ℕ
  tpm_reset = send_unchecked sys "00 c1 00 00 00 0a 00 00 00 5a" [] >>>= λ answer. return answer.0

  abbrev pub size_or_default : W × Outcome TpmBuffer → W × Outcome (ℕ × ℕ)
  size_or_default (w, done response) =
      (lift (load32 response.buffer 0) >>>= λ size. return (0, size)) w
  size_or_default (w, failed e) = (w, done (e, 2048))
  size_or_default (w, fault) = (w, fault)

  -- The code, and the size, which is 2048 when the TPM does not tell it.
  unfoldable pub tpm_get_tpm_input_buffer_size : Call W (ℕ × ℕ)
  tpm_get_tpm_input_buffer_size w =
      size_or_default (tpm_get_capability sys 5 (be32 0x124) stack_tpm_buffer w)

  unfoldable pub tpm_sha1_start : Call W ℕ
  tpm_sha1_start = send_unchecked sys "00 c1 T l" (word (swap32 0xa0) ∷ []) >>>= λ answer.
      if answer.0 == 0 then lift (tpm_buffer_load32 answer.1 data_offset) else fail answer.0

  -- `memory` is what malloc gives for a size.
  unfoldable pub tpm_sha1_update : (ℕ → Option (List ℕ)) → List ℕ → ℕ → Call W ℕ
  tpm_sha1_update memory bytes datalen =
      allocated (tss_alloc_tpm_buffer memory (u32 (datalen + 20)))
    where
      allocated : Option TpmBuffer → Call W ℕ
      allocated none = fail err_bad_size
      allocated (some tpmdata) =
          lift (
            tss_buildbuff (codes "00 c1 T l @") tpmdata
              (word (swap32 0xa1) ∷ word datalen ∷ ptr (some bytes) ∷ []))
          >>>= λ built.
              if is_error built.0
              then return built.0
              else (tpm_transmit sys.transport sys.settings built.1 >>>= λ answer. return answer.0)

  unfoldable pub tpm_sha1_complete : List ℕ → ℕ → Call W (List ℕ)
  tpm_sha1_complete bytes datalen =
      send_unchecked sys "00 c1 T l @" (word (swap32 0xa2) ∷ word datalen ∷ ptr (some bytes) ∷ [])
      >>>= λ answer.
          if answer.0 == 0
          then lift (read_at (answer.1).buffer data_offset hash_size)
          else fail answer.0

  -- The digest, and the new value of the register.
  unfoldable pub tpm_sha1_complete_extend : List ℕ → ℕ → ℕ → Call W (List ℕ × List ℕ)
  tpm_sha1_complete_extend bytes datalen pcr_num =
      send_unchecked sys "00 c1 T l l @"
        (word (swap32 0xa3) ∷ word (swap32 pcr_num) ∷ word datalen ∷ ptr (some bytes) ∷ [])
      >>>= λ answer.
          if answer.0 == 0
          then lift (
              read_at (answer.1).buffer data_offset hash_size >>= λ hash.
              read_at (answer.1).buffer (data_offset + hash_size) hash_size >>= λ pcr_value.
              done (hash, pcr_value))
          else fail answer.0

  -- The ticks and the signature out of a response.
  abbrev pub stamp_results :
      TpmBuffer → Bool → Option TpmBuffer → Outcome (Option (List ℕ) × Option TpmBuffer)
  stamp_results tb wants_ticks signature =
      (if wants_ticks
        then (read_at tb.buffer data_offset current_ticks_size >>= λ bs. done (some bs))
        else done none)
      >>= λ ticks. copy_signature signature >>= λ signature. done (ticks, signature)
    where
      copy_signature : Option TpmBuffer → Outcome (Option TpmBuffer)
      copy_signature none = done none
      copy_signature (some s) = copy_buffer tb (data_offset + current_ticks_size) (some s)

  -- A request that cannot be built leaves the session open.
  unfoldable pub send_stamp : Session → List ℕ → ℕ → List ℕ → List ℕ → Call W TpmBuffer
  send_stamp sess nonceodd keyhandle antireplay digest =
      or_close
        (lift (
          digest_in sys sess nonceodd (
            word_input 0xf2
            ∷ bytes_input hash_size antireplay
            ∷ bytes_input hash_size digest
            ∷ end_input
            ∷ [])))
        (tss_session_close sys sess)
      >>>= λ authdata.
          lift (
            tss_buildbuff (codes "00 c2 T l l % % L % o %") stack_tpm_buffer (
              word (swap32 0xf2)
              ∷ word (swap32 keyhandle)
              ∷ word hash_size
              ∷ ptr (some antireplay)
              ∷ word hash_size
              ∷ ptr (some digest)
              ∷ auth_args sess nonceodd authdata))
          >>>= λ built.
              if is_error built.0
              then fail built.0
              else finally
                  (tpm_transmit sys.transport sys.settings built.1 >>>= λ answer.
                    if answer.0 == 0 then return answer.1 else fail answer.0)
                  (tss_session_close sys sess)

  unfoldable pub tpm_tick_stamp_blob :
      ℕ
      → List ℕ
      → Option (List ℕ)
      → List ℕ
      → Bool
      → Option TpmBuffer
      → Call W (Option (List ℕ) × Option TpmBuffer)
  tpm_tick_stamp_blob keyhandle digest none antireplay wants_ticks signature =
      room_for sys keyhandle >>>= λ room.
      request sys "00 c1 T l l % %" (
        word (swap32 0xf2)
        ∷ word (swap32 keyhandle)
        ∷ word hash_size
        ∷ ptr (some antireplay)
        ∷ word hash_size
        ∷ ptr (some digest)
        ∷ [])
      >>>= λ tb. lift (stamp_results tb wants_ticks signature)
  tpm_tick_stamp_blob keyhandle digest (some usageauth) antireplay wants_ticks signature =
      room_for sys keyhandle >>>= λ room. sys.random >>>= λ nonce.
      tss_session_open sys (session_osap + session_oiap) no_session (some usageauth) et_keyhandle
        keyhandle
      >>>= λ sess. send_stamp sess nonce.1 keyhandle antireplay digest >>>= λ tb. lift (
          tpm_buffer_load32 tb (data_offset + current_ticks_size) >>= λ size.
          check_reply sys (record { response = tb; nonceodd = nonce.1; sess = sess }) 0xf2
            (record { size = u32 (current_ticks_size + 4 + size); position = data_offset }
              ∷ end_range
              ∷ [])
          >>= λ ret. stamp_results tb wants_ticks signature)
