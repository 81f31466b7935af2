-- ===== src/Seal.antt =====
-- Sealing and unsealing (TPM_Seal and TPM_Unseal of swtpm-utils/lib/seal.c), TPM_UnBind of bind.c
-- and TPM_Sign of signature.c. A result is the size and the caller's buffer with the bytes of the
-- response; no function is told how large that buffer is. What a failed call leaves in
-- `*datalen` is not kept.
pub mod Closing
pub mod Covers
pub mod Layout
pub mod Request
use tpm_luks.Common.{
  ℕ, ◌+◌, ◌==◌, if◌then◌else◌, List, [], ◌∷◌, ◌++◌, Option, none, some, replicate,
}
use tpm_luks.Common.Memory.{Outcome, done, ◌>>=◌, read_at, write_at}
use tpm_luks.Common.Effects.{Call, ◌>>>=◌, lift, return, fail}
use tpm_luks.Bytes.{u32, swap32, err_null_arg, err_mem_err, hash_size, data_offset}
use tpm_luks.Buffer.{TpmBuffer, tpm_buffer_load32}
use tpm_luks.Build.{Arg, word, ptr}
use tpm_luks.Hmac.{Input}
use tpm_luks.Session.{Session, session_oiap, session_osap, session_dsap, tpm_create_enc_auth}
use tpm_luks.Session.Open.{
  System, request, tss_session_open, tss_session_close, et_srk, et_keyhandle,
}
use tpm_luks.Serialize.Signed.{tss_alloc_tpm_buffer}
use tpm_luks.Command.{
  no_session, word_input, bytes_input, end_input, end_range, or_close, room_for, check_reply,
  send_authorized, send_authorized_from, send_in_both, check_both, sized_ranges, sized_result,
}

-- The password, or twenty bytes 0.
abbrev pub or_dummy : Option (List ℕ) → List ℕ
or_dummy none = replicate hash_size 0
or_dummy (some auth) = auth

abbrev pub key_type : ℕ → ℕ
key_type keyhandle = if keyhandle == 0x40000000 then et_srk else et_keyhandle

-- What the digest of a seal covers.
unfoldable pub seal_inputs : List ℕ → Option (List ℕ) → ℕ → List ℕ → ℕ → List Input
seal_inputs encauth pcrinfo pcrinfosize bytes datalen =
    word_input 0x17
    ∷ bytes_input hash_size encauth
    ∷ word_input pcrinfosize
    ∷ ((if pcrinfosize == 0 then [] else record { size = pcrinfosize; data_at = pcrinfo } ∷ [])
        ++ (word_input datalen ∷ bytes_input datalen bytes ∷ end_input ∷ []))

-- What the request of a seal carries behind its ordinal.
unfoldable pub seal_args : ℕ → List ℕ → Option (List ℕ) → ℕ → List ℕ → ℕ → List Arg
seal_args keyhandle encauth pcrinfo pcrinfosize bytes datalen =
    word (swap32 keyhandle)
    ∷ word hash_size
    ∷ ptr (some encauth)
    ∷ word pcrinfosize
    ∷ ptr pcrinfo
    ∷ word datalen
    ∷ ptr (some bytes)
    ∷ []

-- The size of the sealed blob in a response: both of its parts have their length in front.
unfoldable pub stored_size : TpmBuffer → Outcome ℕ
stored_size tb = tpm_buffer_load32 tb (data_offset + 4) >>= λ sealinfosize.
    tpm_buffer_load32 tb (u32 (data_offset + 4 + 4 + sealinfosize)) >>= λ encdatasize.
    done (u32 (4 + 4 + sealinfosize + 4 + encdatasize))

module _ {W : Type 0} (sys : System W) where
  -- What a seal does with the response: the size of the blob, the check, and the copy.
  unfoldable pub sealed_blob : Session → List ℕ → List ℕ → TpmBuffer → Outcome (ℕ × List ℕ)
  sealed_blob sess nonceodd blob tb = stored_size tb >>= λ storedsize.
      check_reply sys (record { response = tb; nonceodd = nonceodd; sess = sess }) 0x17
        (record { size = storedsize; position = data_offset } ∷ end_range ∷ [])
      >>= λ ret. read_at tb.buffer data_offset storedsize >>= λ bs.
          write_at blob 0 bs >>= λ blob. done (storedsize, blob)

  -- Behind the checks of the arguments.
  unfoldable pub seal :
      TpmBuffer
      → ℕ
      → Option (List ℕ)
      → ℕ
      → List ℕ
      → List ℕ
      → List ℕ
      → ℕ
      → List ℕ
      → Call W (ℕ × List ℕ)
  seal tpmdata keyhandle pcrinfo pcrinfosize keyauth dataauth bytes datalen blob =
      tss_session_open sys (session_osap + session_dsap) no_session (some keyauth)
        (key_type keyhandle) keyhandle
      >>>= λ sess. lift (tpm_create_enc_auth sys.aes sys.sha1 sess dataauth none) >>>= λ encauth.
          sys.random >>>= λ nonce.
          send_authorized_from sys tpmdata sess nonce.1 0x17
            (seal_inputs encauth pcrinfo pcrinfosize bytes datalen) "00 C2 T l l % @ @ L % o %"
            (seal_args keyhandle encauth pcrinfo pcrinfosize bytes datalen)
          >>>= λ tb. lift (sealed_blob sess nonce.1 blob tb)

  -- `memory` is what malloc gives for a size.
  unfoldable pub tpm_seal :
      (ℕ → Option (List ℕ))
      → ℕ
      → Option (List ℕ)
      → ℕ
      → Option (List ℕ)
      → Option (List ℕ)
      → Option (List ℕ)
      → ℕ
      → Option (List ℕ)
      → Call W (ℕ × List ℕ)
  tpm_seal memory keyhandle pcrinfo pcrinfosize keyauth dataauth bytes datalen blob =
      allocated (tss_alloc_tpm_buffer memory 0)
    where
      with_info : TpmBuffer → List ℕ → List ℕ → Option (List ℕ) → Call W (ℕ × List ℕ)
      with_info tpmdata bytes blob none =
          if pcrinfosize == 0
          then seal tpmdata keyhandle none pcrinfosize (or_dummy keyauth) (or_dummy dataauth) bytes
              datalen blob
          else fail err_null_arg
      with_info tpmdata bytes blob (some info) =
          seal tpmdata keyhandle (some info) pcrinfosize (or_dummy keyauth) (or_dummy dataauth)
            bytes datalen blob

      with_data : TpmBuffer → Option (List ℕ) → Option (List ℕ) → Call W (ℕ × List ℕ)
      with_data tpmdata (some bytes) (some blob) = with_info tpmdata bytes blob pcrinfo
      with_data tpmdata _ _ = fail err_null_arg

      allocated : Option TpmBuffer → Call W (ℕ × List ℕ)
      allocated none = fail err_mem_err
      allocated (some tpmdata) = room_for sys keyhandle >>>= λ room. with_data tpmdata bytes blob

  abbrev pub unseal_inputs : List ℕ → ℕ → List Input
  unseal_inputs blob bloblen = word_input 0x18 ∷ bytes_input bloblen blob ∷ end_input ∷ []

  -- With the password of the key, two sessions; without it, one for the data.
  unfoldable pub unseal :
      List ℕ → ℕ → Option (List ℕ) → List ℕ → List ℕ → ℕ → List ℕ → Call W (ℕ × List ℕ)
  unseal nonceodd keyhandle (some keyauth) dataauth blob bloblen rawdata = sys.random >>>= λ nonce2.
      tss_session_open sys (session_osap + session_dsap) no_session (some keyauth) et_keyhandle
        keyhandle
      >>>= λ sess.
          or_close (tss_session_open sys session_oiap no_session (some dataauth) 0 0)
            (tss_session_close sys sess)
          >>>= λ sess2.
              send_in_both sys sess sess2 nonceodd nonce2.1 0x18 (unseal_inputs blob bloblen)
                "00 C3 T l l % L % o % L % o %"
                (word (swap32 keyhandle) ∷ word bloblen ∷ ptr (some blob) ∷ [])
              >>>= λ tb. lift (
                  tpm_buffer_load32 tb data_offset >>= λ datalen.
                  check_both sys tb sess sess2 nonceodd nonce2.1 0x18 (sized_ranges datalen)
                  >>= λ ret. sized_result tb rawdata)
  unseal nonceodd keyhandle none dataauth blob bloblen rawdata =
      tss_session_open sys session_oiap no_session (some dataauth) 0 0 >>>= λ sess.
      send_authorized sys sess nonceodd 0x18 (unseal_inputs blob bloblen) "00 C2 T l l % L % o %"
        (word (swap32 keyhandle) ∷ word bloblen ∷ ptr (some blob) ∷ [])
      >>>= λ tb. lift (
          tpm_buffer_load32 tb data_offset >>= λ datalen.
          check_reply sys (record { response = tb; nonceodd = nonceodd; sess = sess }) 0x18
            (sized_ranges datalen)
          >>= λ ret. sized_result tb rawdata)

  -- The nonce is made before the arguments are looked at, and its result is not looked at.
  unfoldable pub tpm_unseal :
      ℕ
      → Option (List ℕ)
      → Option (List ℕ)
      → Option (List ℕ)
      → ℕ
      → Option (List ℕ)
      → Call W (ℕ × List ℕ)
  tpm_unseal keyhandle keyauth dataauth blob bloblen rawdata =
      room_for sys keyhandle >>>= λ room. sys.random >>>= λ nonce. with_buffers nonce.1 blob rawdata
    where
      with_buffers : List ℕ → Option (List ℕ) → Option (List ℕ) → Call W (ℕ × List ℕ)
      with_buffers nonceodd (some blob) (some rawdata) =
          unseal nonceodd keyhandle keyauth (or_dummy dataauth) blob bloblen rawdata
      with_buffers nonceodd _ _ = fail err_null_arg

  -- What TPM_UnBind and TPM_Sign have in common: with a password, a session of an allowed type
  -- and a nonce; without one, the bare request.
  unfoldable pub with_key :
      ℕ → ℕ → ℕ → ℕ → Call W (List ℕ) → Option (List ℕ) → List ℕ → ℕ → List ℕ → Call W (ℕ × List ℕ)
  with_key ordinal allowed etype keyhandle nonce none bytes datalen buffer =
      request sys "00 C1 T l l @"
        (word (swap32 ordinal) ∷ word (swap32 keyhandle) ∷ word datalen ∷ ptr (some bytes) ∷ [])
      >>>= λ tb. lift (sized_result tb buffer)
  with_key ordinal allowed etype keyhandle nonce (some keyauth) bytes datalen buffer =
      tss_session_open sys allowed no_session (some keyauth) etype keyhandle >>>= λ sess.
      nonce >>>= λ nonceodd.
      send_authorized sys sess nonceodd ordinal
        (word_input ordinal ∷ word_input datalen ∷ bytes_input datalen bytes ∷ end_input ∷ [])
        "00 C2 T l l @ L % o %" (word (swap32 keyhandle) ∷ word datalen ∷ ptr (some bytes) ∷ [])
      >>>= λ tb. lift (
          tpm_buffer_load32 tb data_offset >>= λ size.
          check_reply sys (record { response = tb; nonceodd = nonceodd; sess = sess }) ordinal
            (sized_ranges size)
          >>= λ ret. sized_result tb buffer)

  unfoldable pub tpm_unbind :
      ℕ → Option (List ℕ) → Option (List ℕ) → ℕ → Option (List ℕ) → Call W (ℕ × List ℕ)
  tpm_unbind keyhandle keyauth (some bytes) datalen (some blob) =
      room_for sys keyhandle >>>= λ room.
      with_key 0x1e (session_osap + session_dsap) (key_type keyhandle) keyhandle
        (sys.random >>>= λ nonce. return nonce.1) keyauth bytes datalen blob
  tpm_unbind keyhandle keyauth _ datalen _ = fail err_null_arg

  -- The nonce is the digest of the bytes to sign, a value that is made before the session is
  -- opened, which only matters where the bytes cannot be read.
  unfoldable pub tpm_sign :
      ℕ → Option (List ℕ) → Option (List ℕ) → ℕ → Option (List ℕ) → Call W (ℕ × List ℕ)
  tpm_sign keyhandle keyauth (some bytes) datalen (some sig) = room_for sys keyhandle >>>= λ room.
      with_key 0x3c (session_osap + session_oiap + session_dsap) et_keyhandle keyhandle
        (lift (read_at bytes 0 datalen) >>>= λ bs. return (sys.sha1 bs)) keyauth bytes datalen sig
  tpm_sign keyhandle keyauth _ datalen _ = fail err_null_arg
