-- ===== src/Delegation.antt =====
-- The commands of swtpm-utils/lib/delegation.c. The file of
-- delegation blobs is a parameter: `add_blob` is TPM_AddDelegationBlob.
use tpm_luks.Common.{ℕ, ◌+◌, ◌==◌, if◌then◌else◌, String, List, [], ◌∷◌, Option, none, some}
use tpm_luks.Common.Memory.{Outcome, done, ◌>>=◌, read_at}
use tpm_luks.Common.Effects.{Call, ◌>>>=◌, lift, return, fail}
use tpm_luks.Bytes.{u32, swap32, is_error, err_null_arg, hash_size, data_offset}
use tpm_luks.Buffer.{TpmBuffer, stack_tpm_buffer, tpm_buffer_load32}
use tpm_luks.Build.{word, ptr, Arg}
use tpm_luks.Hmac.{Input}
use tpm_luks.Session.{Session, session_oiap, session_osap, session_dsap, tpm_create_enc_auth}
use tpm_luks.Session.Open.{
  System, exchange, request, tss_session_open, et_owner, et_srk, et_keyhandle, et_del_owner_blob,
  et_del_key_blob,
}
use tpm_luks.Serialize.Public.{DelegatePublic, tpm_write_delegate_public}
use tpm_luks.Command.{
  no_session, word_input, bytes_input, end_input, end_range, Reply, fresh_nonce, send_authorized,
  check_reply, room_for, copy_sized,
}

abbrev pub family_invalidate : ℕ
family_invalidate = 4

-- The length in front of a value, and the value.
abbrev pub counted : TpmBuffer → Option (List ℕ) → ℕ → Outcome (ℕ × Option (List ℕ))
counted tb buffer size =
    tpm_buffer_load32 tb data_offset >>= λ len. copy_sized tb (data_offset + 4) len buffer size

module _ {W : Type 0} (sys : System W) where
  -- A session of the owner and a request in it. The result of TSS_gennonce is not looked at, and
  -- the digest of the response is not checked.
  unfoldable pub unchecked_by_owner :
      Option (List ℕ) → ℕ → List Input → String → List Arg → Call W TpmBuffer
  unchecked_by_owner owner_auth ordinal inputs format args = sys.random >>>= λ nonce.
      tss_session_open sys (session_dsap + session_osap + session_oiap) no_session owner_auth
        et_owner 0
      >>>= λ sess. send_authorized sys sess nonce.1 ordinal inputs format args

  -- `op_data` is not NULL, or the family is to be invalidated.
  unfoldable pub delegate_manage :
      ℕ
      → ℕ
      → Option (List ℕ)
      → ℕ
      → Option (List ℕ)
      → Option (List ℕ)
      → ℕ
      → Call W (ℕ × Option (List ℕ))
  delegate_manage family_id op_flag op_data op_data_len none ret_data ret_data_len =
      request sys "00 c1 T l l l @" (
        word (swap32 0xd2)
        ∷ word (swap32 family_id)
        ∷ word (swap32 op_flag)
        ∷ word op_data_len
        ∷ ptr op_data
        ∷ [])
      >>>= λ tb. lift (counted tb ret_data ret_data_len)
  delegate_manage family_id op_flag op_data op_data_len (some owner_auth) ret_data ret_data_len =
      unchecked_by_owner (some owner_auth) 0xd2
        (word_input 0xd2
          ∷ word_input family_id
          ∷ word_input op_flag
          ∷ word_input op_data_len
          ∷ record { size = op_data_len; data_at = op_data }
          ∷ end_input
          ∷ [])
        "00 c2 T l l l @ L % o %"
        (word (swap32 family_id) ∷ word (swap32 op_flag) ∷ word op_data_len ∷ ptr op_data ∷ [])
      >>>= λ tb. lift (counted tb ret_data ret_data_len)

  unfoldable pub tpm_delegate_manage :
      ℕ
      → ℕ
      → Option (List ℕ)
      → ℕ
      → Option (List ℕ)
      → Option (List ℕ)
      → ℕ
      → Call W (ℕ × Option (List ℕ))
  tpm_delegate_manage family_id op_flag none op_data_len owner_auth ret_data ret_data_len =
      if op_flag == family_invalidate
      then delegate_manage family_id op_flag none op_data_len owner_auth ret_data ret_data_len
      else fail err_null_arg
  tpm_delegate_manage family_id op_flag (some bytes) op_data_len owner_auth ret_data ret_data_len =
      delegate_manage family_id op_flag (some bytes) op_data_len owner_auth ret_data ret_data_len

  -- A session of OSAP or DSAP, a secret encrypted in it, and a nonce, which leaves the session
  -- open when it fails.
  abbrev pub session_with_secret : List ℕ → ℕ → ℕ → List ℕ → Call W (Session × List ℕ × List ℕ)
  session_with_secret auth etype evalue secret =
      tss_session_open sys (session_osap + session_dsap) no_session (some auth) etype evalue
      >>>= λ sess. lift (tpm_create_enc_auth sys.aes sys.sha1 sess secret none) >>>= λ encauth.
          fresh_nonce sys >>>= λ nonceodd. return (sess, encauth, nonceodd)

  module _ (add_blob : ℕ → ℕ → List ℕ → List ℕ → List ℕ → ℕ → Call W ℕ) where
    -- The end of both creations: the check of the response, the copy, and the blob for the file.
    unfoldable pub keep_blob :
        Reply → ℕ → ℕ → ℕ → List ℕ → List ℕ → Option (List ℕ) → ℕ → Call W (ℕ × Option (List ℕ))
    keep_blob reply ordinal etype keyhandle auth secret blob blob_size =
        let tb = reply.response in
        lift (tpm_buffer_load32 tb data_offset) >>>= λ len.
        lift (
          check_reply sys reply ordinal
            (record { size = u32 (4 + len); position = data_offset } ∷ end_range ∷ []))
        >>>= λ ret. lift (copy_sized tb (data_offset + 4) len blob blob_size) >>>= λ copied.
            lift (read_at tb.buffer (data_offset + 4) len) >>>= λ bs.
            add_blob etype keyhandle auth secret bs len >>>= λ added. return copied

    -- Behind the checks of the arguments.
    unfoldable pub create_key_delegation :
        ℕ → DelegatePublic → List ℕ → List ℕ → Option (List ℕ) → ℕ → Call W (ℕ × Option (List ℕ))
    create_key_delegation keyhandle tdp blob_auth usage_auth blob blob_size =
        room_for sys keyhandle >>>= λ room.
        lift (tpm_write_delegate_public stack_tpm_buffer tdp) >>>= λ written.
        (if is_error written.0 then fail written.0 else return written.1) >>>= λ ser_tdp.
        session_with_secret usage_auth (if keyhandle == 0x40000000 then et_srk else et_keyhandle)
          keyhandle blob_auth
        >>>= λ opened.
            send_authorized sys opened.0 opened.2 0xd4
              (word_input 0xd4
                ∷ bytes_input ser_tdp.used ser_tdp.buffer
                ∷ bytes_input hash_size opened.1
                ∷ end_input
                ∷ [])
              "00 c2 T l l % % L % o %"
              (word (swap32 keyhandle)
                ∷ word ser_tdp.used
                ∷ ptr (some ser_tdp.buffer)
                ∷ word hash_size
                ∷ ptr (some opened.1)
                ∷ [])
            >>>= λ tb.
                keep_blob (record { response = tb; nonceodd = opened.2; sess = opened.0 }) 0xd4
                  et_del_key_blob keyhandle usage_auth opened.1 blob blob_size

    unfoldable pub tpm_delegate_create_key_delegation :
        ℕ
        → Option DelegatePublic
        → Option (List ℕ)
        → Option (List ℕ)
        → Option (List ℕ)
        → ℕ
        → Call W (ℕ × Option (List ℕ))
    tpm_delegate_create_key_delegation keyhandle (some tdp) (some blob_auth) (some usage_auth) blob
          blob_size =
        create_key_delegation keyhandle tdp blob_auth usage_auth blob blob_size
    tpm_delegate_create_key_delegation keyhandle _ _ _ blob blob_size = fail err_null_arg

    unfoldable pub create_owner_delegation :
        ℕ → DelegatePublic → List ℕ → List ℕ → Option (List ℕ) → ℕ → Call W (ℕ × Option (List ℕ))
    create_owner_delegation increment tdp blob_auth owner_auth blob blob_size =
        lift (tpm_write_delegate_public stack_tpm_buffer tdp) >>>= λ written.
        (if is_error written.0 then fail written.0 else return written.1) >>>= λ ser_tdp.
        session_with_secret owner_auth et_owner 0 blob_auth >>>= λ opened.
        send_authorized sys opened.0 opened.2 0xd5
          (word_input 0xd5
            ∷ bytes_input 1 (increment ∷ [])
            ∷ bytes_input ser_tdp.used ser_tdp.buffer
            ∷ bytes_input hash_size opened.1
            ∷ end_input
            ∷ [])
          "00 c2 T l o % % L % o %"
          (word increment
            ∷ word ser_tdp.used
            ∷ ptr (some ser_tdp.buffer)
            ∷ word hash_size
            ∷ ptr (some opened.1)
            ∷ [])
        >>>= λ tb.
            keep_blob (record { response = tb; nonceodd = opened.2; sess = opened.0 }) 0xd5
              et_del_owner_blob 0 owner_auth blob_auth blob blob_size

    unfoldable pub tpm_delegate_create_owner_delegation :
        ℕ
        → Option DelegatePublic
        → Option (List ℕ)
        → Option (List ℕ)
        → Option (List ℕ)
        → ℕ
        → Call W (ℕ × Option (List ℕ))
    tpm_delegate_create_owner_delegation increment (some tdp) (some blob_auth) (some owner_auth)
          blob blob_size =
        create_owner_delegation increment tdp blob_auth owner_auth blob blob_size
    tpm_delegate_create_owner_delegation increment _ _ _ blob blob_size = fail err_null_arg

  -- The encrypted secret is not sent.
  unfoldable pub tpm_delegate_load_owner_delegation :
      ℕ → Option (List ℕ) → Option (List ℕ) → ℕ → Call W ℕ
  tpm_delegate_load_owner_delegation index owner_auth none blob_size = fail err_null_arg
  tpm_delegate_load_owner_delegation index none (some blob) blob_size =
      exchange sys "00 c1 T l l @"
        (word (swap32 0xd8) ∷ word (swap32 index) ∷ word blob_size ∷ ptr (some blob) ∷ [])
      >>>= λ answer. return answer.0
  tpm_delegate_load_owner_delegation index (some owner_auth) (some blob) blob_size =
      session_with_secret owner_auth et_owner 0 owner_auth >>>= λ opened.
      send_authorized sys opened.0 opened.2 0xd8
        (word_input 0xd8
          ∷ word_input index
          ∷ word_input blob_size
          ∷ bytes_input blob_size blob
          ∷ end_input
          ∷ [])
        "00 c2 T l l @ L % o %" (word (swap32 index) ∷ word blob_size ∷ ptr (some blob) ∷ [])
      >>>= λ tb. lift (
          check_reply sys (record { response = tb; nonceodd = opened.2; sess = opened.0 }) 0xd8
            (end_range ∷ []))

  -- The sizes of both tables, and the tables.
  unfoldable pub tpm_delegate_read_table :
      Option (List ℕ)
      → ℕ
      → Option (List ℕ)
      → ℕ
      → Call W ((ℕ × Option (List ℕ)) × (ℕ × Option (List ℕ)))
  tpm_delegate_read_table family_table family_table_size delegate_table delegate_table_size =
      request sys "00 c1 T l" (word (swap32 0xdb) ∷ []) >>>= λ tb. lift (
        tpm_buffer_load32 tb data_offset >>= λ len1.
        tpm_buffer_load32 tb (u32 (data_offset + 4 + len1)) >>= λ len2.
        copy_sized tb (data_offset + 4) len1 family_table family_table_size >>= λ family.
        copy_sized tb (u32 (data_offset + 4 + len1 + 4)) len2 delegate_table delegate_table_size
        >>= λ delegate. done (family, delegate))

  unfoldable pub tpm_delegate_update_verification :
      Option (List ℕ) → ℕ → Option (List ℕ) → Option (List ℕ) → ℕ → Call W (ℕ × Option (List ℕ))
  tpm_delegate_update_verification none input_size owner_auth output output_size = fail err_null_arg
  tpm_delegate_update_verification (some input) input_size owner_auth output output_size =
      unchecked_by_owner owner_auth 0xd1
        (word_input 0xd1 ∷ word_input input_size ∷ bytes_input input_size input ∷ end_input ∷ [])
        "00 c2 T l @ L % o %" (word input_size ∷ ptr (some input) ∷ [])
      >>>= λ tb. lift (counted tb output output_size)

  unfoldable pub tpm_delegate_verify_delegation : List ℕ → ℕ → Call W ℕ
  tpm_delegate_verify_delegation delegation delegation_len =
      exchange sys "00 c1 T l @"
        (word (swap32 0xd6) ∷ word delegation_len ∷ ptr (some delegation) ∷ [])
      >>>= λ answer. return answer.0
