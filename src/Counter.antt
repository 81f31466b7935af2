-- ===== src/Counter.antt =====
-- swtpm-utils/lib/counter.c: creating, incrementing, reading and releasing monotonic counters.
use tpm_luks.Common.{ℕ, ◌+◌, ◌==◌, if◌then◌else◌, Bool}
use tpm_luks.Common.{List, [], ◌∷◌, Option, none, some}
use tpm_luks.Common.Memory.{Outcome, done, ◌>>=◌, read_at}
use tpm_luks.Common.Effects.{Call, ◌>>>=◌, lift, return, fail}
use tpm_luks.Bytes.{be32, swap32, err_null_arg, hash_size, data_offset}
use tpm_luks.Buffer.{TpmBuffer, stack_tpm_buffer, tpm_buffer_load32}
use tpm_luks.Build.{word, ptr, tss_buildbuff}
use tpm_luks.Common.{codes}
use tpm_luks.Hmac.{Input, Range, tss_authhmac}
use tpm_luks.Session.{
  deref, tss_session_get_auth, tss_session_get_enonce, session_oiap, session_osap, session_dsap,
  tpm_create_enc_auth,
}
use tpm_luks.Session.Open.{System, request, tss_session_open, tss_session_close, et_owner, et_srk}
use tpm_luks.Transmit.{tpm_transmit}
use tpm_luks.Command.{
  no_session, word_input, bytes_input, end_input, end_range, auth_args, finally, fresh_nonce,
  send_authorized, authorized, check_reply, room_for, code_after,
}

abbrev pub et_counter : ℕ
et_counter = 10

abbrev pub counter_value_size : ℕ
counter_value_size = 10

abbrev pub counter_inputs : ℕ → ℕ → List Input
counter_inputs ordinal countid = word_input ordinal ∷ word_input countid ∷ end_input ∷ []

abbrev pub counter_range : ℕ → Range
counter_range n = record { size = n; position = data_offset }

module _ {W : Type 0} (sys : System W) where
  -- What the response holds, when the caller asked for it.
  abbrev pub counter_results : Bool → Bool → TpmBuffer → Outcome (Option ℕ × Option (List ℕ))
  counter_results want_id want_value tb =
      (if want_id then (tpm_buffer_load32 tb data_offset >>= λ v. done (some v)) else done none)
      >>= λ id.
          (if want_value
            then (read_at tb.buffer (data_offset + 4) counter_value_size >>= λ bs. done (some bs))
            else done none)
          >>= λ value. done (id, value)

  -- Behind the checks of the arguments. The session is open when the nonce fails.
  unfoldable pub create_counter :
      ℕ → List ℕ → ℕ → List ℕ → Bool → Bool → Call W (Option ℕ × Option (List ℕ))
  create_counter keyhandle ownauth label counterauth want_id want_value =
      let keytype = if keyhandle == 0x40000000 then et_srk else et_owner in
      room_for sys keyhandle >>>= λ room.
      tss_session_open sys (session_dsap + session_osap) no_session (some ownauth) keytype keyhandle
      >>>= λ sess. lift (tpm_create_enc_auth sys.aes sys.sha1 sess counterauth none) >>>= λ encauth.
          fresh_nonce sys >>>= λ nonceodd.
          send_authorized sys sess nonceodd 0xdc
            (word_input 0xdc ∷ bytes_input hash_size encauth ∷ word_input label ∷ end_input ∷ [])
            "00 c2 T l % % L % o %"
            (word hash_size ∷ ptr (some encauth) ∷ word 4 ∷ ptr (some (be32 label)) ∷ [])
          >>>= λ tb. lift (
              check_reply sys (record { response = tb; nonceodd = nonceodd; sess = sess }) 0xdc
                (counter_range (4 + counter_value_size) ∷ end_range ∷ [])
              >>= λ ret. counter_results want_id want_value tb)

  unfoldable pub tpm_create_counter :
      ℕ → Option (List ℕ) → ℕ → Option (List ℕ) → Bool → Bool → Call W (Option ℕ × Option (List ℕ))
  tpm_create_counter keyhandle (some ownauth) label (some counterauth) want_id want_value =
      create_counter keyhandle ownauth label counterauth want_id want_value
  tpm_create_counter keyhandle _ label _ want_id want_value = fail err_null_arg

  -- The result of TSS_buildbuff is not looked at, and the value is copied before the code of the
  -- check is: both are returned.
  unfoldable pub increment_counter : ℕ → List ℕ → Call W (ℕ × List ℕ)
  increment_counter countid counterauth = fresh_nonce sys >>>= λ nonceodd.
      tss_session_open sys (session_oiap + session_osap) no_session (some counterauth) et_counter
        countid
      >>>= λ sess.
          let sent =
            lift (
              deref (tss_session_get_auth sess) >>= λ key.
              tss_authhmac sys.sha1 sys.hmac key hash_size (tss_session_get_enonce sess)
                (some nonceodd) 0 (counter_inputs 0xdd countid))
            >>>= λ authdata.
                lift (
                  tss_buildbuff (codes "00 c2 T l l L % o %") stack_tpm_buffer
                    (word (swap32 0xdd) ∷ word (swap32 countid) ∷ auth_args sess nonceodd authdata))
                >>>= λ built. tpm_transmit sys.transport sys.settings built.1 >>>= λ answer.
                    if answer.0 == 0 then return answer.1 else fail answer.0 in
          finally sent (tss_session_close sys sess) >>>= λ tb. lift (
            code_after (
              check_reply sys (record { response = tb; nonceodd = nonceodd; sess = sess }) 0xdd
                (counter_range counter_value_size ∷ end_range ∷ []))
            >>= λ ret. read_at tb.buffer data_offset counter_value_size >>= λ bs. done (ret, bs))

  -- `wanted` says whether the caller's buffer is not NULL.
  unfoldable pub tpm_increment_counter : ℕ → Option (List ℕ) → Bool → Call W (ℕ × List ℕ)
  tpm_increment_counter countid none wanted = fail err_null_arg
  tpm_increment_counter countid (some counterauth) wanted =
      if wanted then increment_counter countid counterauth else fail err_null_arg

  unfoldable pub tpm_read_counter : ℕ → Bool → Call W (List ℕ)
  tpm_read_counter countid wanted =
      if wanted
      then (request sys "00 c1 T l l" (word (swap32 0xde) ∷ word (swap32 countid) ∷ []) >>>= λ tb.
          lift (read_at tb.buffer data_offset counter_value_size))
      else fail err_null_arg

  -- A release, under the password of the counter or of the owner.
  unfoldable pub release_counter : ℕ → List ℕ → ℕ → ℕ → ℕ → ℕ → Call W ℕ
  release_counter allowed auth etype evalue ordinal countid =
      authorized sys allowed auth etype evalue ordinal (counter_inputs ordinal countid)
        "00 c2 T l l L % o %" (word (swap32 countid) ∷ [])
      >>>= λ reply. lift (check_reply sys reply ordinal (end_range ∷ []))

  unfoldable pub tpm_release_counter : ℕ → Option (List ℕ) → Call W ℕ
  tpm_release_counter countid none = fail err_null_arg
  tpm_release_counter countid (some counterauth) =
      release_counter (session_oiap + session_osap) counterauth et_counter countid 0xdf countid

  unfoldable pub tpm_release_counter_owner : ℕ → Option (List ℕ) → Call W ℕ
  tpm_release_counter_owner countid none = fail err_null_arg
  tpm_release_counter_owner countid (some ownerauth) =
      release_counter (session_dsap + session_osap + session_oiap) ownerauth et_owner 0 0xe0 countid
