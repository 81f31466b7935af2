-- ===== src/Command.antt =====
-- What the authorized commands of swtpm-utils/lib have in common, as nv.c and counter.c have it: a
-- nonce, a session, the digest of the inputs, the request, the close of the session, and the check
-- of the response.
pub mod Closing
use tpm_luks.Common.{
  ℕ, ◌+◌, ◌==◌, if◌then◌else◌, Bool, true, false, ◌&&◌, not, codes, drop, min, replicate,
}
use tpm_luks.Common.{List, [], ◌∷◌, ◌++◌, length, Option, none, some, String}
use tpm_luks.Common.Memory.{Outcome, done, failed, fault, ◌>>=◌, read_at, write_at}
use tpm_luks.Common.Effects.{Call, ◌>>>=◌, continue_with, lift, return, fail}
use tpm_luks.Bytes.{
  u32, be32, swap32, err_null_arg, err_crypt_err, hash_size, nonce_size, data_offset, err_bad_resp,
  is_error,
}
use tpm_luks.Buffer.{TpmBuffer, stack_tpm_buffer, set_tpm_buffer, tpm_buffer_load32}
use tpm_luks.Build.{Arg, word, ptr, tss_buildbuff}
use tpm_luks.Hmac.{Input, Range, tss_authhmac, tss_checkhmac1, tss_checkhmac2}
use tpm_luks.Session.{
  Session, deref, tss_session_get_auth, tss_session_get_enonce, tss_session_get_handle,
  session_oiap, session_osap, tpm_create_enc_auth,
}
use tpm_luks.Transmit.{tpm_transmit}
use tpm_luks.Session.Open.{
  System, exchange, request, tss_session_open, tss_session_close, et_owner, et_nv,
}

-- A local `session sess` before it is opened.
abbrev pub no_session : Session
no_session = record {
  sess_type = 0;
  handle = 0;
  enonce = [];
  enonce_sap = [];
  ononce_sap = [];
  ssecret = [];
  etype = 0;
  authdata = [];
}

abbrev pub word_input : ℕ → Input
word_input v = record { size = 4; data_at = some (be32 v) }

abbrev pub bytes_input : ℕ → List ℕ → Input
bytes_input n bs = record { size = n; data_at = some bs }

abbrev pub end_input : Input
end_input = record { size = 0; data_at = none }

abbrev pub end_range : Range
end_range = record { size = 0; position = 0 }

abbrev pub close_after : {W A : Type 0} → Outcome A → Call W ℕ → Call W A
close_after (done a) close = close >>>= λ ret. return a
close_after (failed e) close = close >>>= λ ret. fail e
close_after fault close = lift fault

-- `close` follows `m`, whether it fails or not.
abbrev pub finally : {W A : Type 0} → Call W A → Call W ℕ → Call W A
finally m close w = close_after (m w).1 close (m w).0

abbrev pub close_unless_done : {W A : Type 0} → Outcome A → Call W ℕ → Call W A
close_unless_done (done a) close = return a
close_unless_done (failed e) close = close >>>= λ ret. fail e
close_unless_done fault close = lift fault

-- `close` follows `m` if it fails.
abbrev pub or_close : {W A : Type 0} → Call W A → Call W ℕ → Call W A
or_close m close w = close_unless_done (m w).1 close (m w).0

-- The response of an authorized command, with what its check needs.
pub record Reply : Type 0 where
  pub response : TpmBuffer
  pub nonceodd : List ℕ
  pub sess : Session

-- The last arguments of an authorized request.
abbrev pub auth_args : Session → List ℕ → List ℕ → List Arg
auth_args sess nonceodd authdata =
    word (tss_session_get_handle sess)
    ∷ word nonce_size
    ∷ ptr (some nonceodd)
    ∷ word 0
    ∷ word hash_size
    ∷ ptr (some authdata)
    ∷ []

-- A check that failed, as the code that the caller gets with what was copied before it.
abbrev pub code_after : Outcome ℕ → Outcome ℕ
code_after (failed e) = done e
code_after o = o

-- What most commands do with a value behind its length: at most `size` bytes are copied, and the
-- new value of the size and the buffer are returned.
unfoldable pub copy_sized : TpmBuffer → ℕ → ℕ → Option (List ℕ) → ℕ → Outcome (ℕ × Option (List ℕ))
copy_sized tb position len none size = done (size, none)
copy_sized tb position len (some bytes) size = read_at tb.buffer position (min size len) >>= λ bs.
    write_at bytes 0 bs >>= λ bytes. done (min size len, some bytes)

-- A length, and as many of the bytes behind it as the caller's buffer holds.
unfoldable pub copy_buffer : TpmBuffer → ℕ → Option TpmBuffer → Outcome (Option TpmBuffer)
copy_buffer tb position none = tpm_buffer_load32 tb position >>= λ size. done none
copy_buffer tb position (some target) = tpm_buffer_load32 tb position >>= λ size.
    set_tpm_buffer target (drop (position + 4) tb.buffer) size >>= λ target. done (some target)

-- The length behind the header of a response, and the bytes behind it, as many as the length says.
unfoldable pub sized_result : TpmBuffer → List ℕ → Outcome (ℕ × List ℕ)
sized_result tb buffer = tpm_buffer_load32 tb data_offset >>= λ size.
    read_at tb.buffer (data_offset + 4) size >>= λ bs.
    write_at buffer 0 bs >>= λ buffer. done (size, buffer)

-- What is checked of such a response.
abbrev pub sized_ranges : ℕ → List Range
sized_ranges size =
    record { size = 4; position = data_offset }
    ∷ record { size = size; position = data_offset + 4 }
    ∷ end_range
    ∷ []

-- TSS_buildbuff, whose error codes are failures.
unfoldable pub built_request : TpmBuffer → List ℕ → List Arg → Outcome TpmBuffer
built_request tpmdata format args = tss_buildbuff format tpmdata args >>= λ built.
    if is_error built.0 then failed built.0 else done built.1

module _ {W : Type 0} (sys : System W) where
  -- TSS_gennonce, whose failure is ERR_CRYPT_ERR.
  unfoldable pub fresh_nonce : Call W (List ℕ)
  fresh_nonce = sys.random >>>= λ nonce. if nonce.0 == 0 then fail err_crypt_err else return nonce.1

  abbrev pub digest_in : Session → List ℕ → List Input → Outcome (List ℕ)
  digest_in sess nonceodd inputs = deref (tss_session_get_auth sess) >>= λ key.
      tss_authhmac sys.sha1 sys.hmac key hash_size (tss_session_get_enonce sess) (some nonceodd) 0
        inputs

  -- The request is sent, the session closed, and the code that was returned is tested.
  unfoldable pub transmit_and_close : Session → TpmBuffer → Call W TpmBuffer
  transmit_and_close sess tpmdata =
      finally (tpm_transmit sys.transport sys.settings tpmdata) (tss_session_close sys sess)
      >>>= λ answer. if answer.0 == 0 then return answer.1 else fail answer.0

  -- The digest of the inputs, and the request with the digest behind its arguments, in an open
  -- session. The session is closed in three places: when the digest fails, when the request is not
  -- built, and behind the transmission.
  unfoldable pub send_authorized_from :
      TpmBuffer → Session → List ℕ → ℕ → List Input → String → List Arg → Call W TpmBuffer
  send_authorized_from tpmdata sess nonceodd ordinal inputs format args =
      let close = tss_session_close sys sess in
      or_close (lift (digest_in sess nonceodd inputs)) close >>>= λ authdata.
      or_close
        (lift (
          built_request tpmdata (codes format)
            (word (swap32 ordinal) ∷ (args ++ auth_args sess nonceodd authdata))))
        close
      >>>= λ tpmdata. transmit_and_close sess tpmdata

  -- The same with a request in a stack buffer.
  unfoldable pub send_authorized :
      Session → List ℕ → ℕ → List Input → String → List Arg → Call W TpmBuffer
  send_authorized = send_authorized_from stack_tpm_buffer

  -- What the authorized readers and writers have in common: the nonce, the session, the request.
  unfoldable pub authorized : ℕ → List ℕ → ℕ → ℕ → ℕ → List Input → String → List Arg → Call W Reply
  authorized allowed auth etype evalue ordinal inputs format args = fresh_nonce >>>= λ nonceodd.
      tss_session_open sys allowed no_session (some auth) etype evalue >>>= λ sess.
      send_authorized sess nonceodd ordinal inputs format args >>>= λ tb.
      return (record { response = tb; nonceodd = nonceodd; sess = sess })

  -- TSS_checkhmac1 on the reply.
  unfoldable pub check_reply : Reply → ℕ → List Range → Outcome ℕ
  check_reply reply ordinal ranges = deref (tss_session_get_auth reply.sess) >>= λ key.
      tss_checkhmac1 sys.sha1 sys.hmac reply.response (swap32 ordinal) reply.nonceodd key hash_size
        ranges

  -- The same where the session is opened before the nonce is made, which then leaves it open when
  -- it fails.
  unfoldable pub authorized_session_first :
      ℕ → List ℕ → ℕ → ℕ → ℕ → List Input → String → List Arg → Call W Reply
  authorized_session_first allowed auth etype evalue ordinal inputs format args =
      tss_session_open sys allowed no_session (some auth) etype evalue >>>= λ sess.
      fresh_nonce >>>= λ nonceodd.
      send_authorized sess nonceodd ordinal inputs format args >>>= λ tb.
      return (record { response = tb; nonceodd = nonceodd; sess = sess })

  -- The request is sent whatever TSS_buildbuff returned.
  unfoldable pub send_unchecked : String → List Arg → Call W (ℕ × TpmBuffer)
  send_unchecked format args =
      lift (tss_buildbuff (codes format) stack_tpm_buffer args) >>>= λ built.
      tpm_transmit sys.transport sys.settings built.1

  -- A command whose response has no bytes behind its header.
  unfoldable pub bare_command : String → List Arg → Call W ℕ
  bare_command format args = exchange sys format args >>>= λ answer.
      return (if answer.0 == 0 && not ((answer.1).used == 10) then err_bad_resp else answer.0)

  -- `needKeysRoom`, whose code other than 0 ends the command.
  abbrev pub room_for : ℕ → Call W ℕ
  room_for keyhandle =
      sys.keys_room keyhandle >>>= λ room. if room == 0 then return room else fail room

  -- A request that two sessions authorize, which are both closed whatever happens.
  unfoldable pub send_in_both :
      Session → Session → List ℕ → List ℕ → ℕ → List Input → String → List Arg → Call W TpmBuffer
  send_in_both sess sess2 nonceodd nonceodd2 ordinal inputs format args =
      let sent = lift (digest_in sess nonceodd inputs) >>>= λ authdata1.
      lift (digest_in sess2 nonceodd2 inputs) >>>= λ authdata2. request sys format (
        word (swap32 ordinal)
        ∷ (args ++ auth_args sess nonceodd authdata1 ++ auth_args sess2 nonceodd2 authdata2)) in
      finally sent (tss_session_close sys sess >>>= λ ret. tss_session_close sys sess2)

  -- TSS_checkhmac2 on the response to it.
  unfoldable pub check_both :
      TpmBuffer → Session → Session → List ℕ → List ℕ → ℕ → List Range → Outcome ℕ
  check_both tb sess sess2 nonceodd nonceodd2 ordinal ranges =
      deref (tss_session_get_auth sess) >>= λ key1. deref (tss_session_get_auth sess2) >>= λ key2.
      tss_checkhmac2 sys.sha1 sys.hmac tb (swap32 ordinal) nonceodd key1 hash_size nonceodd2 key2
        hash_size ranges
