-- ===== src/Session/Open.antt =====
-- Opening and closing sessions: swtpm-utils/lib/oiaposap.c, and TPM_FlushSpecific of eviction.c.
-- Every request is built by TSS_buildbuff in a new stack buffer and sent by TPM_Transmit. What a
-- failed call leaves in the caller's session record is not kept.
use tpm_luks.Common.{
  ℕ, ◌+◌, ◌-◌, ◌^◌, leb, ◌==◌, if◌then◌else◌, ◌||◌, ◌&&◌, not, Bool, true, false, bit_and, bit_or,
}
use tpm_luks.Common.{List, [], ◌∷◌, map, length, Option, none, some, String, codes}
use tpm_luks.Common.Memory.{Outcome, done, ◌>>=◌, read_at}
use tpm_luks.Common.Effects.{Call, ◌>>>=◌, lift, return, fail}
use tpm_luks.Bytes.{be32, swap32, is_error, err_bad_arg, hash_size, nonce_size, data_offset}
use tpm_luks.Buffer.{TpmBuffer, stack_tpm_buffer, tpm_buffer_load32}
use tpm_luks.Build.{Arg, word, ptr, tss_buildbuff}
use tpm_luks.Hmac.{Input, same_bytes, tss_rawhmac}
use tpm_luks.Session.{Session, is_kind, deref, session_oiap, session_osap, session_dsap}
use tpm_luks.Transmit.{Transport, Settings, tpm_transmit}

-- The functions and the environment that the library calls on. `random` is RAND_bytes for 20
-- bytes, `delegation` the search of a delegation blob in the file system, `keys_room` the
-- eviction of keys before an OSAP session on a key.
pub record System (W : Type 0) : Type 0 where
  pub transport : Transport W
  pub settings : Settings
  pub random : Call W (ℕ × List ℕ)
  pub sha1 : List ℕ → List ℕ
  pub hmac : List ℕ → List ℕ → List ℕ
  pub aes : List ℕ → List ℕ → List ℕ
  pub delegation : ℕ → ℕ → List ℕ → Call W (ℕ × List ℕ)
  pub keys_room : ℕ → Call W ℕ
  pub tpm_version : Option (List ℕ)
  pub tpm_session : Option (List ℕ)
  pub encrypt_aes : Option (List ℕ)

abbrev pub et_keyhandle : ℕ
et_keyhandle = 1

abbrev pub et_owner : ℕ
et_owner = 2

abbrev pub et_srk : ℕ
et_srk = 4

abbrev pub et_key : ℕ
et_key = 5

abbrev pub et_del_owner_blob : ℕ
et_del_owner_blob = 7

abbrev pub et_del_row : ℕ
et_del_row = 8

abbrev pub et_del_key_blob : ℕ
et_del_key_blob = 9

abbrev pub et_nv : ℕ
et_nv = 11

abbrev pub rt_auth : ℕ
rt_auth = 2

abbrev pub bad_ordinal : ℕ
bad_ordinal = 10

abbrev pub bad_mode : ℕ
bad_mode = 44

abbrev pub lower : ℕ → ℕ
lower c = if leb b'A' c && leb c b'Z' then c + 32 else c

-- Whether an environment variable has a value, and whether it has it in any case.
abbrev pub is_set_to : String → Option (List ℕ) → Bool
is_set_to s none = false
is_set_to s (some v) = same_bytes v (codes s)

abbrev pub is_set_to_any_case : String → Option (List ℕ) → Bool
is_set_to_any_case s none = false
is_set_to_any_case s (some v) = same_bytes (map lower v) (codes s)

abbrev pub is_unset : Option (List ℕ) → Bool
is_unset none = true
is_unset (some v) = false

-- The session type that TPM_SESSION asks for.
abbrev pub wanted : Option (List ℕ) → ℕ
wanted v =
    if is_set_to_any_case "dsap" v
    then session_dsap
    else if is_set_to_any_case "osap" v
    then session_osap
    else session_oiap

-- `have` for a password: the wanted type if it is allowed, or else what is allowed but DSAP.
unfoldable pub session_choice : ℕ → Option (List ℕ) → ℕ
session_choice allowed v =
    let have = bit_and (wanted v) allowed in
    if have == 0 then bit_and allowed (2 ^ 32 - 1 - session_dsap) else have

-- `etype |= TPM_ET_AES128_CTR << 8` when TPM_ET_ENCRYPT_AES is "1".
abbrev pub with_encryption : Option (List ℕ) → ℕ → ℕ
with_encryption v etype = if is_set_to "1" v then bit_or etype 0x600 else etype

-- The nonces that both of OSAP and DSAP read from their response.
abbrev pub read_nonces : TpmBuffer → Outcome (ℕ × List ℕ × List ℕ)
read_nonces tb = tpm_buffer_load32 tb data_offset >>= λ handle.
    read_at tb.buffer (data_offset + 4) nonce_size >>= λ enonce.
    read_at tb.buffer (data_offset + 4 + nonce_size) nonce_size >>= λ enonce_sap.
    done (handle, enonce, enonce_sap)

-- The inputs of the shared secret.
abbrev pub secret_inputs : List ℕ → List ℕ → List Input
secret_inputs enonce ononce =
    record { size = nonce_size; data_at = some enonce }
    ∷ record { size = nonce_size; data_at = some ononce }
    ∷ record { size = 0; data_at = none }
    ∷ []

module _ {W : Type 0} (sys : System W) where
  -- TSS_buildbuff into a new buffer, and TPM_Transmit: the code, and the response.
  unfoldable pub exchange : String → List Arg → Call W (ℕ × TpmBuffer)
  exchange format args = lift (tss_buildbuff (codes format) stack_tpm_buffer args) >>>= λ built.
      if is_error built.0 then return built else tpm_transmit sys.transport sys.settings built.1

  -- The same where the caller returns a code other than 0.
  unfoldable pub request : String → List Arg → Call W TpmBuffer
  request format args =
      exchange format args >>>= λ answer. if answer.0 == 0 then return answer.1 else fail answer.0

  unfoldable pub tpm_flush_specific : ℕ → ℕ → Call W ℕ
  tpm_flush_specific handle resource_type =
      exchange "00 c1 T l l l"
        (word (swap32 0xba) ∷ word (swap32 handle) ∷ word (swap32 resource_type) ∷ [])
      >>>= λ answer. return answer.0

  -- A TPM of version 1.1 closes by Terminate_Handle, and if it does not know it, as one of 1.2.
  unfoldable pub tss_hand_close : ℕ → ℕ → Call W ℕ
  tss_hand_close handle rt =
      let terminated = exchange "00 C1 T 00 00 00 96 l" (word (swap32 handle) ∷ []) >>>= λ answer.
      if answer.0 == bad_ordinal then tpm_flush_specific handle rt else return answer.0 in
      if is_unset sys.tpm_version || is_set_to "11" sys.tpm_version
      then terminated
      else tpm_flush_specific handle rt

  unfoldable pub tss_oiap_close : ℕ → Call W ℕ
  tss_oiap_close handle = tss_hand_close handle rt_auth

  unfoldable pub tss_osap_close : Session → Call W ℕ
  tss_osap_close sess = tss_hand_close sess.handle rt_auth

  unfoldable pub tss_dsap_close : Session → Call W ℕ
  tss_dsap_close sess = tss_hand_close sess.handle rt_auth

  unfoldable pub tss_session_close : Session → Call W ℕ
  tss_session_close sess =
      if is_kind sess session_oiap
      then tss_oiap_close sess.handle
      else if is_kind sess session_osap
      then tss_osap_close sess
      else if is_kind sess session_dsap
      then tss_dsap_close sess
      else return err_bad_arg

  unfoldable pub tss_oiap_open : Session → Call W Session
  tss_oiap_open sess = request "00 C1 T 00 00 00 0A" [] >>>= λ tb. lift (
      tpm_buffer_load32 tb data_offset >>= λ handle.
      read_at tb.buffer (data_offset + 4) nonce_size >>= λ enonce.
      done (record sess { handle = handle; enonce = enonce }))

  -- What OSAP and DSAP do with their response: the secret is the HMAC of both nonces.
  unfoldable pub share_secret : Session → List ℕ → ℕ → List ℕ → TpmBuffer → Outcome Session
  share_secret sess key etype ononce tb = read_nonces tb >>= λ read.
      tss_rawhmac sys.sha1 sys.hmac key hash_size (secret_inputs read.2 ononce) >>= λ ssecret.
      done (record sess {
        handle = read.0;
        enonce = read.1;
        enonce_sap = read.2;
        ononce_sap = ononce;
        ssecret = ssecret;
        etype = etype;
      })

  unfoldable pub tss_osap_open : Session → List ℕ → ℕ → ℕ → Call W Session
  tss_osap_open sess key etype evalue =
      let etype = with_encryption sys.encrypt_aes etype in
      sys.random >>>= λ nonce.
      request "00 C1 T 00 00 00 0B S L %"
        (word etype ∷ word evalue ∷ word nonce_size ∷ ptr (some nonce.1) ∷ [])
      >>>= λ tb. lift (share_secret sess key etype nonce.1 tb)

  unfoldable pub tss_dsap_open : Session → List ℕ → ℕ → ℕ → List ℕ → ℕ → Call W Session
  tss_dsap_open sess key etype keyhandle evalue evalue_size =
      let etype = with_encryption sys.encrypt_aes etype in
      sys.random >>>= λ nonce.
      request "00 C1 T l S L % @" (
        word (swap32 0x11)
        ∷ word etype
        ∷ word keyhandle
        ∷ word nonce_size
        ∷ ptr (some nonce.1)
        ∷ word evalue_size
        ∷ ptr (some evalue)
        ∷ [])
      >>>= λ tb. lift (share_secret sess key etype nonce.1 tb)

  -- What stands behind the label try_other.
  unfoldable pub open_other : ℕ → Session → List ℕ → ℕ → ℕ → Call W Session
  open_other have sess pass etype evalue =
      if not (bit_and have session_osap == 0)
      then tss_osap_open (record sess { sess_type = session_osap }) pass etype evalue
      else tss_oiap_open (record sess { sess_type = session_oiap })

  -- A DSAP session with the delegation blob of a kind, or another session if there is none.
  unfoldable pub open_delegated : ℕ → Session → List ℕ → ℕ → ℕ → ℕ → Call W Session
  open_delegated have sess pass etype keyhandle evalue =
      sys.delegation etype keyhandle pass >>>= λ found.
      if found.0 == 0
      then tss_dsap_open sess pass etype keyhandle found.1 (length found.1)
      else open_other have sess pass etype evalue

  unfoldable pub open_dsap : ℕ → Session → List ℕ → ℕ → ℕ → Call W Session
  open_dsap have sess pass etype evalue =
      if etype == et_keyhandle || etype == et_srk || etype == et_del_key_blob
      then open_delegated have sess pass et_del_key_blob evalue evalue
      else if etype == et_owner || etype == et_del_owner_blob
      then open_delegated have sess pass et_del_owner_blob 0 evalue
      else if etype == et_del_row
      then tss_dsap_open sess pass etype 0 (be32 evalue) 4
      else fail bad_mode

  -- The password is copied before it is compared with NULL.
  unfoldable pub tss_session_open : ℕ → Session → Option (List ℕ) → ℕ → ℕ → Call W Session
  tss_session_open allowed sess pass_hash etype evalue =
      lift (deref pass_hash >>= λ pass. read_at pass 0 hash_size) >>>= λ pass.
      (if etype == et_key || etype == et_keyhandle then sys.keys_room evalue else return 0)
      >>>= λ room.
          let sess = record sess { authdata = pass } in
          let have = session_choice allowed sys.tpm_session in
          if not (bit_and have session_dsap == 0)
          then open_dsap have (record sess { sess_type = session_dsap }) pass etype evalue
          else open_other have sess pass etype evalue
