-- ===== src/Keys.antt =====
-- swtpm-utils/lib/keys.c: the sizes of keys in a response, loading a key, and two commands on the
-- endorsement key. TPM_EvictKey is with Keyswap.
use tpm_luks.Common.{
  ℕ, ◌+◌, ◌-◌, ◌^◌, leb, ltb, ◌==◌, if◌then◌else◌, Bool, true, List, [], ◌∷◌, Option, none, some,
}
use tpm_luks.Common.Memory.{Outcome, done, failed, ◌>>=◌}
use tpm_luks.Common.Effects.{Call, ◌>>>=◌, lift, return, fail}
use tpm_luks.Bytes.{
  u32, swap32, load32, is_error, err_null_arg, err_structure, nonce_size, data_offset,
}
use tpm_luks.Buffer.{TpmBuffer, stack_tpm_buffer, tpm_buffer_load32}
use tpm_luks.Build.{word, ptr}
use tpm_luks.Hmac.{Range}
use tpm_luks.Session.{session_oiap, session_osap, session_dsap}
use tpm_luks.Session.Open.{
  System, request, tss_session_open, tss_session_close, et_owner, et_keyhandle,
}
use tpm_luks.Serialize.Keys.{Keydata, tpm_write_key}
use tpm_luks.Command.{
  no_session, word_input, bytes_input, end_input, end_range, or_close, room_for, check_reply,
  send_authorized, send_unchecked,
}

-- A length at `offset`, behind which at least a byte was received, and the offset behind what it
-- counts.
unfoldable pub skip_counted : TpmBuffer → ℕ → Outcome ℕ
skip_counted tb offset =
    if leb tb.used (u32 (offset + 4))
    then failed err_structure
    else (load32 tb.buffer offset >>= λ size. done (u32 (offset + 4 + size)))

unfoldable pub tss_pub_key_size : TpmBuffer → ℕ → Bool → Outcome ℕ
tss_pub_key_size tb offset pcrpresent = skip_counted tb (u32 (offset + 8)) >>= λ behind_parms.
    (if pcrpresent then skip_counted tb behind_parms else done behind_parms) >>= λ behind_info.
    skip_counted tb behind_info >>= λ behind_key.
    if ltb tb.used behind_key
    then failed err_structure
    else done (u32 (behind_key + 2 ^ 32 - offset))

-- The last length is read without a look at what was received.
unfoldable pub tss_key_size : TpmBuffer → ℕ → Outcome ℕ
tss_key_size tb offset = tss_pub_key_size tb (u32 (offset + 11)) true >>= λ len.
    load32 tb.buffer (u32 (offset + 11 + len)) >>= λ privkeylen.
    done (u32 (11 + len + 4 + privkeylen))

module _ {W : Type 0} (sys : System W) where
  abbrev pub written_key : Keydata → Call W (ℕ × TpmBuffer)
  written_key key = lift (tpm_write_key stack_tpm_buffer key) >>>= λ written.
      if is_error written.0 then fail written.0 else return written

  -- A key loaded under its parent: the new handle. `ranges` is what the response's digest covers.
  unfoldable pub load_key : ℕ → List Range → ℕ → Option (List ℕ) → Keydata → Call W ℕ
  load_key ordinal ranges keyhandle none key = written_key key >>>= λ written.
      request sys "00 c1 T l l %" (
        word (swap32 ordinal)
        ∷ word (swap32 keyhandle)
        ∷ word written.0
        ∷ ptr (some (written.1).buffer)
        ∷ [])
      >>>= λ tb. lift (tpm_buffer_load32 tb data_offset)
  load_key ordinal ranges keyhandle (some keyauth) key = sys.random >>>= λ nonce.
      tss_session_open sys (session_osap + session_oiap + session_dsap) no_session (some keyauth)
        et_keyhandle keyhandle
      >>>= λ sess. or_close (written_key key) (tss_session_close sys sess) >>>= λ written.
          send_authorized sys sess nonce.1 ordinal
            (word_input ordinal ∷ bytes_input written.0 (written.1).buffer ∷ end_input ∷ [])
            "00 c2 T l l % L % o %"
            (word (swap32 keyhandle) ∷ word written.0 ∷ ptr (some (written.1).buffer) ∷ [])
          >>>= λ tb. lift (
              check_reply sys (record { response = tb; nonceodd = nonce.1; sess = sess }) ordinal
                ranges
              >>= λ ret. tpm_buffer_load32 tb data_offset)

  -- `wanted` says whether the pointer to the new handle is not NULL.
  unfoldable pub tpm_load_key : ℕ → Option (List ℕ) → Option Keydata → Bool → Call W ℕ
  tpm_load_key keyhandle keyauth none wanted = room_for sys keyhandle >>>= λ room. fail err_null_arg
  tpm_load_key keyhandle keyauth (some key) wanted = room_for sys keyhandle >>>= λ room.
      if wanted
      then load_key 0x20 (record { size = 4; position = data_offset } ∷ end_range ∷ []) keyhandle
          keyauth key
      else fail err_null_arg

  -- `make_room` is needKeysRoom for a new key beside `keyhandle`. The digest of the response does
  -- not cover the handle.
  unfoldable pub tpm_load_key2 :
      (ℕ → Call W ℕ) → ℕ → Option (List ℕ) → Option Keydata → Bool → Call W ℕ
  tpm_load_key2 make_room keyhandle keyauth none wanted = fail err_null_arg
  tpm_load_key2 make_room keyhandle keyauth (some key) wanted =
      if wanted
      then (make_room keyhandle >>>= λ room.
          if room == 0 then load_key 0x41 (end_range ∷ []) keyhandle keyauth key else fail room)
      else fail err_null_arg

  -- The result of TSS_gennonce is not looked at.
  unfoldable pub tpm_disable_pubek_read : Option (List ℕ) → Call W ℕ
  tpm_disable_pubek_read ownauth = sys.random >>>= λ nonce.
      tss_session_open sys (session_dsap + session_osap + session_oiap) no_session ownauth et_owner
        0
      >>>= λ sess.
          send_authorized sys sess nonce.1 0x7e (word_input 0x7e ∷ end_input ∷ [])
            "00 c2 T l L % o %" []
          >>>= λ tb. lift (
              check_reply sys (record { response = tb; nonceodd = nonce.1; sess = sess }) 0x7e
                (end_range ∷ []))

  unfoldable pub tpm_revoke_trust : Option (List ℕ) → Call W ℕ
  tpm_revoke_trust none = fail err_null_arg
  tpm_revoke_trust (some ekreset) =
      send_unchecked sys "00 c1 T l %"
        (word (swap32 0x80) ∷ word nonce_size ∷ ptr (some ekreset) ∷ [])
      >>>= λ answer. return answer.0
