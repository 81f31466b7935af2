-- ===== src/Chgauth.antt =====
-- swtpm-utils/lib/chgauth.c: changing the secret of a key, of another entity, of the storage root
-- key and of the owner. No result of TSS_gennonce is looked at.
use tpm_luks.Common.{ℕ, ◌+◌, ◌==◌, if◌then◌else◌, List, [], ◌∷◌, Option, none, some}
use tpm_luks.Common.Memory.{done, ◌>>=◌}
use tpm_luks.Common.Effects.{Call, ◌>>>=◌, lift, return, fail}
use tpm_luks.Bytes.{be16, swap32, err_null_arg, hash_size, data_offset}
use tpm_luks.Buffer.{tpm_buffer_load32}
use tpm_luks.Build.{word, ptr}
use tpm_luks.Hmac.{Input}
use tpm_luks.Session.{session_oiap, session_osap, session_dsap, tpm_create_enc_auth}
use tpm_luks.Session.Open.{System, tss_session_open, tss_session_close}
use tpm_luks.Serialize.Keys.{Keydata}
use tpm_luks.Owner.{swap16}
use tpm_luks.Command.{
  no_session, word_input, bytes_input, end_input, end_range, or_close, send_authorized, check_reply,
  room_for, send_in_both, check_both, sized_ranges, sized_result,
}

abbrev pub ord_change_auth : ℕ
ord_change_auth = 0x0c

-- The inputs of both digests.
abbrev pub change_inputs : List ℕ → ℕ → List ℕ → ℕ → List Input
change_inputs encauth etype encdata encdatalen =
    word_input ord_change_auth
    ∷ bytes_input 2 (be16 4)
    ∷ bytes_input hash_size encauth
    ∷ bytes_input 2 (be16 etype)
    ∷ word_input encdatalen
    ∷ bytes_input encdatalen encdata
    ∷ end_input
    ∷ []

module _ {W : Type 0} (sys : System W) where
  -- Behind the checks of the arguments: the new contents of `encdata`. As many bytes as the
  -- response says are copied to it.
  unfoldable pub change_auth : ℕ → List ℕ → List ℕ → List ℕ → ℕ → List ℕ → ℕ → Call W (List ℕ)
  change_auth keyhandle parauth keyauth newauth etype encdata encdatalen =
      room_for sys keyhandle >>>= λ room.
      tss_session_open sys (session_dsap + session_osap) no_session (some parauth)
        (if keyhandle == 0x40000000 then 4 else 1) keyhandle
      >>>= λ sess.
          or_close (tss_session_open sys session_oiap no_session (some keyauth) 0 0)
            (tss_session_close sys sess)
          >>>= λ sess2.
              lift (tpm_create_enc_auth sys.aes sys.sha1 sess newauth none) >>>= λ encauth.
              sys.random >>>= λ nonce. sys.random >>>= λ nonce2.
              send_in_both sys sess sess2 nonce.1 nonce2.1 ord_change_auth
                (change_inputs encauth etype encdata encdatalen)
                "00 C3 T l l s % s @ L % o % L % o %"
                (word (swap32 keyhandle)
                  ∷ word (swap16 4)
                  ∷ word hash_size
                  ∷ ptr (some encauth)
                  ∷ word (swap16 etype)
                  ∷ word encdatalen
                  ∷ ptr (some encdata)
                  ∷ [])
              >>>= λ tb. lift (
                  tpm_buffer_load32 tb data_offset >>= λ reslen.
                  check_both sys tb sess sess2 nonce.1 nonce2.1 ord_change_auth
                    (sized_ranges reslen)
                  >>= λ ret. sized_result tb encdata >>= λ copied. done copied.1)

  unfoldable pub tpm_change_auth :
      ℕ
      → Option (List ℕ)
      → Option (List ℕ)
      → Option (List ℕ)
      → ℕ
      → Option (List ℕ)
      → ℕ
      → Call W (List ℕ)
  tpm_change_auth keyhandle (some parauth) (some keyauth) (some newauth) etype (some encdata)
        encdatalen =
      change_auth keyhandle parauth keyauth newauth etype encdata encdatalen
  tpm_change_auth keyhandle _ _ _ etype _ encdatalen = fail err_null_arg

  -- The size of the encrypted data stays what it was.
  unfoldable pub tpm_change_key_auth :
      ℕ → Option (List ℕ) → Option (List ℕ) → Option (List ℕ) → Option Keydata → Call W Keydata
  tpm_change_key_auth keyhandle (some parauth) (some keyauth) (some newauth) (some key) =
      change_auth keyhandle parauth keyauth newauth 5 (key.enc_data).buffer (key.enc_data).size
      >>>= λ bytes. return (record key { enc_data = record (key.enc_data) { buffer = bytes } })
  tpm_change_key_auth keyhandle _ _ _ _ = fail err_null_arg

  -- A new secret for the storage root key (`entity_type` 4) or the owner (2).
  unfoldable pub change_owned_auth : ℕ → Option (List ℕ) → Option (List ℕ) → Call W ℕ
  change_owned_auth entity_type (some ownauth) (some newauth) =
      tss_session_open sys session_osap no_session (some ownauth) 2 0 >>>= λ sess.
      lift (tpm_create_enc_auth sys.aes sys.sha1 sess newauth none) >>>= λ encauth.
      sys.random >>>= λ nonce.
      send_authorized sys sess nonce.1 0x10
        (word_input 0x10
          ∷ bytes_input 2 (be16 4)
          ∷ bytes_input hash_size encauth
          ∷ bytes_input 2 (be16 entity_type)
          ∷ end_input
          ∷ [])
        "00 C2 T l s % s L % o %"
        (word (swap16 4) ∷ word hash_size ∷ ptr (some encauth) ∷ word (swap16 entity_type) ∷ [])
      >>>= λ tb. lift (
          check_reply sys (record { response = tb; nonceodd = nonce.1; sess = sess }) 0x10
            (end_range ∷ []))
  change_owned_auth entity_type _ _ = fail err_null_arg

  unfoldable pub tpm_change_srk_auth : Option (List ℕ) → Option (List ℕ) → Call W ℕ
  tpm_change_srk_auth ownauth newauth = change_owned_auth 4 ownauth newauth

  unfoldable pub tpm_change_own_auth : Option (List ℕ) → Option (List ℕ) → Call W ℕ
  tpm_change_own_auth ownauth newauth = change_owned_auth 2 ownauth newauth
