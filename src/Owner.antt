-- ===== src/Owner.antt =====
-- The commands of swtpm-utils/lib/owner.c behind TPM_TakeOwnership, and those of optin.c and
-- startup.c.
use tpm_luks.Common.{ℕ, ◌+◌, ◌*◌, ◌%◌, ◌/◌, ◌==◌, if◌then◌else◌, List, [], ◌∷◌, Option, none, some}
use tpm_luks.Common.Memory.{◌>>=◌}
use tpm_luks.Common.Effects.{Call, ◌>>>=◌, lift, return, fail}
use tpm_luks.Bytes.{swap32, err_null_arg, hash_size}
use tpm_luks.Build.{word, ptr}
use tpm_luks.Hmac.{tss_authhmac}
use tpm_luks.Session.{
  deref, tss_session_get_auth, tss_session_get_enonce, tss_session_get_handle, session_oiap,
  session_osap, session_dsap,
}
use tpm_luks.Session.Open.{System, exchange, request, tss_session_open, tss_session_close, et_owner}
use tpm_luks.Command.{
  no_session, word_input, bytes_input, end_input, end_range, finally, authorized,
  authorized_session_first, check_reply, send_unchecked, bare_command,
}

-- htons.
abbrev pub swap16 : ℕ → ℕ
swap16 v = v % 256 * 256 + v / 256 % 256

module _ {W : Type 0} (sys : System W) where
  -- A nonce that fails is the code 0, as of a command that succeeded, and the digest of the
  -- response is not looked at.
  unfoldable pub tpm_owner_clear : Option (List ℕ) → Call W ℕ
  tpm_owner_clear none = fail err_null_arg
  tpm_owner_clear (some ownpass) = sys.random >>>= λ nonce.
      if nonce.0 == 0
      then return nonce.0
      else (tss_session_open sys (session_dsap + session_osap + session_oiap) no_session
            (some ownpass) et_owner 0
          >>>= λ sess.
              let sent =
                lift (
                  deref (tss_session_get_auth sess) >>= λ key.
                  tss_authhmac sys.sha1 sys.hmac key hash_size (tss_session_get_enonce sess)
                    (some nonce.1) 0 (word_input 91 ∷ end_input ∷ []))
                >>>= λ authdata. request sys "00 c2 T l L % 00 %" (
                    word (swap32 91)
                    ∷ word (tss_session_get_handle sess)
                    ∷ word hash_size
                    ∷ ptr (some nonce.1)
                    ∷ word hash_size
                    ∷ ptr (some authdata)
                    ∷ []) in
              finally sent (tss_session_close sys sess) >>>= λ tb. return 0)

  unfoldable pub tpm_force_clear : Call W ℕ
  tpm_force_clear = bare_command sys "00 c1 T l" (word (swap32 0x5d) ∷ [])

  unfoldable pub tpm_disable_owner_clear : Option (List ℕ) → Call W ℕ
  tpm_disable_owner_clear none = fail err_null_arg
  tpm_disable_owner_clear (some ownerauth) =
      authorized sys (session_dsap + session_osap + session_oiap) ownerauth et_owner 0 0x5c
        (word_input 0x5c ∷ end_input ∷ []) "00 c2 T l L % o %" []
      >>>= λ reply. lift (check_reply sys reply 0x5c (end_range ∷ []))

  unfoldable pub tpm_disable_force_clear : Call W ℕ
  tpm_disable_force_clear = bare_command sys "00 c1 T l" (word (swap32 0x5e) ∷ [])

  unfoldable pub tsc_physical_presence : ℕ → Call W ℕ
  tsc_physical_presence ppresence =
      bare_command sys "00 c1 T l s" (word (swap32 0x4000000a) ∷ word (swap16 ppresence) ∷ [])

  unfoldable pub tpm_reset_establishment_bit : Call W ℕ
  tpm_reset_establishment_bit = bare_command sys "00 c1 T l" (word (swap32 0x4000000b) ∷ [])

  unfoldable pub tpm_set_owner_install : ℕ → Call W ℕ
  tpm_set_owner_install state =
      bare_command sys "00 c1 T l o" (word (swap32 0x71) ∷ word state ∷ [])

  unfoldable pub tpm_owner_set_disable : Option (List ℕ) → ℕ → Call W ℕ
  tpm_owner_set_disable none state = fail err_null_arg
  tpm_owner_set_disable (some ownerauth) state =
      authorized sys (session_dsap + session_osap + session_oiap) ownerauth et_owner 0 0x6e
        (word_input 0x6e ∷ bytes_input 1 (state ∷ []) ∷ end_input ∷ []) "00 c2 T l o L % o %"
        (word state ∷ [])
      >>>= λ reply. lift (check_reply sys reply 0x6e (end_range ∷ []))

  unfoldable pub tpm_set_temp_deactivated : Option (List ℕ) → Call W ℕ
  tpm_set_temp_deactivated none =
      send_unchecked sys "00 c1 T l" (word (swap32 0x73) ∷ []) >>>= λ answer. return answer.0
  tpm_set_temp_deactivated (some operatorauth) =
      authorized_session_first sys (session_osap + session_oiap) operatorauth et_owner 0 0x73
        (word_input 0x73 ∷ end_input ∷ []) "00 c1 T l L % o %" []
      >>>= λ reply. lift (check_reply sys reply 0x73 (end_range ∷ []))

  unfoldable pub tpm_physical_enable : Call W ℕ
  tpm_physical_enable = bare_command sys "00 c1 T l" (word (swap32 0x6f) ∷ [])

  unfoldable pub tpm_physical_disable : Call W ℕ
  tpm_physical_disable = bare_command sys "00 c1 T l" (word (swap32 0x70) ∷ [])

  unfoldable pub tpm_physical_set_deactivated : ℕ → Call W ℕ
  tpm_physical_set_deactivated state =
      bare_command sys "00 c1 T l o" (word (swap32 0x72) ∷ word state ∷ [])

  unfoldable pub tpm_set_operator_auth : Option (List ℕ) → Call W ℕ
  tpm_set_operator_auth none = fail err_null_arg
  tpm_set_operator_auth (some operator_auth) =
      bare_command sys "00 c1 T l %"
        (word (swap32 0x74) ∷ word hash_size ∷ ptr (some operator_auth) ∷ [])

  unfoldable pub tpm_startup : ℕ → Call W ℕ
  tpm_startup kind = bare_command sys "00 c1 T l s" (word (swap32 0x99) ∷ word (swap16 kind) ∷ [])

  unfoldable pub tpm_save_state : Call W ℕ
  tpm_save_state = bare_command sys "00 c1 T l" (word (swap32 0x98) ∷ [])

  unfoldable pub tpm_init : Call W ℕ
  tpm_init = exchange sys "00 c1 T l" (word (swap32 0x97) ∷ []) >>>= λ answer. return answer.0
