-- ===== src/Maintenance.antt =====
-- swtpm-utils/lib/context.c and maintenance.c.
use tpm_luks.Common.{ℕ, ◌+◌, if◌then◌else◌, Bool, min, List, [], ◌∷◌, Option, none, some}
use tpm_luks.Common.Memory.{Outcome, done, ◌>>=◌, read_at, write_at}
use tpm_luks.Common.Effects.{Call, ◌>>>=◌, lift, return, fail}
use tpm_luks.Bytes.{
  u32, swap32, is_error, err_null_arg, err_mem_err, hash_size, nonce_size, data_offset,
}
use tpm_luks.Buffer.{TpmBuffer, stack_tpm_buffer, tpm_buffer_load32}
use tpm_luks.Build.{word, ptr}
use tpm_luks.Session.{deref, session_oiap, session_osap, session_dsap}
use tpm_luks.Session.Open.{System, request, tss_session_open, et_owner}
use tpm_luks.Serialize.Keys.{Keydata, tpm_write_key_pub}
use tpm_luks.Serialize.Signed.{tss_alloc_tpm_buffer}
use tpm_luks.Command.{
  no_session, word_input, end_input, end_range, fresh_nonce, authorized, check_reply, room_for,
  code_after, copy_sized, copy_buffer, send_authorized_from,
}

-- What TPM_CreateMaintenanceArchive copies behind its check: both copies go to `random`, the
-- second one when the caller gave an `archive`. The sizes, and the bytes of `random`.
unfoldable pub archive_results :
    TpmBuffer → ℕ → Option (List ℕ) → ℕ → Bool → ℕ → Outcome (ℕ × ℕ × Option (List ℕ))
archive_results tb size1 random random_size has_archive archive_size =
    copy_sized tb data_offset size1 random random_size >>= λ copied.
    if has_archive
    then (deref copied.1 >>= λ target.
        read_at tb.buffer (u32 (data_offset + 4 + size1)) (min archive_size size1) >>= λ bs.
        write_at target 0 bs >>= λ target. done (copied.0, min archive_size size1, some target))
    else done (copied.0, archive_size, copied.1)

module _ {W : Type 0} (sys : System W) where
  unfoldable pub tpm_save_key_context : ℕ → Option TpmBuffer → Call W (Option TpmBuffer)
  tpm_save_key_context keyhandle context = room_for sys keyhandle >>>= λ room.
      request sys "00 c1 T l l" (word (swap32 0xb4) ∷ word (swap32 keyhandle) ∷ []) >>>= λ tb.
      lift (copy_buffer tb data_offset context)

  unfoldable pub tpm_load_key_context : TpmBuffer → Call W ℕ
  tpm_load_key_context context =
      request sys "00 c1 T l @"
        (word (swap32 0xb5) ∷ word context.used ∷ ptr (some context.buffer) ∷ [])
      >>>= λ tb. lift (tpm_buffer_load32 tb data_offset)

  unfoldable pub tpm_save_auth_context : ℕ → Option (List ℕ) → ℕ → Call W (ℕ × Option (List ℕ))
  tpm_save_auth_context authhandle blob size =
      request sys "00 c1 T l l" (word (swap32 0xb6) ∷ word (swap32 authhandle) ∷ []) >>>= λ tb.
      lift
        (tpm_buffer_load32 tb data_offset >>= λ len. copy_sized tb (data_offset + 4) len blob size)

  unfoldable pub tpm_load_auth_context : List ℕ → ℕ → Call W ℕ
  tpm_load_auth_context blob size =
      request sys "00 c1 T l @" (word (swap32 0xb7) ∷ word size ∷ ptr (some blob) ∷ []) >>>= λ tb.
      lift (tpm_buffer_load32 tb data_offset)

  -- Behind the checks of the arguments, with the buffer that was allocated. The result of the
  -- check is returned with what was copied.
  unfoldable pub create_archive :
      TpmBuffer → ℕ → List ℕ → Option (List ℕ) → ℕ → Bool → ℕ → Call W (ℕ × ℕ × ℕ × Option (List ℕ))
  create_archive tpmdata generate_random owner_auth random random_size has_archive archive_size =
      fresh_nonce sys >>>= λ nonceodd.
      tss_session_open sys (session_dsap + session_osap + session_oiap) no_session (some owner_auth)
        et_owner 0
      >>>= λ sess.
          send_authorized_from sys tpmdata sess nonceodd 0x2c (word_input 0x2c ∷ end_input ∷ [])
            "00 c2 T l o L % o %" (word generate_random ∷ [])
          >>>= λ tb. lift (
              tpm_buffer_load32 tb data_offset >>= λ size1.
              tpm_buffer_load32 tb (u32 (data_offset + 4 + size1)) >>= λ size2.
              code_after (
                check_reply sys (record { response = tb; nonceodd = nonceodd; sess = sess }) 0x2c
                  (record { size = u32 (4 + size1 + 4 + size2); position = data_offset }
                    ∷ end_range
                    ∷ []))
              >>= λ ret.
                  archive_results tb size1 random random_size has_archive archive_size >>= λ copied.
                  done (ret, copied.0, copied.1, copied.2))

  -- `memory` is what malloc gives for a size.
  unfoldable pub tpm_create_maintenance_archive :
      (ℕ → Option (List ℕ))
      → ℕ
      → Option (List ℕ)
      → Option (List ℕ)
      → ℕ
      → Bool
      → ℕ
      → Call W (ℕ × ℕ × ℕ × Option (List ℕ))
  tpm_create_maintenance_archive memory generate_random owner_auth random random_size has_archive
        archive_size =
      allocated (tss_alloc_tpm_buffer memory 0) owner_auth
    where
      allocated : Option TpmBuffer → Option (List ℕ) → Call W (ℕ × ℕ × ℕ × Option (List ℕ))
      allocated none owner = fail err_mem_err
      allocated (some tpmdata) none = fail err_null_arg
      allocated (some tpmdata) (some owner) =
          create_archive tpmdata generate_random owner random random_size has_archive archive_size

  -- A command of the owner whose inputs are its ordinal.
  unfoldable pub owner_command : ℕ → Option (List ℕ) → Call W ℕ
  owner_command ordinal none = fail err_null_arg
  owner_command ordinal (some owner_auth) =
      authorized sys (session_dsap + session_osap + session_oiap) owner_auth et_owner 0 ordinal
        (word_input ordinal ∷ end_input ∷ []) "00 c2 T l L % o %" []
      >>>= λ reply. lift (check_reply sys reply ordinal (end_range ∷ []))

  unfoldable pub tpm_load_maintenance_archive : Option (List ℕ) → Call W ℕ
  tpm_load_maintenance_archive owner_auth = owner_command 0x2d owner_auth

  unfoldable pub tpm_kill_maintenance_feature : Option (List ℕ) → Call W ℕ
  tpm_kill_maintenance_feature owner_auth = owner_command 0x2e owner_auth

  abbrev pub digest_of : TpmBuffer → Bool → Outcome (Option (List ℕ))
  digest_of tb wanted =
      if wanted
      then (read_at tb.buffer data_offset hash_size >>= λ bs. done (some bs))
      else done none

  unfoldable pub tpm_load_manu_maint_pub : List ℕ → Option Keydata → Bool → Call W (Option (List ℕ))
  tpm_load_manu_maint_pub nonce none wants_digest = fail err_null_arg
  tpm_load_manu_maint_pub nonce (some pub_key) wants_digest =
      lift (tpm_write_key_pub stack_tpm_buffer pub_key) >>>= λ written.
      (if is_error written.0 then fail written.0 else return written.0) >>>= λ size.
      request sys "00 c1 T l % %" (
        word (swap32 0x2f)
        ∷ word nonce_size
        ∷ ptr (some nonce)
        ∷ word size
        ∷ ptr (some (written.1).buffer)
        ∷ [])
      >>>= λ tb. lift (digest_of tb wants_digest)

  unfoldable pub tpm_read_manu_maint_pub : List ℕ → Bool → Call W (Option (List ℕ))
  tpm_read_manu_maint_pub nonce wants_digest =
      request sys "00 c1 T l %" (word (swap32 0x30) ∷ word nonce_size ∷ ptr (some nonce) ∷ [])
      >>>= λ tb. lift (digest_of tb wants_digest)
