-- ===== src/Testing.antt =====
-- swtpm-utils/lib/testing.c, dir.c and management.c.
use tpm_luks.Common.{ℕ, ◌+◌, ◌==◌, if◌then◌else◌, codes}
use tpm_luks.Common.{List, [], ◌∷◌, Option, none, some}
use tpm_luks.Common.Memory.{Outcome, done, ◌>>=◌, read_at, write_at}
use tpm_luks.Common.Effects.{Call, ◌>>>=◌, lift, return, fail}
use tpm_luks.Bytes.{u32, swap32, is_error, err_null_arg, err_bad_resp, hash_size, data_offset}
use tpm_luks.Buffer.{TpmBuffer, stack_tpm_buffer, tpm_buffer_load32}
use tpm_luks.Build.{word, ptr, tss_buildbuff}
use tpm_luks.Session.{session_oiap, session_osap, session_dsap}
use tpm_luks.Session.Open.{System, request, tss_session_open, et_keyhandle, et_owner}
use tpm_luks.Transmit.{tpm_transmit}
use tpm_luks.Command.{
  no_session, word_input, bytes_input, end_input, end_range, authorized, authorized_session_first,
  check_reply, room_for, send_authorized, copy_sized, copy_buffer,
}

module _ {W : Type 0} (sys : System W) where
  -- A self test: whatever the code, a response of another size is ERR_BAD_RESP.
  unfoldable pub self_test : ℕ → Call W ℕ
  self_test ordinal =
      lift (tss_buildbuff (codes "00 c1 T l") stack_tpm_buffer (word (swap32 ordinal) ∷ []))
      >>>= λ built.
          if is_error built.0
          then return built.0
          else (tpm_transmit sys.transport sys.settings built.1 >>>= λ answer.
              return (if (answer.1).used == 10 then answer.0 else err_bad_resp))

  unfoldable pub tpm_self_test_full : Call W ℕ
  tpm_self_test_full = self_test 0x50

  unfoldable pub tpm_continue_self_test : Call W ℕ
  tpm_continue_self_test = self_test 0x53

  -- The code, the new value of `*bufferlen` and the buffer, which is the caller's if the response
  -- has another size than it says.
  unfoldable pub tpm_get_test_result : Option (List ℕ) → ℕ → Call W (ℕ × ℕ × Option (List ℕ))
  tpm_get_test_result buffer bufferlen =
      request sys "00 c1 T l" (word (swap32 0x54) ∷ []) >>>= λ tb. lift (
        tpm_buffer_load32 tb data_offset >>= λ len.
        if tb.used == u32 (10 + 4 + len)
        then (copy_sized tb (data_offset + 4) len buffer bufferlen >>= λ copied.
            done (0, copied.0, copied.1))
        else done (err_bad_resp, bufferlen, buffer))

  unfoldable pub tpm_certify_self_test :
      ℕ → Option (List ℕ) → List ℕ → Option TpmBuffer → Call W (Option TpmBuffer)
  tpm_certify_self_test keyhandle none anti_replay signature = room_for sys keyhandle >>>= λ room.
      request sys "00 c1 T l l %" (
        word (swap32 0x52) ∷ word (swap32 keyhandle) ∷ word hash_size ∷ ptr (some anti_replay) ∷ [])
      >>>= λ tb. lift (copy_buffer tb data_offset signature)
  tpm_certify_self_test keyhandle (some usage_auth) anti_replay signature =
      room_for sys keyhandle >>>= λ room.
      authorized_session_first sys (session_dsap + session_osap + session_oiap) usage_auth
        et_keyhandle keyhandle 0x52
        (word_input 0x52 ∷ bytes_input hash_size anti_replay ∷ end_input ∷ [])
        "00 c2 T l l % L % o %"
        (word (swap32 keyhandle) ∷ word hash_size ∷ ptr (some anti_replay) ∷ [])
      >>>= λ reply. lift (
          tpm_buffer_load32 reply.response data_offset >>= λ size.
          check_reply sys reply 0x52
            (record { size = u32 (4 + size); position = data_offset } ∷ end_range ∷ [])
          >>= λ ret. copy_buffer reply.response data_offset signature)

  unfoldable pub tpm_dir_write_auth : ℕ → Option (List ℕ) → Option (List ℕ) → Call W ℕ
  tpm_dir_write_auth dir_index (some new_value) (some owner_auth) =
      authorized_session_first sys (session_dsap + session_osap + session_oiap) owner_auth et_owner
        0 0x19
        (word_input 0x19 ∷ word_input dir_index ∷ bytes_input hash_size new_value ∷ end_input ∷ [])
        "00 c2 T l l % L % o %"
        (word (swap32 dir_index) ∷ word hash_size ∷ ptr (some new_value) ∷ [])
      >>>= λ reply. lift (check_reply sys reply 0x19 (end_range ∷ []))
  tpm_dir_write_auth dir_index _ _ = fail err_null_arg

  -- The code, and the register when the caller gave a buffer: 20 bytes are copied even when the
  -- size of the response is wrong.
  unfoldable pub tpm_dir_read : ℕ → Option (List ℕ) → Call W (ℕ × Option (List ℕ))
  tpm_dir_read dir_index buffer =
      request sys "00 c1 T l l" (word (swap32 0x1a) ∷ word (swap32 dir_index) ∷ []) >>>= λ tb.
      lift (copy_register tb (if tb.used == 30 then 0 else err_bad_resp) buffer)
    where
      copy_register : TpmBuffer → ℕ → Option (List ℕ) → Outcome (ℕ × Option (List ℕ))
      copy_register tb ret none = done (ret, none)
      copy_register tb ret (some bytes) = read_at tb.buffer data_offset 20 >>= λ bs.
          write_at bytes 0 bs >>= λ bytes. done (ret, some bytes)

  -- Without a room for the key nothing is sent; a nonce that fails is the code 0.
  unfoldable pub tpm_set_redirection : ℕ → ℕ → List ℕ → ℕ → Option (List ℕ) → Call W ℕ
  tpm_set_redirection keyhandle redir_cmd input_data input_data_size owner_auth =
      room_for sys keyhandle >>>= λ room. sys.random >>>= λ nonce.
      if nonce.0 == 0
      then return nonce.0
      else (tss_session_open sys (session_dsap + session_osap) no_session owner_auth et_owner
            keyhandle
          >>>= λ sess.
              send_authorized sys sess nonce.1 0x9a
                (word_input 0x9a
                  ∷ word_input redir_cmd
                  ∷ word_input input_data_size
                  ∷ bytes_input input_data_size input_data
                  ∷ end_input
                  ∷ [])
                "00 c2 T l l l @ L % o %"
                (word (swap32 keyhandle)
                  ∷ word (swap32 redir_cmd)
                  ∷ word input_data_size
                  ∷ ptr (some input_data)
                  ∷ [])
              >>>= λ tb. lift (
                  check_reply sys (record { response = tb; nonceodd = nonce.1; sess = sess }) 0x9a
                    (end_range ∷ [])))

  unfoldable pub tpm_reset_lock_value : List ℕ → Call W ℕ
  tpm_reset_lock_value owner_auth =
      authorized sys (session_dsap + session_osap + session_oiap) owner_auth et_owner 0 0x40
        (word_input 0x40 ∷ end_input ∷ []) "00 c2 T l L % o %" []
      >>>= λ reply. lift (check_reply sys reply 0x40 (end_range ∷ []))
