-- ===== src/Nv.antt =====
-- swtpm-utils/lib/nv.c: defining, writing and reading areas of the TPM's NV memory.
pub mod Closing
pub mod Requests
pub mod Reading
pub mod Writing
pub mod Verdict
use tpm_luks.Common.{ℕ, ◌+◌, ◌==◌, if◌then◌else◌, Bool, true, false, min, replicate}
use tpm_luks.Common.{List, [], ◌∷◌, ◌++◌, length, Option, none, some, String}
use tpm_luks.Common.Memory.{Outcome, done, failed, fault, ◌>>=◌, read_at, write_at}
use tpm_luks.Common.Effects.{Call, ◌>>>=◌, continue_with, lift, return, fail}
use tpm_luks.Bytes.{
  u32, be32, swap32, is_error, err_null_arg, err_crypt_err, hash_size, nonce_size, data_offset,
}
use tpm_luks.Buffer.{TpmBuffer, stack_tpm_buffer, tpm_buffer_load32}
use tpm_luks.Serialize.Pcr.{PcrInfoShort}
use tpm_luks.Serialize.Public.{NvDataPublic, tpm_write_pub_info}
use tpm_luks.Build.{Arg, word, ptr}
use tpm_luks.Hmac.{Input, Range, tss_authhmac, tss_checkhmac1}
use tpm_luks.Session.{
  Session, deref, tss_session_get_auth, tss_session_get_enonce, tss_session_get_handle,
  session_oiap, session_osap, tpm_create_enc_auth,
}
use tpm_luks.Command.{
  no_session, word_input, bytes_input, end_input, end_range, Reply, fresh_nonce, send_authorized,
  authorized, check_reply,
}
use tpm_luks.Session.Open.{System, request, tss_session_open, tss_session_close, et_owner, et_nv}

-- The arguments of a request behind its ordinal.
abbrev pub write_args : ℕ → ℕ → List ℕ → ℕ → List Arg
write_args nv_index offset bytes datalen =
    word (swap32 nv_index) ∷ word (swap32 offset) ∷ word datalen ∷ ptr (some bytes) ∷ []

abbrev pub read_args : ℕ → ℕ → ℕ → List Arg
read_args nv_index offset datasize =
    word (swap32 nv_index) ∷ word (swap32 offset) ∷ word (swap32 datasize) ∷ []

abbrev pub write_inputs : ℕ → ℕ → ℕ → List ℕ → ℕ → List Input
write_inputs ordinal nv_index offset bytes datalen =
    word_input ordinal
    ∷ word_input nv_index
    ∷ word_input offset
    ∷ word_input datalen
    ∷ bytes_input datalen bytes
    ∷ end_input
    ∷ []

abbrev pub read_inputs : ℕ → ℕ → ℕ → ℕ → List Input
read_inputs ordinal nv_index offset datasize =
    word_input ordinal
    ∷ word_input nv_index
    ∷ word_input offset
    ∷ word_input datasize
    ∷ end_input
    ∷ []

-- The end of both readers: the new value of `*buffersize`, and the buffer.
unfoldable pub copy_value : TpmBuffer → ℕ → List ℕ → ℕ → Outcome (ℕ × List ℕ)
copy_value tb len buffer buffersize =
    let n = min buffersize len in
    read_at tb.buffer (data_offset + 4) n >>= λ bs.
    write_at buffer 0 bs >>= λ buffer'. done (n, buffer')

abbrev pub ord_nv_define_space : ℕ
ord_nv_define_space = 0xcc

abbrev pub ord_nv_write_value : ℕ
ord_nv_write_value = 0xcd

abbrev pub ord_nv_write_value_auth : ℕ
ord_nv_write_value_auth = 0xce

abbrev pub ord_nv_read_value : ℕ
ord_nv_read_value = 0xcf

abbrev pub ord_nv_read_value_auth : ℕ
ord_nv_read_value_auth = 0xd0

-- The conditions of a new area: locality 0, and no register selected in three bytes.
abbrev pub no_registers : PcrInfoShort
no_registers = record {
  pcr_selection = record { size_of_select = 3; pcr_select = replicate 3 0 };
  locality_at_release = 1;
  digest_at_release = replicate hash_size 0;
}

unfoldable pub new_area : ℕ → ℕ → ℕ → NvDataPublic
new_area index size permissions = record {
  tag = 0x18;
  nv_index = index;
  pcr_info_read = no_registers;
  pcr_info_write = no_registers;
  permission = record { tag = 0x17; attributes = permissions };
  b_read_st_clear = 0;
  b_write_st_clear = 0;
  b_write_define = 0;
  data_size = size;
}

module _ {W : Type 0} (sys : System W) where
  unfoldable pub write_authorized : List ℕ → ℕ → ℕ → ℕ → ℕ → ℕ → List ℕ → ℕ → Call W ℕ
  write_authorized auth etype evalue ordinal nv_index offset bytes datalen =
      authorized sys (session_osap + session_oiap) auth etype evalue ordinal
        (write_inputs ordinal nv_index offset bytes datalen) "00 c2 T l l l @ L % o %"
        (write_args nv_index offset bytes datalen)
      >>>= λ reply. lift (check_reply sys reply ordinal (end_range ∷ []))

  unfoldable pub write_plain : ℕ → ℕ → List ℕ → ℕ → Call W ℕ
  write_plain nv_index offset bytes datalen =
      request sys "00 c1 T l l l @"
        (word (swap32 ord_nv_write_value) ∷ write_args nv_index offset bytes datalen)
      >>>= λ tb. return 0

  unfoldable pub tpm_nv_write_value : ℕ → ℕ → List ℕ → ℕ → Option (List ℕ) → Call W ℕ
  tpm_nv_write_value nv_index offset bytes datalen none = write_plain nv_index offset bytes datalen
  tpm_nv_write_value nv_index offset bytes datalen (some ownauth) =
      write_authorized ownauth et_owner 0 ord_nv_write_value nv_index offset bytes datalen

  unfoldable pub tpm_nv_write_value_auth : ℕ → ℕ → List ℕ → ℕ → Option (List ℕ) → Call W ℕ
  tpm_nv_write_value_auth nv_index offset bytes datalen none = fail err_null_arg
  tpm_nv_write_value_auth nv_index offset bytes datalen (some areaauth) =
      write_authorized areaauth et_nv nv_index ord_nv_write_value_auth nv_index offset bytes datalen

  -- An authorized read: the length that the response gives, its digest over the length and the
  -- bytes, and the copy.
  unfoldable pub read_authorized : List ℕ → ℕ → ℕ → ℕ → ℕ → ℕ → List ℕ → ℕ → Call W (ℕ × List ℕ)
  read_authorized auth etype ordinal nv_index offset datasize buffer buffersize =
      authorized sys (session_osap + session_oiap) auth etype nv_index ordinal
        (read_inputs ordinal nv_index offset datasize) "00 c2 T l l l l L % o %"
        (read_args nv_index offset datasize)
      >>>= λ reply. lift (
          tpm_buffer_load32 reply.response data_offset >>= λ len.
          check_reply sys reply ordinal
            (record { size = u32 (4 + len); position = data_offset } ∷ end_range ∷ [])
          >>= λ ret. copy_value reply.response len buffer buffersize)

  unfoldable pub read_plain : ℕ → ℕ → ℕ → List ℕ → ℕ → Call W (ℕ × List ℕ)
  read_plain nv_index offset datasize buffer buffersize =
      request sys "00 c1 T l l l l"
        (word (swap32 ord_nv_read_value) ∷ read_args nv_index offset datasize)
      >>>= λ tb.
          lift (tpm_buffer_load32 tb data_offset >>= λ len. copy_value tb len buffer buffersize)

  unfoldable pub tpm_nv_read_value :
      ℕ → ℕ → ℕ → Option (List ℕ) → ℕ → Option (List ℕ) → Call W (ℕ × List ℕ)
  tpm_nv_read_value nv_index offset datasize none buffersize ownauth = fail err_null_arg
  tpm_nv_read_value nv_index offset datasize (some buffer) buffersize none =
      read_plain nv_index offset datasize buffer buffersize
  tpm_nv_read_value nv_index offset datasize (some buffer) buffersize (some ownauth) =
      read_authorized ownauth et_owner ord_nv_read_value nv_index offset datasize buffer buffersize

  unfoldable pub tpm_nv_read_value_auth :
      ℕ → ℕ → ℕ → Option (List ℕ) → ℕ → Option (List ℕ) → Call W (ℕ × List ℕ)
  tpm_nv_read_value_auth nv_index offset datasize (some buffer) buffersize (some areaauth) =
      read_authorized areaauth et_nv ord_nv_read_value_auth nv_index offset datasize buffer
        buffersize
  tpm_nv_read_value_auth nv_index offset datasize _ buffersize _ = fail err_null_arg

  abbrev pub area_secret : Option (List ℕ) → List ℕ
  area_secret none = replicate hash_size 0
  area_secret (some areaauth) = areaauth

  -- TPM_NV_DefineSpace with the owner's password: the area's secret is encrypted under the
  -- session, and the nonce is made behind the session, which its failure leaves open.
  unfoldable pub define_authorized : List ℕ → List ℕ → ℕ → List ℕ → Call W ℕ
  define_authorized ownauth pub_info pub_info_size secret =
      tss_session_open sys session_osap no_session (some ownauth) et_owner 0 >>>= λ sess.
      lift (tpm_create_enc_auth sys.aes sys.sha1 sess secret none) >>>= λ encauth.
      fresh_nonce sys >>>= λ nonceodd.
      send_authorized sys sess nonceodd ord_nv_define_space
        (word_input ord_nv_define_space
          ∷ bytes_input pub_info_size pub_info
          ∷ bytes_input hash_size encauth
          ∷ end_input
          ∷ [])
        "00 c2 T l % % L % o %"
        (word pub_info_size ∷ ptr (some pub_info) ∷ word hash_size ∷ ptr (some encauth) ∷ [])
      >>>= λ tb. lift (
          check_reply sys (record { response = tb; nonceodd = nonceodd; sess = sess })
            ord_nv_define_space (end_range ∷ []))

  unfoldable pub define_plain : List ℕ → ℕ → Call W ℕ
  define_plain pub_info pub_info_size =
      request sys "00 c1 T l % %" (
        word (swap32 ord_nv_define_space)
        ∷ word pub_info_size
        ∷ ptr (some pub_info)
        ∷ word hash_size
        ∷ ptr (some (replicate hash_size 0))
        ∷ [])
      >>>= λ tb. return 0

  unfoldable pub tpm_nv_define_space :
      Option (List ℕ) → Option (List ℕ) → ℕ → Option (List ℕ) → Call W ℕ
  tpm_nv_define_space ownauth none pub_info_size areaauth = fail err_null_arg
  tpm_nv_define_space none (some pub_info) pub_info_size areaauth =
      define_plain pub_info pub_info_size
  tpm_nv_define_space (some ownauth) (some pub_info) pub_info_size areaauth =
      define_authorized ownauth pub_info pub_info_size (area_secret areaauth)

  -- TPM_NV_DefineSpace2: the public area of `size` bytes at `index`, and the definition of it.
  unfoldable pub tpm_nv_define_space2 : Option (List ℕ) → ℕ → ℕ → ℕ → Option (List ℕ) → Call W ℕ
  tpm_nv_define_space2 ownauth index size permissions areaauth =
      lift (tpm_write_pub_info stack_tpm_buffer (new_area index size permissions)).0 >>>= λ written.
      if is_error written.0
      then return written.0
      else tpm_nv_define_space ownauth (some (written.1).buffer) written.0 areaauth
