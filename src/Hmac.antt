-- ===== src/Hmac.antt =====
-- swtpm-utils/lib/hmac.c: the authorization digests of requests and their check in responses.
-- OpenSSL's SHA1 and HMAC over SHA1 are parameters, of the bytes that the Update calls add up to.
pub mod Spec
pub mod Check
pub mod Verdict
pub mod Unprotected
use tpm_luks.Common.{ℕ, zero, suc, ◌+◌, ◌-◌, ltb, ◌==◌, if◌then◌else◌, ◌&&◌, Bool, true, false}
use tpm_luks.Common.{List, [], ◌∷◌, ◌++◌, Option, none, some}
use tpm_luks.Common.Memory.{Outcome, done, failed, fault, ◌>>=◌, read_at}
use tpm_luks.Bytes.{
  u8, u32, le32, load16, load32, native_load32, err_hmac_fail, err_null_arg, err_buffer, hash_size,
  nonce_size,
}
use tpm_luks.Bytes.{return_offset}
use tpm_luks.Buffer.{TpmBuffer, tpm_buffer_load32, tpm_buffer_load32_native}
use tpm_luks.Session.{Session, tss_session_set_enonce}

abbrev pub tag_rsp_command : ℕ
tag_rsp_command = 0xc4

abbrev pub tag_rsp_auth1_command : ℕ
tag_rsp_auth1_command = 0xc5

abbrev pub tag_rsp_auth2_command : ℕ
tag_rsp_auth2_command = 0xc6

-- A pair of variable arguments: a length and a pointer, or a length and an offset.
pub record Input : Type 0 where
  pub size : ℕ
  pub data_at : Option (List ℕ)

pub record Range : Type 0 where
  pub size : ℕ
  pub position : ℕ

-- `memcmp(a, b, 20) == 0` on arrays of one length.
abbrev pub same_bytes : List ℕ → List ℕ → Bool
same_bytes [] [] = true
same_bytes (x ∷ xs) (y ∷ ys) = (x == y) && same_bytes xs ys
same_bytes _ _ = false

abbrev pub input_read : Option (List ℕ) → ℕ → Outcome (List ℕ)
input_read none n = failed err_null_arg
input_read (some bs) n = read_at bs 0 n

-- The loops of TSS_rawhmac and TSS_authhmac over their inputs: what has been hashed so far, and
-- then the rest, up to the first length of 0.
unfoldable pub hash_inputs : List ℕ → List Input → Outcome (List ℕ)
hash_inputs text [] = fault
hash_inputs text (i ∷ inputs) =
    let more = input_read i.data_at i.size >>= λ bs. hash_inputs (text ++ bs) inputs in
    if i.size == 0 then done text else more

-- The loop of TSS_checkhmac1 and TSS_checkhmac2 over the ranges of the response.
unfoldable pub hash_ranges : TpmBuffer → List ℕ → List Range → Outcome (List ℕ)
hash_ranges tb text [] = fault
hash_ranges tb text (r ∷ ranges) =
    let more = read_at tb.buffer r.position r.size >>= λ bs. hash_ranges tb (text ++ bs) ranges in
    if r.size == 0
    then done text
    else (if ltb tb.used (u32 (r.position + r.size)) then failed err_buffer else more)

-- The loop of TSS_checkhmac1New, which compares no range with the length of the response.
unfoldable pub hash_ranges_unchecked : TpmBuffer → List ℕ → List Range → Outcome (List ℕ)
hash_ranges_unchecked tb text [] = fault
hash_ranges_unchecked tb text (r ∷ ranges) =
    let more =
      read_at tb.buffer r.position r.size >>= λ bs. hash_ranges_unchecked tb (text ++ bs) ranges in
    if r.size == 0 then done text else more

-- The header of a response: the length that it carries, its tag, and its result as the machine
-- reads the four bytes.
pub record Header : Type 0 where
  pub bufsize : ℕ
  pub tag : ℕ
  pub result : ℕ

unfoldable pub read_header : TpmBuffer → Outcome Header
read_header tb = tpm_buffer_load32 tb 2 >>= λ bufsize. load16 tb.buffer 0 >>= λ tag.
    tpm_buffer_load32_native tb return_offset >>= λ result.
    done (record { bufsize = bufsize; tag = tag; result = result })

-- `n` bytes from `back` bytes in front of the end that the header gives.
unfoldable pub read_back : TpmBuffer → ℕ → ℕ → ℕ → Outcome (List ℕ)
read_back tb bufsize back n =
    if ltb bufsize back then fault else read_at tb.buffer (bufsize - back) n

abbrev pub verdict : Bool → Outcome ℕ
verdict true = done 0
verdict false = failed err_hmac_fail

-- What is hashed in front of the parameters.
abbrev pub response_text : Header → ℕ → List ℕ
response_text h command = le32 h.result ++ le32 command

-- The inputs behind the digest of the parameters: both nonces and the flag.
abbrev pub auth_inputs : List ℕ → List ℕ → List ℕ → List ℕ → List Input
auth_inputs paramdigest h1 h2 flag =
    record { size = hash_size; data_at = some paramdigest }
    ∷ record { size = nonce_size; data_at = some h1 }
    ∷ record { size = nonce_size; data_at = some h2 }
    ∷ record { size = 1; data_at = some flag }
    ∷ record { size = 0; data_at = none }
    ∷ []

module _ (sha1 : List ℕ → List ℕ) (hmac : List ℕ → List ℕ → List ℕ) where
  -- The digest of TSS_rawhmac.
  unfoldable pub tss_rawhmac : List ℕ → ℕ → List Input → Outcome (List ℕ)
  unfolding hash_inputs read_at
  tss_rawhmac key keylen inputs =
      read_at key 0 keylen >>= λ k. hash_inputs [] inputs >>= λ text. done (hmac k text)

  abbrev pub authhmac_both :
      List ℕ → ℕ → Option (List ℕ) → Option (List ℕ) → ℕ → List Input → Outcome (List ℕ)
  authhmac_both key keylen (some h1) (some h2) h3 inputs = hash_inputs [] inputs >>= λ text.
      tss_rawhmac key keylen (auth_inputs (sha1 text) h1 h2 (u8 h3 ∷ []))
  authhmac_both key keylen _ _ h3 inputs = failed err_null_arg

  unfoldable pub tss_authhmac :
      List ℕ → ℕ → Option (List ℕ) → Option (List ℕ) → ℕ → List Input → Outcome (List ℕ)
  unfolding tss_rawhmac
  tss_authhmac key keylen h1 h2 h3 inputs = authhmac_both key keylen h1 h2 h3 inputs

  -- One authorization of a response, whose digest stands `back` bytes in front of the end: the
  -- even nonce, the flag and the digest, and the digest that they ought to have.
  unfoldable pub check_auth : TpmBuffer → ℕ → ℕ → List ℕ → List ℕ → List ℕ → ℕ → Outcome Bool
  check_auth tb bufsize back paramdigest ononce key keylen =
      read_back tb bufsize (back + 1 + nonce_size) nonce_size >>= λ enonce.
      read_back tb bufsize (back + 1) 1 >>= λ flag.
      tss_rawhmac key keylen (auth_inputs paramdigest enonce ononce flag) >>= λ testhmac.
      read_back tb bufsize back hash_size >>= λ authdata. done (same_bytes testhmac authdata)

  unfoldable pub check1_tagged :
      TpmBuffer → ℕ → List ℕ → List ℕ → ℕ → List Range → Header → Outcome ℕ
  check1_tagged tb command ononce key keylen ranges h =
      let checked = hash_ranges tb (response_text h command) ranges >>= λ text.
      check_auth tb h.bufsize hash_size (sha1 text) ononce key keylen >>= λ ok. verdict ok in
      if h.tag == tag_rsp_command
      then done 0
      else (if h.tag == tag_rsp_auth1_command then checked else failed err_hmac_fail)

  -- The returned code is 0 when the response is accepted. `command` is the ordinal in network
  -- order.
  unfoldable pub tss_checkhmac1 : TpmBuffer → ℕ → List ℕ → List ℕ → ℕ → List Range → Outcome ℕ
  unfolding check1_tagged read_header hash_ranges check_auth tss_rawhmac read_back hash_inputs
      read_at load16 load32 native_load32 tpm_buffer_load32 tpm_buffer_load32_native le32
  tss_checkhmac1 tb command ononce key keylen ranges =
      read_header tb >>= λ h. check1_tagged tb command ononce key keylen ranges h

  abbrev pub accept_new : Bool → TpmBuffer → ℕ → Session → Outcome (ℕ × Session)
  accept_new true tb bufsize sess =
      read_back tb bufsize (hash_size + 1 + nonce_size) nonce_size >>= λ enonce.
      tss_session_set_enonce sess enonce >>= λ sess'. done (0, sess')
  accept_new false tb bufsize sess = failed err_hmac_fail

  -- TSS_checkhmac1New: an accepted digest leaves the new even nonce in the session.
  unfoldable pub tss_checkhmac1_new :
      TpmBuffer → ℕ → Session → List ℕ → List ℕ → ℕ → List Range → Outcome (ℕ × Session)
  unfolding hash_ranges_unchecked check_auth read_header tss_session_set_enonce tss_rawhmac
      read_back hash_inputs read_at load16 load32 native_load32 tpm_buffer_load32
      tpm_buffer_load32_native le32
  tss_checkhmac1_new tb command sess ononce key keylen ranges = read_header tb >>= λ h.
      let checked = hash_ranges_unchecked tb (response_text h command) ranges >>= λ text.
      check_auth tb h.bufsize hash_size (sha1 text) ononce key keylen >>= λ ok.
      accept_new ok tb h.bufsize sess in
      if h.tag == tag_rsp_command
      then done (0, sess)
      else (if h.tag == tag_rsp_auth1_command then checked else failed err_hmac_fail)

  unfoldable pub check2_tagged :
      TpmBuffer → ℕ → List ℕ → List ℕ → ℕ → List ℕ → List ℕ → ℕ → List Range → Header → Outcome ℕ
  check2_tagged tb command ononce1 key1 keylen1 ononce2 key2 keylen2 ranges h =
      let checked = hash_ranges tb (response_text h command) ranges >>= λ text.
      check_auth tb h.bufsize (hash_size + 1 + hash_size + hash_size) (sha1 text) ononce1 key1
        keylen1
      >>= λ ok1. check_auth tb h.bufsize hash_size (sha1 text) ononce2 key2 keylen2 >>= λ ok2.
          verdict (ok1 && ok2) in
      if h.tag == tag_rsp_command
      then done 0
      else (if h.tag == tag_rsp_auth2_command then checked else failed err_hmac_fail)

  -- TSS_checkhmac2: the first authorization stands in front of the second.
  unfoldable pub tss_checkhmac2 :
      TpmBuffer → ℕ → List ℕ → List ℕ → ℕ → List ℕ → List ℕ → ℕ → List Range → Outcome ℕ
  unfolding check2_tagged read_header hash_ranges check_auth tss_rawhmac read_back hash_inputs
      read_at load16 load32 native_load32 tpm_buffer_load32 tpm_buffer_load32_native le32
  tss_checkhmac2 tb command ononce1 key1 keylen1 ononce2 key2 keylen2 ranges =
      read_header tb >>= λ h.
      check2_tagged tb command ononce1 key1 keylen1 ononce2 key2 keylen2 ranges h
