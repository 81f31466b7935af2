-- ===== src/Hmac/Check.antt =====
-- The digests that hmac.c computes and checks against those of the authorization protocol.
use tpm_luks.Common.{
  ℕ, ◌+◌, ◌-◌, ◌^◌, ◌≤◌, ◌<◌, ◌≡◌, refl, sym, ap, ◌∙◌, arith, le→leb, lt→leb, le→ltb, ◌==◌, false,
}
use tpm_luks.Common.{
  List, [], ◌∷◌, ◌++◌, length, length-append, drop-append, take-append, append_assoc, append-nil,
  All, some,
}
use tpm_luks.Common.Memory.{done, read_at, ◌>>=◌}
use tpm_luks.Bytes.{
  u8, u32, be16, be32, le32, load16, load32, native_load32, native_word_of, swap32,
}
use tpm_luks.Bytes.Laws.{length-be32, length-be16, word_of-be32, le32-swap32}
use tpm_luks.Buffer.{TpmBuffer, tpm_buffer_load32, tpm_buffer_load32_native}
use tpm_luks.Hmac.{
  Input, Range, Header, hash_inputs, hash_ranges, read_header, read_back, tss_rawhmac, auth_inputs,
  tss_authhmac, check_auth, verdict, same_bytes, check1_tagged, tss_checkhmac1,
  tag_rsp_auth1_command,
}
use tpm_luks.Hmac.Spec.{
  concat, auth_digest, inputs_of, ranges_of, Response, response_size, response_bytes, received,
  IsResponse,
}

pub read_middle :
    (xs ys zs : List ℕ) (o n : ℕ)
    → o ≡ length xs
    → n ≡ length ys
    → read_at (xs ++ (ys ++ zs)) o n ≡ done ys
unfolding read_at
read_middle xs ys zs o n e f =
    let l : length (xs ++ (ys ++ zs)) ≡ length xs + (length ys + length zs) =
      length-append xs (ys ++ zs) ∙ ap (λ k. length xs + k) (length-append ys zs) in
    rw (le→leb (o + n) (length (xs ++ (ys ++ zs))) (omega arith), drop-append o xs (ys ++ zs) e)
      (ap done (take-append n ys zs f))

hash_inputs_run :
    (text : List ℕ) (ps : List (List ℕ))
    → All (λ p. 0 < length p) ps
    → hash_inputs text (inputs_of ps) ≡ done (text ++ concat ps)
unfolding hash_inputs
hash_inputs_run text [] ok = rw (append-nil text)
hash_inputs_run text (p ∷ ps) ok =
    let some_bytes : (length p == 0) ≡ false = ground (arith, ok.0) in
    let read : read_at p 0 (length p) ≡ done p =
      rw append-nil at (read_middle [] p [] 0 (length p) refl refl) in
    rw (some_bytes, read, hash_inputs_run (text ++ p) ps ok.1, append_assoc text p (concat ps))

hash_ranges_run :
    (tb : TpmBuffer) (text before : List ℕ) (ps : List (List ℕ)) (after : List ℕ) (pos : ℕ)
    → tb.buffer ≡ before ++ (concat ps ++ after)
    → pos ≡ length before
    → length before + length (concat ps) ≤ tb.used
    → tb.used < 2 ^ 32
    → All (λ p. 0 < length p) ps
    → hash_ranges tb text (ranges_of pos ps) ≡ done (text ++ concat ps)
unfolding hash_ranges
hash_ranges_run tb text before [] after pos m e inside small ok = rw (append-nil text)
hash_ranges_run tb text before (p ∷ ps) after pos m e inside small ok =
    let l = length-append p (concat ps) in
    let some_bytes : (length p == 0) ≡ false = ground (arith, ok.0) in
    let u : u32 (pos + length p) ≡ pos + length p = omega (arith, l) in
    let here : tb.buffer ≡ before ++ (p ++ (concat ps ++ after)) =
      m ∙ ap (λ t. before ++ t) (append_assoc p (concat ps) after) in
    let next : tb.buffer ≡ (before ++ p) ++ (concat ps ++ after) =
      here ∙ sym (append_assoc before p (concat ps ++ after)) in
    let read : read_at tb.buffer pos (length p) ≡ done p =
      rw here (read_middle before p (concat ps ++ after) pos (length p) e refl) in
    rw
      (
        some_bytes,
        u,
        le→ltb tb.used (pos + length p) (omega (arith, l)),
        read,
        hash_ranges_run tb (text ++ p) (before ++ p) ps after (pos + length p) next
            (omega (arith, length-append before p)) (omega (arith, l, length-append before p)) small
            ok.1,
      )
      (ap done (append_assoc text p (concat ps)))

auth_inputs_run :
    (paramdigest h1 h2 flag : List ℕ)
    → length paramdigest ≡ 20
    → length h1 ≡ 20
    → length h2 ≡ 20
    → length flag ≡ 1
    → hash_inputs [] (auth_inputs paramdigest h1 h2 flag)
      ≡ done (paramdigest ++ (h1 ++ (h2 ++ flag)))
auth_inputs_run paramdigest h1 h2 flag e0 e1 e2 e3 =
    let ok : All (λ p. 0 < length p) (paramdigest ∷ h1 ∷ h2 ∷ flag ∷ []) =
      (omega arith, (omega arith, (omega arith, (omega arith, tt)))) in
    rw (e0, e1, e2, e3, append-nil flag) at
      (hash_inputs_run [] (paramdigest ∷ h1 ∷ h2 ∷ flag ∷ []) ok)

-- The digest of a key, with both nonces and the flag behind the digest of the parameters.
rawhmac_runs :
    (sha1 : List ℕ → List ℕ) (hmac : List ℕ → List ℕ → List ℕ) (key paramdigest h1 h2 flag : List ℕ)
    → length paramdigest ≡ 20
    → length h1 ≡ 20
    → length h2 ≡ 20
    → length flag ≡ 1
    → tss_rawhmac sha1 hmac key (length key) (auth_inputs paramdigest h1 h2 flag)
      ≡ done (hmac key (paramdigest ++ (h1 ++ (h2 ++ flag))))
unfolding tss_rawhmac
rawhmac_runs sha1 hmac key paramdigest h1 h2 flag e0 e1 e2 e3 =
    let read : read_at key 0 (length key) ≡ done key =
      rw append-nil at (read_middle [] key [] 0 (length key) refl refl) in
    let text = auth_inputs_run paramdigest h1 h2 flag e0 e1 e2 e3 in
    rw read (ap (λ x. x >>= λ text. done (hmac key text)) text)

module _ (sha1 : List ℕ → List ℕ) (hmac : List ℕ → List ℕ → List ℕ)
    (digest : (bs : List ℕ) → length (sha1 bs) ≡ 20) where
  -- The digest of any inputs whose text is known.
  pub authhmac_of :
      (key enonce ononce text : List ℕ) (flag : ℕ) (inputs : List Input)
      → length enonce ≡ 20
      → length ononce ≡ 20
      → hash_inputs [] inputs ≡ done text
      → tss_authhmac sha1 hmac key (length key) (some enonce) (some ononce) flag inputs
        ≡ done (auth_digest sha1 hmac key text enonce ononce (u8 flag))
  unfolding tss_authhmac
  authhmac_of key enonce ononce text flag inputs e1 e2 hashed =
      rw hashed (
        rawhmac_runs sha1 hmac key (sha1 text) enonce ononce (u8 flag ∷ []) (digest text) e1 e2
          refl)

  -- TSS_authhmac on both nonces and on pieces of the parameters that are not empty computes the
  -- authorization digest of their concatenation.
  pub authhmac-auth_digest :
      (key enonce ononce : List ℕ) (flag : ℕ) (pieces : List (List ℕ))
      → length enonce ≡ 20
      → length ononce ≡ 20
      → All (λ p. 0 < length p) pieces
      → tss_authhmac sha1 hmac key (length key) (some enonce) (some ononce) flag (inputs_of pieces)
        ≡ done (auth_digest sha1 hmac key (concat pieces) enonce ononce (u8 flag))
  authhmac-auth_digest key enonce ononce flag pieces e1 e2 ok =
      authhmac_of key enonce ononce (concat pieces) flag (inputs_of pieces) e1 e2
        (hash_inputs_run [] pieces ok)

le32-be32 : (v : ℕ) → le32 (native_word_of (be32 v)) ≡ be32 v
unfolding le32 be32
le32-be32 v = ground arith

-- The parts of a response in front of the parameters.
opening : Response → List ℕ
opening r = be16 tag_rsp_auth1_command ++ (be32 (response_size r) ++ be32 r.result)

module _ (r : Response) (size : ℕ) (rest : List ℕ) (ok : IsResponse r) where
  read_header_runs :
      read_header (received r size rest)
      ≡ done (record {
        bufsize = response_size r;
        tag = tag_rsp_auth1_command;
        result = native_word_of (be32 r.result);
      })
  unfolding read_header response_bytes tpm_buffer_load32 tpm_buffer_load32_native load32 load16
      native_load32
  read_header_runs =
      let tag = be16 tag_rsp_auth1_command in
      let front = be32 (response_size r) in
      let body = concat r.pieces ++ (r.enonce ++ (r.flag ∷ (r.auth ++ rest))) in
      let e1 : read_at (tag ++ (front ++ (be32 r.result ++ body))) 0 2 ≡ done tag =
        read_middle [] tag (front ++ (be32 r.result ++ body)) 0 2 refl
          (sym (length-be16 tag_rsp_auth1_command)) in
      let e2 : read_at (tag ++ (front ++ (be32 r.result ++ body))) 2 4 ≡ done front =
        read_middle tag front (be32 r.result ++ body) 2 4 (sym (length-be16 tag_rsp_auth1_command))
          (sym (length-be32 (response_size r))) in
      let e3 : read_at (tag ++ (front ++ (be32 r.result ++ body))) 6 4 ≡ done (be32 r.result) =
        rw append_assoc at (
          read_middle (tag ++ front) (be32 r.result) body 6 4
            (omega (
              arith,
              length-append tag front,
              length-be16 tag_rsp_auth1_command,
              length-be32 (response_size r),
            ))
            (sym (length-be32 r.result))) in
      rw (
        lt→leb (response_size r) 5 (omega arith),
        e2,
        e1,
        lt→leb (response_size r) 9 (omega arith),
        e3,
        word_of-be32 (response_size r) ok.small,
      )

  -- What stands behind the parameters.
  from_trailer : List ℕ
  from_trailer = r.enonce ++ (r.flag ∷ (r.auth ++ rest))

  -- The bytes split in front of the parameters, and behind them.
  split_parameters : response_bytes r rest ≡ opening r ++ (concat r.pieces ++ from_trailer)
  unfolding response_bytes opening from_trailer
  split_parameters = refl

  length-opening : length (opening r) ≡ 10
  unfolding opening be16 be32
  length-opening = refl

  split_nonce : response_bytes r rest ≡ (opening r ++ concat r.pieces) ++ from_trailer
  split_nonce = split_parameters ∙ sym (append_assoc (opening r) (concat r.pieces) from_trailer)

  split_flag :
      response_bytes r rest
      ≡ ((opening r ++ concat r.pieces) ++ r.enonce) ++ ((r.flag ∷ []) ++ (r.auth ++ rest))
  unfolding from_trailer
  split_flag =
      split_nonce
      ∙ sym (append_assoc (opening r ++ concat r.pieces) r.enonce (r.flag ∷ (r.auth ++ rest)))

  split_digest :
      response_bytes r rest
      ≡ (((opening r ++ concat r.pieces) ++ r.enonce) ++ (r.flag ∷ [])) ++ (r.auth ++ rest)
  split_digest =
      split_flag
      ∙ sym
          (append_assoc ((opening r ++ concat r.pieces) ++ r.enonce) (r.flag ∷ []) (r.auth ++ rest))

  length_front : length (opening r ++ concat r.pieces) ≡ 10 + length (concat r.pieces)
  length_front = omega (arith, length-append (opening r) (concat r.pieces), length-opening)

  length_flag : length ((opening r ++ concat r.pieces) ++ r.enonce) ≡ 30 + length (concat r.pieces)
  length_flag =
      omega (arith, length-append (opening r ++ concat r.pieces) r.enonce, length_front, ok.nonce)

  length_digest :
      length (((opening r ++ concat r.pieces) ++ r.enonce) ++ (r.flag ∷ []))
      ≡ 31 + length (concat r.pieces)
  length_digest =
      omega (
        arith,
        length-append ((opening r ++ concat r.pieces) ++ r.enonce) (r.flag ∷ []),
        length_flag,
      )

  read_nonce : read_back (received r size rest) (response_size r) 41 20 ≡ done r.enonce
  unfolding read_back from_trailer
  read_nonce =
      rw (le→ltb (response_size r) 41 (omega arith), split_nonce)
        (read_middle (opening r ++ concat r.pieces) r.enonce (r.flag ∷ (r.auth ++ rest))
          (response_size r - 41) 20 (omega (arith, length_front)) (sym ok.nonce))

  read_flag : read_back (received r size rest) (response_size r) 21 1 ≡ done (r.flag ∷ [])
  unfolding read_back
  read_flag =
      rw (le→ltb (response_size r) 21 (omega arith), split_flag)
        (read_middle ((opening r ++ concat r.pieces) ++ r.enonce) (r.flag ∷ []) (r.auth ++ rest)
          (response_size r - 21) 1 (omega (arith, length_flag)) refl)

  read_digest : read_back (received r size rest) (response_size r) 20 20 ≡ done r.auth
  unfolding read_back
  read_digest =
      rw (le→ltb (response_size r) 20 (omega arith), split_digest)
        (read_middle (((opening r ++ concat r.pieces) ++ r.enonce) ++ (r.flag ∷ [])) r.auth rest
          (response_size r - 20) 20 (omega (arith, length_digest)) (sym ok.digest))

  ranges_run :
      (text : List ℕ)
      → hash_ranges (received r size rest) text (ranges_of 10 r.pieces)
        ≡ done (text ++ concat r.pieces)
  ranges_run text =
      hash_ranges_run (received r size rest) text (opening r) r.pieces from_trailer 10
        split_parameters (sym length-opening) (omega (arith, length-opening)) ok.small ok.some_bytes

module _ (sha1 : List ℕ → List ℕ) (hmac : List ℕ → List ℕ → List ℕ) where
  pub header_to_check :
      (tb : TpmBuffer) (command : ℕ) (ononce key : List ℕ) (keylen : ℕ) (ranges : List Range)
      (h : Header)
      → read_header tb ≡ done h
      → tss_checkhmac1 sha1 hmac tb command ononce key keylen ranges
        ≡ check1_tagged sha1 hmac tb command ononce key keylen ranges h
  unfolding tss_checkhmac1
  header_to_check tb command ononce key keylen ranges h e =
      ap (λ x. x >>= λ h. check1_tagged sha1 hmac tb command ononce key keylen ranges h) e

  check_auth_runs :
      (tb : TpmBuffer) (bufsize : ℕ) (paramdigest enonce ononce key auth : List ℕ) (flag : ℕ)
      → read_back tb bufsize 41 20 ≡ done enonce
      → read_back tb bufsize 21 1 ≡ done (flag ∷ [])
      → read_back tb bufsize 20 20 ≡ done auth
      → length paramdigest ≡ 20
      → length enonce ≡ 20
      → length ononce ≡ 20
      → check_auth sha1 hmac tb bufsize 20 paramdigest ononce key (length key)
        ≡ done (same_bytes (hmac key (paramdigest ++ (enonce ++ (ononce ++ (flag ∷ []))))) auth)
  unfolding check_auth
  check_auth_runs tb bufsize paramdigest enonce ononce key auth flag r1 r2 r3 e0 e1 e2 =
      rw
        (r1, r2, rawhmac_runs sha1 hmac key paramdigest enonce ononce (flag ∷ []) e0 e1 e2 refl, r3)

-- TSS_checkhmac1 on a well-formed AUTH1 response with no empty piece, called with the ranges of its
-- parameters: it is judged by whether the digest that the response carries is the authorization
-- digest of the result, the ordinal and the parameters, under the even nonce and the flag of the
-- response, the odd nonce of the request and the key.
pub checkhmac1-auth_digest :
    (sha1 : List ℕ → List ℕ) (hmac : List ℕ → List ℕ → List ℕ)
    (digest : (bs : List ℕ) → length (sha1 bs) ≡ 20) (r : Response) (size : ℕ) (rest : List ℕ)
    → IsResponse r
    → (ordinal : ℕ) (key ononce : List ℕ) → length ononce ≡ 20
    → tss_checkhmac1 sha1 hmac
        (received r size rest)
        (swap32 ordinal)
        ononce
        key
        (length key)
        (ranges_of 10 r.pieces)
      ≡ verdict (
          same_bytes
            (auth_digest sha1 hmac key
              ((be32 r.result ++ be32 ordinal) ++ concat r.pieces)
              r.enonce
              ononce
              r.flag)
            r.auth)
unfolding check1_tagged
checkhmac1-auth_digest sha1 hmac digest r size rest ok ordinal key ononce e =
    let text = (be32 r.result ++ be32 ordinal) ++ concat r.pieces in
    header_to_check sha1 hmac (received r size rest) (swap32 ordinal) ononce key (length key)
      (ranges_of 10 r.pieces) _ (read_header_runs r size rest ok)
    ∙ rw (
      le32-be32 r.result,
      le32-swap32 ordinal,
      ranges_run r size rest ok (be32 r.result ++ be32 ordinal),
      check_auth_runs sha1 hmac (received r size rest) (response_size r) (sha1 text) r.enonce ononce
          key r.auth r.flag (read_nonce r size rest ok) (read_flag r size rest ok)
          (read_digest r size rest ok) (digest text) ok.nonce e,
    )
