-- ===== src/Hmac/Verdict.antt =====
-- What the verdict of TSS_checkhmac1 depends on: forged digests, and ranges of the
-- response whose ends wrap around.
use tpm_luks.Common.{
  ℕ, ◌+◌, ◌≤◌, ◌<◌, ◌≡◌, ◌≢◌, refl, ap₂, ap, ◌∙◌, arith, le→ltb, lt→leb, ◌==◌, ==_iff, true, false,
  Bool-cases, inl, inr,
}
use tpm_luks.Common.{List, [], ◌∷◌, ◌++◌, length}
use tpm_luks.Common.Memory.{done, failed, fault, read_at}
use tpm_luks.Bytes.{u32, be32, swap32, err_hmac_fail}
use tpm_luks.Buffer.{TpmBuffer}
use tpm_luks.Hmac.{
  Range, Header, hash_ranges, read_header, verdict, same_bytes, check1_tagged, tss_checkhmac1,
  tag_rsp_auth1_command,
}
use tpm_luks.Hmac.Spec.{concat, auth_digest, ranges_of, Response, received, IsResponse}
use tpm_luks.Hmac.Check.{checkhmac1-auth_digest, header_to_check}

same_bytes_sound : (xs ys : List ℕ) → same_bytes xs ys ≡ true → xs ≡ ys
same_bytes_sound [] [] h = refl
same_bytes_sound [] (y ∷ ys) h = absurd (grind (arith, h))
same_bytes_sound (x ∷ xs) [] h = absurd (grind (arith, h))
same_bytes_sound (x ∷ xs) (y ∷ ys) h = elim (Bool-cases (x == y)) [
  | inl e ↦ ap₂ (λ a bs. a ∷ bs) ((==_iff x y).0 e) (same_bytes_sound xs ys (rw e at h))
  | inr e ↦ absurd (grind (arith, rw e at h))
]

-- TSS_checkhmac1 on a well-formed AUTH1 response that carries another digest than the
-- authorization digest of its contents returns ERR_HMAC_FAIL.
pub checkhmac1_refuses_forged :
    (sha1 : List ℕ → List ℕ) (hmac : List ℕ → List ℕ → List ℕ)
    (digest : (bs : List ℕ) → length (sha1 bs) ≡ 20) (r : Response) (size : ℕ) (rest : List ℕ)
    → IsResponse r
    → (ordinal : ℕ) (key ononce : List ℕ) → length ononce ≡ 20
    → auth_digest sha1 hmac key
        ((be32 r.result ++ be32 ordinal) ++ concat r.pieces)
        r.enonce
        ononce
        r.flag
      ≢ r.auth
    → tss_checkhmac1 sha1 hmac
        (received r size rest)
        (swap32 ordinal)
        ononce
        key
        (length key)
        (ranges_of 10 r.pieces)
      ≡ failed err_hmac_fail
checkhmac1_refuses_forged sha1 hmac digest r size rest ok ordinal key ononce e other =
    let right =
      auth_digest sha1 hmac key ((be32 r.result ++ be32 ordinal) ++ concat r.pieces) r.enonce ononce
        r.flag in
    checkhmac1-auth_digest sha1 hmac digest r size rest ok ordinal key ononce e
    ∙ elim (Bool-cases (same_bytes right r.auth)) [
      | inl same ↦ absurd (other (same_bytes_sound right r.auth same))
      | inr differ ↦ ap verdict differ
    ]

-- TSS_checkhmac1 for an AUTH1 response and a first range that is longer than the memory of the
-- response, but whose end wraps around to an offset inside: the bounds check passes, and the
-- bytes behind the memory are hashed.
pub checkhmac1_range_wraps :
    (sha1 : List ℕ → List ℕ) (hmac : List ℕ → List ℕ → List ℕ) (tb : TpmBuffer) (command : ℕ)
    (ononce key : List ℕ) (keylen position size : ℕ) (ranges : List Range) (h : Header)
    → read_header tb ≡ done h
    → h.tag ≡ tag_rsp_auth1_command
    → length tb.buffer < size
    → u32 (position + size) ≤ tb.used
    → tss_checkhmac1 sha1 hmac tb command ononce key keylen
        (record { size = size; position = position } ∷ ranges)
      ≡ fault
unfolding check1_tagged hash_ranges read_at
checkhmac1_range_wraps sha1 hmac tb command ononce key keylen position size ranges h e t long
      wraps =
    let range : Range = record { size = size; position = position } in
    let some_bytes : (size == 0) ≡ false = ground arith in
    header_to_check sha1 hmac tb command ononce key keylen (range ∷ ranges) h e
    ∙ rw (
      t,
      some_bytes,
      le→ltb tb.used (u32 (position + size)) wraps,
      lt→leb (position + size) (length tb.buffer) (omega arith),
    )
