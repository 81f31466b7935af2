-- ===== src/Serialize/Hashes.antt =====
-- What TPM_WriteQuoteInfo2, TPM_ReadCertifyInfo2, TPM_HashPCRComposite and TPM_HashPubKey of
-- swtpm-utils/lib/serialize.c do.
use tpm_luks.Common.{ℕ, ◌+◌, ◌≤◌, ◌<◌, ◌≡◌, refl, ap, ◌∙◌, arith, Bool, false, ltb}
use tpm_luks.Common.{List, [], ◌∷◌, ◌++◌, length, take, drop, Option, some, All}
use tpm_luks.Common.{lt_or_le, lt→ltb}
use tpm_luks.Common.{take-append, length-append, lt→leb, le→leb, le→ltb, if◌then◌else◌, ◌==◌}
use tpm_luks.Common.Memory.{done, fault, read_at, splice, drop-splice, length-splice}
use tpm_luks.Bytes.{be16, be32, u32}
use tpm_luks.Bytes.Laws.{length-be16, length-be32}
use tpm_luks.Buffer.{TpmBuffer, IsBuffer, stack_tpm_buffer}
use tpm_luks.Build.Fields.{Field, short, octet, raw, encode, encode_all, IsField}
use tpm_luks.Build.Refine.{appended, buildbuff-encode_all}
use tpm_luks.Serialize.Laws.{content, IsMembers, fields, write_members-encode_all}
use tpm_luks.Serialize.Pcr.{
  PcrComposite, pcr_composite_members, default_pcr_composite, tpm_write_pcr_composite,
}
use tpm_luks.Serialize.Keys.{
  Keydata, tpm_hash_pub_key, tpm_write_key_pub, alg_rsa, alg_aes128, alg_aes192, alg_aes256,
}
use tpm_luks.Common.{◌≢◌, Bool-cases, ==_iff, length-take, append_assoc, append-nil, inl, inr}
use tpm_luks.Serialize.Signed.{
  QuoteInfo2, quote_info2_members, default_quote_info2, tpm_write_quote_info2, tss_alloc_tpm_buffer,
  tpm_hash_pcr_composite, tpm_read_certify_info2,
}

-- The members in the order of the format string: the array of the selection is always there as a
-- whole.
abbrev pub quote_fields : QuoteInfo2 → List Field
quote_fields x =
    let info = x.info_short in
    let sel = info.pcr_selection in
    short x.tag
    ∷ raw x.fixed
    ∷ raw x.external_data
    ∷ short sel.size_of_select
    ∷ raw sel.pcr_select
    ∷ octet info.locality_at_release
    ∷ raw info.digest_at_release
    ∷ []

-- TPM_WriteQuoteInfo2 writes all three bytes of the selection array whatever length it wrote
-- before them: for a structure whose members have values of their types, into a buffer where at
-- least one byte stays free, it appends the tag, the four fixed bytes, the external data, the
-- length of the selection, the whole array, the locality and the digest.
pub write_quote_info2-whole_array :
    (allocates : ℕ → Bool) (x : QuoteInfo2) (tb : TpmBuffer)
    → IsBuffer tb
    → IsMembers allocates quote_info2_members (default_quote_info2 x)
    → tb.used + length (encode_all (quote_fields (default_quote_info2 x))) < tb.size
    → tpm_write_quote_info2 tb x ≡ (
      done (
        length (encode_all (quote_fields (default_quote_info2 x))),
        appended tb (encode_all (quote_fields (default_quote_info2 x))),
      ),
      default_quote_info2 x,
    )
unfolding tpm_write_quote_info2
write_quote_info2-whole_array allocates x tb b h fits =
    let y = default_quote_info2 x in
    let (t, ((f, f'), ((e, e'), ((s, a, s'), (l, ((d, d'), tt)))))) = h in
    let ok : All IsField (quote_fields y) =
      (tt, (omega arith, (omega arith, (tt, (omega arith, (tt, (omega arith, tt))))))) in
    ap (λ o. (o, y)) (rw (f, e, a, d) at (buildbuff-encode_all (quote_fields y) tb b ok fits))

-- TPM_ReadCertifyInfo2 stores through a null pointer: whenever there are four more bytes behind
-- the offset, it does not return.
read_certify_info2_faults :
    (allocates : ℕ → Bool) (tb : TpmBuffer) (offset tag : ℕ)
    → IsBuffer tb
    → offset + 4 ≤ tb.used
    → tpm_read_certify_info2 allocates tb offset tag ≡ fault
unfolding tpm_read_certify_info2
read_certify_info2_faults allocates tb offset tag b h =
    let u : u32 (offset + 1) ≡ offset + 1 = omega (arith, b.fits, b.small) in
    rw (
      u,
      lt→leb tb.used (offset + 1) (omega arith),
      le→leb (offset + 2) (length tb.buffer) (omega (arith, b.fits, b.allocated)),
    )

front_read :
    (m bs : List ℕ) → length bs ≤ length m → read_at (splice m 0 bs) 0 (length bs) ≡ done bs
unfolding read_at
front_read m bs h = rw (
  length-splice m 0 bs,
  le→leb (0 + length bs) (length m) (omega arith),
  drop-splice m 0 bs (omega arith),
  take-append (length bs) bs (drop (0 + length bs) m) refl,
)

-- The size of the buffer that TSS_AllocTPMBuffer allocates for a length.
abbrev buffer_size : ℕ → ℕ
buffer_size len = if ltb 16384 len then 16384 else if ltb len 1024 then 2048 else len

buffer_size-enough : (len : ℕ) → len ≤ 16384 → (len ≤ buffer_size len) × (buffer_size len ≤ 16384)
buffer_size-enough len h = rw (le→ltb 16384 len h) (elim (lt_or_le len 1024) [
  | inl below ↦ rw (lt→ltb len 1024 below) (omega arith, omega arith)
  | inr above ↦ rw (le→ltb len 1024 above) (omega arith, h)
])

abbrev fresh : ℕ → List ℕ → TpmBuffer
fresh len m = record { size = buffer_size len; used = 0; flags = 0; buffer = m }

alloc-fresh :
    (memory : ℕ → Option (List ℕ)) (len : ℕ) (m : List ℕ)
    → memory (buffer_size len) ≡ some m
    → tss_alloc_tpm_buffer memory len ≡ some (fresh len m)
unfolding tss_alloc_tpm_buffer
alloc-fresh memory len m e = rw e

composite_bytes : PcrComposite → List ℕ
composite_bytes x = encode_all (fields pcr_composite_members (default_pcr_composite x))

composite_written :
    (allocates : ℕ → Bool) (x : PcrComposite) (tb : TpmBuffer)
    → IsBuffer tb
    → IsMembers allocates pcr_composite_members (default_pcr_composite x)
    → tb.used + length (composite_bytes x) < tb.size
    → (tpm_write_pcr_composite tb x).0
      ≡ done (length (composite_bytes x), appended tb (composite_bytes x))
unfolding tpm_write_pcr_composite composite_bytes
composite_written allocates x tb b h fits =
    write_members-encode_all allocates (default_pcr_composite x) pcr_composite_members tb b h fits

-- The serialized composite: the length of the selection, the selected bytes, the length of the
-- values and the values.
abbrev pub serialized : PcrComposite → List ℕ
serialized x =
    let sel = x.select in
    be16 sel.size_of_select
    ++ (take sel.size_of_select sel.pcr_select
        ++ (be32 (x.pcr_value).size ++ content (x.pcr_value).buffer))

composite_bytes-serialized :
    (allocates : ℕ → Bool) (x : PcrComposite)
    → IsMembers allocates pcr_composite_members (default_pcr_composite x)
    → composite_bytes x ≡ serialized (default_pcr_composite x)
unfolding composite_bytes encode_all encode
composite_bytes-serialized allocates x ((s, a, k), (((p, l), r, f), e)) =
    let sel = (default_pcr_composite x).select in
    let front = length-take sel.size_of_select sel.pcr_select in
    let n : length (take sel.size_of_select sel.pcr_select) ≡ sel.size_of_select = omega arith in
    let values = be32 (x.pcr_value).size ++ content (x.pcr_value).buffer in
    let selected = take sel.size_of_select sel.pcr_select in
    rw (n, l)
      (append_assoc (be16 sel.size_of_select) selected (values ++ [])
        ∙ ap (λ r. be16 sel.size_of_select ++ (selected ++ r)) (append-nil values))

length-composite_bytes :
    (allocates : ℕ → Bool) (x : PcrComposite)
    → IsMembers allocates pcr_composite_members (default_pcr_composite x)
    → length (composite_bytes x) ≤ (x.pcr_value).size + 9
length-composite_bytes allocates x h =
    let ((s, a, k), (((p, l), r, f), e)) = h in
    let sel = (default_pcr_composite x).select in
    let front = length-take sel.size_of_select sel.pcr_select in
    let outer = length-append (be16 sel.size_of_select) (
      take sel.size_of_select sel.pcr_select
      ++ (be32 (x.pcr_value).size ++ content (x.pcr_value).buffer)) in
    let middle =
      length-append (take sel.size_of_select sel.pcr_select)
        (be32 (x.pcr_value).size ++ content (x.pcr_value).buffer) in
    let inner = length-append (be32 (x.pcr_value).size) (content (x.pcr_value).buffer) in
    rw (composite_bytes-serialized allocates x h) (
      omega (
        arith,
        outer,
        middle,
        inner,
        front,
        length-be16 sel.size_of_select,
        length-be32 (x.pcr_value).size,
      ))

-- TPM_HashPCRComposite computes the SHA-1 of the serialized composite: for a composite whose
-- members have values of their types, a PCR value of less than 16 kB and a malloc that gives
-- what it is asked for, it returns 0 and the hash of the length of the selection, the selected
-- bytes, the length of the values and the values, with three zero bytes for an empty selection.
pub hash_pcr_composite-sha1 :
    (allocates : ℕ → Bool) (sha1 : List ℕ → List ℕ) (memory : ℕ → Option (List ℕ))
    (x : PcrComposite)
    → IsMembers allocates pcr_composite_members (default_pcr_composite x)
    → (x.pcr_value).size < 16000
    → ((n : ℕ) → (m : List ℕ) × (memory n ≡ some m) × (length m ≡ n))
    → tpm_hash_pcr_composite sha1 memory x
      ≡ done (0, some (sha1 (serialized (default_pcr_composite x))))
unfolding tpm_hash_pcr_composite
hash_pcr_composite-sha1 allocates sha1 memory x h small gives =
    let len = (x.pcr_value).size + 24 in
    let (m, e, l) = gives (buffer_size len) in
    let room = buffer_size-enough len (omega arith) in
    let tb = fresh len m in
    let b : IsBuffer tb = record {
      fits = omega arith;
      allocated = omega arith;
      small = omega (arith, room.1);
    } in
    let small_bytes = length-composite_bytes allocates x h in
    let fits : 0 + length (composite_bytes x) < buffer_size len = omega (arith, room.0) in
    rw
      (
        alloc-fresh memory len m e,
        composite_written allocates x tb b h fits,
        front_read m (composite_bytes x) (omega arith),
      )
      (ap (λ bs. done (0, some (sha1 bs))) (composite_bytes-serialized allocates x h))

differs : (a b : ℕ) → a ≢ b → (a == b) ≡ false
differs a b h = elim (Bool-cases (a == b)) [ inl e ↦ absurd (h ((==_iff a b).0 e)) | inr e ↦ e ]

-- TPM_HashPubKey hashes as many bytes as the error code says when TPM_WriteKeyPub fails: for a
-- key whose algorithm is neither RSA nor AES, it reads behind the memory of its buffer.
hash_pub_key_overreads :
    (sha1 : List ℕ → List ℕ) (k : Keydata)
    → (let alg = ((k.public).algorithm_parms).algorithm_id in
        alg ≢ alg_rsa
        → alg ≢ alg_aes128
        → alg ≢ alg_aes192
        → alg ≢ alg_aes256
        → tpm_hash_pub_key sha1 k ≡ fault)
unfolding tpm_hash_pub_key tpm_write_key_pub read_at stack_tpm_buffer
hash_pub_key_overreads sha1 k r a b c =
    let alg = ((k.public).algorithm_parms).algorithm_id in
    rw
      (
        differs alg alg_rsa r,
        differs alg alg_aes128 a,
        differs alg alg_aes192 b,
        differs alg alg_aes256 c,
      )
      refl
