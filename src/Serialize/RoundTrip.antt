-- ===== src/Serialize/RoundTrip.antt =====
-- What the Read functions of swtpm-utils/lib/serialize.c make of what the Write functions wrote.
use tpm_luks.Common.{
  ℕ, zero, suc, ◌+◌, ◌/◌, ◌%◌, ◌^◌, ◌≤◌, ◌<◌, ◌≡◌, refl, ap, ◌∙◌, arith, Bool, true, false, ltb,
}
use tpm_luks.Common.{List, [], ◌∷◌, ◌++◌, length, take, drop, append-nil}
use tpm_luks.Common.{if◌then◌else◌, ◌==◌, ==_iff, Bool-cases, inl, inr, sym}
use tpm_luks.Common.Memory.{Outcome, done, ◌>>=◌}
use tpm_luks.Bytes.{is_error, err_structure}
use tpm_luks.Buffer.{TpmBuffer, IsBuffer}
use tpm_luks.Build.Fields.{encode_all}
use tpm_luks.Build.Steps.{and-false}
use tpm_luks.Serialize.{overlay, replace, expect_tag}
use tpm_luks.Serialize.Laws.{
  content, IsMembers, fields, put_all, read_members-write_members, write_members-encode_all,
}
use tpm_luks.Serialize.Pcr.{PcrSelection, PcrInfoShort, SizedBuffer}
use tpm_luks.Serialize.Public.{
  NvDataPublic, nv_data_public_members, default_nv_data_public, tpm_write_pub_info,
  tpm_read_nv_data_public,
}
use tpm_luks.Serialize.Blobs.{
  ContextBlob, context_blob_members, tpm_write_context_blob, tpm_read_context_blob, tag_contextblob,
}
use tpm_luks.Serialize.Keys.{
  Keydata, Pubkeydata, SizedArray, key12_members, tpm_write_key, tpm_read_key, tag_key12, tag_of,
}

drop-full : (xs : List ℕ) (n : ℕ) → length xs ≤ n → drop n xs ≡ []
drop-full [] zero h = refl
drop-full [] (suc n) h = refl
drop-full (x ∷ xs) zero h = absurd (omega arith)
drop-full (x ∷ xs) (suc n) h = drop-full xs n (omega arith)

-- An array that is read as a whole keeps nothing of what was there.
overlay-full : (bs old : List ℕ) (n : ℕ) → length bs ≡ n → length old ≡ n → overlay bs old ≡ bs
overlay-full bs old n e e' =
    ap (λ r. bs ++ r) (drop-full old (length bs) (omega arith)) ∙ append-nil bs

-- A selection read into `old`: the bytes behind the selected ones are those of `old`.
abbrev pub selection_into : PcrSelection → PcrSelection → PcrSelection
selection_into x old = record x {
  pcr_select = overlay (take x.size_of_select x.pcr_select) old.pcr_select;
}

abbrev pub info_into : PcrInfoShort → PcrInfoShort → PcrInfoShort
info_into x old = record x { pcr_selection = selection_into x.pcr_selection old.pcr_selection }

abbrev pub public_into : NvDataPublic → NvDataPublic → NvDataPublic
public_into x old = record x {
  pcr_info_read = info_into x.pcr_info_read old.pcr_info_read;
  pcr_info_write = info_into x.pcr_info_write old.pcr_info_write;
}

public_into-put_all :
    (x old : NvDataPublic)
    → length (x.pcr_info_read).digest_at_release ≡ 20
    → length (x.pcr_info_write).digest_at_release ≡ 20
    → length (old.pcr_info_read).digest_at_release ≡ 20
    → length (old.pcr_info_write).digest_at_release ≡ 20
    → put_all nv_data_public_members x old ≡ public_into x old
public_into-put_all x old r w r' w' = rw (
  overlay-full (x.pcr_info_read).digest_at_release (old.pcr_info_read).digest_at_release 20 r r',
  overlay-full (x.pcr_info_write).digest_at_release (old.pcr_info_write).digest_at_release 20 w w',
)

-- What TPM_WritePubInfo writes, TPM_ReadNVDataPublic reads back: for a public area whose members
-- have values of their types, written to a buffer where at least one byte stays free, the write
-- succeeds after an empty PCR selection became three zero bytes, and the read, begun where the
-- write began, returns the same number and fills every member of `old` with the one written,
-- except the bytes of a selection array behind its length, which stay those of `old`.
pub read_nv_data_public-write_pub_info :
    (allocates : ℕ → Bool) (x old : NvDataPublic) (tb : TpmBuffer)
    → IsBuffer tb
    → IsMembers allocates nv_data_public_members (default_nv_data_public x)
    → IsMembers allocates nv_data_public_members old
    → tb.used + length (encode_all (fields nv_data_public_members (default_nv_data_public x)))
      < tb.size
    → (n : ℕ) × (tb' : TpmBuffer) × (tpm_write_pub_info tb x
        ≡ (done (n, tb'), default_nv_data_public x))
      × (tpm_read_nv_data_public allocates tb' tb.used old
          ≡ done (n, public_into (default_nv_data_public x) old))
unfolding tpm_write_pub_info tpm_read_nv_data_public
read_nv_data_public-write_pub_info allocates x old tb b h h' fits =
    let y = default_nv_data_public x in
    let (n, tb', w, r) =
      read_members-write_members allocates y nv_data_public_members tb old b h fits in
    let (t, (i, (s, (l, ((d, k), (s2, (l2, ((d2, k2), more)))))))) = h in
    let (t', (i', (s', (l', ((d', k'), (s2', (l2', ((d2', k2'), more')))))))) = h' in
    let same = public_into-put_all y old d d2 d' d2' in
    (n, tb', ap (λ o. (o, y)) w, r ∙ ap (λ z. done (n, z)) same)

-- A pointer read into `old`: nothing is allocated for no bytes.
abbrev pub buffer_into : SizedBuffer → SizedBuffer → SizedBuffer
buffer_into x old = record x { buffer = replace (content x.buffer) old.buffer }

abbrev pub blob_into : ContextBlob → ContextBlob → ContextBlob
blob_into x old = record x {
  additional_data = buffer_into x.additional_data old.additional_data;
  sensitive_data = buffer_into x.sensitive_data old.sensitive_data;
}

blob_into-put_all :
    (x old : ContextBlob)
    → length x.label ≡ 16
    → length x.integrity_digest ≡ 20
    → length old.label ≡ 16
    → length old.integrity_digest ≡ 20
    → put_all context_blob_members x old ≡ blob_into x old
blob_into-put_all x old l d l' d' = rw (
  overlay-full x.label old.label 16 l l',
  overlay-full x.integrity_digest old.integrity_digest 20 d d',
)

no_error : (n : ℕ) → n < 2 ^ 31 → is_error n ≡ false
no_error n h = ground arith

abbrev written : Outcome (ℕ × TpmBuffer) → ℕ
written (done r) = r.0
written _ = 0

-- The check of the tag behind a parse that succeeded.
expect_tag-success :
    {A : Type 0} (tag : ℕ) (get : A → ℕ) (n : ℕ) (x : A)
    → n < 2 ^ 31
    → expect_tag tag get (n, x) ≡ (if get x == tag then n else err_structure, x)
expect_tag-success tag get n x h =
    rw (no_error n h) (elim (Bool-cases (get x == tag)) [ inl e ↦ rw e | inr e ↦ rw e ])

-- What TPM_WriteContextBlob writes, TPM_ReadContextBlob reads back, and accepts it exactly with
-- the tag of a context blob: for a blob whose members have values of their types, written to a
-- buffer where at least one byte stays free, the read, begun where the write began, fills the
-- members of `old` with those written (a pointer is replaced where bytes were allocated), and
-- returns the number of bytes if the tag is TPM_TAG_CONTEXTBLOB and ERR_STRUCTURE otherwise.
pub read_context_blob-write_context_blob :
    (allocates : ℕ → Bool) (x old : ContextBlob) (tb : TpmBuffer)
    → IsBuffer tb
    → IsMembers allocates context_blob_members x
    → length old.label ≡ 16
    → length old.integrity_digest ≡ 20
    → tb.used + length (encode_all (fields context_blob_members x)) < tb.size
    → (n : ℕ) × (tb' : TpmBuffer) × (tpm_write_context_blob tb x ≡ done (n, tb'))
      × (tpm_read_context_blob allocates tb' tb.used old
          ≡ done (if x.tag == tag_contextblob then n else err_structure, blob_into x old))
unfolding tpm_write_context_blob tpm_read_context_blob
read_context_blob-write_context_blob allocates x old tb b h l' d' fits =
    let ms = context_blob_members in
    let n = length (encode_all (fields ms x)) in
    let (n', tb', w, r) = read_members-write_members allocates x ms tb old b h fits in
    let (t, (rt, (hd, ((l, k), (c, ((d, k2), more)))))) = h in
    let same = blob_into-put_all x old l d l' d' in
    let e : n' ≡ n = ap written (sym w ∙ write_members-encode_all allocates x ms tb b h fits) in
    let checked =
      expect_tag-success tag_contextblob (λ y. y.tag) n' (put_all ms x old)
        (omega (arith, b.small)) in
    (
      n',
      tb',
      w,
      ap (λ o. o >>= λ r. done (expect_tag tag_contextblob (λ y. y.tag) r)) r
          ∙ ap done checked
          ∙ ap (λ z. done (if x.tag == tag_contextblob then n' else err_structure, z)) same,
    )

abbrev pub array_into : SizedArray → SizedArray → SizedArray
array_into x old = record x { buffer = overlay (take x.size x.buffer) old.buffer }

-- A public key read into `old`.
abbrev pub pubkey_into : Pubkeydata → Pubkeydata → Pubkeydata
pubkey_into x old =
    let parms = x.algorithm_parms in
    let rsa = parms.rsa_key_parms in
    let key = x.pub_key in
    record x {
      algorithm_parms = record parms {
        rsa_key_parms = record rsa {
          exponent =
              overlay (take rsa.exponent_size rsa.exponent)
                ((old.algorithm_parms).rsa_key_parms).exponent;
        };
      };
      pub_key = record key {
        modulus = overlay (take key.key_length key.modulus) (old.pub_key).modulus;
      };
      pcr_info = array_into x.pcr_info old.pcr_info;
    }

-- A key of version 1.2 read into `old`: of the version, only the bytes of the tag are there.
abbrev pub key12_into : Keydata → Keydata → Keydata
key12_into x old = record x {
  ver = record old.ver { major = (x.ver).major; minor = (x.ver).minor };
  public = pubkey_into x.public old.public;
  enc_data = array_into x.enc_data old.enc_data;
}

key12_into-put_all :
    (x old : Keydata)
    → (x.ver).major < 256
    → (x.ver).minor < 256
    → put_all key12_members x old ≡ key12_into x old
key12_into-put_all x old a b =
    let low : tag_of x.ver % 256 ≡ (x.ver).major = omega arith in
    let high : tag_of x.ver / 256 % 256 ≡ (x.ver).minor = omega arith in rw (low, high)

-- What TPM_WriteKey writes for a key of version 1.2, TPM_ReadKey reads back: for a key with the
-- tag TPM_TAG_KEY12 whose members have values of their types, written to a buffer where at least
-- one byte stays free, the read, begun where the write began, returns the same number and fills
-- `old` with the key, except the bytes of its arrays behind their lengths and the last two bytes
-- of its version.
pub read_key-write_key12 :
    (allocates : ℕ → Bool) (x old : Keydata) (tb : TpmBuffer)
    → IsBuffer tb
    → IsMembers allocates key12_members x
    → (x.ver).major < 256
    → (x.ver).minor < 256
    → tag_of x.ver ≡ tag_key12
    → tb.used + length (encode_all (fields key12_members x)) < tb.size
    → (n : ℕ) × (tb' : TpmBuffer) × (tpm_write_key tb x ≡ done (n, tb'))
      × (tpm_read_key allocates tb' tb.used old ≡ done (n, key12_into x old))
unfolding tpm_write_key tpm_read_key
read_key-write_key12 allocates x old tb b h lo hi tag fits =
    let (n, tb', w, r) = read_members-write_members allocates x key12_members tb old b h fits in
    let is_12 : (tag_of x.ver == tag_key12) ≡ true = (==_iff (tag_of x.ver) tag_key12).1 tag in
    let same = key12_into-put_all x old lo hi in
    let r' = r ∙ ap (λ z. done (n, z)) same in
    (n, tb', rw is_12 w, rw (r', is_12, and-false (ltb 0 n)))
