-- ===== src/Seal/Layout.antt =====
-- The fields of the request of TPM_Seal (swtpm-utils/lib/seal.c) and their bytes.
use tpm_luks.Common.{ℕ, ◌+◌, ◌^◌, ◌<◌, ◌≡◌, refl, ap₂, arith}
use tpm_luks.Common.{List, [], ◌∷◌, ◌++◌, length, append_assoc, append-nil, length-append, All}
use tpm_luks.Bytes.{be32, swap32}
use tpm_luks.Bytes.Laws.{le32-swap32, length-be32}
use tpm_luks.Build.Fields.{
  Field, blank, pair, native_long, long, octet, raw, sized, encode_all, encode, IsField,
}
use tpm_luks.Seal.Covers.{seal_fields}

-- The fields of the request in front of its length and behind it.
unfoldable pub seal_opening : List Field
seal_opening = pair b'0' b'0' ∷ blank ∷ pair b'C' b'2' ∷ blank ∷ []

unfoldable pub request_fields : ℕ → ℕ → List ℕ → List ℕ → List ℕ → List ℕ → List ℕ → List Field
request_fields keyhandle handle encauth info bytes nonceodd authdata =
    blank
    ∷ native_long (swap32 0x17)
    ∷ blank
    ∷ native_long (swap32 keyhandle)
    ∷ blank
    ∷ raw encauth
    ∷ blank
    ∷ sized info
    ∷ blank
    ∷ sized bytes
    ∷ blank
    ∷ long handle
    ∷ blank
    ∷ raw nonceodd
    ∷ blank
    ∷ octet 0
    ∷ blank
    ∷ raw authdata
    ∷ []

pub seal_opening-IsField : All IsField seal_opening
unfolding seal_opening
seal_opening-IsField = ((refl, refl), (tt, ((refl, refl), (tt, tt))))

pub encode_all-seal_opening : encode_all seal_opening ≡ 0x00 ∷ 0xc2 ∷ []
unfolding encode_all seal_opening
encode_all-seal_opening = refl

pub request_fields-IsField :
    (keyhandle handle : ℕ) (encauth info bytes nonceodd authdata : List ℕ)
    → length encauth < 2 ^ 31
    → length info < 2 ^ 31
    → length bytes < 2 ^ 31
    → length nonceodd < 2 ^ 31
    → length authdata < 2 ^ 31
    → All IsField (request_fields keyhandle handle encauth info bytes nonceodd authdata)
unfolding request_fields
request_fields-IsField keyhandle handle encauth info bytes nonceodd authdata h1 h2 h3 h4 h5 = (
  tt,
  (
    tt,
    (
      tt,
      (tt, (tt, (h1, (tt, (h2, (tt, (h3, (tt, (tt, (tt, (h4, (tt, (tt, (tt, (h5, tt))))))))))))))),
    ),
  ),
)

regroup_request :
    (e i b h n a : List ℕ)
    → e ++ (i ++ (b ++ (h ++ (n ++ (0 ∷ (a ++ []))))))
      ≡ (e ++ (i ++ (b ++ []))) ++ (h ++ (n ++ (0 ∷ a)))
regroup_request e i b h n a = simp (append_assoc, append-nil)

pub encode_all-request_fields :
    (keyhandle handle : ℕ) (encauth info bytes nonceodd authdata : List ℕ)
    → encode_all (request_fields keyhandle handle encauth info bytes nonceodd authdata)
      ≡ be32 0x17
        ++ (be32 keyhandle
            ++ (encode_all (seal_fields encauth info bytes)
                ++ (be32 handle ++ (nonceodd ++ (0 ∷ authdata)))))
unfolding encode_all encode request_fields
encode_all-request_fields keyhandle handle encauth info bytes nonceodd authdata =
    ap₂ (λ a b. a ++ b) (le32-swap32 0x17)
      (ap₂ (λ a b. a ++ b) (le32-swap32 keyhandle)
        (regroup_request encauth (be32 (length info) ++ info) (be32 (length bytes) ++ bytes)
          (be32 handle) nonceodd authdata))

pub length-request_fields :
    (keyhandle handle : ℕ) (encauth info bytes nonceodd authdata : List ℕ)
    → length encauth ≡ 20
    → length nonceodd ≡ 20
    → length authdata ≡ 20
    → length (encode_all (request_fields keyhandle handle encauth info bytes nonceodd authdata))
      ≡ 81 + length info + length bytes
unfolding encode_all encode
length-request_fields keyhandle handle encauth info bytes nonceodd authdata e1 e2 e3 =
    let i = be32 (length info) ++ info in
    let b = be32 (length bytes) ++ bytes in
    let back = be32 handle ++ (nonceodd ++ (0 ∷ authdata)) in
    let fields = encauth ++ (i ++ (b ++ [])) in
    rw (encode_all-request_fields keyhandle handle encauth info bytes nonceodd authdata) (
      omega (
        arith,
        e1,
        e2,
        e3,
        length-append (be32 0x17) (be32 keyhandle ++ (fields ++ back)),
        length-append (be32 keyhandle) (fields ++ back),
        length-append fields back,
        length-append encauth (i ++ (b ++ [])),
        length-append i (b ++ []),
        length-append b [],
        length-append (be32 (length info)) info,
        length-append (be32 (length bytes)) bytes,
        length-append (be32 handle) (nonceodd ++ (0 ∷ authdata)),
        length-append nonceodd (0 ∷ authdata),
        length-be32 0x17,
        length-be32 keyhandle,
        length-be32 (length info),
        length-be32 (length bytes),
        length-be32 handle,
      ))
