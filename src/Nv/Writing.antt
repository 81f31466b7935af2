-- ===== src/Nv/Writing.antt =====
-- TPM_NV_WriteValue without the owner's password (swtpm-utils/lib/nv.c).
use tpm_luks.Common.{
  ℕ, append-nil, ◌+◌, ◌/◌, ◌%◌, ◌^◌, ◌<◌, ◌≡◌, ap₂, arith, Bool-cases, inl, inr, ◌==◌, false,
  if◌then◌else◌,
}
use tpm_luks.Common.{List, [], ◌∷◌, ◌++◌, length, length-append, none}
use tpm_luks.Common.Memory.{done, failed}
use tpm_luks.Bytes.{be32, swap32}
use tpm_luks.Bytes.Laws.{le32-swap32, length-be32}
use tpm_luks.Buffer.{TpmBuffer, stack_tpm_buffer}
use tpm_luks.Build.Fields.{Field, blank, native_long, sized, encode, encode_all}
use tpm_luks.Build.Refine.{appended}
use tpm_luks.Session.Open.{System, request, exchange}
use tpm_luks.Transmit.{tpm_transmit}
use tpm_luks.Nv.{ord_nv_write_value, tpm_nv_write_value, write_plain}
use tpm_luks.Nv.Requests.{plain_request}

-- The fields of a write.
write_fields : ℕ → ℕ → List ℕ → List Field
write_fields nv_index offset bytes =
    blank
    ∷ native_long (swap32 ord_nv_write_value)
    ∷ blank
    ∷ native_long (swap32 nv_index)
    ∷ blank
    ∷ native_long (swap32 offset)
    ∷ blank
    ∷ sized bytes
    ∷ []

encode_all-write_fields :
    (nv_index offset : ℕ) (bytes : List ℕ)
    → encode_all (write_fields nv_index offset bytes)
      ≡ be32 ord_nv_write_value
        ++ (be32 nv_index ++ (be32 offset ++ (be32 (length bytes) ++ bytes)))
unfolding encode_all write_fields encode
encode_all-write_fields nv_index offset bytes =
    ap₂ (λ a b. a ++ b) (le32-swap32 ord_nv_write_value)
      (ap₂ (λ a b. a ++ b) (le32-swap32 nv_index)
        (ap₂ (λ a b. a ++ b) (le32-swap32 offset) (append-nil (be32 (length bytes) ++ bytes))))

length-write_fields :
    (nv_index offset : ℕ) (bytes : List ℕ)
    → length (encode_all (write_fields nv_index offset bytes)) ≡ 16 + length bytes
length-write_fields nv_index offset bytes =
    let back = be32 (length bytes) ++ bytes in
    rw (encode_all-write_fields nv_index offset bytes) (
      omega (
        arith,
        length-append (be32 ord_nv_write_value) (be32 nv_index ++ (be32 offset ++ back)),
        length-append (be32 nv_index) (be32 offset ++ back),
        length-append (be32 offset) back,
        length-append (be32 (length bytes)) bytes,
        length-be32 ord_nv_write_value,
        length-be32 nv_index,
        length-be32 offset,
        length-be32 (length bytes),
      ))

-- TPM_NV_WriteValue without the owner's password sends the tag 0xc1, the length, the ordinal 0xcd, the
-- index, the offset, and the data with its length, and returns what the transmission of that
-- request returns, for any data that fits the buffer of 4096 bytes.
pub write_value-request :
    {W : Type 0} (sys : System W) (nv_index offset code : ℕ) (bytes : List ℕ) (w w' : W)
    (tb : TpmBuffer)
    → 22 + length bytes < 4096
    → tpm_transmit sys.transport sys.settings
        (appended stack_tpm_buffer (
          0x00
          ∷ 0xc1
          ∷ (be32 (22 + length bytes)
              ++ (be32 0xcd
                  ++ (be32 nv_index ++ (be32 offset ++ (be32 (length bytes) ++ bytes)))))))
        w
      ≡ (w', done (code, tb))
    → tpm_nv_write_value sys nv_index offset bytes (length bytes) none w
      ≡ (w', if code == 0 then done 0 else failed code)
unfolding tpm_nv_write_value write_plain request exchange write_fields
write_value-request sys nv_index offset code bytes w w' tb fits sent =
    let n = length-write_fields nv_index offset bytes in
    let built =
      plain_request (write_fields nv_index offset bytes)
        (tt, (tt, (tt, (tt, (tt, (tt, (tt, (omega arith, tt)))))))) (rw n (omega arith)) in
    let sum : 6 + (16 + length bytes) ≡ 22 + length bytes = omega arith in
    let built' = rw (n, encode_all-write_fields nv_index offset bytes, sum) at built in
    let small : ((22 + length bytes) / 2 ^ 31 % 2 == 1) ≡ false = ground arith in
    elim (Bool-cases (code == 0)) [
      | inl good ↦ rw (built', small, sent, good)
      | inr bad ↦ rw (built', small, sent, bad)
    ]
