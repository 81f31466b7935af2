-- ===== src/Nv/Requests.antt =====
-- The requests that nv.c (swtpm-utils/lib) sends without a password.
use tpm_luks.Common.{ℕ, ◌+◌, ◌-◌, ◌<◌, ◌≡◌, refl, arith, codes}
use tpm_luks.Common.{List, [], ◌∷◌, ◌++◌, length, length-replicate, All}
use tpm_luks.Common.Memory.{done}
use tpm_luks.Bytes.{be32}
use tpm_luks.Buffer.{IsBuffer, stack_tpm_buffer}
use tpm_luks.Build.{tss_buildbuff}
use tpm_luks.Build.Fields.{Field, blank, pair, encode_all, IsField, formats, arguments}
use tpm_luks.Build.Refine.{appended, buildbuff-request}

pub stack-IsBuffer : IsBuffer stack_tpm_buffer
unfolding stack_tpm_buffer
stack-IsBuffer = record {
  fits = omega arith;
  allocated = omega (arith, length-replicate {A = ℕ} 4096 0);
  small = omega arith;
}

opening : List Field
opening = pair b'0' b'0' ∷ blank ∷ pair b'c' b'1' ∷ blank ∷ []

opening-IsField : All IsField opening
unfolding opening
opening-IsField = ((refl, refl), (tt, ((refl, refl), (tt, tt))))

encode_all-opening : encode_all opening ≡ 0x00 ∷ 0xc1 ∷ []
unfolding encode_all opening
encode_all-opening = refl

-- Any request of this kind, for an ordinal, words behind it, and perhaps data with its length.
pub plain_request :
    (back : List Field)
    → All IsField back
    → 6 + length (encode_all back) < 4096
    → tss_buildbuff (codes "00 c1 T" ++ formats back) stack_tpm_buffer (arguments back)
      ≡ done (
        6 + length (encode_all back),
        appended stack_tpm_buffer
            (0x00 ∷ 0xc1 ∷ (be32 (6 + length (encode_all back)) ++ encode_all back)),
      )
unfolding opening stack_tpm_buffer
plain_request back ok fits =
    let run =
      buildbuff-request opening back stack_tpm_buffer stack-IsBuffer opening-IsField ok
        (rw encode_all-opening (omega arith)) in
    let whole : 6 + length (encode_all back) - 0 ≡ 6 + length (encode_all back) = omega arith in
    rw (encode_all-opening, whole) at run
