-- ===== src/Runs/Codec.antt =====
-- Instances for the builder and the parser of formats.
use tpm_luks.Common.{
  ℕ, ◌+◌, ◌<◌, ◌≡◌, refl, arith, length, replicate, List, [], ◌∷◌, ◌++◌, some, true, Bool,
}
use tpm_luks.Common.Memory.{done, fault, splice}
use tpm_luks.Bytes.{be32, err_buffer}
use tpm_luks.Buffer.{TpmBuffer}
use tpm_luks.Build.{word, ptr, tss_buildbuff}
use tpm_luks.Build.Fields.{
  Field, pair, long, short, native_long, octet, sized, sized_short, raw, bounded, encode_all,
  formats, arguments,
}
use tpm_luks.Build.Refine.{appended, buildbuff-request, buildbuff-encode_all}
use tpm_luks.Build.Refuse.{buildbuff_refuses}
use tpm_luks.Build.Overflow.{buildbuff-bounded_short_overflows}
use tpm_luks.Parse.{tss_parsebuff, out, number, area}
use tpm_luks.Parse.Fields.{all_slots, all_values}
use tpm_luks.Parse.RoundTrip.{parsebuff-buildbuff}
use tpm_luks.Parse.Bounds.{ReturnsWithin, parsebuff-bounded_safe, parsebuff-sized_wraps}
use tpm_luks.Runs.{empty_buffer, empty_buffer-IsBuffer}

abbrev always : ℕ → Bool
always n = true

abbrev answer_fields : List Field
answer_fields = long 7 ∷ bounded 4 (1 ∷ 2 ∷ []) [] ∷ sized_short (3 ∷ 4 ∷ 5 ∷ []) ∷ octet 9 ∷ []

parsebuff-buildbuff_example :
    (n : ℕ) × (tb' : TpmBuffer) × (tss_buildbuff
        (formats answer_fields)
        empty_buffer
        (arguments answer_fields)
      ≡ done (n, tb'))
    × (tss_parsebuff always (formats answer_fields) tb' 0 (all_slots answer_fields)
        ≡ done (n, all_values answer_fields))
unfolding encode_all
parsebuff-buildbuff_example =
    parsebuff-buildbuff always answer_fields empty_buffer empty_buffer-IsBuffer
      (tt, (omega arith, (omega arith, (tt, tt))))
      (
        omega arith,
        ((omega arith, omega arith, omega arith), ((omega arith, refl), (omega arith, tt))),
      )
      (omega arith)

abbrev tag_fields : List Field
tag_fields = pair b'0' b'0' ∷ pair b'c' b'1' ∷ []

abbrev body_fields : List Field
body_fields = native_long 0x65000000 ∷ raw (8 ∷ 9 ∷ []) ∷ []

buildbuff-request_example :
    tss_buildbuff
      (formats tag_fields ++ b'T' ∷ formats body_fields)
      empty_buffer
      (arguments tag_fields ++ arguments body_fields)
    ≡ done
        (12, appended empty_buffer (encode_all tag_fields ++ (be32 12 ++ encode_all body_fields)))
unfolding encode_all
buildbuff-request_example =
    buildbuff-request tag_fields body_fields empty_buffer empty_buffer-IsBuffer
      ((refl, refl), ((refl, refl), tt)) (tt, (omega arith, tt)) (omega arith)

abbrev list_fields : List Field
list_fields = short 258 ∷ sized (1 ∷ 2 ∷ 3 ∷ []) ∷ []

buildbuff-encode_all_example :
    tss_buildbuff (formats list_fields) empty_buffer (arguments list_fields)
    ≡ done (9, appended empty_buffer (encode_all list_fields))
unfolding encode_all
buildbuff-encode_all_example =
    buildbuff-encode_all list_fields empty_buffer empty_buffer-IsBuffer (tt, (omega arith, tt))
      (omega arith)

abbrev large_fields : List Field
large_fields = long 1 ∷ raw (replicate 28 7) ∷ []

buildbuff_refuses_example :
    (bs : List ℕ) × (0 + length bs < 32)
    × (tss_buildbuff (formats large_fields) empty_buffer (arguments large_fields)
        ≡ done (err_buffer, record empty_buffer { buffer = splice (replicate 32 0) 0 bs }))
unfolding encode_all
buildbuff_refuses_example =
    buildbuff_refuses large_fields empty_buffer empty_buffer-IsBuffer (tt, (omega arith, tt))
      (tt, (tt, tt)) (omega arith) (omega arith)

buildbuff-bounded_short_overflows_example :
    tss_buildbuff (b'^' ∷ []) empty_buffer (word 31 ∷ word 40 ∷ ptr (some (replicate 31 7)) ∷ [])
    ≡ fault
buildbuff-bounded_short_overflows_example =
    buildbuff-bounded_short_overflows 40 (replicate 31 7) empty_buffer empty_buffer-IsBuffer refl
      (omega arith) (omega arith) (omega arith)

abbrev answer : TpmBuffer
answer = record empty_buffer { used = 12; buffer = be32 3 ++ (1 ∷ 2 ∷ 3 ∷ replicate 25 0) }

parsebuff-bounded_safe_example :
    ReturnsWithin 4
      (tss_parsebuff always (b'^' ∷ []) answer 0 (out ∷ number 4 ∷ area (some 4) ∷ []))
    × ReturnsWithin 4
        (tss_parsebuff always (b'!' ∷ []) answer 0 (out ∷ number 4 ∷ area (some 4) ∷ []))
unfolding be32
parsebuff-bounded_safe_example =
    parsebuff-bounded_safe always answer 0 4 4
      (record { fits = omega arith; allocated = omega arith; small = omega arith }) (omega arith)
      (omega arith) (omega arith)

abbrev lying_answer : TpmBuffer
lying_answer = record empty_buffer { used = 12; buffer = be32 0xffffffff ++ replicate 28 0 }

parsebuff-sized_wraps_example :
    tss_parsebuff always (b'@' ∷ []) lying_answer 0 (out ∷ area (some 64) ∷ []) ≡ fault
unfolding be32
parsebuff-sized_wraps_example =
    parsebuff-sized_wraps always lying_answer 0 0xffffffff 64
      (record { fits = omega arith; allocated = omega arith; small = omega arith }) (omega arith)
      (record { room = omega arith; content = refl }) (omega arith) (omega arith)
