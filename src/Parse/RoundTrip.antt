-- ===== src/Parse/RoundTrip.antt =====
-- TSS_parsebuff reads back what the same format string made TSS_buildbuff write.
use tpm_luks.Common.{ℕ, ◌+◌, ◌-◌, ◌^◌, ◌≤◌, ◌<◌, ◌≡◌, refl, ◌∙◌, arith, take-append}
use tpm_luks.Common.{List, [], length, append-nil, Bool, All}
use tpm_luks.Common.Memory.{done, length-splice, drop-splice}
use tpm_luks.Bytes.{u32}
use tpm_luks.Buffer.{TpmBuffer, IsBuffer}
use tpm_luks.Build.{tss_buildbuff}
use tpm_luks.Build.Fields.{Field}
use tpm_luks.Build.Fields.{encode_all, formats, arguments, IsField}
use tpm_luks.Build.Refine.{appended, buildbuff-encode_all}
use tpm_luks.Parse.{next, tss_parsebuff}
use tpm_luks.Parse.{parse_loop, start_parser}
use tpm_luks.Parse.Steps.{Shows}
use tpm_luks.Parse.Fields.{IsReadable, all_slots, all_values}
use tpm_luks.Parse.Loop.{fields_read, parse_to_finish}
use tpm_luks.Parse.Cases.{at}

Shows-splice :
    (tb : TpmBuffer) (bs : List ℕ)
    → tb.used + length bs ≤ length tb.buffer
    → Shows (appended tb bs) tb.used bs
Shows-splice tb bs h = record {
  room = omega arith;
  content = rw (drop-splice tb.buffer tb.used bs h) (take-append (length bs) bs _ refl);
}

-- What TSS_buildbuff writes for a format string and its arguments, TSS_parsebuff reads back with
-- the same format string: where all fields are readable and leave at least one byte of the
-- buffer free, the build succeeds, and the parse, begun where the build began, consumes exactly
-- the bytes that the build reported and stores exactly the values of the fields.
pub parsebuff-buildbuff :
    (allocates : ℕ → Bool) (fs : List Field) (tb : TpmBuffer)
    → IsBuffer tb
    → All IsField fs
    → All (IsReadable allocates) fs
    → tb.used + length (encode_all fs) < tb.size
    → (n : ℕ) × (tb' : TpmBuffer) × (tss_buildbuff (formats fs) tb (arguments fs) ≡ done (n, tb'))
      × (tss_parsebuff allocates (formats fs) tb' tb.used (all_slots fs) ≡ done (n, all_values fs))
parsebuff-buildbuff allocates fs tb b ok readable fits =
    (length bs, tb', buildbuff-encode_all fs tb b ok fits, parsed)
  where
    bs : List ℕ
    bs = encode_all fs

    tb' : TpmBuffer
    tb' = appended tb bs

    kept : IsBuffer tb'
    kept = record {
      fits = omega arith;
      allocated = rw (length-splice tb.buffer tb.used bs) b.allocated;
      small = b.small;
    }

    read :
        parse_loop allocates tb' (formats fs) (start_parser tb.used (all_slots fs))
        ≡ next (at (tb.used + length bs) (all_values fs) [])
    read = rw append-nil at (
        fields_read allocates tb' kept fs tb.used [] [] readable
          (Shows-splice tb bs (omega (arith, b.allocated))))

    back : u32 (tb.used + length bs + (2 ^ 32 - tb.used)) ≡ length bs
    back = omega (arith, b.small)

    parsed :
        tss_parsebuff allocates (formats fs) tb' tb.used (all_slots fs)
        ≡ done (length bs, all_values fs)
    parsed = parse_to_finish allocates _ tb' tb.used _ _ read ∙ rw back
