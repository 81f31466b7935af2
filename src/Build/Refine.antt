-- ===== src/Build/Refine.antt =====
-- TSS_buildbuff against the description of its fields: what it appends, with and without the
-- total that 'T' leaves a place for, and when it refuses.
use tpm_luks.Common.{ℕ, ◌+◌, ◌-◌, ◌^◌, ◌≤◌, ◌<◌, ◌≡◌, ap, ◌∙◌, arith, length-append, append-nil}
use tpm_luks.Common.{List, [], ◌∷◌, ◌++◌, length, All, none, some, le→leb, lt→leb}
use tpm_luks.Common.Memory.{
  splice, splice-append, splice-append_late, length-splice, done, write_at,
}
use tpm_luks.Bytes.{u32, be32}
use tpm_luks.Bytes.Laws.{length-be32}
use tpm_luks.Buffer.{TpmBuffer, IsBuffer}
use tpm_luks.Build.{
  Arg, next, Progress, build_char, build_loop, tss_buildbuff, reserve_total, start_builder, finish,
}
use tpm_luks.Build.Fields.{Field, encode_all, formats, arguments, IsField}
use tpm_luks.Build.Steps.{between}
use tpm_luks.Build.Loop.{fields_run, build_loop-append, byte_after_all}

abbrev pub appended : TpmBuffer → List ℕ → TpmBuffer
appended tb bs = record tb { buffer = splice tb.buffer tb.used bs; used = tb.used + length bs }

pub run_to_finish :
    (format : List ℕ) (tb : TpmBuffer) (args : List Arg) (p : Progress)
    → build_loop format (start_builder tb args) ≡ p
    → tss_buildbuff format tb args ≡ finish tb p
unfolding tss_buildbuff
run_to_finish format tb args p e = ap (finish tb) e

-- For a list of fields that leaves at least one byte of the buffer free, TSS_buildbuff appends
-- the bytes of the fields, in order, behind what was used, returns their number, and changes
-- nothing else.
pub buildbuff-encode_all :
    (fs : List Field) (tb : TpmBuffer)
    → IsBuffer tb
    → All IsField fs
    → tb.used + length (encode_all fs) < tb.size
    → tss_buildbuff (formats fs) tb (arguments fs)
      ≡ done (length (encode_all fs), appended tb (encode_all fs))
buildbuff-encode_all fs tb b ok fits =
    let n = length (encode_all fs) in
    let run = fields_run fs tb.buffer tb.size tb.used none 0 [] b.allocated b.small ok fits in
    let u : u32 (tb.used + n + (2 ^ 32 - tb.used)) ≡ n = omega (arith, b.small) in
    run_to_finish (formats fs) tb (arguments fs) _ (rw append-nil at run) ∙ rw u

total_place :
    (m : List ℕ) (size t byte : ℕ) (args : List Arg)
    → t + 4 < size
    → size < 2 ^ 31
    → build_char b'T' (between m size t none byte args)
      ≡ next (between m size (t + 4) (some t) 0 args)
unfolding build_char reserve_total
total_place m size t byte args fits small =
    let u : u32 (t + 4) ≡ t + 4 = omega arith in rw (u, lt→leb size (t + 4) (omega arith), u)

-- The memory when the fields behind the total were written before it.
total_stored :
    (m : List ℕ) (t : ℕ) (front back : List ℕ) (total : ℕ)
    → t + length front + 4 ≤ length m
    → write_at
        (splice (splice m t front) (t + length front + 4) back)
        (t + length front)
        (be32 total)
      ≡ done (splice m t (front ++ (be32 total ++ back)))
unfolding write_at
total_stored m t front back total room =
    let o = t + length front in
    let e = length-be32 total in
    let len : length (splice (splice m t front) (o + 4) back) ≡ length m =
      length-splice (splice m t front) (o + 4) back ∙ length-splice m t front in
    let late : splice (splice (splice m t front) (o + 4) back) o (be32 total)
        ≡ splice (splice m t front) o (be32 total ++ back) =
      rw (← e) (splice-append_late (splice m t front) o (be32 total) back) in
    rw (len, e, le→leb (o + 4) (length m) room, late, splice-append m t front (be32 total ++ back))

-- For a request in the shape of the TPM protocol, fields, the place 'T' of the total, and more
-- fields, that leaves at least one byte of the buffer free, TSS_buildbuff appends the bytes of
-- the fields in order, with the number of all used bytes of the buffer, big-endian, in the place
-- of the total, and returns how many bytes it appended.
pub buildbuff-request :
    (front back : List Field) (tb : TpmBuffer)
    → IsBuffer tb
    → All IsField front
    → All IsField back
    → tb.used + length (encode_all front) + 4 + length (encode_all back) < tb.size
    → let total = tb.used + length (encode_all front) + 4 + length (encode_all back) in
      tss_buildbuff (formats front ++ b'T' ∷ formats back) tb (arguments front ++ arguments back)
      ≡ done (total - tb.used, appended tb (encode_all front ++ (be32 total ++ encode_all back)))
buildbuff-request front back tb b ok_front ok_back fits =
    let F = encode_all front in
    let K = encode_all back in
    let u = tb.used in
    let o = u + length F in
    let total = o + 4 + length K in
    let m1 = splice tb.buffer u F in
    let run1 =
      fields_run front tb.buffer tb.size u none 0 (arguments back) b.allocated b.small ok_front
        (omega arith) in
    let place =
      total_place m1 tb.size o (byte_after_all front 0) (arguments back) (omega arith) b.small in
    let run2 =
      fields_run back m1 tb.size (o + 4) (some o) 0 []
        (rw (length-splice tb.buffer u F) b.allocated) b.small ok_back (omega arith) in
    let whole : build_loop (formats front ++ (b'T' ∷ formats back))
          (start_builder tb (arguments front ++ arguments back))
        ≡ next (between (splice m1 (o + 4) K) tb.size total (some o) (byte_after_all back 0) []) =
      build_loop-append (formats front) (b'T' ∷ formats back) _
      ∙ rw run1 (unfold build_loop in rw place (rw append-nil at run2)) in
    let stored = total_stored tb.buffer u F K total (omega (arith, b.allocated)) in
    let r : u32 (total + (2 ^ 32 - u)) ≡ total - u = omega (arith, b.small) in
    let e : u + length (F ++ (be32 total ++ K)) ≡ total =
      omega (
        arith,
        length-append F (be32 total ++ K),
        length-append (be32 total) K,
        length-be32 total,
      ) in
    run_to_finish _ tb _ _ whole ∙ rw (stored, r, e)
