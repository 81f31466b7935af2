-- ===== src/Build/Overflow.antt =====
-- The case '^' of TSS_buildbuff at the end of the buffer.
use tpm_luks.Common.{ℕ, suc, ◌+◌, ◌^◌, ◌<◌, ◌≡◌, refl, arith, ltb}
use tpm_luks.Common.{List, [], ◌∷◌, length, some, none, lt→leb, le→leb, take-length}
use tpm_luks.Common.Memory.{splice, length-splice, fault}
use tpm_luks.Bytes.{u16, u32, be16}
use tpm_luks.Bytes.Laws.{length-be16}
use tpm_luks.Buffer.{TpmBuffer, IsBuffer}
use tpm_luks.Build.{Arg, word, ptr, Builder, Progress, put, copy, tss_buildbuff}
use tpm_luks.Build.{store_bounded_short, build_char, build_loop}
use tpm_luks.Build.Steps.{between, put_inside, and-false}
use tpm_luks.Build.Refine.{run_to_finish}

put_outside :
    (bs : List ℕ) (b : Builder) → length b.mem < b.o + length bs → put bs b ≡ Progress.fault
unfolding put
put_outside bs b h = rw (lt→leb _ _ h)

copy_outside :
    (x : ℕ) (bs : List ℕ) (b : Builder)
    → length b.mem < b.o + length (x ∷ bs)
    → copy (length (x ∷ bs)) (some (x ∷ bs)) b ≡ Progress.fault
unfolding copy
copy_outside x bs b h =
    rw (le→leb (suc (length bs)) (suc (length bs)) (omega arith), take-length (length bs) bs refl)
      (put_outside (x ∷ bs) b h)

store_overflows :
    (max : ℕ) (bs : List ℕ) (m : List ℕ) (size t : ℕ) (rest : List Arg)
    → size ≡ length m
    → length bs < 2 ^ 16
    → size < 2 ^ 31
    → t + length bs < size
    → size < t + 2 + length bs
    → store_bounded_short
        (between m size t none 0 (word (length bs) ∷ word max ∷ ptr (some bs) ∷ rest))
      ≡ Progress.fault
unfolding store_bounded_short
store_overflows max [] m size t rest e h small fits short =
    let u : u32 (t + 0) ≡ t + 0 = omega arith in
    rw (
      u,
      lt→leb size (t + 0) (omega arith),
      put_outside (be16 0) (between m size t none 0 rest) (omega (arith, length-be16 0)),
    )
store_overflows max (x ∷ bs) m size t rest e h small fits short =
    let n = length (x ∷ bs) in
    let en : u16 n ≡ n = omega arith in
    let u : u32 (t + n) ≡ t + n = omega arith in
    let b = between m size t none 0 rest in
    let b' = record b { mem = splice m t (be16 n); o = t + 2 } in
    rw (
      en,
      u,
      lt→leb size (t + n) (omega arith),
      and-false (ltb 0 n),
      put_inside (be16 n) b (omega (arith, length-be16 n)),
      copy_outside x bs b' (omega (arith, length-splice m t (be16 n))),
    )

-- When the bytes of a '^' argument end less than two bytes before the end of the buffer's
-- memory, the check of the room passes and TSS_buildbuff writes beyond that memory: the length
-- word in front of the bytes is not counted in the check.
pub buildbuff-bounded_short_overflows :
    (max : ℕ) (bs : List ℕ) (tb : TpmBuffer)
    → IsBuffer tb
    → tb.size ≡ length tb.buffer
    → length bs < 2 ^ 16
    → tb.used + length bs < tb.size
    → tb.size < tb.used + 2 + length bs
    → tss_buildbuff (b'^' ∷ []) tb (word (length bs) ∷ word max ∷ ptr (some bs) ∷ []) ≡ fault
buildbuff-bounded_short_overflows max bs tb b e h fits short = run_to_finish _ tb _ Progress.fault (
    unfold build_loop build_char in
    rw (store_overflows max bs tb.buffer tb.size tb.used [] e h b.small fits short))
