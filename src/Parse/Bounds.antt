-- ===== src/Parse/Bounds.antt =====
-- Where TSS_parsebuff stays within the buffer and the caller's memory, and where it does not.
use tpm_luks.Common.{
  ℕ, zero, suc, ◌+◌, ◌^◌, ◌≤◌, ◌<◌, ◌≡◌, refl, arith, take, drop, length-take, inl, inr, ◌⊎◌,
  Bool-cases, lt_or_le, le→ltb, lt→ltb, lt→leb, le→leb,
}
use tpm_luks.Common.{List, [], ◌∷◌, length, ltb, leb, Bool, false, some, All}
use tpm_luks.Common.Memory.{Outcome, done, failed, fault, read_at}
use tpm_luks.Bytes.{be32, u32, load32, load16, word_of, err_buffer}
use tpm_luks.Bytes.Laws.{length-be32}
use tpm_luks.Buffer.{TpmBuffer, IsBuffer, tpm_buffer_load32, tpm_buffer_load16}
use tpm_luks.Build.Steps.{and-false}
use tpm_luks.Parse.{
  Slot, out, number, area, Value, scalar, bytes, Parser, Progress, next, stop, tss_parsebuff,
  minus_three,
}
use tpm_luks.Parse.{parse_char, parse_loop, parse_sized, parse_bounded, copy_out, start_parser}
use tpm_luks.Parse.Steps.{Shows, load32-Shows}
use tpm_luks.Parse.Cases.{at}
use tpm_luks.Parse.Loop.{parse_to_finish}

-- No copy through a pointer was longer than `max`.
abbrev pub Within : ℕ → Value → Type 0
Within max (scalar v) = Unit {0}
Within max (bytes bs) = length bs ≤ max

-- The loads refuse or read inside the used part.
LoadsInside : TpmBuffer → ℕ → ℕ → Outcome ℕ → Type 0
LoadsInside tb off n r = (r ≡ failed err_buffer) ⊎ ((v : ℕ) × (r ≡ done v) × (off + n ≤ tb.used))

module _ (tb : TpmBuffer) (b : IsBuffer tb) (off : ℕ) (inside : off ≤ tb.used) where
  load32_inside : LoadsInside tb off 4 (tpm_buffer_load32 tb off)
  unfolding LoadsInside tpm_buffer_load32 load32 read_at
  load32_inside = elim (lt_or_le tb.used (off + 4)) [
    | inl short ↦
        let u : u32 (off + 3) ≡ off + 3 = omega (arith, b.fits, b.small) in
        inl (rw (u, le→leb tb.used (off + 3) (omega arith)))
    | inr enough ↦
        let u : u32 (off + 3) ≡ off + 3 = omega (arith, b.fits, b.small) in
        inr (
          word_of 0 (take 4 (drop off tb.buffer)),
          rw (
            u,
            lt→leb tb.used (off + 3) (omega arith),
            le→leb (off + 4) (length tb.buffer) (omega (arith, b.fits, b.allocated)),
          ),
          enough,
        )
  ]

  load16_inside : LoadsInside tb off 2 (tpm_buffer_load16 tb off)
  unfolding LoadsInside tpm_buffer_load16 load16 read_at
  load16_inside = elim (lt_or_le tb.used (off + 2)) [
    | inl short ↦
        let u : u32 (off + 1) ≡ off + 1 = omega (arith, b.fits, b.small) in
        inl (rw (u, le→leb tb.used (off + 1) (omega arith)))
    | inr enough ↦
        let u : u32 (off + 1) ≡ off + 1 = omega (arith, b.fits, b.small) in
        inr (
          word_of 0 (take 2 (drop off tb.buffer)),
          rw (
            u,
            lt→leb tb.used (off + 1) (omega arith),
            le→leb (off + 2) (length tb.buffer) (omega (arith, b.fits, b.allocated)),
          ),
          enough,
        )
  ]

-- The parser stopped or went on, and all that it copied is within the bound.
data Bounded (max : ℕ) : Progress → Type 0 where
  goes_on : (p : Parser) → All (Within max) p.values → Bounded max (next p)
  stops : (e : ℕ) (p : Parser) → All (Within max) p.values → Bounded max (stop e p)

module _ (tb : TpmBuffer) (b : IsBuffer tb) (max space : ℕ) (small : max < 2 ^ 31)
    (fits : max ≤ space) where
  copy-Bounded :
      (len off : ℕ) (ss : List Slot)
      → len ≤ max
      → off + len ≤ tb.used
      → Bounded max (copy_out tb len (some space) (at off (scalar len ∷ []) ss))
  unfolding copy_out read_at
  copy-Bounded zero off ss h room = goes_on _ (tt, tt)
  copy-Bounded (suc n) off ss h room =
      let len = length-take (suc n) (drop off tb.buffer) in
      rw
        (
          lt→ltb 0 (suc n) (omega arith),
          le→leb (suc n) space (omega arith),
          le→leb (off + suc n) (length tb.buffer) (omega (arith, b.fits, b.allocated)),
        )
        (goes_on _ (tt, (omega (arith, len), tt)))

  parse_bounded-Bounded :
      (n code : ℕ) (load : TpmBuffer → ℕ → Outcome ℕ) (off : ℕ)
      → n ≤ 4
      → LoadsInside tb off n (load tb off)
      → Bounded max
          (parse_bounded n code load tb (at off [] (out ∷ number max ∷ area (some space) ∷ [])))
  unfolding parse_bounded LoadsInside
  parse_bounded-Bounded n code load off width (inl e) = rw e (stops err_buffer _ tt)
  parse_bounded-Bounded n code load off width (inr (v, e, room)) =
      let u : u32 (off + n) ≡ off + n = omega (arith, b.fits, b.small) in
      let m : u32 max ≡ max = omega arith in
      rw (e, u, and-false (ltb 0 v))
        (elim (Bool-cases (ltb tb.used (u32 (off + n + v)))) [
          | inl beyond ↦ rw beyond (stops err_buffer _ (tt, tt))
          | inr within ↦ rw within (elim (lt_or_le max v) [
            | inl long ↦ rw (m, lt→ltb max v long) (stops err_buffer _ (tt, tt))
            | inr short ↦
                rw (m, le→ltb max v short)
                  (copy-Bounded v (off + n) [] short (ground (arith, within, b.fits, b.small)))
          ])
        ])

-- A call returned a code, and no copy was longer than `max`.
abbrev pub ReturnsWithin : ℕ → Outcome (ℕ × List Value) → Type 0
ReturnsWithin max r = (code : ℕ) × (vs : List Value) × (r ≡ done (code, vs)) × All (Within max) vs

one_char_returns :
    (allocates : ℕ → Bool) (c : ℕ) (tb : TpmBuffer) (off max : ℕ) (slots : List Slot) (q : Progress)
    → parse_char allocates tb c (start_parser off slots) ≡ q
    → Bounded max q
    → ReturnsWithin max (tss_parsebuff allocates (c ∷ []) tb off slots)
one_char_returns allocates c tb off max slots q e (goes_on p h) = (
  _,
  p.values,
  parse_to_finish allocates (c ∷ []) tb off slots (next p) (unfold parse_loop in rw e),
  h,
)
one_char_returns allocates c tb off max slots q e (stops code p h) = (
  code,
  p.values,
  parse_to_finish allocates (c ∷ []) tb off slots (stop code p) (unfold parse_loop in rw e),
  h,
)

-- The bounded cases '^' and '!' are safe on every response: begun inside the used part of a
-- buffer, with a bound below 2^31 that the caller's memory has room for, TSS_parsebuff returns,
-- whatever length the buffer holds, and it copies no more bytes than the bound.
pub parsebuff-bounded_safe :
    (allocates : ℕ → Bool) (tb : TpmBuffer) (off max space : ℕ)
    → IsBuffer tb
    → off ≤ tb.used
    → max < 2 ^ 31
    → max ≤ space
    → ReturnsWithin max
        (tss_parsebuff allocates (b'^' ∷ []) tb off (out ∷ number max ∷ area (some space) ∷ []))
      × ReturnsWithin max
          (tss_parsebuff allocates (b'!' ∷ []) tb off (out ∷ number max ∷ area (some space) ∷ []))
parsebuff-bounded_safe allocates tb off max space b inside small fits = (
  one_char_returns allocates b'^' tb off max _
      (parse_bounded 2 err_buffer tpm_buffer_load16 tb
        (at off [] (out ∷ number max ∷ area (some space) ∷ [])))
      (unfold parse_char in refl)
      (parse_bounded-Bounded tb b max space small fits 2 err_buffer tpm_buffer_load16 off
        (omega arith) (load16_inside tb b off inside)),
  one_char_returns allocates b'!' tb off max _
      (parse_bounded 4 minus_three tpm_buffer_load32 tb
        (at off [] (out ∷ number max ∷ area (some space) ∷ [])))
      (unfold parse_char in refl)
      (parse_bounded-Bounded tb b max space small fits 4 minus_three tpm_buffer_load32 off
        (omega arith) (load32_inside tb b off inside)),
)

-- A copy from beyond the memory of the buffer, whatever the caller's memory holds.
copy_faults :
    (tb : TpmBuffer) (len space off : ℕ) (vs : List Value) (ss : List Slot)
    → 0 < len
    → length tb.buffer < off + len
    → copy_out tb len (some space) (at off vs ss) ≡ Progress.fault
unfolding copy_out read_at
copy_faults tb len space off vs ss positive beyond = elim (Bool-cases (leb len space)) [
  | inl holds ↦ rw (lt→ltb 0 len positive, holds, lt→leb (off + len) (length tb.buffer) beyond)
  | inr lacks ↦ rw (lt→ltb 0 len positive, lacks)
]

-- The case '@' trusts the length in the buffer: where that length, added to the offset behind
-- it, passes 2^32, the sum wraps, the check passes, and TSS_parsebuff reads or writes out of
-- bounds, whatever memory below 2^32 bytes the caller provides.
pub parsebuff-sized_wraps :
    (allocates : ℕ → Bool) (tb : TpmBuffer) (off len space : ℕ)
    → IsBuffer tb
    → length tb.buffer < 2 ^ 32
    → Shows tb off (be32 len)
    → len < 2 ^ 32
    → 2 ^ 32 ≤ off + 4 + len
    → tss_parsebuff allocates (b'@' ∷ []) tb off (out ∷ area (some space) ∷ []) ≡ fault
parsebuff-sized_wraps allocates tb off len space b short s fits wraps =
    parse_to_finish allocates (b'@' ∷ []) tb off _ Progress.fault
      (unfold parse_loop parse_char in rw sized_faults)
  where
    inside : off + 4 ≤ tb.used
    inside = omega (arith, s.room, length-be32 len)

    u : u32 (off + 4) ≡ off + 4
    u = omega (arith, inside, b.fits, b.small)

    passes : ltb tb.used (u32 (off + 4 + len)) ≡ false
    passes = le→ltb _ _ (omega (arith, inside, b.fits, b.small))

    sized_faults : parse_sized tb (at off [] (out ∷ area (some space) ∷ [])) ≡ Progress.fault
    sized_faults =
        unfold parse_sized in
        rw (load32-Shows tb b off len fits s, u, and-false (ltb 0 len), passes)
          (copy_faults tb len space (off + 4) (scalar len ∷ []) []
            (omega (arith, inside, b.fits, b.small))
            (omega (arith, inside, b.fits, b.small, b.allocated)))
