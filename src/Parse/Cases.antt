-- ===== src/Parse/Cases.antt =====
-- The cases of the parser on the bytes of one field.
use tpm_luks.Common.{ℕ, ◌+◌, ◌^◌, ◌≤◌, ◌<◌, ◌≡◌, ◌∙◌, arith, refl, ltb, ==_iff}
use tpm_luks.Common.{List, [], ◌∷◌, ◌++◌, length, le→ltb, append_assoc, Bool, true, some}
use tpm_luks.Common.Memory.{Outcome, done, read_at}
use tpm_luks.Bytes.{be32, u32}
use tpm_luks.Bytes.Laws.{length-be32}
use tpm_luks.Buffer.{TpmBuffer, IsBuffer, tpm_buffer_load32}
use tpm_luks.Build.Steps.{and-false}
use tpm_luks.Parse.{Slot, out, number, area, handle, Value, scalar, Parser, next, copy_out}
use tpm_luks.Parse.{
  parse_word, parse_expected, parse_octet, parse_sized, parse_allocated, parse_bounded, parse_raw,
}
use tpm_luks.Parse.Steps.{
  Shows, Shows-front, Shows-back, copied, copy_out-Shows, load32-Shows, read_at-Shows,
}

abbrev pub at : ℕ → List Value → List Slot → Parser
at off vs ss = record { offset = off; values = vs; slots = ss }

module _ (tb : TpmBuffer) (b : IsBuffer tb) (off : ℕ) (vs : List Value) (ss : List Slot) where
  pub word_case :
      (n : ℕ) (load : TpmBuffer → ℕ → Outcome ℕ) (v : ℕ)
      → load tb off ≡ done v
      → off + n ≤ tb.used
      → parse_word n load tb (at off vs (out ∷ ss)) ≡ next (at (off + n) (vs ++ (scalar v ∷ [])) ss)
  unfolding parse_word
  word_case n load v e h =
      let u : u32 (off + n) ≡ off + n = omega (arith, b.fits, b.small) in rw (e, u)

  pub expected_case :
      (v : ℕ)
      → v < 2 ^ 32
      → tpm_buffer_load32 tb off ≡ done v
      → off + 4 ≤ tb.used
      → parse_expected tb (at off vs (number v ∷ ss)) ≡ next (at (off + 4) vs ss)
  unfolding parse_expected
  expected_case v small e h =
      let u : u32 (off + 4) ≡ off + 4 = omega (arith, b.fits, b.small) in
      let k : u32 v ≡ v = omega arith in rw (e, k, (==_iff v v).1 refl, u)

  pub octet_case :
      (v : ℕ)
      → Shows tb off (v ∷ [])
      → parse_octet tb (at off vs (out ∷ ss)) ≡ next (at (off + 1) (vs ++ (scalar v ∷ [])) ss)
  unfolding parse_octet
  octet_case v s =
      let u : u32 (off + 1) ≡ off + 1 = omega (arith, b.fits, b.small, s.room) in
      let r : read_at tb.buffer off 1 ≡ done (v ∷ []) = read_at-Shows tb b off (v ∷ []) s in
      rw (u, le→ltb tb.used (off + 1) s.room, r, u)

  -- A length word `ls` of `n` bytes that loads as the number of the bytes behind it.
  module _ (ls bs : List ℕ) (n : ℕ) (load : TpmBuffer → ℕ → Outcome ℕ) (width : length ls ≡ n)
      (reads : load tb off ≡ done (length bs)) (s : Shows tb off (ls ++ bs)) where
    after : List Value
    after = vs ++ (scalar (length bs) ∷ copied bs)

    behind : Shows tb (off + n) bs
    behind = rw width at (Shows-back tb off ls bs s)

    copy_behind :
        (space : ℕ)
        → length bs ≤ space
        → copy_out tb (length bs) (some space) (at (off + n) (vs ++ (scalar (length bs) ∷ [])) ss)
          ≡ next (at (off + (n + length bs)) (vs ++ (scalar (length bs) ∷ copied bs)) ss)
    copy_behind space h =
        let e : off + n + length bs ≡ off + (n + length bs) = omega arith in
        copy_out-Shows tb b bs space (off + n) (vs ++ (scalar (length bs) ∷ [])) ss behind h
        ∙ rw (e, append_assoc vs (scalar (length bs) ∷ []) (copied bs))

    fits_u32 : u32 (off + n) ≡ off + n
    fits_u32 = omega (arith, b.fits, b.small, behind.room)

    end_u32 : u32 (off + n + length bs) ≡ off + n + length bs
    end_u32 = omega (arith, b.fits, b.small, behind.room)

    pub allocated_case :
        (allocates : ℕ → Bool)
        → allocates (length bs) ≡ true
        → parse_allocated allocates n load tb (at off vs (out ∷ handle true ∷ ss))
          ≡ next (at (off + (n + length bs)) (vs ++ (scalar (length bs) ∷ copied bs)) ss)
    unfolding parse_allocated
    allocated_case allocates h =
        rw
          (
            reads,
            fits_u32,
            and-false (ltb 0 (length bs)),
            end_u32,
            le→ltb tb.used (off + n + length bs) behind.room,
            h,
            and-false (ltb 0 (length bs)),
          )
          (copy_behind (length bs) (omega arith))

    pub bounded_case :
        (null_code max : ℕ)
        → max < 2 ^ 32
        → length bs ≤ max
        → parse_bounded n null_code load tb (at off vs (out ∷ number max ∷ area (some max) ∷ ss))
          ≡ next (at (off + (n + length bs)) (vs ++ (scalar (length bs) ∷ copied bs)) ss)
    unfolding parse_bounded
    bounded_case null_code max small h =
        let m : u32 max ≡ max = omega arith in
        rw
          (
            reads,
            fits_u32,
            and-false (ltb 0 (length bs)),
            end_u32,
            le→ltb tb.used (off + n + length bs) behind.room,
            m,
            le→ltb max (length bs) h,
          )
          (copy_behind max h)

  pub sized_case :
      (bs : List ℕ)
      → length bs < 2 ^ 31
      → Shows tb off (be32 (length bs) ++ bs)
      → parse_sized tb (at off vs (out ∷ area (some (length bs)) ∷ ss))
        ≡ next (at (off + (4 + length bs)) (vs ++ (scalar (length bs) ∷ copied bs)) ss)
  unfolding parse_sized
  sized_case bs small s =
      let n = length bs in
      let ls = be32 n in
      let width = length-be32 n in
      let reads = load32-Shows tb b off n (omega arith) (Shows-front tb off ls bs s) in
      let back : Shows tb (off + 4) bs = rw width at (Shows-back tb off ls bs s) in
      let u : u32 (off + 4) ≡ off + 4 = omega (arith, b.fits, b.small, back.room) in
      let v : u32 (off + 4 + n) ≡ off + 4 + n = omega (arith, b.fits, b.small, back.room) in
      rw (reads, u, and-false (ltb 0 n), v, le→ltb tb.used (off + 4 + n) back.room)
        (copy_behind ls bs 4 tpm_buffer_load32 width reads s n (omega arith))

  pub raw_case :
      (bs : List ℕ)
      → length bs < 2 ^ 31
      → Shows tb off bs
      → parse_raw tb (at off vs (number (length bs) ∷ area (some (length bs)) ∷ ss))
        ≡ next (at (off + length bs) (vs ++ copied bs) ss)
  unfolding parse_raw
  raw_case bs small s =
      let n = length bs in
      let w : u32 n ≡ n = omega arith in
      let v : u32 (off + n) ≡ off + n = omega (arith, b.fits, b.small, s.room) in
      rw (w, v, le→ltb tb.used (off + n) s.room, and-false (ltb 0 n))
        (copy_out-Shows tb b bs n off vs ss s (omega arith))
