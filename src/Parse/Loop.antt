-- ===== src/Parse/Loop.antt =====
-- The loop of the parser over the bytes of a list of fields.
use tpm_luks.Common.{ℕ, suc, ◌+◌, ◌≡◌, refl, ap, arith}
use tpm_luks.Common.{
  List, [], ◌∷◌, ◌++◌, length, length-append, append-nil, append_assoc, Bool, All,
}
use tpm_luks.Bytes.{be32, be16, u8}
use tpm_luks.Bytes.Laws.{length-be32, length-be16}
use tpm_luks.Buffer.{
  TpmBuffer, IsBuffer, tpm_buffer_load32, tpm_buffer_load16, tpm_buffer_load32_native,
  tpm_buffer_load16_native,
}
use tpm_luks.Build.Fields.{
  Field, blank, pair, long, short, native_long, native_short, octet, sized, sized_short, raw,
  allocated, expected, bounded_short, bounded,
}
use tpm_luks.Build.Fields.{encode, encode_all, format_of, formats}
use tpm_luks.Parse.{
  Slot, Value, Parser, Progress, next, stop, ◌>>>=◌, tss_parsebuff, finish, minus_three,
}
use tpm_luks.Parse.{parse_char, parse_loop, start_parser}
use tpm_luks.Parse.Steps.{
  Shows, Shows-front, Shows-back, load32-Shows, load16-Shows, native_load32-Shows,
  native_load16-Shows,
}
use tpm_luks.Bytes.{err_buffer}
use tpm_luks.Parse.Fields.{slots_of, values_of, IsReadable, all_slots, all_values}
use tpm_luks.Parse.Cases.{
  at, word_case, expected_case, octet_case, allocated_case, bounded_case, sized_case, raw_case,
}

module _ (allocates : ℕ → Bool) (tb : TpmBuffer) where
  bind_step :
      (p : Progress) (f g h : Parser → Progress)
      → ((q : Parser) → f q ≡ (g q >>>= h))
      → (p >>>= f) ≡ (p >>>= g >>>= h)
  bind_step (next q) f g h e = e q
  bind_step (stop c q) f g h e = refl
  bind_step Progress.fault f g h e = refl

  parse_loop-append :
      (xs ys : List ℕ) (p : Parser)
      → parse_loop allocates tb (xs ++ ys) p
        ≡ (parse_loop allocates tb xs p >>>= parse_loop allocates tb ys)
  unfolding parse_loop
  parse_loop-append [] ys p = refl
  parse_loop-append (c ∷ xs) ys p =
      bind_step (parse_char allocates tb c p) _ (parse_loop allocates tb xs)
        (parse_loop allocates tb ys) (parse_loop-append xs ys)

  one_char :
      (c : ℕ) (p q : Parser)
      → parse_char allocates tb c p ≡ next q
      → parse_loop allocates tb (c ∷ []) p ≡ next q
  unfolding parse_loop
  one_char c p q e = rw e

  module _ (b : IsBuffer tb) (off : ℕ) (vs : List Value) (ss : List Slot) where
    pub field_read :
        (f : Field)
        → IsReadable allocates f
        → Shows tb off (encode f)
        → parse_loop allocates tb (format_of f) (at off vs (slots_of f ++ ss))
          ≡ next (at (off + length (encode f)) (vs ++ values_of f) ss)
    unfolding encode
    field_read blank ok s =
        let e : off + 0 ≡ off = omega arith in
        rw (e, append-nil) (one_char b' ' _ _ (unfold parse_char in refl))
    field_read (pair c d) ok s = absurd ok
    field_read (long v) ok s =
        let e = load32-Shows tb b off v ok s in
        one_char b'L' _ _
          (unfold parse_char in word_case tb b off vs ss 4 tpm_buffer_load32 v e s.room)
    field_read (short v) ok s =
        let e = load16-Shows tb b off v ok s in
        one_char b'S' _ _
          (unfold parse_char in word_case tb b off vs ss 2 tpm_buffer_load16 v e s.room)
    field_read (native_long v) ok s =
        let e = native_load32-Shows tb b off v ok s in
        one_char b'l' _ _
          (unfold parse_char in word_case tb b off vs ss 4 tpm_buffer_load32_native v e s.room)
    field_read (native_short v) ok s =
        let e = native_load16-Shows tb b off v ok s in
        one_char b's' _ _
          (unfold parse_char in word_case tb b off vs ss 2 tpm_buffer_load16_native v e s.room)
    field_read (octet v) ok s =
        let e : u8 v ≡ v = omega arith in
        let s' : Shows tb off (v ∷ []) = rw e at s in
        one_char b'o' _ _ (unfold parse_char in octet_case tb b off vs ss v s')
    field_read (sized bs) ok s =
        let e : off + (4 + length bs) ≡ off + suc (suc (suc (suc (length bs)))) = omega arith in
        one_char b'@' _ _ (unfold parse_char in rw e at (sized_case tb b off vs ss bs ok s))
    field_read (sized_short bs) (ok, free) s =
        let e : off + (2 + length bs) ≡ off + suc (suc (length bs)) = omega arith in
        let n = length bs in
        let r = load16-Shows tb b off n ok (Shows-front tb off (be16 n) bs s) in
        one_char b'&' _ _ (
          unfold parse_char in
          rw e at (
            allocated_case tb b off vs ss (be16 n) bs 2 tpm_buffer_load16 (length-be16 n) r s
              allocates free))
    field_read (allocated bs) (ok, free) s =
        let e : off + (4 + length bs) ≡ off + suc (suc (suc (suc (length bs)))) = omega arith in
        let n = length bs in
        let r = load32-Shows tb b off n (omega arith) (Shows-front tb off (be32 n) bs s) in
        one_char b'*' _ _ (
          unfold parse_char in
          rw e at (
            allocated_case tb b off vs ss (be32 n) bs 4 tpm_buffer_load32 (length-be32 n) r s
              allocates free))
    field_read (expected v) ok s =
        let e = load32-Shows tb b off v ok s in
        rw append-nil
          (one_char b'X' _ _ (unfold parse_char in expected_case tb b off vs ss v ok e s.room))
    field_read (raw bs) ok s =
        one_char b'%' _ _ (unfold parse_char in raw_case tb b off vs ss bs ok s)
    field_read (bounded_short max bs more) (ok, below, small) s =
        let e : off + (2 + length bs) ≡ off + suc (suc (length bs)) = omega arith in
        let n = length bs in
        let r = load16-Shows tb b off n ok (Shows-front tb off (be16 n) bs s) in
        one_char b'^' _ _ (
          unfold parse_char in
          rw e at (
            bounded_case tb b off vs ss (be16 n) bs 2 tpm_buffer_load16 (length-be16 n) r s
              err_buffer max small below))
    field_read (bounded max bs more) (ok, below, small) s =
        let e : off + (4 + length bs) ≡ off + suc (suc (suc (suc (length bs)))) = omega arith in
        let n = length bs in
        let r = load32-Shows tb b off n (omega arith) (Shows-front tb off (be32 n) bs s) in
        one_char b'!' _ _ (
          unfold parse_char in
          rw e at (
            bounded_case tb b off vs ss (be32 n) bs 4 tpm_buffer_load32 (length-be32 n) r s
              minus_three max small below))

  pub fields_read :
      (b : IsBuffer tb) (fs : List Field) (off : ℕ) (vs : List Value) (ss : List Slot)
      → All (IsReadable allocates) fs
      → Shows tb off (encode_all fs)
      → parse_loop allocates tb (formats fs) (at off vs (all_slots fs ++ ss))
        ≡ next (at (off + length (encode_all fs)) (vs ++ all_values fs) ss)
  unfolding encode_all
  fields_read b [] off vs ss ok s =
      let e : off + 0 ≡ off = omega arith in rw (e, append-nil) (unfold parse_loop in refl)
  fields_read b (f ∷ fs) off vs ss (ok, oks) s =
      let n = length (encode f) in
      let k = length (encode_all fs) in
      let here =
        field_read b off vs (all_slots fs ++ ss) f ok
          (Shows-front tb off (encode f) (encode_all fs) s) in
      let later =
        fields_read b fs (off + n) (vs ++ values_of f) ss oks
          (Shows-back tb off (encode f) (encode_all fs) s) in
      let sum : off + n + k ≡ off + (n + k) = omega arith in
      rw
        (
          append_assoc (slots_of f) (all_slots fs) ss,
          parse_loop-append (format_of f) (formats fs)
              (at off vs (slots_of f ++ (all_slots fs ++ ss))),
          here,
          length-append (encode f) (encode_all fs),
          ← sum,
          ← append_assoc vs (values_of f) (all_values fs),
        )
        later

pub parse_to_finish :
    (allocates : ℕ → Bool) (format : List ℕ) (tb : TpmBuffer) (start : ℕ) (slots : List Slot)
    (p : Progress)
    → parse_loop allocates tb format (start_parser start slots) ≡ p
    → tss_parsebuff allocates format tb start slots ≡ finish start p
unfolding tss_parsebuff
parse_to_finish allocates format tb start slots p e = ap (finish start) e
