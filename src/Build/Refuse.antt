-- ===== src/Build/Refuse.antt =====
-- TSS_buildbuff where the buffer is too small.
use tpm_luks.Common.{
  ℕ, ◌+◌, ◌^◌, ◌≤◌, ◌<◌, ◌≡◌, refl, ap, ◌∙◌, arith, length-append, append_assoc, append-nil,
}
use tpm_luks.Common.{
  List, [], ◌∷◌, ◌++◌, length, All, Option, none, some, le→leb, lt_or_le, inl, inr,
}
use tpm_luks.Common.Memory.{splice, splice-append, splice-nil, length-splice, done}
use tpm_luks.Bytes.{u16, u32, u64, u8, be32, be16, le32, le16, err_buffer}
use tpm_luks.Bytes.Laws.{sign_extend-small}
use tpm_luks.Buffer.{TpmBuffer, IsBuffer}
use tpm_luks.Build.{
  Arg, word, ptr, Builder, stop, Progress, build_char, build_loop, tss_buildbuff, finish,
}
use tpm_luks.Build.{store_word, store_sized, store_sized_short, store_raw, hex_nibble}
use tpm_luks.Build.Fields.{
  Field, blank, pair, long, short, native_long, native_short, octet, sized, sized_short, raw,
  allocated, expected,
}
use tpm_luks.Build.Fields.{
  encode, encode_all, format_of, formats, args_of, arguments, IsField, IsChecked, bounded_short,
  bounded,
}
use tpm_luks.Build.Steps.{between}
use tpm_luks.Build.Digits.{build_char-digit}
use tpm_luks.Build.Loop.{field_runs, build_loop-append, byte_after, two_chars}

-- The loop stopped with ERR_BUFFER, having written only `bs` behind the place where it began.
record Refused (m : List ℕ) (size t : ℕ) (p : Progress) : Type 0 where
  bs : List ℕ
  b : Builder
  stops : p ≡ stop err_buffer b
  keeps : b.mem ≡ splice m t bs
  inside : t + length bs < size

one_stop :
    (c : ℕ) (b b' : Builder)
    → build_char c b ≡ stop err_buffer b'
    → build_loop (c ∷ []) b ≡ stop err_buffer b'
unfolding build_loop
one_stop c b b' e = rw e

module _ (m : List ℕ) (size t : ℕ) (pos : Option ℕ) (byte : ℕ) (rest : List Arg) (room : t < size)
    (small : size < 2 ^ 31) where
  at_once : (p : Progress) (b : Builder) → p ≡ stop err_buffer b → b.mem ≡ m → Refused m size t p
  at_once p b e k = record {
    bs = [];
    b = b;
    stops = e;
    keeps = rw (k, splice-nil);
    inside = omega arith;
  }

  sized_refused :
      (bs : List ℕ)
      → length bs < 2 ^ 31
      → size ≤ t + (4 + length bs)
      → store_sized (between m size t pos byte (word (length bs) ∷ ptr (some bs) ∷ rest))
        ≡ stop err_buffer (between m size t pos 0 (ptr (some bs) ∷ rest))
  unfolding store_sized
  sized_refused bs ok h =
      let n = length bs in
      let u : u64 (u32 (t + 4) + n) ≡ t + 4 + n = omega arith in
      rw (sign_extend-small n (omega arith), u, le→leb size (t + 4 + n) (omega arith))

  word_refused :
      (n : ℕ) (bytes : ℕ → List ℕ) (args : List Arg)
      → size ≤ t + n
      → n < 2 ^ 31
      → store_word n bytes (between m size t pos byte args)
        ≡ stop err_buffer (between m size t pos byte args)
  unfolding store_word
  word_refused n bytes args h k =
      let u : u32 (t + n) ≡ t + n = omega arith in rw (u, le→leb size (t + n) h)

  field-Refused :
      (f : Field)
      → IsField f
      → IsChecked f
      → size ≤ t + length (encode f)
      → Refused m size t (build_loop (format_of f) (between m size t pos byte (args_of f ++ rest)))
  unfolding encode
  field-Refused blank ok c h = absurd (omega arith)
  field-Refused (pair c d) (hc, hd) k h =
      let u : u32 (t + 1) ≡ t + 1 = omega arith in
      let b = between m size t pos byte rest in
      at_once _ b
        (two_chars c d b
          ∙ rw (build_char-digit c b hc) (unfold hex_nibble in rw (u, le→leb size (t + 1) h)))
        refl
  field-Refused (long v) ok c h =
      let b = between m size t pos byte (word v ∷ rest) in
      at_once _ b
        (one_stop b'L' b b
          (unfold build_char in word_refused 4 be32 (word v ∷ rest) h (omega arith)))
        refl
  field-Refused (short v) ok c h =
      let b = between m size t pos byte (word v ∷ rest) in
      at_once _ b
        (one_stop b'S' b b
          (unfold build_char in word_refused 2 be16 (word v ∷ rest) h (omega arith)))
        refl
  field-Refused (native_long v) ok c h =
      let b = between m size t pos byte (word v ∷ rest) in
      at_once _ b
        (one_stop b'l' b b
          (unfold build_char in word_refused 4 le32 (word v ∷ rest) h (omega arith)))
        refl
  field-Refused (native_short v) ok c h =
      let b = between m size t pos byte (word v ∷ rest) in
      at_once _ b
        (one_stop b's' b b
          (unfold build_char in word_refused 2 le16 (word v ∷ rest) h (omega arith)))
        refl
  field-Refused (octet v) ok c h =
      let b = between m size t pos byte (word v ∷ rest) in
      at_once _ b
        (one_stop b'o' b b
          (unfold build_char in word_refused 1 (λ w. u8 w ∷ []) (word v ∷ rest) h (omega arith)))
        refl
  field-Refused (sized bs) ok c h =
      let b = between m size t pos byte (word (length bs) ∷ ptr (some bs) ∷ rest) in
      let b' = between m size t pos 0 (ptr (some bs) ∷ rest) in
      at_once _ b' (one_stop b'@' b b' (unfold build_char in sized_refused bs ok (omega arith)))
        refl
  field-Refused (allocated bs) ok c h =
      let b = between m size t pos byte (word (length bs) ∷ ptr (some bs) ∷ rest) in
      let b' = between m size t pos 0 (ptr (some bs) ∷ rest) in
      at_once _ b' (one_stop b'*' b b' (unfold build_char in sized_refused bs ok (omega arith)))
        refl
  field-Refused (expected v) ok c h =
      let b = between m size t pos byte (word v ∷ rest) in
      at_once _ b
        (one_stop b'X' b b
          (unfold build_char in word_refused 4 be32 (word v ∷ rest) h (omega arith)))
        refl
  field-Refused (sized_short bs) ok c h =
      let n = length bs in
      let e : u16 n ≡ n = omega arith in
      let u : u32 (t + 2 + n) ≡ t + 2 + n = omega arith in
      let b = between m size t pos byte (word n ∷ ptr (some bs) ∷ rest) in
      let b' = between m size t pos 0 (ptr (some bs) ∷ rest) in
      at_once _ b'
        (one_stop b'&' b b'
          (unfold build_char store_sized_short in rw (e, u, le→leb size (t + 2 + n) (omega arith))))
        refl
  field-Refused (raw bs) ok c h =
      let n = length bs in
      let u : u64 (t + n) ≡ t + n = omega arith in
      let b = between m size t pos byte (word n ∷ ptr (some bs) ∷ rest) in
      let b' = between m size t pos 0 (ptr (some bs) ∷ rest) in
      at_once _ b'
        (one_stop b'%' b b' (
          unfold build_char store_raw in
          rw (sign_extend-small n (omega arith), u, le→leb size (t + n) (omega arith))))
        refl
  field-Refused (bounded_short max bs more) ok c h = absurd c
  field-Refused (bounded max bs more) ok c h = absurd c

fields-Refused :
    (fs : List Field) (m : List ℕ) (size t : ℕ) (pos : Option ℕ) (byte : ℕ) (rest : List Arg)
    → t < size
    → size ≤ length m
    → size < 2 ^ 31
    → All IsField fs
    → All IsChecked fs
    → size ≤ t + length (encode_all fs)
    → Refused m size t (build_loop (formats fs) (between m size t pos byte (arguments fs ++ rest)))
unfolding encode_all
fields-Refused [] m size t pos byte rest room fits small ok cs h = absurd (omega arith)
fields-Refused (f ∷ fs) m size t pos byte rest room fits small (ok, oks) (c, cs) h =
    let n = length (encode f) in
    let start = between m size t pos byte (args_of f ++ (arguments fs ++ rest)) in
    let parts = build_loop-append (format_of f) (formats fs) start in
    rw (append_assoc (args_of f) (arguments fs) rest, parts)
      (elim (lt_or_le (t + n) size) [
        | inl here ↦
            let run = field_runs m size t pos byte (arguments fs ++ rest) fits small f ok here in
            let len = length-append (encode f) (encode_all fs) in
            let r =
              fields-Refused fs (splice m t (encode f)) size (t + n) pos (byte_after f byte) rest
                here (rw (length-splice m t (encode f)) fits) small oks cs (omega arith) in
            record {
              bs = encode f ++ r.bs;
              b = r.b;
              stops = rw run r.stops;
              keeps = r.keeps ∙ splice-append m t (encode f) r.bs;
              inside = omega (arith, length-append (encode f) r.bs, r.inside);
            }
        | inr full ↦
            let r = field-Refused m size t pos byte (arguments fs ++ rest) room small f ok c full in
            record { bs = r.bs; b = r.b; stops = rw (r.stops); keeps = r.keeps; inside = r.inside }
      ])

-- A list of fields, none of them '^' or '!', that would fill the buffer to its last byte or beyond is refused with
-- ERR_BUFFER: `used` stays, and only bytes behind `used`, within the buffer, may have changed.
pub buildbuff_refuses :
    (fs : List Field) (tb : TpmBuffer)
    → IsBuffer tb
    → All IsField fs
    → All IsChecked fs
    → tb.used < tb.size
    → tb.size ≤ tb.used + length (encode_all fs)
    → (bs : List ℕ) × (tb.used + length bs < tb.size)
      × (tss_buildbuff (formats fs) tb (arguments fs)
          ≡ done (err_buffer, record tb { buffer = splice tb.buffer tb.used bs }))
unfolding tss_buildbuff
buildbuff_refuses fs tb b ok cs room big =
    let r =
      fields-Refused fs tb.buffer tb.size tb.used none 0 [] room b.allocated b.small ok cs big in
    (r.bs, r.inside, ap (finish tb) (rw append-nil at r.stops) ∙ rw r.keeps)
