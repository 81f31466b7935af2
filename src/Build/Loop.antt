-- ===== src/Build/Loop.antt =====
-- The loop over a list of fields, and TSS_buildbuff as a whole.
use tpm_luks.Common.{
  ℕ, suc, ◌+◌, ◌*◌, ◌^◌, ◌≤◌, ◌<◌, ◌≡◌, refl, ◌∙◌, arith, length-append, append_assoc,
}
use tpm_luks.Common.{List, [], ◌∷◌, ◌++◌, length, All, Option}
use tpm_luks.Common.Memory.{splice, splice-append, splice-nil, length-splice}
use tpm_luks.Bytes.{u8, be32, be16, le32, le16}
use tpm_luks.Build.{Arg, Builder, next, stop, ◌>>>=◌, Progress, build_char, build_loop, hex_nibble}
use tpm_luks.Build.Fields.{
  Field, blank, pair, long, short, native_long, native_short, octet, sized, sized_short, raw,
  allocated, expected,
}
use tpm_luks.Build.Fields.{
  encode, encode_all, format_of, formats, args_of, arguments, IsField, digit,
}
use tpm_luks.Build.Fields.{bounded_short, bounded}
use tpm_luks.Build.Steps.{store_bounded_short_runs, store_bounded_runs}
use tpm_luks.Build.Steps.{
  between, store_word_runs, store_sized_runs, store_sized_short_runs, store_raw_runs,
}
use tpm_luks.Build.Digits.{build_char-digit, digit-lt, hex_pair_runs}

bind_step :
    (p : Progress) (f g h : Builder → Progress)
    → ((b : Builder) → f b ≡ (g b >>>= h))
    → (p >>>= f) ≡ (p >>>= g >>>= h)
bind_step (next b) f g h e = e b
bind_step (stop c b) f g h e = refl
bind_step Progress.fault f g h e = refl

pub bind_cong :
    (p : Progress) (f g : Builder → Progress)
    → ((b : Builder) → f b ≡ g b)
    → (p >>>= f) ≡ (p >>>= g)
bind_cong (next b) f g e = e b
bind_cong (stop c b) f g e = refl
bind_cong Progress.fault f g e = refl

pub build_loop-append :
    (xs ys : List ℕ) (b : Builder) → build_loop (xs ++ ys) b ≡ (build_loop xs b >>>= build_loop ys)
unfolding build_loop
build_loop-append [] ys b = refl
build_loop-append (c ∷ xs) ys b =
    bind_step (build_char c b) _ (build_loop xs) (build_loop ys) (build_loop-append xs ys)

pub one_char : (c : ℕ) (b b' : Builder) → build_char c b ≡ next b' → build_loop (c ∷ []) b ≡ next b'
unfolding build_loop
one_char c b b' e = rw e

pub two_chars :
    (c d : ℕ) (b : Builder) → build_loop (c ∷ d ∷ []) b ≡ (build_char c b >>>= build_char d)
unfolding build_loop
two_chars c d b = bind_cong (build_char c b) _ (build_char d) (λ b'. end (build_char d b'))
  where
    end : (p : Progress) → (p >>>= λ b. next b) ≡ p
    end (next b) = refl
    end (stop c b) = refl
    end Progress.fault = refl

abbrev pub byte_after : Field → ℕ → ℕ
byte_after blank byte = byte
byte_after (pair c d) byte = 16 * digit c + digit d
byte_after _ byte = 0

module _ (m : List ℕ) (size t : ℕ) (pos : Option ℕ) (byte : ℕ) (rest : List Arg)
    (room : size ≤ length m) (small : size < 2 ^ 31) where
  pair_runs :
      (c d : ℕ)
      → IsField (pair c d)
      → t + 1 < size
      → build_loop (c ∷ d ∷ []) (between m size t pos byte rest)
        ≡ next (
            between
              (splice m t ((16 * digit c + digit d) ∷ []))
              size
              (t + 1)
              pos
              (16 * digit c + digit d)
              rest)
  pair_runs c d (hc, hd) fits =
      two_chars c d _
      ∙ bind_cong (build_char c _) (build_char d) (hex_nibble (digit d))
          (λ b. build_char-digit d b hd)
      ∙ rw (build_char-digit c (between m size t pos byte rest) hc)
          (hex_pair_runs c d m size t pos byte rest (digit-lt c hc) (digit-lt d hd) fits room small)

  pub field_runs :
      (f : Field)
      → IsField f
      → t + length (encode f) < size
      → build_loop (format_of f) (between m size t pos byte (args_of f ++ rest))
        ≡ next (
            between
              (splice m t (encode f))
              size
              (t + length (encode f))
              pos
              (byte_after f byte)
              rest)
  unfolding encode
  field_runs blank ok fits =
      let e : t + 0 ≡ t = omega arith in
      rw (splice-nil, e) (one_char b' ' _ _ (unfold build_char in refl))
  field_runs (pair c d) ok fits = pair_runs c d ok fits
  field_runs (long v) ok fits =
      one_char b'L' _ _
        (unfold build_char in store_word_runs 4 be32 v m size t pos byte rest refl fits room small)
  field_runs (short v) ok fits =
      one_char b'S' _ _
        (unfold build_char in store_word_runs 2 be16 v m size t pos byte rest refl fits room small)
  field_runs (native_long v) ok fits =
      one_char b'l' _ _
        (unfold build_char in store_word_runs 4 le32 v m size t pos byte rest refl fits room small)
  field_runs (native_short v) ok fits =
      one_char b's' _ _
        (unfold build_char in store_word_runs 2 le16 v m size t pos byte rest refl fits room small)
  field_runs (octet v) ok fits = one_char b'o' _ _ (
      unfold build_char in
      store_word_runs 1 (λ w. u8 w ∷ []) v m size t pos byte rest refl fits room small)
  field_runs (sized bs) ok fits =
      let e : t + (4 + length bs) ≡ t + suc (suc (suc (suc (length bs)))) = omega arith in
      one_char b'@' _ _ (
        unfold build_char in
        rw e at (store_sized_runs bs m size t pos byte rest (omega arith) room small))
  field_runs (sized_short bs) ok fits =
      let e : t + (2 + length bs) ≡ t + suc (suc (length bs)) = omega arith in
      one_char b'&' _ _ (
        unfold build_char in
        rw e at (store_sized_short_runs bs m size t pos byte rest ok (omega arith) room small))
  field_runs (raw bs) ok fits =
      one_char b'%' _ _
        (unfold build_char in store_raw_runs bs m size t pos byte rest fits room small)
  field_runs (allocated bs) ok fits =
      let e : t + (4 + length bs) ≡ t + suc (suc (suc (suc (length bs)))) = omega arith in
      one_char b'*' _ _ (
        unfold build_char in
        rw e at (store_sized_runs bs m size t pos byte rest (omega arith) room small))
  field_runs (expected v) ok fits =
      one_char b'X' _ _
        (unfold build_char in store_word_runs 4 be32 v m size t pos byte rest refl fits room small)
  field_runs (bounded_short max bs more) ok fits =
      let e : t + (2 + length bs) ≡ t + suc (suc (length bs)) = omega arith in
      one_char b'^' _ _ (
        unfold build_char in
        rw e at
          (store_bounded_short_runs max bs more m size t pos byte rest ok (omega arith) room small))
  field_runs (bounded max bs more) ok fits =
      let e : t + (4 + length bs) ≡ t + suc (suc (suc (suc (length bs)))) = omega arith in
      one_char b'!' _ _ (
        unfold build_char in
        rw e at (store_bounded_runs max bs more m size t pos byte rest (omega arith) room small))

abbrev pub byte_after_all : List Field → ℕ → ℕ
byte_after_all [] byte = byte
byte_after_all (f ∷ fs) byte = byte_after_all fs (byte_after f byte)

-- A list of fields for which there is room.
pub fields_run :
    (fs : List Field) (m : List ℕ) (size t : ℕ) (pos : Option ℕ) (byte : ℕ) (rest : List Arg)
    → size ≤ length m
    → size < 2 ^ 31
    → All IsField fs
    → t + length (encode_all fs) < size
    → build_loop (formats fs) (between m size t pos byte (arguments fs ++ rest))
      ≡ next (
          between
            (splice m t (encode_all fs))
            size
            (t + length (encode_all fs))
            pos
            (byte_after_all fs byte)
            rest)
unfolding encode_all
fields_run [] m size t pos byte rest room small ok fits =
    let e : t + 0 ≡ t = omega arith in rw (e, splice-nil) (unfold build_loop in refl)
fields_run (f ∷ fs) m size t pos byte rest room small (h, hs) fits =
    let n = length (encode f) in
    let k = length (encode_all fs) in
    let len : length (encode f ++ encode_all fs) ≡ n + k =
      length-append (encode f) (encode_all fs) in
    let after = splice m t (encode f) in
    let sum : t + n + k ≡ t + (n + k) = omega arith in
    let here = field_runs m size t pos byte (arguments fs ++ rest) room small f h (omega arith) in
    let later =
      fields_run fs after size (t + n) pos (byte_after f byte) rest
        (rw (length-splice m t (encode f)) room) small hs (omega arith) in
    rw
      (
        append_assoc (args_of f) (arguments fs) rest,
        build_loop-append (format_of f) (formats fs)
            (between m size t pos byte (args_of f ++ (arguments fs ++ rest))),
        here,
        len,
        ← sum,
        ← splice-append m t (encode f) (encode_all fs),
      )
      later
