-- ===== src/Build/Digits.antt =====
-- Two hex digits of a format are one byte.
use tpm_luks.Common.{ℕ, ◌+◌, ◌-◌, ◌*◌, ◌%◌, ◌^◌, ◌≤◌, ◌<◌, ◌≡◌, arith}
use tpm_luks.Common.{List, [], ◌∷◌, length, Option, true, lt→leb}
use tpm_luks.Common.Bits.{bit_and_nibble, shift_in}
use tpm_luks.Common.Memory.{splice}
use tpm_luks.Bytes.{u32}
use tpm_luks.Build.{Arg, Builder, next, ◌>>>=◌, hex_nibble, build_char}
use tpm_luks.Build.Fields.{is_hex, digit}
use tpm_luks.Build.Steps.{between, put_inside}

pub build_char-digit :
    (c : ℕ) (b : Builder) → is_hex c ≡ true → build_char c b ≡ hex_nibble (digit c) b
unfolding build_char
build_char-digit c b h =
    ground (arith, bit_and_nibble (c - 48), bit_and_nibble (c - 65), bit_and_nibble (c - 97))

pub digit-lt : (c : ℕ) → is_hex c ≡ true → digit c < 16
digit-lt c h = ground arith

pub hex_pair_runs :
    (c d : ℕ) (m : List ℕ) (size t : ℕ) (pos : Option ℕ) (byte : ℕ) (args : List Arg)
    → digit c < 16
    → digit d < 16
    → t + 1 < size
    → size ≤ length m
    → size < 2 ^ 31
    → (hex_nibble (digit c) (between m size t pos byte args) >>>= hex_nibble (digit d))
      ≡ next (
          between
            (splice m t ((16 * digit c + digit d) ∷ []))
            size
            (t + 1)
            pos
            (16 * digit c + digit d)
            args)
unfolding hex_nibble
hex_pair_runs c d m size t pos byte args hc hd fits room small =
    let x = digit c in
    let y = digit d in
    let first = byte % 16 * 16 + x in
    let u : u32 (t + 1) ≡ t + 1 = omega arith in
    let v : first % 16 * 16 + y ≡ 16 * x + y = omega arith in
    let b : Builder = record (between m size t pos (16 * x + y) args) { hexflag = true } in
    rw (
      u,
      lt→leb size (t + 1) (omega arith),
      shift_in byte x hc,
      u,
      lt→leb size (t + 1) (omega arith),
      shift_in first y hd,
      v,
      put_inside ((16 * x + y) ∷ []) b (omega arith),
      u,
    )
