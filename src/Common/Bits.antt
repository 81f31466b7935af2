-- ===== src/Common/Bits.antt =====
-- Facts about `^` and `|` of bytes and nibbles, read off tables that evaluation fills.
use Prim.Native.Nat.{ℕ, zero, suc, ◌+◌, ◌*◌, ◌/◌, ◌%◌, ◌^◌, ◌≤◌, ◌<◌, bit_and, bit_or, bit_xor}
use mathlib.Core.Path.{◌≡◌, refl}
use mathlib.Core.Logic.{inl, inr}
use mathlib.Core.Bool.{Bool, true, false}
use native.Mathlib.Omega.{arith}
use tpm_luks.Common.Tests.{◌==◌, ==_iff, lt_or_le, if◌then◌else◌, Bool-cases}

-- Whether a test holds of `top` and of everything below it.
up_to : ℕ → (ℕ → Bool) → Bool
up_to zero test = test zero
up_to (suc k) test = if test (suc k) then up_to k test else false

-- The entry of a full table.
up_to-entry :
    (top : ℕ) (test : ℕ → Bool) → up_to top test ≡ true → (v : ℕ) → v ≤ top → test v ≡ true
unfolding up_to
up_to-entry zero test full v h = let bottom : v ≡ zero = omega arith in rw bottom full
up_to-entry (suc k) test full v h = elim (Bool-cases (test (suc k))) [
  | inr gap ↦ absurd (apart (rw gap at full))
  | inl here ↦ elim (lt_or_le v (suc k)) [
    | inl below ↦ up_to-entry k test (rw here at full) v (omega arith)
    | inr top ↦ let e : v ≡ suc k = omega arith in rw e here
  ]
]
  where
    apart : false ≡ true → ⊥
    apart e = grind (arith, e)

-- The same for a test of two bytes.
all_bytes : (ℕ → ℕ → Bool) → Bool
all_bytes test = up_to 255 (λ x. up_to 255 (test x))

all_bytes-entry :
    (test : ℕ → ℕ → Bool) → all_bytes test ≡ true → (x y : ℕ) → x < 256 → y < 256 → test x y ≡ true
unfolding all_bytes
all_bytes-entry test full x y hx hy =
    let row = up_to-entry 255 (λ x. up_to 255 (test x)) full x (omega arith) in
    up_to-entry 255 (test x) row y (omega arith)

nibbles_masked : up_to 15 (λ x. bit_and x 0x0f == x) ≡ true
unfolding up_to
nibbles_masked = refl

pub bit_and_nibble : (x : ℕ) → x < 16 → bit_and x 0x0f ≡ x
bit_and_nibble x h =
    (==_iff (bit_and x 0x0f) x).0
      (up_to-entry 15 (λ x. bit_and x 0x0f == x) nibbles_masked x (omega arith))

bytes_joined : up_to 255 (λ x. bit_or (x / 16 * 16) (x % 16) == x) ≡ true
unfolding up_to
bytes_joined = refl

-- `byte = byte << 4; byte = byte | v` in an unsigned char.
pub shift_in : (byte v : ℕ) → v < 16 → bit_or (byte * 2 ^ 4 % 2 ^ 8) v ≡ byte % 16 * 16 + v
shift_in byte v h =
    let x = byte % 16 * 16 + v in
    let hi : x / 16 * 16 ≡ byte * 2 ^ 4 % 2 ^ 8 = omega arith in
    let lo : x % 16 ≡ v = omega arith in
    let joined =
      up_to-entry 255 (λ x. bit_or (x / 16 * 16) (x % 16) == x) bytes_joined x (omega arith) in
    rw (hi, lo) at ((==_iff (bit_or (x / 16 * 16) (x % 16)) x).0 joined)

xor_undone : all_bytes (λ x y. bit_xor (bit_xor x y) y == x) ≡ true
unfolding all_bytes up_to
xor_undone = refl

pub bit_xor_twice : (x y : ℕ) → x < 256 → y < 256 → bit_xor (bit_xor x y) y ≡ x
bit_xor_twice x y hx hy =
    (==_iff (bit_xor (bit_xor x y) y) x).0
      (all_bytes-entry (λ x y. bit_xor (bit_xor x y) y == x) xor_undone x y hx hy)

xor_undone_left : all_bytes (λ x y. bit_xor x (bit_xor x y) == y) ≡ true
unfolding all_bytes up_to
xor_undone_left = refl

pub bit_xor_back : (x y : ℕ) → x < 256 → y < 256 → bit_xor x (bit_xor x y) ≡ y
bit_xor_back x y hx hy =
    (==_iff (bit_xor x (bit_xor x y)) y).0
      (all_bytes-entry (λ x y. bit_xor x (bit_xor x y) == y) xor_undone_left x y hx hy)
