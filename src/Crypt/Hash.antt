-- ===== src/Crypt/Hash.antt =====
-- parseHash on a string of hex digits, and on any other.
use tpm_luks.Common.{ℕ, zero, suc, ◌+◌, ◌*◌, ◌/◌, ◌%◌, ◌≤◌, ◌<◌, ◌≡◌, refl, ap, ◌∙◌, arith, le→leb}
use tpm_luks.Common.{List, [], ◌∷◌, ◌++◌, length, All, true, false, none, some}
use tpm_luks.Common.Bits.{shift_in}
use tpm_luks.Common.Memory.{done, splice, length-splice, splice-nil, splice-append, write_at}
use tpm_luks.Build.Fields.{is_hex, digit}
use tpm_luks.Build.Digits.{digit-lt}
use tpm_luks.Crypt.{hash_loop, parse_hash, hex_value}

-- Two hex digits for each byte of a hash.
pub record Pair : Type 0 where
  pub hi : ℕ
  pub lo : ℕ

abbrev pub IsHexPair : Pair → Type 0
IsHexPair p = (is_hex p.hi ≡ true) × (is_hex p.lo ≡ true)

abbrev pub letters : List Pair → List ℕ
letters [] = []
letters (p ∷ ps) = p.hi ∷ p.lo ∷ letters ps

abbrev pub bytes_of : List Pair → List ℕ
bytes_of [] = []
bytes_of (p ∷ ps) = (16 * digit p.hi + digit p.lo) ∷ bytes_of ps

hex_value-digit : (c : ℕ) → is_hex c ≡ true → hex_value c ≡ some (digit c)
hex_value-digit c h = ground arith

-- A byte written twice at one place.
splice_again :
    (m : List ℕ) (o x y : ℕ) → splice (splice m o (x ∷ [])) o (y ∷ []) ≡ splice m o (y ∷ [])
unfolding splice
splice_again [] zero x y = refl
splice_again (z ∷ m) zero x y = refl
splice_again [] (suc o) x y = refl
splice_again (z ∷ m) (suc o) x y = ap (λ t. z ∷ t) (splice_again m o x y)

digit_runs :
    (left c : ℕ) (string : List ℕ) (i byte : ℕ) (hash : List ℕ)
    → is_hex c ≡ true
    → i / 2 < length hash
    → hash_loop (suc left) (c ∷ string) i byte hash
      ≡ hash_loop left string
          (i + 1)
          (byte % 16 * 16 + digit c)
          (splice hash (i / 2) ((byte % 16 * 16 + digit c) ∷ []))
unfolding hash_loop write_at
digit_runs left c string i byte hash h inside = rw (
  hex_value-digit c h,
  le→leb (i / 2 + 1) (length hash) (omega arith),
  shift_in byte (digit c) (digit-lt c h),
)

pairs_run :
    (ps : List Pair) (left k i byte : ℕ) (hash : List ℕ) (rest : List ℕ)
    → All IsHexPair ps
    → left ≡ 2 * length ps
    → i ≡ 2 * k
    → k + length ps ≤ length hash
    → hash_loop left (letters ps ++ rest) i byte hash ≡ done (0, splice hash k (bytes_of ps))
pairs_run [] left k i byte hash rest ok e ei room =
    let none_left : left ≡ 0 = omega arith in rw (none_left, splice-nil) (unfold hash_loop in refl)
pairs_run (p ∷ ps) left k i byte hash rest ((hi, lo), oks) e ei room =
    let left' = 2 * length ps in
    let x = digit p.hi in
    let y = digit p.lo in
    let b1 = byte % 16 * 16 + x in
    let hash1 = splice hash k (b1 ∷ []) in
    let v = 16 * x + y in
    let tail = letters ps ++ rest in
    let two : left ≡ suc (suc left') = omega arith in
    let here : i / 2 ≡ k = omega arith in
    let there : (i + 1) / 2 ≡ k = omega arith in
    let joined : b1 % 16 * 16 + y ≡ v = omega (arith, digit-lt p.hi hi, digit-lt p.lo lo) in
    let first =
      rw here at (digit_runs (suc left') p.hi (p.lo ∷ tail) i byte hash hi (omega arith)) in
    let second =
      rw (there, joined) at
        (digit_runs left' p.lo tail (i + 1) b1 hash1 lo
          (omega (arith, length-splice hash k (b1 ∷ [])))) in
    let later =
      pairs_run ps left' (k + 1) (i + 1 + 1) v (splice hash k (v ∷ [])) rest oks refl (omega arith)
        (omega (arith, length-splice hash k (v ∷ []))) in
    rw (two, first, second, splice_again hash k b1 v, ← splice-append hash k (v ∷ []) (bytes_of ps))
      later

-- parseHash of forty hex digits, whatever follows them, fills the twenty bytes of the hash with
-- the bytes that the digits spell, two for a byte with the high one first, and returns 0.
pub parse_hash-letters :
    (ps : List Pair) (rest hash : List ℕ)
    → All IsHexPair ps
    → length ps ≡ 20
    → length hash ≡ 20
    → parse_hash (letters ps ++ rest) hash ≡ done (0, splice hash 0 (bytes_of ps))
parse_hash-letters ps rest hash ok e h =
    unfold parse_hash in pairs_run ps 40 0 0 0 hash rest ok (omega arith) refl (omega arith)

hex_value-none : (c : ℕ) → is_hex c ≡ false → hex_value c ≡ none
hex_value-none c h = ground arith

stops_at :
    (front : List ℕ) (left c i byte : ℕ) (rest hash : List ℕ)
    → All (λ d. is_hex d ≡ true) front
    → is_hex c ≡ false
    → length front < left
    → i + left ≤ 2 * length hash
    → (hash' : List ℕ) × (hash_loop left (front ++ c ∷ rest) i byte hash ≡ done (1, hash'))
stops_at [] zero c i byte rest hash ok bad short room = absurd (omega arith)
stops_at [] (suc left) c i byte rest hash ok bad short room =
    (hash, unfold hash_loop in rw (hex_value-none c bad))
stops_at (d ∷ front) zero c i byte rest hash ok bad short room = absurd (omega arith)
stops_at (d ∷ front) (suc left) c i byte rest hash (h, hs) bad short room =
    let b = byte % 16 * 16 + digit d in
    let hash1 = splice hash (i / 2) (b ∷ []) in
    let (hash', later) =
      stops_at front left c (i + 1) b rest hash1 hs bad (omega arith)
        (omega (arith, length-splice hash (i / 2) (b ∷ []))) in
    (hash', digit_runs left d (front ++ c ∷ rest) i byte hash h (omega arith) ∙ later)

-- A string with another character among its first forty is refused with 1, without a read behind
-- that character: the end of a short string is such a character.
pub parse_hash_refuses :
    (front rest hash : List ℕ) (c : ℕ)
    → All (λ d. is_hex d ≡ true) front
    → is_hex c ≡ false
    → length front < 40
    → length hash ≡ 20
    → (hash' : List ℕ) × (parse_hash (front ++ c ∷ rest) hash ≡ done (1, hash'))
parse_hash_refuses front rest hash c ok bad short h =
    unfold parse_hash in stops_at front 40 c 0 0 rest hash ok bad short (omega arith)
