-- ===== src/Build.antt =====
-- TSS_buildbuff of swtpm-utils/lib/tpmutil.c: the interpreter of format strings that writes
-- its arguments into a buffer. One function stands for each group of cases of its `switch`.
pub mod Fields
pub mod Steps
pub mod Digits
pub mod Loop
pub mod Refine
pub mod Refuse
pub mod Overflow
use tpm_luks.Common.{
  ℕ, zero, suc, ◌+◌, ◌-◌, ◌*◌, ◌^◌, leb, ltb, ◌==◌, if◌then◌else◌, bit_and, bit_or,
}
use tpm_luks.Common.{
  List, [], ◌∷◌, length, take, Bool, true, false, not, ◌&&◌, ◌||◌, Option, none, some,
}
use tpm_luks.Common.Memory.{Outcome, done, ◌>>=◌, splice, write_at}
use tpm_luks.Bytes.{u8, u16, u32, u64, sign_extend, be32, be16, le32, le16}
use tpm_luks.Bytes.{err_bad_arg, err_buffer, err_null_arg}
use tpm_luks.Buffer.{TpmBuffer}

-- An argument behind the fixed ones: a word, or a pointer to bytes that may be NULL.
pub data Arg : Type 0 where
  word : ℕ → Arg
  ptr : Option (List ℕ) → Arg

-- The local variables of the loop. The pointers `o` and `totpos` are indices into `mem`, the
-- memory at `tb->buffer`; `args` are the arguments that `va_arg` has not taken.
pub record Builder : Type 0 where
  pub mem : List ℕ
  pub size : ℕ
  pub o : ℕ
  pub totlen : ℕ
  pub totpos : Option ℕ
  pub byte : ℕ
  pub hexflag : Bool
  pub args : List Arg

-- The loop goes on, the function returns an error code, or the behaviour is undefined.
pub data Progress : Type 0 where
  next : Builder → Progress
  stop : ℕ → Builder → Progress
  fault : Progress

infixl 5 ◌>>>=◌
abbrev pub ◌>>>=◌ : Progress → (Builder → Progress) → Progress
next b >>>= f = f b
stop e b >>>= f = stop e b
Progress.fault >>>= f = Progress.fault

abbrev pub stop_if : Bool → ℕ → Builder → Progress
stop_if test code b = if test then stop code b else next b

abbrev pub va_word : List Arg → Builder → (ℕ → Builder → Progress) → Progress
va_word (word w ∷ r) b k = k w (record b { args = r })
va_word _ b k = Progress.fault

abbrev pub va_ptr : List Arg → Builder → (Option (List ℕ) → Builder → Progress) → Progress
va_ptr (ptr p ∷ r) b k = k p (record b { args = r })
va_ptr _ b k = Progress.fault

-- A store at `o`.
pub put : List ℕ → Builder → Progress
put bs b =
    if leb (b.o + length bs) (length b.mem)
    then next (record b { mem = splice b.mem b.o bs })
    else Progress.fault

-- `o += n` on the pointer.
abbrev pub skip : ℕ → Builder → Builder
skip n b = record b { o = b.o + n }

-- `totlen += n` on the unsigned int.
abbrev pub count : ℕ → Builder → Builder
count n b = record b { totlen = u32 (b.totlen + n) }

abbrev pub advance : ℕ → Builder → Builder
advance n b = count n (skip n b)

-- `if (len > 0) memcpy(o, ptr, len)`.
pub copy : ℕ → Option (List ℕ) → Builder → Progress
copy zero p b = next b
copy (suc n) none b = Progress.fault
copy (suc n) (some bs) b =
    if leb (suc n) (length bs) then put (take (suc n) bs) b else Progress.fault

abbrev pub is_null : Option (List ℕ) → Bool
is_null none = true
is_null (some bs) = false

-- The cases 'L', 'X', 'S', 'l', 's' and 'o': room is checked before the argument is taken.
pub store_word : ℕ → (ℕ → List ℕ) → Builder → Progress
store_word n bytes b = stop_if b.hexflag err_bad_arg b >>>= λ b.
    stop_if (leb b.size (u32 (b.totlen + n))) err_buffer b >>>= λ b.
    va_word b.args (record b { byte = 0 }) λ w b. put (bytes w) b >>>= λ b. next (advance n b)

-- The cases '@' and '*': the length is an int, widened to an unsigned long.
pub store_sized : Builder → Progress
store_sized b = stop_if b.hexflag err_bad_arg b >>>= λ b.
    va_word b.args (record b { byte = 0 })
      λ w b.
        let len = sign_extend w in
        stop_if (leb b.size (u64 (u32 (b.totlen + 4) + len))) err_buffer b >>>= λ b.
        va_ptr b.args b λ p b. stop_if (ltb 0 len && is_null p) err_null_arg b >>>= λ b.
        put (be32 len) b >>>= λ b.
        copy len p (skip 4 b) >>>= λ b. next (count (len + 4) (skip len b))

-- The case '&'.
pub store_sized_short : Builder → Progress
store_sized_short b = stop_if b.hexflag err_bad_arg b >>>= λ b.
    va_word b.args (record b { byte = 0 })
      λ w b.
        let len16 = u16 w in
        stop_if (leb b.size (u32 (b.totlen + 2 + len16))) err_buffer b >>>= λ b.
        va_ptr b.args b λ p b. stop_if (ltb 0 len16 && is_null p) err_null_arg b >>>= λ b.
        put (be16 len16) b >>>= λ b.
        copy len16 p (skip 2 b) >>>= λ b. next (count (len16 + 2) (skip len16 b))

-- The case '%'.
pub store_raw : Builder → Progress
store_raw b = stop_if b.hexflag err_bad_arg b >>>= λ b.
    va_word b.args (record b { byte = 0 })
      λ w b.
        let len = sign_extend w in
        stop_if (leb b.size (u64 (b.totlen + len))) err_buffer b >>>= λ b. va_ptr b.args b λ p b.
          stop_if (ltb 0 len && is_null p) err_null_arg b >>>= λ b.
          copy len p b >>>= λ b. next (advance len b)

-- The case 'T': the place of the total is left for the end.
pub reserve_total : Builder → Progress
reserve_total b = stop_if b.hexflag err_bad_arg b >>>= λ b.
    stop_if (leb b.size (u32 (b.totlen + 4))) err_buffer b >>>= λ b.
    next (advance 4 (record b { byte = 0; totpos = some b.o }))

-- The cases of the hex digits, with the value of the digit as the code computes it.
pub hex_nibble : ℕ → Builder → Progress
hex_nibble v b = stop_if (leb b.size (u32 (b.totlen + 1))) err_buffer b >>>= λ b.
    let b = record b { byte = bit_or (u8 (b.byte * 2 ^ 4)) v } in
    if b.hexflag
    then (put (b.byte ∷ []) b >>>= λ b. next (record (advance 1 b) { hexflag = false }))
    else next (record b { hexflag = true })

-- The case '^': a length, a bound that is not read, and a pointer. Two bytes more are stored
-- than the check provides for.
pub store_bounded_short : Builder → Progress
store_bounded_short b = stop_if b.hexflag err_bad_arg b >>>= λ b.
    va_word b.args (record b { byte = 0 })
      λ w b.
        let len16 = u16 w in
        va_word b.args b λ dummy b.
          stop_if (leb b.size (u32 (b.totlen + len16))) err_buffer b >>>= λ b.
          va_ptr b.args b λ p b. stop_if (ltb 0 len16 && is_null p) err_null_arg b >>>= λ b.
          put (be16 len16) b >>>= λ b.
          copy len16 p (skip 2 b) >>>= λ b. next (count (2 + len16) (skip len16 b))

-- The case '!'.
pub store_bounded : Builder → Progress
store_bounded b = stop_if b.hexflag err_bad_arg b >>>= λ b.
    va_word b.args (record b { byte = 0 })
      λ w b.
        let len = sign_extend w in
        va_word b.args b λ dummy b.
          stop_if (leb b.size (u64 (b.totlen + len))) err_buffer b >>>= λ b. va_ptr b.args b λ p b.
            stop_if (ltb 0 len && is_null p) err_null_arg b >>>= λ b. put (be32 len) b >>>= λ b.
            copy len p (skip 4 b) >>>= λ b. next (count (4 + len) (skip len b))

abbrev pub within : ℕ → ℕ → ℕ → Bool
within lo hi c = leb lo c && leb c hi

-- The `switch`.
pub build_char : ℕ → Builder → Progress
build_char c b =
    if c == b' '
    then next b
    else if c == b'L' || c == b'X'
    then store_word 4 be32 b
    else if c == b'S'
    then store_word 2 be16 b
    else if c == b'l'
    then store_word 4 le32 b
    else if c == b's'
    then store_word 2 le16 b
    else if c == b'o'
    then store_word 1 (λ w. u8 w ∷ []) b
    else if c == b'@' || c == b'*'
    then store_sized b
    else if c == b'&'
    then store_sized_short b
    else if c == b'%'
    then store_raw b
    else if c == b'T'
    then reserve_total b
    else if within b'0' b'9' c
    then hex_nibble (bit_and (c - b'0') 0x0f) b
    else if within b'A' b'F' c
    then hex_nibble (bit_and (c - b'A') 0x0f + 0x0a) b
    else if within b'a' b'f' c
    then hex_nibble (bit_and (c - b'a') 0x0f + 0x0a) b
    else if c == b'^'
    then store_bounded_short b
    else if c == b'!'
    then store_bounded b
    else stop err_bad_arg b

-- The loop over the format.
pub build_loop : List ℕ → Builder → Progress
build_loop [] b = next b
build_loop (c ∷ format) b = build_char c b >>>= λ b. build_loop format b

abbrev pub start_builder : TpmBuffer → List Arg → Builder
start_builder tb args = record {
  mem = tb.buffer;
  size = tb.size;
  o = tb.used;
  totlen = tb.used;
  totpos = none;
  byte = 0;
  hexflag = false;
  args = args;
}

-- `if (totpos != 0) STORE32(totpos,0,totlen)`.
abbrev pub store_total : Option ℕ → Builder → Outcome (List ℕ)
store_total none b = done b.mem
store_total (some pos) b = write_at b.mem pos (be32 b.totlen)

-- What follows the loop; an error returns with the memory as the loop left it and `used` unset.
abbrev pub finish : TpmBuffer → Progress → Outcome (ℕ × TpmBuffer)
finish tb (next b) = store_total b.totpos b >>= λ m.
    done (u32 (b.totlen + (2 ^ 32 - tb.used)), record tb { buffer = m; used = b.totlen })
finish tb (stop e b) = done (e, record tb { buffer = b.mem })
finish tb Progress.fault = Outcome.fault

-- The result is the returned int as an unsigned word, and the buffer.
unfoldable pub tss_buildbuff : List ℕ → TpmBuffer → List Arg → Outcome (ℕ × TpmBuffer)
unfolding build_loop build_char store_word store_sized store_sized_short store_raw reserve_total
    hex_nibble store_bounded_short store_bounded put copy write_at sign_extend be32 be16 le32 le16
tss_buildbuff format tb args = finish tb (build_loop format (start_builder tb args))
