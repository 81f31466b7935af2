-- ===== src/Parse.antt =====
-- TSS_parsebuff of swtpm-utils/lib/tpmutil.c: the interpreter of format strings that reads a
-- buffer into the places that its arguments point to.
pub mod Bounds
pub mod Steps
pub mod Cases
pub mod Fields
pub mod Loop
pub mod RoundTrip
use tpm_luks.Common.{ℕ, ◌+◌, ◌-◌, ◌^◌, leb, ltb, ◌==◌, if◌then◌else◌}
use tpm_luks.Common.{List, [], ◌∷◌, ◌++◌, Bool, true, false, not, ◌&&◌, ◌||◌, Option, none, some}
use tpm_luks.Common.Memory.{Outcome, done, failed, read_at}
use tpm_luks.Bytes.{load32, load16, native_load32, native_load16}
use tpm_luks.Bytes.{u32, sign_extend, err_bad_arg, err_buffer, err_null_arg, err_mem_err}
use tpm_luks.Buffer.{TpmBuffer}
use tpm_luks.Buffer.{tpm_buffer_load32, tpm_buffer_load32_native, tpm_buffer_load16}
use tpm_luks.Buffer.{tpm_buffer_load16_native}

-- An argument: a pointer to a scalar, a number, a pointer to so many bytes of memory (or NULL),
-- or a pointer to a pointer that is to receive an allocated copy (`false` for NULL).
pub data Slot : Type 0 where
  out : Slot
  number : ℕ → Slot
  area : Option ℕ → Slot
  handle : Bool → Slot

-- What was stored through the pointers, in order.
pub data Value : Type 0 where
  scalar : ℕ → Value
  bytes : List ℕ → Value

pub record Parser : Type 0 where
  pub offset : ℕ
  pub values : List Value
  pub slots : List Slot

pub data Progress : Type 0 where
  next : Parser → Progress
  stop : ℕ → Parser → Progress
  fault : Progress

infixl 5 ◌>>>=◌
abbrev pub ◌>>>=◌ : Progress → (Parser → Progress) → Progress
next p >>>= f = f p
stop e p >>>= f = stop e p
Progress.fault >>>= f = Progress.fault

abbrev pub stop_if : Bool → ℕ → Parser → Progress
stop_if test code p = if test then stop code p else next p

abbrev pub va_out : List Slot → Parser → (Parser → Progress) → Progress
va_out (out ∷ r) p k = k (record p { slots = r })
va_out _ p k = Progress.fault

abbrev pub va_number : List Slot → Parser → (ℕ → Parser → Progress) → Progress
va_number (number n ∷ r) p k = k n (record p { slots = r })
va_number _ p k = Progress.fault

abbrev pub va_area : List Slot → Parser → (Option ℕ → Parser → Progress) → Progress
va_area (area a ∷ r) p k = k a (record p { slots = r })
va_area _ p k = Progress.fault

abbrev pub va_handle : List Slot → Parser → (Bool → Parser → Progress) → Progress
va_handle (handle h ∷ r) p k = k h (record p { slots = r })
va_handle _ p k = Progress.fault

-- The result of a load: an error is returned.
abbrev pub loaded : Outcome ℕ → Parser → (ℕ → Parser → Progress) → Progress
loaded (done v) p k = k v p
loaded (failed e) p k = stop e p
loaded Outcome.fault p k = Progress.fault

abbrev pub store : Value → Parser → Parser
store v p = record p { values = p.values ++ (v ∷ []) }

abbrev pub advance : ℕ → Parser → Parser
advance n p = record p { offset = u32 (p.offset + n) }

-- `memcpy(ptr, &tb->buffer[offset], n)` for n > 0.
abbrev pub memcpy_out : Outcome (List ℕ) → Parser → Progress
memcpy_out (done bs) p = next (store (bytes bs) p)
memcpy_out _ p = Progress.fault

abbrev pub is_null : Option ℕ → Bool
is_null none = true
is_null (some n) = false

-- `tb->buffer[offset]`.
abbrev pub first_byte : Outcome (List ℕ) → Parser → (ℕ → Parser → Progress) → Progress
first_byte (done (c ∷ bs)) p k = k c p
first_byte _ p k = Progress.fault

-- The place that a pointer shows has `n` bytes.
abbrev pub holds : Option ℕ → ℕ → Bool
holds none n = false
holds (some space) n = leb n space

-- `if (n > 0) memcpy(...)`, then `offset += n`.
pub copy_out : TpmBuffer → ℕ → Option ℕ → Parser → Progress
copy_out tb n ptr p =
    (if ltb 0 n
      then (if holds ptr n then memcpy_out (read_at tb.buffer p.offset n) p else Progress.fault)
      else next p)
    >>>= λ p. next (advance n p)

-- `return -3`.
abbrev pub minus_three : ℕ
minus_three = 2 ^ 32 - 3

-- The cases 'L', 'S', 'l' and 's'.
pub parse_word : ℕ → (TpmBuffer → ℕ → Outcome ℕ) → TpmBuffer → Parser → Progress
parse_word n load tb p =
    va_out p.slots p λ p. loaded (load tb p.offset) p λ v p. next (advance n (store (scalar v) p))

-- The case 'X': the word must be the one that is passed.
pub parse_expected : TpmBuffer → Parser → Progress
parse_expected tb p = va_number p.slots p λ tmp2 p.
    loaded (tpm_buffer_load32 tb p.offset) p
      λ tmp p. stop_if (not (u32 tmp2 == tmp)) err_buffer p >>>= λ p. next (advance 4 p)

-- The case 'o'.
pub parse_octet : TpmBuffer → Parser → Progress
parse_octet tb p = stop_if (ltb tb.used (u32 (p.offset + 1))) err_buffer p >>>= λ p.
    va_out p.slots p
      λ p. first_byte (read_at tb.buffer p.offset 1) p λ c p. next (advance 1 (store (scalar c) p))

-- The case '@': the length in the buffer says how many bytes are copied to the caller's memory.
pub parse_sized : TpmBuffer → Parser → Progress
parse_sized tb p = va_out p.slots p λ p. loaded (tpm_buffer_load32 tb p.offset) p λ len p.
    let p = advance 4 (store (scalar len) p) in
    va_area p.slots p λ ptr p. stop_if (ltb 0 len && is_null ptr) minus_three p >>>= λ p.
    stop_if (ltb tb.used (u32 (p.offset + len))) err_buffer p >>>= λ p. copy_out tb len ptr p

-- The cases '*' and '&': the copy is allocated. `allocates` says whether `malloc` of so many
-- bytes gives memory.
pub parse_allocated : (ℕ → Bool) → ℕ → (TpmBuffer → ℕ → Outcome ℕ) → TpmBuffer → Parser → Progress
parse_allocated allocates n load tb p = va_out p.slots p λ p. loaded (load tb p.offset) p λ len p.
    let p = advance n (store (scalar len) p) in
    va_handle p.slots p λ pptr p. stop_if (ltb 0 len && not pptr) minus_three p >>>= λ p.
    stop_if (ltb tb.used (u32 (p.offset + len))) err_buffer p >>>= λ p.
    stop_if (ltb 0 len && not (allocates len)) err_mem_err p >>>= λ p. copy_out tb len (some len) p

-- The cases '^' (with the error code for NULL of that case) and '!': the copy is bounded.
pub parse_bounded : ℕ → ℕ → (TpmBuffer → ℕ → Outcome ℕ) → TpmBuffer → Parser → Progress
parse_bounded n null_code load tb p = va_out p.slots p λ p. va_number p.slots p λ lenmax p.
    loaded (load tb p.offset) p λ len p.
      let p = advance n (store (scalar len) p) in
      va_area p.slots p λ ptr p. stop_if (ltb 0 len && is_null ptr) null_code p >>>= λ p.
      stop_if (ltb tb.used (u32 (p.offset + len))) err_buffer p >>>= λ p.
      stop_if (ltb (u32 lenmax) len) err_buffer p >>>= λ p. copy_out tb len ptr p

-- The case '%': the caller gives the length.
pub parse_raw : TpmBuffer → Parser → Progress
parse_raw tb p = va_number p.slots p λ w p.
    let length = u32 w in
    stop_if (ltb tb.used (u32 (p.offset + length))) err_buffer p >>>= λ p.
    va_area p.slots p λ ptr p.
      stop_if (ltb 0 length && is_null ptr) err_null_arg p >>>= λ p. copy_out tb length ptr p

module _ (allocates : ℕ → Bool) (tb : TpmBuffer) where
  -- The `switch`.
  pub parse_char : ℕ → Parser → Progress
  parse_char c p =
      if c == b' '
      then next p
      else if c == b'L'
      then parse_word 4 tpm_buffer_load32 tb p
      else if c == b'X'
      then parse_expected tb p
      else if c == b'S'
      then parse_word 2 tpm_buffer_load16 tb p
      else if c == b'l'
      then parse_word 4 tpm_buffer_load32_native tb p
      else if c == b's'
      then parse_word 2 tpm_buffer_load16_native tb p
      else if c == b'o'
      then parse_octet tb p
      else if c == b'@'
      then parse_sized tb p
      else if c == b'*'
      then parse_allocated allocates 4 tpm_buffer_load32 tb p
      else if c == b'&'
      then parse_allocated allocates 2 tpm_buffer_load16 tb p
      else if c == b'^'
      then parse_bounded 2 err_buffer tpm_buffer_load16 tb p
      else if c == b'!'
      then parse_bounded 4 minus_three tpm_buffer_load32 tb p
      else if c == b'%'
      then parse_raw tb p
      else stop err_bad_arg p

  pub parse_loop : List ℕ → Parser → Progress
  parse_loop [] p = next p
  parse_loop (c ∷ format) p = parse_char c p >>>= λ p. parse_loop format p

-- The returned int as an unsigned word, with what was stored, also when it is an error.
abbrev pub finish : ℕ → Progress → Outcome (ℕ × List Value)
finish start (next p) = done (u32 (p.offset + (2 ^ 32 - start)), p.values)
finish start (stop e p) = done (e, p.values)
finish start Progress.fault = Outcome.fault

abbrev pub start_parser : ℕ → List Slot → Parser
start_parser start slots = record { offset = start; values = []; slots = slots }

unfoldable pub tss_parsebuff :
    (ℕ → Bool) → List ℕ → TpmBuffer → ℕ → List Slot → Outcome (ℕ × List Value)
unfolding parse_loop parse_char parse_word parse_expected parse_octet parse_sized parse_allocated
    parse_bounded parse_raw copy_out tpm_buffer_load32 tpm_buffer_load32_native tpm_buffer_load16
    tpm_buffer_load16_native load32 load16 native_load32 native_load16 read_at
tss_parsebuff allocates format tb start slots =
    finish start (parse_loop allocates tb format (start_parser start slots))
