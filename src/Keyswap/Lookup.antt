-- ===== src/Keyswap/Lookup.antt =====
-- The names of the files of keys, and the search for a key (swtpm-utils/lib/keyswap.c).
use tpm_luks.Common.{
  ℕ, zero, suc, ◌+◌, ◌-◌, ◌*◌, ◌/◌, ◌%◌, ◌^◌, ◌≤◌, ◌<◌, ◌≡◌, ◌≢◌, refl, ap, sym, ◌∙◌, arith, Bool,
  true, false,
}
use tpm_luks.Common.{
  Bool-cases, inl, inr, ◌⊎◌, ◌↔◌, ◌==◌, ==_iff, ltb, ltb→lt, lt→ltb, if◌then◌else◌, take, drop,
  lt→leb, le→leb, codes,
}
use tpm_luks.Common.{List, [], ◌∷◌, ◌++◌, length, take-append, drop-append, length-append}
use tpm_luks.Common.Memory.{Outcome, done, read_at}
use tpm_luks.Bytes.{u32, load32, word_of}
use tpm_luks.Buffer.{TpmBuffer, IsBuffer, tpm_buffer_load32}
use tpm_luks.Keyswap.{
  hex_char, hex_digits, create_key_filename, is_fixed, search_loop, is_key_in_tpm,
}

length-hex_digits : (n v : ℕ) → length (hex_digits n v) ≡ n
length-hex_digits zero v = refl
length-hex_digits (suc n) v =
    let l = length-append (hex_digits n (v / 16)) (hex_char (v % 16) ∷ []) in
    omega (arith, l, length-hex_digits n (v / 16))

hex_char-injective : (a b : ℕ) → a < 16 → b < 16 → hex_char a ≡ hex_char b → a ≡ b
hex_char-injective a b ha hb e = ground arith

abbrev first : ℕ → List ℕ → ℕ
first d [] = d
first d (x ∷ xs) = x

-- Equal lists in two parts of equal lengths have equal parts.
parts : (xs ys us vs : List ℕ) → length xs ≡ length ys → xs ++ us ≡ ys ++ vs → (xs ≡ ys) × (us ≡ vs)
parts xs ys us vs l e = (
  sym (take-append (length xs) xs us refl)
      ∙ ap (take (length xs)) e
      ∙ take-append (length xs) ys vs l,
  sym (drop-append (length xs) xs us refl)
      ∙ ap (drop (length xs)) e
      ∙ drop-append (length xs) ys vs l,
)

-- A number has at most so many hex digits.
abbrev Fits : ℕ → ℕ → Type 0
Fits zero v = v ≡ 0
Fits (suc n) v = Fits n (v / 16)

hex_digits-injective : (n a b : ℕ) → Fits n a → Fits n b → hex_digits n a ≡ hex_digits n b → a ≡ b
hex_digits-injective zero a b ha hb e = omega arith
hex_digits-injective (suc n) a b ha hb e =
    let l = length-hex_digits n (a / 16) ∙ sym (length-hex_digits n (b / 16)) in
    let (front, back) =
      parts (hex_digits n (a / 16)) (hex_digits n (b / 16)) (hex_char (a % 16) ∷ [])
        (hex_char (b % 16) ∷ []) l e in
    let low =
      hex_char-injective (a % 16) (b % 16) (omega arith) (omega arith) (ap (first 0) back) in
    let high = hex_digits-injective n (a / 16) (b / 16) ha hb front in omega (arith, low, high)

abbrev is_done : Outcome (List ℕ) → Bool
is_done (done name) = true
is_done _ = false

abbrev name_of : Outcome (List ℕ) → List ℕ
name_of (done name) = name
name_of _ = []

filename :
    (inst : List ℕ) (h : ℕ) (name : List ℕ)
    → create_key_filename inst h ≡ done name
    → name ≡ codes "/tmp/.key-" ++ (hex_digits 8 h ++ (codes "-" ++ inst))
unfolding create_key_filename
filename inst h name e =
    let full = codes "/tmp/.key-" ++ (hex_digits 8 h ++ (codes "-" ++ inst)) in
    elim (Bool-cases (ltb (length full) 200)) [
      | inl short ↦ sym (ap name_of (rw short at e))
      | inr long ↦ absurd (grind (arith, ap is_done (rw long at e)))
    ]

create_key_filename-injective :
    (inst : List ℕ) (a b : ℕ) (name : List ℕ)
    → a < 2 ^ 32
    → b < 2 ^ 32
    → create_key_filename inst a ≡ done name
    → create_key_filename inst b ≡ done name
    → a ≡ b
create_key_filename-injective inst a b name ha hb ea eb =
    let same = sym (filename inst a name ea) ∙ filename inst b name eb in
    let (front, back) = parts (codes "/tmp/.key-") (codes "/tmp/.key-") _ _ refl same in
    let l = length-hex_digits 8 a ∙ sym (length-hex_digits 8 b) in
    let (digits, rest) = parts (hex_digits 8 a) (hex_digits 8 b) _ _ l back in
    hex_digits-injective 8 a b (omega arith) (omega arith) digits

-- Two keys never share a file: where createKeyFilename makes names for two different handles of
-- 32 bits, within the same instance, the names differ.
pub create_key_filename_distinct :
    (inst : List ℕ) (a b : ℕ) (name other : List ℕ)
    → a < 2 ^ 32
    → b < 2 ^ 32
    → a ≢ b
    → create_key_filename inst a ≡ done name
    → create_key_filename inst b ≡ done other
    → name ≢ other
create_key_filename_distinct inst a b name other ha hb differ ea eb same =
    differ (create_key_filename-injective inst a b name ha hb ea (rw same eb))

-- A word of the list of handles behind `ctr`.
abbrev pub Listed : TpmBuffer → ℕ → ℕ → Type 0
Listed tb ctr h = (i : ℕ) × (ctr + 4 * i < tb.used) × (tpm_buffer_load32 tb (ctr + 4 * i) ≡ done h)

-- A list of handles: two bytes, and four for each handle.
pub record IsHandleList (tb : TpmBuffer) : Type 0 where
  pub buffer : IsBuffer tb
  pub count : ℕ
  pub whole : tb.used ≡ 2 + 4 * count

abbrev is_yes : Outcome Bool → Bool
is_yes (done b) = b
is_yes _ = false

if_true : (test : Bool) → (if test then done true else done true) ≡ done true
if_true true = refl
if_true false = refl

module _ (tb : TpmBuffer) (list : IsHandleList tb) where
  loads :
      (ctr k : ℕ)
      → tb.used ≡ ctr + 4 * k
      → ctr < tb.used
      → (v : ℕ) × (tpm_buffer_load32 tb ctr ≡ done v)
  unfolding tpm_buffer_load32 load32 read_at
  loads ctr k e h =
      let b = list.buffer in
      let u : u32 (ctr + 3) ≡ ctr + 3 = omega (arith, b.fits, b.small) in
      (
        word_of 0 (take 4 (drop ctr tb.buffer)),
        rw (
          u,
          lt→leb tb.used (ctr + 3) (omega arith),
          le→leb (ctr + 4) (length tb.buffer) (omega (arith, b.fits, b.allocated)),
        ),
      )

  search_loop_sound :
      (fuel ctr k handle shandle : ℕ)
      → tb.used ≡ ctr + 4 * k
      → search_loop fuel tb shandle ctr handle ≡ done true
      → Listed tb ctr shandle
  unfolding search_loop
  search_loop_sound zero ctr k handle shandle e found = absurd (grind (arith, ap is_yes found))
  search_loop_sound (suc fuel) ctr k handle shandle e found = elim (Bool-cases (ltb ctr tb.used)) [
    | inr over ↦ absurd (grind (arith, ap is_yes (rw over at found)))
    | inl inside ↦
        let lt = ltb→lt ctr tb.used inside in
        let (v, load) = loads ctr k e lt in
        let u4 : u32 (ctr + 4) ≡ ctr + 4 = omega (arith, list.buffer.fits, list.buffer.small) in
        elim (Bool-cases (v == shandle)) [
          | inl same ↦
              let u : ctr + 4 * 0 ≡ ctr = omega arith in
              (0, omega arith, rw (u, load, (==_iff v shandle).0 same))
          | inr other ↦
              let (i, h, p) =
                search_loop_sound fuel (ctr + 4) (k - 1) v shandle (omega arith)
                  (rw (inside, load, other, u4) at found) in
              let u : ctr + 4 * suc i ≡ ctr + 4 + 4 * i = omega arith in
              (suc i, omega arith, rw u p)
        ]
  ]

  search_loop_complete :
      (fuel ctr k handle shandle : ℕ)
      → tb.used ≡ ctr + 4 * k
      → k ≤ fuel
      → Listed tb ctr shandle
      → search_loop fuel tb shandle ctr handle ≡ done true
  unfolding search_loop
  search_loop_complete zero ctr k handle shandle e enough (i, inside, here) = absurd (omega arith)
  search_loop_complete (suc fuel) ctr k handle shandle e enough (zero, inside, here) =
      let u : ctr + 4 * 0 ≡ ctr = omega arith in
      let load : tpm_buffer_load32 tb ctr ≡ done shandle = rw u at here in
      let itself : (shandle == shandle) ≡ true = (==_iff shandle shandle).1 refl in
      rw (lt→ltb ctr tb.used (omega arith), load, itself)
  search_loop_complete (suc fuel) ctr k handle shandle e enough (suc i, inside, here) =
      let (v, load) = loads ctr k e (omega arith) in
      let u4 : u32 (ctr + 4) ≡ ctr + 4 = omega (arith, list.buffer.fits, list.buffer.small) in
      let u : ctr + 4 * suc i ≡ ctr + 4 + 4 * i = omega arith in
      let later =
        search_loop_complete fuel (ctr + 4) (k - 1) v shandle (omega arith) (omega arith)
          (i, omega arith, rw u at here) in
      rw (lt→ltb ctr tb.used (omega arith), load, u4, later) (if_true (v == shandle))

  search_loop_returns :
      (fuel ctr k handle shandle : ℕ)
      → tb.used ≡ ctr + 4 * k
      → k ≤ fuel
      → (answer : Bool) × (search_loop (suc fuel) tb shandle ctr handle ≡ done answer)
  unfolding search_loop
  search_loop_returns zero ctr k handle shandle e enough = elim (Bool-cases (ltb ctr tb.used)) [
    | inr over ↦ (false, rw over)
    | inl inside ↦ absurd (omega (arith, ltb→lt ctr tb.used inside))
  ]
  search_loop_returns (suc fuel) ctr k handle shandle e enough =
      elim (Bool-cases (ltb ctr tb.used)) [
        | inr over ↦ (false, rw over)
        | inl inside ↦
            let lt = ltb→lt ctr tb.used inside in
            let (v, load) = loads ctr k e lt in
            let u4 : u32 (ctr + 4) ≡ ctr + 4 = omega (arith, list.buffer.fits, list.buffer.small) in
            elim (Bool-cases (v == shandle)) [
              | inl same ↦ (true, rw (inside, load, same))
              | inr other ↦
                  let (answer, r) =
                    search_loop_returns fuel (u32 (ctr + 4)) (k - 1) v shandle (omega (arith, u4))
                      (omega arith) in
                  (answer, rw (inside, load, other) r)
            ]
      ]

-- IsKeyInTPM finds exactly the keys of the list: for a well-formed list of handles, whatever the
-- local variable held before, it answers, and the answer is yes if and only if the handle is one
-- of the four that are always there or one of the words behind the first two bytes of the list.
pub is_key_in_tpm-Listed :
    (tb : TpmBuffer) (handle shandle : ℕ)
    → IsHandleList tb
    → (answer : Bool) × (is_key_in_tpm handle tb shandle ≡ done answer)
      × ((answer ≡ true) ↔ ((is_fixed shandle ≡ true) ⊎ Listed tb 2 shandle))
unfolding is_key_in_tpm
is_key_in_tpm-Listed tb handle shandle list = elim (Bool-cases (is_fixed shandle)) [
  | inl fixed ↦ (true, rw fixed, (λ found. inl fixed, λ there. refl))
  | inr other ↦
      let (answer, e) =
        search_loop_returns tb list tb.used 2 list.count handle shandle list.whole
          (omega (arith, list.whole)) in
      (
        answer,
        rw (other, e),
        (
          λ found. inr (
              search_loop_sound tb list (suc tb.used) 2 list.count handle shandle list.whole
                (e ∙ ap done found)),
          λ there. elim there [
            | inl fixed ↦ absurd (grind (arith, fixed, other))
            | inr listed ↦ ap is_yes (
                sym e
                ∙ search_loop_complete tb list (suc tb.used) 2 list.count handle shandle list.whole
                    (omega (arith, list.whole)) listed)
          ],
        ),
      )
]
