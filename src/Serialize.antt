-- ===== src/Serialize.antt =====
-- The structures of the TPM and their macros FORMAT_..., PARAMS_..._W and PARAMS_..._R
-- (swtpm-utils/lib/newserialize.h), which the functions of swtpm-utils/lib/serialize.c hand to
-- TSS_buildbuff and TSS_parsebuff. A macro lists members of a structure: by their values for a
-- write, by their addresses for a read. Here one list of members gives both.
pub mod Laws
pub mod Pcr
pub mod Public
pub mod Blobs
pub mod Areas
pub mod Flags
pub mod Keys
pub mod Signed
pub mod RoundTrip
pub mod Tags
pub mod Hashes
use tpm_luks.Common.{ℕ, zero, suc, ◌+◌, ◌^◌, ◌≤◌, ◌<◌, ◌≡◌, Bool, true, if◌then◌else◌, ◌==◌}
use tpm_luks.Common.{List, [], ◌∷◌, ◌++◌, length, drop, Option, none, some, map}
use tpm_luks.Common.Memory.{Outcome, done, ◌>>=◌}
use tpm_luks.Bytes.{is_error, err_structure}
use tpm_luks.Buffer.{TpmBuffer}
use tpm_luks.Build.{Arg, word, ptr, tss_buildbuff}
use tpm_luks.Parse.{Slot, out, number, area, handle, Value, scalar, bytes, tss_parsebuff}

-- A member of a structure: `pre(x)->name` with an empty `pre` is `get`, and with `&` the place
-- where `set` stores.
pub record Place (A V : Type 0) : Type 0 where
  pub get : A → V
  pub set : V → A → A

abbrev pub place : {A V : Type 0} → (A → V) → (V → A → A) → Place A V
place get set = record { get = get; set = set }

-- The member `q` of the member `p`.
abbrev pub inside : {A B V : Type 0} → Place A B → Place B V → Place A V
inside p q = record { get = λ x. q.get (p.get x); set = λ v x. p.set (q.set v (p.get x)) x }

-- The parameters of one format character: 'L', 'S', 'o', '%' with an array of so many bytes, '^'
-- and '!' with a length and an array of so many bytes, '*' and '&' with a length and a pointer,
-- and 'X' with a constant.
pub data Member (A : Type 0) : Type 0 where
  long_at : Place A ℕ → Member A
  short_at : Place A ℕ → Member A
  octet_at : Place A ℕ → Member A
  array_at : ℕ → Place A (List ℕ) → Member A
  selected_at : ℕ → Place A ℕ → Place A (List ℕ) → Member A
  counted_at : ℕ → Place A ℕ → Place A (List ℕ) → Member A
  buffer_at : Place A ℕ → Place A (Option (List ℕ)) → Member A
  data_at : Place A ℕ → Place A (Option (List ℕ)) → Member A
  constant : ℕ → Member A

abbrev pub member_inside : {A B : Type 0} → Place A B → Member B → Member A
member_inside p (long_at q) = long_at (inside p q)
member_inside p (short_at q) = short_at (inside p q)
member_inside p (octet_at q) = octet_at (inside p q)
member_inside p (array_at n q) = array_at n (inside p q)
member_inside p (selected_at max n q) = selected_at max (inside p n) (inside p q)
member_inside p (counted_at max n q) = counted_at max (inside p n) (inside p q)
member_inside p (buffer_at n q) = buffer_at (inside p n) (inside p q)
member_inside p (data_at n q) = data_at (inside p n) (inside p q)
member_inside p (constant v) = constant v

-- The members of a structure that is a member.
abbrev pub members_inside : {A B : Type 0} → Place A B → List (Member B) → List (Member A)
members_inside p [] = []
members_inside p (m ∷ ms) = member_inside p m ∷ members_inside p ms

-- The copy of `n` bytes; none is made for 0.
abbrev pub copied_bytes : ℕ → List Value → List ℕ × List Value
copied_bytes zero vs = ([], vs)
copied_bytes (suc n) (bytes bs ∷ vs) = (bs, vs)
copied_bytes (suc n) vs = ([], vs)

abbrev pub overlay : List ℕ → List ℕ → List ℕ
overlay bs old = bs ++ drop (length bs) old

-- The pointer is replaced when bytes were allocated.
abbrev pub replace : List ℕ → Option (List ℕ) → Option (List ℕ)
replace [] old = old
replace (b ∷ bs) old = some (b ∷ bs)

module _ {A : Type 0} where
  abbrev pub format_char : Member A → ℕ
  format_char (long_at p) = b'L'
  format_char (short_at p) = b'S'
  format_char (octet_at p) = b'o'
  format_char (array_at n p) = b'%'
  format_char (selected_at max n p) = b'^'
  format_char (counted_at max n p) = b'!'
  format_char (buffer_at n p) = b'*'
  format_char (data_at n p) = b'&'
  format_char (constant v) = b'X'

  abbrev pub params_w : Member A → A → List Arg
  params_w (long_at p) x = word (p.get x) ∷ []
  params_w (short_at p) x = word (p.get x) ∷ []
  params_w (octet_at p) x = word (p.get x) ∷ []
  params_w (array_at n p) x = word n ∷ ptr (some (p.get x)) ∷ []
  params_w (selected_at max n p) x = word (n.get x) ∷ word max ∷ ptr (some (p.get x)) ∷ []
  params_w (counted_at max n p) x = word (n.get x) ∷ word max ∷ ptr (some (p.get x)) ∷ []
  params_w (buffer_at n p) x = word (n.get x) ∷ ptr (p.get x) ∷ []
  params_w (data_at n p) x = word (n.get x) ∷ ptr (p.get x) ∷ []
  params_w (constant v) x = word v ∷ []

  abbrev pub params_r : Member A → List Slot
  params_r (long_at p) = out ∷ []
  params_r (short_at p) = out ∷ []
  params_r (octet_at p) = out ∷ []
  params_r (array_at n p) = number n ∷ area (some n) ∷ []
  params_r (selected_at max n p) = out ∷ number max ∷ area (some max) ∷ []
  params_r (counted_at max n p) = out ∷ number max ∷ area (some max) ∷ []
  params_r (buffer_at n p) = out ∷ handle true ∷ []
  params_r (data_at n p) = out ∷ handle true ∷ []
  params_r (constant v) = number v ∷ []

  -- What a parse stored through the pointers, in order, arrives in the members. A parse that
  -- failed may have stored less.
  abbrev pub fill_scalar : Place A ℕ → List Value → A → A × List Value
  fill_scalar p (scalar v ∷ vs) x = (p.set v x, vs)
  fill_scalar p vs x = (x, vs)

  abbrev pub fill_array : ℕ → Place A (List ℕ) → List Value → A → A × List Value
  fill_array n p vs x = let r = copied_bytes n vs in (p.set (overlay r.0 (p.get x)) x, r.1)

  abbrev pub fill_pointer : ℕ → Place A (Option (List ℕ)) → List Value → A → A × List Value
  fill_pointer n p vs x = let r = copied_bytes n vs in (p.set (replace r.0 (p.get x)) x, r.1)

  abbrev pub fill_counted :
      Place A ℕ → (ℕ → List Value → A → A × List Value) → List Value → A → A × List Value
  fill_counted p rest (scalar n ∷ vs) x = rest n vs (p.set n x)
  fill_counted p rest vs x = (x, vs)

  abbrev pub fill : Member A → List Value → A → A × List Value
  fill (long_at p) vs x = fill_scalar p vs x
  fill (short_at p) vs x = fill_scalar p vs x
  fill (octet_at p) vs x = fill_scalar p vs x
  fill (array_at n p) vs x = fill_array n p vs x
  fill (selected_at max n p) vs x = fill_counted n (λ k. fill_array k p) vs x
  fill (counted_at max n p) vs x = fill_counted n (λ k. fill_array k p) vs x
  fill (buffer_at n p) vs x = fill_counted n (λ k. fill_pointer k p) vs x
  fill (data_at n p) vs x = fill_counted n (λ k. fill_pointer k p) vs x
  fill (constant v) vs x = (x, vs)

  abbrev pub format_all : List (Member A) → List ℕ
  format_all [] = []
  format_all (m ∷ ms) = format_char m ∷ format_all ms

  abbrev pub params_w_all : List (Member A) → A → List Arg
  params_w_all [] x = []
  params_w_all (m ∷ ms) x = params_w m x ++ params_w_all ms x

  abbrev pub params_r_all : List (Member A) → List Slot
  params_r_all [] = []
  params_r_all (m ∷ ms) = params_r m ++ params_r_all ms

  abbrev pub fill_all : List (Member A) → List Value → A → A
  fill_all [] vs x = x
  fill_all (m ∷ ms) vs x = let r = fill m vs x in fill_all ms r.1 r.0

  -- `TSS_buildbuff(FORMAT, buffer, PARAMS_W(x))`.
  unfoldable pub write_members : List (Member A) → TpmBuffer → A → Outcome (ℕ × TpmBuffer)
  write_members ms tb x = tss_buildbuff (format_all ms) tb (params_w_all ms x)

  -- `TSS_parsebuff(FORMAT, buffer, offset, PARAMS_R(x))`, with what it leaves in `x`.
  unfoldable pub read_members : List (Member A) → (ℕ → Bool) → TpmBuffer → ℕ → A → Outcome (ℕ × A)
  read_members ms allocates tb offset x =
      tss_parsebuff allocates (format_all ms) tb offset (params_r_all ms) >>= λ r.
      done (r.0, fill_all ms r.1 x)

-- The check of the tag that follows a successful parse.
abbrev pub expect_tag : {A : Type 0} → ℕ → (A → ℕ) → ℕ × A → ℕ × A
expect_tag tag tag_of (ret, x) =
    if is_error ret then (ret, x) else if tag_of x == tag then (ret, x) else (err_structure, x)
