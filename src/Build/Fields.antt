-- ===== src/Build/Fields.antt =====
-- What a format string and its arguments mean, without the loop: a list of fields, the bytes
-- that each stands for, and the format and the arguments that spell it.
use tpm_luks.Common.{ℕ, ◌+◌, ◌-◌, ◌*◌, ◌^◌, ◌<◌, leb, if◌then◌else◌, ◌&&◌, Bool, true, ◌≡◌}
use tpm_luks.Common.{List, [], ◌∷◌, ◌++◌, length, some}
use tpm_luks.Bytes.{u8, be32, be16, le32, le16}
use tpm_luks.Build.{Arg, word, ptr}

-- A hex pair is given by its two characters. `allocated` is a sized field whose copy the parser
-- allocates, `expected` a word that the parser compares and does not store. The two last fields
-- carry a bound and the memory behind the bytes, neither of which is encoded.
pub data Field : Type 0 where
  blank : Field
  pair : ℕ → ℕ → Field
  long : ℕ → Field
  short : ℕ → Field
  native_long : ℕ → Field
  native_short : ℕ → Field
  octet : ℕ → Field
  sized : List ℕ → Field
  sized_short : List ℕ → Field
  raw : List ℕ → Field
  allocated : List ℕ → Field
  expected : ℕ → Field
  bounded_short : ℕ → List ℕ → List ℕ → Field
  bounded : ℕ → List ℕ → List ℕ → Field

abbrev pub is_hex : ℕ → Bool
is_hex c =
    if leb b'0' c && leb c b'9'
    then true
    else if leb b'A' c && leb c b'F'
    then true
    else leb b'a' c && leb c b'f'

-- The value of a hex digit, by the ASCII table.
abbrev pub digit : ℕ → ℕ
digit c = if leb c b'9' then c - 48 else if leb c b'F' then c - 55 else c - 87

unfoldable pub encode : Field → List ℕ
unfolding be32 be16 le32 le16
encode blank = []
encode (pair c d) = (16 * digit c + digit d) ∷ []
encode (long v) = be32 v
encode (short v) = be16 v
encode (native_long v) = le32 v
encode (native_short v) = le16 v
encode (octet v) = u8 v ∷ []
encode (sized bs) = be32 (length bs) ++ bs
encode (sized_short bs) = be16 (length bs) ++ bs
encode (raw bs) = bs
encode (allocated bs) = be32 (length bs) ++ bs
encode (expected v) = be32 v
encode (bounded_short max bs more) = be16 (length bs) ++ bs
encode (bounded max bs more) = be32 (length bs) ++ bs

abbrev pub format_of : Field → List ℕ
format_of blank = b' ' ∷ []
format_of (pair c d) = c ∷ d ∷ []
format_of (long v) = b'L' ∷ []
format_of (short v) = b'S' ∷ []
format_of (native_long v) = b'l' ∷ []
format_of (native_short v) = b's' ∷ []
format_of (octet v) = b'o' ∷ []
format_of (sized bs) = b'@' ∷ []
format_of (sized_short bs) = b'&' ∷ []
format_of (raw bs) = b'%' ∷ []
format_of (allocated bs) = b'*' ∷ []
format_of (expected v) = b'X' ∷ []
format_of (bounded_short max bs more) = b'^' ∷ []
format_of (bounded max bs more) = b'!' ∷ []

abbrev pub args_of : Field → List Arg
args_of blank = []
args_of (pair c d) = []
args_of (long v) = word v ∷ []
args_of (short v) = word v ∷ []
args_of (native_long v) = word v ∷ []
args_of (native_short v) = word v ∷ []
args_of (octet v) = word v ∷ []
args_of (sized bs) = word (length bs) ∷ ptr (some bs) ∷ []
args_of (sized_short bs) = word (length bs) ∷ ptr (some bs) ∷ []
args_of (raw bs) = word (length bs) ∷ ptr (some bs) ∷ []
args_of (allocated bs) = word (length bs) ∷ ptr (some bs) ∷ []
args_of (expected v) = word v ∷ []
args_of (bounded_short max bs more) = word (length bs) ∷ word max ∷ ptr (some (bs ++ more)) ∷ []
args_of (bounded max bs more) = word (length bs) ∷ word max ∷ ptr (some (bs ++ more)) ∷ []

-- The digits are digits, and a length fits the type that carries it.
abbrev pub IsField : Field → Type 0
IsField (pair c d) = (is_hex c ≡ true) × (is_hex d ≡ true)
IsField (sized bs) = length bs < 2 ^ 31
IsField (sized_short bs) = length bs < 2 ^ 16
IsField (raw bs) = length bs < 2 ^ 31
IsField (allocated bs) = length bs < 2 ^ 31
IsField (bounded_short max bs more) = length bs < 2 ^ 16
IsField (bounded max bs more) = length bs < 2 ^ 31
IsField _ = Unit {0}

unfoldable pub encode_all : List Field → List ℕ
unfolding encode
encode_all [] = []
encode_all (f ∷ fs) = encode f ++ encode_all fs

abbrev pub formats : List Field → List ℕ
formats [] = []
formats (f ∷ fs) = format_of f ++ formats fs

abbrev pub arguments : List Field → List Arg
arguments [] = []
arguments (f ∷ fs) = args_of f ++ arguments fs

-- The fields whose room is checked in full: all but the two that carry a bound.
abbrev pub IsChecked : Field → Type 0
IsChecked (bounded_short max bs more) = ⊥
IsChecked (bounded max bs more) = ⊥
IsChecked _ = Unit {0}
