-- ===== src/Parse/Fields.antt =====
-- The places and the values that the parser needs for a list of fields.
use tpm_luks.Common.{ℕ, ◌^◌, ◌≤◌, ◌<◌, ◌≡◌}
use tpm_luks.Common.{List, [], ◌∷◌, ◌++◌, length, Bool, true, some}
use tpm_luks.Build.Fields.{
  Field, blank, pair, long, short, native_long, native_short, octet, sized, sized_short, raw,
  allocated, expected, bounded_short, bounded,
}
use tpm_luks.Parse.{Slot, out, number, area, handle, Value, scalar}
use tpm_luks.Parse.Steps.{copied}

-- The places for one field: memory as long as its bytes, or as its bound.
abbrev pub slots_of : Field → List Slot
slots_of (sized bs) = out ∷ area (some (length bs)) ∷ []
slots_of (sized_short bs) = out ∷ handle true ∷ []
slots_of (allocated bs) = out ∷ handle true ∷ []
slots_of (expected v) = number v ∷ []
slots_of (raw bs) = number (length bs) ∷ area (some (length bs)) ∷ []
slots_of (bounded_short max bs more) = out ∷ number max ∷ area (some max) ∷ []
slots_of (bounded max bs more) = out ∷ number max ∷ area (some max) ∷ []
slots_of blank = []
slots_of (pair c d) = []
slots_of _ = out ∷ []

abbrev pub values_of : Field → List Value
values_of blank = []
values_of (pair c d) = []
values_of (long v) = scalar v ∷ []
values_of (short v) = scalar v ∷ []
values_of (native_long v) = scalar v ∷ []
values_of (native_short v) = scalar v ∷ []
values_of (octet v) = scalar v ∷ []
values_of (sized bs) = scalar (length bs) ∷ copied bs
values_of (sized_short bs) = scalar (length bs) ∷ copied bs
values_of (allocated bs) = scalar (length bs) ∷ copied bs
values_of (expected v) = []
values_of (raw bs) = copied bs
values_of (bounded_short max bs more) = scalar (length bs) ∷ copied bs
values_of (bounded max bs more) = scalar (length bs) ∷ copied bs

-- A field that the parser knows: no hex pair, and each value fits the type that carries it.
abbrev pub IsReadable : (ℕ → Bool) → Field → Type 0
IsReadable allocates blank = Unit {0}
IsReadable allocates (pair c d) = ⊥
IsReadable allocates (long v) = v < 2 ^ 32
IsReadable allocates (short v) = v < 2 ^ 16
IsReadable allocates (native_long v) = v < 2 ^ 32
IsReadable allocates (native_short v) = v < 2 ^ 16
IsReadable allocates (octet v) = v < 2 ^ 8
IsReadable allocates (sized bs) = length bs < 2 ^ 31
IsReadable allocates (sized_short bs) = (length bs < 2 ^ 16) × (allocates (length bs) ≡ true)
IsReadable allocates (allocated bs) = (length bs < 2 ^ 31) × (allocates (length bs) ≡ true)
IsReadable allocates (expected v) = v < 2 ^ 32
IsReadable allocates (raw bs) = length bs < 2 ^ 31
IsReadable allocates (bounded_short max bs more) =
    (length bs < 2 ^ 16) × (length bs ≤ max) × (max < 2 ^ 32)
IsReadable allocates (bounded max bs more) =
    (length bs < 2 ^ 31) × (length bs ≤ max) × (max < 2 ^ 32)

abbrev pub all_slots : List Field → List Slot
all_slots [] = []
all_slots (f ∷ fs) = slots_of f ++ all_slots fs

abbrev pub all_values : List Field → List Value
all_values [] = []
all_values (f ∷ fs) = values_of f ++ all_values fs
