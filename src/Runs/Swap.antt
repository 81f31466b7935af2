-- ===== src/Runs/Swap.antt =====
-- Instances for keyswap.c and for the sessions of nv.c.
use tpm_luks.Common.{
  ℕ, ◌≡◌, ◌≢◌, ◌⊎◌, ◌↔◌, refl, arith, replicate, codes, List, [], ◌∷◌, ◌++◌, true, Bool,
}
use tpm_luks.Common.Memory.{done, read_at}
use tpm_luks.Common.Effects.{Call}
use tpm_luks.Bytes.{be32, load32}
use tpm_luks.Buffer.{TpmBuffer, tpm_buffer_load32}
use tpm_luks.Keyswap.{swap_out_keys, create_key_filename, is_key_in_tpm, is_fixed}
use tpm_luks.Keyswap.Loop.{
  swap_out_keys-keeps, Returns, swap_out_keys-Returns, swap_out_keys_counts_kept,
}
use tpm_luks.Keyswap.Lookup.{
  Listed, IsHandleList, create_key_filename_distinct, is_key_in_tpm-Listed,
}

-- Three handles are loaded: 5, 6 and 7.
abbrev handles : TpmBuffer
handles = record {
  size = 32;
  used = 14;
  flags = 1;
  buffer = 0 ∷ 3 ∷ (be32 5 ++ (be32 6 ++ (be32 7 ++ replicate 18 0)));
}

handles-IsHandleList : IsHandleList handles
unfolding be32
handles-IsHandleList = record {
  buffer = record { fits = omega arith; allocated = omega arith; small = omega arith };
  count = 3;
  whole = refl;
}

-- The world lists the handles that were swapped out.
abbrev record_handle : ℕ → Call (List ℕ) ℕ
record_handle h w = (h ∷ w, done 0)

abbrev Without : ℕ → List ℕ → Type 0
Without h [] = Unit {0}
Without h (x ∷ w) = (x ≢ h) × Without h w

swap_out_keys-keeps_example : Without 6 (swap_out_keys record_handle 6 0 0 handles 0 2 []).0
swap_out_keys-keeps_example =
    swap_out_keys-keeps record_handle 6 0 0 handles (Without 6) (λ h w a b c p. (a, p)) 0 2 [] tt

swap_out_keys-Returns_example : Returns (swap_out_keys record_handle 6 0 0 handles 0 2 [])
swap_out_keys-Returns_example =
    swap_out_keys-Returns record_handle 6 0 0 handles handles-IsHandleList.buffer
      (λ h w. (h ∷ w, 0, refl)) 0 2 []

swap_out_keys_counts_kept_example : swap_out_keys record_handle 5 0 0 handles 0 1 [] ≡ ([], done 0)
unfolding tpm_buffer_load32 load32 read_at be32
swap_out_keys_counts_kept_example =
    swap_out_keys_counts_kept record_handle 5 0 0 handles 0 5 [] (omega arith) refl refl

create_key_filename_distinct_example : codes "/tmp/.key-0500000A-0" ≢ codes "/tmp/.key-0500000B-0"
unfolding create_key_filename
create_key_filename_distinct_example =
    create_key_filename_distinct (codes "0") 0x0500000a 0x0500000b (codes "/tmp/.key-0500000A-0")
      (codes "/tmp/.key-0500000B-0") (omega arith) (omega arith) (omega arith) refl refl

is_key_in_tpm-Listed_example :
    (answer : Bool) × (is_key_in_tpm 0 handles 7 ≡ done answer)
    × ((answer ≡ true) ↔ ((is_fixed 7 ≡ true) ⊎ Listed handles 2 7))
is_key_in_tpm-Listed_example = is_key_in_tpm-Listed handles 0 7 handles-IsHandleList
