-- ===== src/Runs.antt =====
-- Runs of the modelled code on concrete inputs: the example of the comment above TSS_buildbuff in
-- swtpm-utils/lib/tpmutil.c, and an instance of each general statement.
mod Codec
mod Crypto
mod Auth
mod Wire
mod Structs
mod Swap
mod Sealing
mod Authorized
use tpm_luks.Common.{ℕ, replicate, codes, length, List, [], ◌∷◌, some, ◌≡◌, refl, arith}
use tpm_luks.Common.Memory.{done}
use tpm_luks.Buffer.{TpmBuffer, IsBuffer}
use tpm_luks.Build.{word, ptr, tss_buildbuff}

abbrev pub empty_buffer : TpmBuffer
empty_buffer = record { size = 32; used = 0; flags = 1; buffer = replicate 32 0 }

pub empty_buffer-IsBuffer : IsBuffer empty_buffer
empty_buffer-IsBuffer = record { fits = omega arith; allocated = omega arith; small = omega arith }

-- The example of the comment: 's' stores the 10 in the order of the machine.
comment_example :
    tss_buildbuff
      (codes "03Ts@99%")
      empty_buffer
      (word 10 ∷ word 6 ∷ ptr (some (codes "ABCDEF")) ∷ word 3 ∷ ptr (some (codes "123")) ∷ [])
    ≡ done (
      21,
      record empty_buffer {
        used = 21;
        buffer =
            0x03
            ∷ 0
            ∷ 0
            ∷ 0
            ∷ 0x15
            ∷ 0x0a
            ∷ 0
            ∷ 0
            ∷ 0
            ∷ 0
            ∷ 6
            ∷ 0x41
            ∷ 0x42
            ∷ 0x43
            ∷ 0x44
            ∷ 0x45
            ∷ 0x46
            ∷ 0x99
            ∷ 0x31
            ∷ 0x32
            ∷ 0x33
            ∷ replicate 11 0;
      },
    )
unfolding tss_buildbuff
comment_example = refl
