-- ===== src/Serialize/Pcr.antt =====
-- Structures about PCRs (swtpm-utils/lib/tpm_structures.h), their macros (newserialize.h) and their
-- functions (serialize.c). Each Write function returns what it leaves in its structure as well.
use tpm_luks.Common.{ℕ, Bool, List, [], ◌∷◌, ◌++◌, Option}
use tpm_luks.Common.Memory.{Outcome}
use tpm_luks.Buffer.{TpmBuffer}
use tpm_luks.Serialize.{
  place, inside, members_inside, Member, short_at, octet_at, array_at, selected_at, buffer_at,
}
use tpm_luks.Serialize.{write_members, read_members}
use tpm_luks.Common.{if◌then◌else◌, ◌==◌, replicate}

pub record SizedBuffer : Type 0 where
  pub size : ℕ
  pub buffer : Option (List ℕ)

pub record PcrSelection : Type 0 where
  pub size_of_select : ℕ
  pub pcr_select : List ℕ

abbrev pub pcr_selection_members : List (Member PcrSelection)
pcr_selection_members =
    (selected_at 3 (place (λ x. x.size_of_select) (λ v x. record x { size_of_select = v }))
      (place (λ x. x.pcr_select) (λ v x. record x { pcr_select = v })))
    ∷ []

-- What every Write function does with an empty selection before it writes: all registers, none
-- none of which selects a register.
abbrev pub default_selection : PcrSelection → PcrSelection
default_selection sel =
    if sel.size_of_select == 0
    then record { size_of_select = 3; pcr_select = replicate 3 0 }
    else sel

unfoldable pub tpm_write_pcr_selection :
    TpmBuffer → PcrSelection → Outcome (ℕ × TpmBuffer) × PcrSelection
unfolding write_members
tpm_write_pcr_selection buffer x =
    let x = default_selection x in (write_members pcr_selection_members buffer x, x)

unfoldable pub tpm_read_pcr_selection :
    (ℕ → Bool) → TpmBuffer → ℕ → PcrSelection → Outcome (ℕ × PcrSelection)
unfolding read_members
tpm_read_pcr_selection allocates buffer offset x =
    read_members pcr_selection_members allocates buffer offset x

pub record PcrComposite : Type 0 where
  pub select : PcrSelection
  pub pcr_value : SizedBuffer

abbrev pub pcr_composite_members : List (Member PcrComposite)
pcr_composite_members =
    (members_inside (place (λ x. x.select) (λ v x. record x { select = v })) pcr_selection_members)
    ++ ((buffer_at
          (inside (place (λ x. x.pcr_value) (λ v x. record x { pcr_value = v }))
            (place (λ x. x.size) (λ v x. record x { size = v })))
          (inside (place (λ x. x.pcr_value) (λ v x. record x { pcr_value = v }))
            (place (λ x. x.buffer) (λ v x. record x { buffer = v }))))
        ∷ [])

abbrev pub default_pcr_composite : PcrComposite → PcrComposite
default_pcr_composite x = record x { select = default_selection x.select }

unfoldable pub tpm_write_pcr_composite :
    TpmBuffer → PcrComposite → Outcome (ℕ × TpmBuffer) × PcrComposite
unfolding write_members
tpm_write_pcr_composite buffer x =
    let x = default_pcr_composite x in (write_members pcr_composite_members buffer x, x)

unfoldable pub tpm_read_pcr_composite :
    (ℕ → Bool) → TpmBuffer → ℕ → PcrComposite → Outcome (ℕ × PcrComposite)
unfolding read_members
tpm_read_pcr_composite allocates buffer offset x =
    read_members pcr_composite_members allocates buffer offset x

pub record PcrInfo : Type 0 where
  pub pcr_selection : PcrSelection
  pub digest_at_release : List ℕ
  pub digest_at_creation : List ℕ

abbrev pub pcr_info_members : List (Member PcrInfo)
pcr_info_members =
    (members_inside (place (λ x. x.pcr_selection) (λ v x. record x { pcr_selection = v }))
      pcr_selection_members)
    ++ ((array_at 20 (place (λ x. x.digest_at_release) (λ v x. record x { digest_at_release = v })))
        ∷ (array_at 20
            (place (λ x. x.digest_at_creation) (λ v x. record x { digest_at_creation = v })))
        ∷ [])

abbrev pub default_pcr_info : PcrInfo → PcrInfo
default_pcr_info x = record x { pcr_selection = default_selection x.pcr_selection }

unfoldable pub tpm_write_pcr_info : TpmBuffer → PcrInfo → Outcome (ℕ × TpmBuffer) × PcrInfo
unfolding write_members
tpm_write_pcr_info buffer x =
    let x = default_pcr_info x in (write_members pcr_info_members buffer x, x)

unfoldable pub tpm_read_pcr_info : (ℕ → Bool) → TpmBuffer → ℕ → PcrInfo → Outcome (ℕ × PcrInfo)
unfolding read_members
tpm_read_pcr_info allocates buffer offset x =
    read_members pcr_info_members allocates buffer offset x

pub record PcrInfoLong : Type 0 where
  pub tag : ℕ
  pub locality_at_creation : ℕ
  pub locality_at_release : ℕ
  pub creation_pcr_selection : PcrSelection
  pub release_pcr_selection : PcrSelection
  pub digest_at_creation : List ℕ
  pub digest_at_release : List ℕ

abbrev pub pcr_info_long_members : List (Member PcrInfoLong)
pcr_info_long_members =
    (short_at (place (λ x. x.tag) (λ v x. record x { tag = v })))
      ∷ (octet_at
          (place (λ x. x.locality_at_creation) (λ v x. record x { locality_at_creation = v })))
      ∷ (octet_at
          (place (λ x. x.locality_at_release) (λ v x. record x { locality_at_release = v })))
      ∷ (members_inside
          (place (λ x. x.creation_pcr_selection) (λ v x. record x { creation_pcr_selection = v }))
          pcr_selection_members)
    ++ ((members_inside
          (place (λ x. x.release_pcr_selection) (λ v x. record x { release_pcr_selection = v }))
          pcr_selection_members)
        ++ ((array_at 20
              (place (λ x. x.digest_at_creation) (λ v x. record x { digest_at_creation = v })))
            ∷ (array_at 20
                (place (λ x. x.digest_at_release) (λ v x. record x { digest_at_release = v })))
            ∷ []))

abbrev pub default_pcr_info_long : PcrInfoLong → PcrInfoLong
default_pcr_info_long x = record x {
  creation_pcr_selection = default_selection x.creation_pcr_selection;
  release_pcr_selection = default_selection x.release_pcr_selection;
}

unfoldable pub tpm_write_pcr_info_long :
    TpmBuffer → PcrInfoLong → Outcome (ℕ × TpmBuffer) × PcrInfoLong
unfolding write_members
tpm_write_pcr_info_long buffer x =
    let x = default_pcr_info_long x in (write_members pcr_info_long_members buffer x, x)

unfoldable pub tpm_read_pcr_info_long :
    (ℕ → Bool) → TpmBuffer → ℕ → PcrInfoLong → Outcome (ℕ × PcrInfoLong)
unfolding read_members
tpm_read_pcr_info_long allocates buffer offset x =
    read_members pcr_info_long_members allocates buffer offset x

pub record PcrInfoShort : Type 0 where
  pub pcr_selection : PcrSelection
  pub locality_at_release : ℕ
  pub digest_at_release : List ℕ

abbrev pub pcr_info_short_members : List (Member PcrInfoShort)
pcr_info_short_members =
    (members_inside (place (λ x. x.pcr_selection) (λ v x. record x { pcr_selection = v }))
      pcr_selection_members)
    ++ ((octet_at
          (place (λ x. x.locality_at_release) (λ v x. record x { locality_at_release = v })))
        ∷ (array_at 20
            (place (λ x. x.digest_at_release) (λ v x. record x { digest_at_release = v })))
        ∷ [])

abbrev pub default_pcr_info_short : PcrInfoShort → PcrInfoShort
default_pcr_info_short x = record x { pcr_selection = default_selection x.pcr_selection }

unfoldable pub tpm_write_pcr_info_short :
    TpmBuffer → PcrInfoShort → Outcome (ℕ × TpmBuffer) × PcrInfoShort
unfolding write_members
tpm_write_pcr_info_short buffer x =
    let x = default_pcr_info_short x in (write_members pcr_info_short_members buffer x, x)

unfoldable pub tpm_read_pcr_info_short :
    (ℕ → Bool) → TpmBuffer → ℕ → PcrInfoShort → Outcome (ℕ × PcrInfoShort)
unfolding read_members
tpm_read_pcr_info_short allocates buffer offset x =
    read_members pcr_info_short_members allocates buffer offset x
