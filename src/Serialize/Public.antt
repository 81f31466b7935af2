-- ===== src/Serialize/Public.antt =====
-- Public areas of NV memory and of delegations (swtpm-utils/lib/tpm_structures.h, newserialize.h,
-- serialize.c). A record has the members that the macros name.
use tpm_luks.Common.{ℕ, Bool, List, [], ◌∷◌, ◌++◌}
use tpm_luks.Common.Memory.{Outcome}
use tpm_luks.Buffer.{TpmBuffer}
use tpm_luks.Serialize.{
  place, inside, members_inside, Member, long_at, short_at, octet_at, array_at, buffer_at,
}
use tpm_luks.Serialize.{write_members, read_members}
use tpm_luks.Serialize.Pcr.{
  SizedBuffer, PcrInfoShort, pcr_info_short_members, default_pcr_info_short,
}

pub record NvAttributes : Type 0 where
  pub tag : ℕ
  pub attributes : ℕ

pub record NvDataPublic : Type 0 where
  pub tag : ℕ
  pub nv_index : ℕ
  pub pcr_info_read : PcrInfoShort
  pub pcr_info_write : PcrInfoShort
  pub permission : NvAttributes
  pub b_read_st_clear : ℕ
  pub b_write_st_clear : ℕ
  pub b_write_define : ℕ
  pub data_size : ℕ

abbrev pub nv_data_public_members : List (Member NvDataPublic)
nv_data_public_members =
    (short_at (place (λ x. x.tag) (λ v x. record x { tag = v })))
      ∷ (long_at (place (λ x. x.nv_index) (λ v x. record x { nv_index = v })))
      ∷ (members_inside (place (λ x. x.pcr_info_read) (λ v x. record x { pcr_info_read = v }))
          pcr_info_short_members)
    ++ ((members_inside (place (λ x. x.pcr_info_write) (λ v x. record x { pcr_info_write = v }))
          pcr_info_short_members)
        ++ ((short_at (
              inside (place (λ x. x.permission) (λ v x. record x { permission = v }))
                (place (λ x. x.tag) (λ v x. record x { tag = v }))))
            ∷ (long_at (
                inside (place (λ x. x.permission) (λ v x. record x { permission = v }))
                  (place (λ x. x.attributes) (λ v x. record x { attributes = v }))))
            ∷ (octet_at (place (λ x. x.b_read_st_clear) (λ v x. record x { b_read_st_clear = v })))
            ∷ (octet_at
                (place (λ x. x.b_write_st_clear) (λ v x. record x { b_write_st_clear = v })))
            ∷ (octet_at (place (λ x. x.b_write_define) (λ v x. record x { b_write_define = v })))
            ∷ (long_at (place (λ x. x.data_size) (λ v x. record x { data_size = v })))
            ∷ []))

abbrev pub default_nv_data_public : NvDataPublic → NvDataPublic
default_nv_data_public x = record x {
  pcr_info_write = default_pcr_info_short x.pcr_info_write;
  pcr_info_read = default_pcr_info_short x.pcr_info_read;
}

unfoldable pub tpm_write_pub_info :
    TpmBuffer → NvDataPublic → Outcome (ℕ × TpmBuffer) × NvDataPublic
unfolding write_members
tpm_write_pub_info buffer x =
    let x = default_nv_data_public x in (write_members nv_data_public_members buffer x, x)

unfoldable pub tpm_read_nv_data_public :
    (ℕ → Bool) → TpmBuffer → ℕ → NvDataPublic → Outcome (ℕ × NvDataPublic)
unfolding read_members
tpm_read_nv_data_public allocates buffer offset x =
    read_members nv_data_public_members allocates buffer offset x

pub record Delegations : Type 0 where
  pub tag : ℕ
  pub delegate_type : ℕ
  pub per1 : ℕ
  pub per2 : ℕ

abbrev pub delegations_members : List (Member Delegations)
delegations_members =
    (short_at (place (λ x. x.tag) (λ v x. record x { tag = v })))
    ∷ (long_at (place (λ x. x.delegate_type) (λ v x. record x { delegate_type = v })))
    ∷ (long_at (place (λ x. x.per1) (λ v x. record x { per1 = v })))
    ∷ (long_at (place (λ x. x.per2) (λ v x. record x { per2 = v })))
    ∷ []

unfoldable pub tpm_write_tpm_delegations : TpmBuffer → Delegations → Outcome (ℕ × TpmBuffer)
unfolding write_members
tpm_write_tpm_delegations buffer x = write_members delegations_members buffer x

unfoldable pub tpm_read_tpm_delegations :
    (ℕ → Bool) → TpmBuffer → ℕ → Delegations → Outcome (ℕ × Delegations)
unfolding read_members
tpm_read_tpm_delegations allocates buffer offset x =
    read_members delegations_members allocates buffer offset x

pub record DelegatePublic : Type 0 where
  pub tag : ℕ
  pub row_label : ℕ
  pub pcr_info : PcrInfoShort
  pub permissions : Delegations
  pub family_id : ℕ
  pub verification_count : ℕ

abbrev pub delegate_public_members : List (Member DelegatePublic)
delegate_public_members =
    (short_at (place (λ x. x.tag) (λ v x. record x { tag = v })))
      ∷ (octet_at (place (λ x. x.row_label) (λ v x. record x { row_label = v })))
      ∷ (members_inside (place (λ x. x.pcr_info) (λ v x. record x { pcr_info = v }))
          pcr_info_short_members)
    ++ ((members_inside (place (λ x. x.permissions) (λ v x. record x { permissions = v }))
          delegations_members)
        ++ ((long_at (place (λ x. x.family_id) (λ v x. record x { family_id = v })))
            ∷ (long_at
                (place (λ x. x.verification_count) (λ v x. record x { verification_count = v })))
            ∷ []))

unfoldable pub tpm_write_delegate_public : TpmBuffer → DelegatePublic → Outcome (ℕ × TpmBuffer)
unfolding write_members
tpm_write_delegate_public buffer x = write_members delegate_public_members buffer x

unfoldable pub tpm_read_delegate_public :
    (ℕ → Bool) → TpmBuffer → ℕ → DelegatePublic → Outcome (ℕ × DelegatePublic)
unfolding read_members
tpm_read_delegate_public allocates buffer offset x =
    read_members delegate_public_members allocates buffer offset x

pub record DelegateOwnerBlob : Type 0 where
  pub tag : ℕ
  pub public : DelegatePublic
  pub integrity_digest : List ℕ
  pub additional_area : SizedBuffer
  pub sensitive_area : SizedBuffer

abbrev pub delegate_owner_blob_members : List (Member DelegateOwnerBlob)
delegate_owner_blob_members =
    (short_at (place (λ x. x.tag) (λ v x. record x { tag = v })))
      ∷ (members_inside (place (λ x. x.public) (λ v x. record x { public = v }))
          delegate_public_members)
    ++ ((array_at 20 (place (λ x. x.integrity_digest) (λ v x. record x { integrity_digest = v })))
        ∷ (buffer_at
            (inside (place (λ x. x.additional_area) (λ v x. record x { additional_area = v }))
              (place (λ x. x.size) (λ v x. record x { size = v })))
            (inside (place (λ x. x.additional_area) (λ v x. record x { additional_area = v }))
              (place (λ x. x.buffer) (λ v x. record x { buffer = v }))))
        ∷ (buffer_at
            (inside (place (λ x. x.sensitive_area) (λ v x. record x { sensitive_area = v }))
              (place (λ x. x.size) (λ v x. record x { size = v })))
            (inside (place (λ x. x.sensitive_area) (λ v x. record x { sensitive_area = v }))
              (place (λ x. x.buffer) (λ v x. record x { buffer = v }))))
        ∷ [])

unfoldable pub tpm_write_delegate_owner_blob :
    TpmBuffer → DelegateOwnerBlob → Outcome (ℕ × TpmBuffer)
unfolding write_members
tpm_write_delegate_owner_blob buffer x = write_members delegate_owner_blob_members buffer x

pub record DelegateKeyBlob : Type 0 where
  pub tag : ℕ
  pub public : DelegatePublic
  pub integrity_digest : List ℕ
  pub pub_key_digest : List ℕ
  pub additional_area : SizedBuffer
  pub sensitive_area : SizedBuffer

abbrev pub delegate_key_blob_members : List (Member DelegateKeyBlob)
delegate_key_blob_members =
    (array_at 20 (place (λ x. x.integrity_digest) (λ v x. record x { integrity_digest = v })))
    ∷ (array_at 20 (place (λ x. x.pub_key_digest) (λ v x. record x { pub_key_digest = v })))
    ∷ (buffer_at
        (inside (place (λ x. x.additional_area) (λ v x. record x { additional_area = v }))
          (place (λ x. x.size) (λ v x. record x { size = v })))
        (inside (place (λ x. x.additional_area) (λ v x. record x { additional_area = v }))
          (place (λ x. x.buffer) (λ v x. record x { buffer = v }))))
    ∷ (buffer_at
        (inside (place (λ x. x.sensitive_area) (λ v x. record x { sensitive_area = v }))
          (place (λ x. x.size) (λ v x. record x { size = v })))
        (inside (place (λ x. x.sensitive_area) (λ v x. record x { sensitive_area = v }))
          (place (λ x. x.buffer) (λ v x. record x { buffer = v }))))
    ∷ []

unfoldable pub tpm_write_tpm_delegate_key_blob :
    TpmBuffer → DelegateKeyBlob → Outcome (ℕ × TpmBuffer)
unfolding write_members
tpm_write_tpm_delegate_key_blob buffer x = write_members delegate_key_blob_members buffer x

pub record FamilyTableEntry : Type 0 where
  pub tag : ℕ
  pub family_label : ℕ
  pub family_id : ℕ
  pub verification_count : ℕ
  pub flags : ℕ

abbrev pub family_table_entry_members : List (Member FamilyTableEntry)
family_table_entry_members =
    (short_at (place (λ x. x.tag) (λ v x. record x { tag = v })))
    ∷ (octet_at (place (λ x. x.family_label) (λ v x. record x { family_label = v })))
    ∷ (long_at (place (λ x. x.family_id) (λ v x. record x { family_id = v })))
    ∷ (long_at (place (λ x. x.verification_count) (λ v x. record x { verification_count = v })))
    ∷ (long_at (place (λ x. x.flags) (λ v x. record x { flags = v })))
    ∷ []

unfoldable pub tpm_read_family_table_entry :
    (ℕ → Bool) → TpmBuffer → ℕ → FamilyTableEntry → Outcome (ℕ × FamilyTableEntry)
unfolding read_members
tpm_read_family_table_entry allocates buffer offset x =
    read_members family_table_entry_members allocates buffer offset x
