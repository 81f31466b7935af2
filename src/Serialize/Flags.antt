-- ===== src/Serialize/Flags.antt =====
-- The flags of the TPM: TPM_STCLEAR_FLAGS and the four revisions of TPM_PERMANENT_FLAGS
-- (swtpm-utils/lib/tpm_structures.h, newserialize.h, serialize.c).
use tpm_luks.Common.{ℕ, Bool, List, [], ◌∷◌}
use tpm_luks.Common.Memory.{Outcome, done, ◌>>=◌}
use tpm_luks.Buffer.{TpmBuffer}
use tpm_luks.Serialize.{place, Member, short_at, octet_at}
use tpm_luks.Serialize.{read_members, expect_tag}
use tpm_luks.Common.{if◌then◌else◌, ◌==◌}
use tpm_luks.Bytes.{err_structure}

pub record StclearFlags : Type 0 where
  pub tag : ℕ
  pub deactivated : ℕ
  pub disable_force_clear : ℕ
  pub physical_presence : ℕ
  pub physical_presence_lock : ℕ
  pub b_global_lock : ℕ

abbrev pub stclear_flags_members : List (Member StclearFlags)
stclear_flags_members =
    (short_at (place (λ x. x.tag) (λ v x. record x { tag = v })))
    ∷ (octet_at (place (λ x. x.deactivated) (λ v x. record x { deactivated = v })))
    ∷ (octet_at (place (λ x. x.disable_force_clear) (λ v x. record x { disable_force_clear = v })))
    ∷ (octet_at (place (λ x. x.physical_presence) (λ v x. record x { physical_presence = v })))
    ∷ (octet_at
        (place (λ x. x.physical_presence_lock) (λ v x. record x { physical_presence_lock = v })))
    ∷ (octet_at (place (λ x. x.b_global_lock) (λ v x. record x { b_global_lock = v })))
    ∷ []

abbrev pub tag_stclear_flags : ℕ
tag_stclear_flags = 0x20

unfoldable pub tpm_read_stclear_flags :
    (ℕ → Bool) → TpmBuffer → ℕ → StclearFlags → Outcome (ℕ × StclearFlags)
unfolding read_members
tpm_read_stclear_flags allocates buffer offset x =
    read_members stclear_flags_members allocates buffer offset x >>= λ r.
    done (expect_tag tag_stclear_flags (λ y. y.tag) r)

pub record PermanentFlags : Type 0 where
  pub tag : ℕ
  pub disable : ℕ
  pub ownership : ℕ
  pub deactivated : ℕ
  pub read_pubek : ℕ
  pub disable_owner_clear : ℕ
  pub allow_maintenance : ℕ
  pub physical_presence_lifetime_lock : ℕ
  pub physical_presence_hw_enable : ℕ
  pub physical_presence_cmd_enable : ℕ
  pub cekp_used : ℕ
  pub tpm_post : ℕ
  pub tpm_post_lock : ℕ
  pub fips : ℕ
  pub tpm_operator : ℕ
  pub enable_revoke_ek : ℕ
  pub nv_locked : ℕ
  pub read_srk_pub : ℕ
  pub tpm_established : ℕ
  pub maintenance_done : ℕ
  pub disable_full_da_logic_info : ℕ

abbrev pub permanent_flags17_members : List (Member PermanentFlags)
permanent_flags17_members =
    (short_at (place (λ x. x.tag) (λ v x. record x { tag = v })))
    ∷ (octet_at (place (λ x. x.disable) (λ v x. record x { disable = v })))
    ∷ (octet_at (place (λ x. x.ownership) (λ v x. record x { ownership = v })))
    ∷ (octet_at (place (λ x. x.deactivated) (λ v x. record x { deactivated = v })))
    ∷ (octet_at (place (λ x. x.read_pubek) (λ v x. record x { read_pubek = v })))
    ∷ (octet_at (place (λ x. x.disable_owner_clear) (λ v x. record x { disable_owner_clear = v })))
    ∷ (octet_at (place (λ x. x.allow_maintenance) (λ v x. record x { allow_maintenance = v })))
    ∷ (octet_at (
        place (λ x. x.physical_presence_lifetime_lock)
          (λ v x. record x { physical_presence_lifetime_lock = v })))
    ∷ (octet_at (
        place (λ x. x.physical_presence_hw_enable)
          (λ v x. record x { physical_presence_hw_enable = v })))
    ∷ (octet_at (
        place (λ x. x.physical_presence_cmd_enable)
          (λ v x. record x { physical_presence_cmd_enable = v })))
    ∷ (octet_at (place (λ x. x.cekp_used) (λ v x. record x { cekp_used = v })))
    ∷ (octet_at (place (λ x. x.tpm_post) (λ v x. record x { tpm_post = v })))
    ∷ (octet_at (place (λ x. x.tpm_post_lock) (λ v x. record x { tpm_post_lock = v })))
    ∷ (octet_at (place (λ x. x.fips) (λ v x. record x { fips = v })))
    ∷ (octet_at (place (λ x. x.tpm_operator) (λ v x. record x { tpm_operator = v })))
    ∷ (octet_at (place (λ x. x.enable_revoke_ek) (λ v x. record x { enable_revoke_ek = v })))
    ∷ []

abbrev pub permanent_flags20_members : List (Member PermanentFlags)
permanent_flags20_members =
    (short_at (place (λ x. x.tag) (λ v x. record x { tag = v })))
    ∷ (octet_at (place (λ x. x.disable) (λ v x. record x { disable = v })))
    ∷ (octet_at (place (λ x. x.ownership) (λ v x. record x { ownership = v })))
    ∷ (octet_at (place (λ x. x.deactivated) (λ v x. record x { deactivated = v })))
    ∷ (octet_at (place (λ x. x.read_pubek) (λ v x. record x { read_pubek = v })))
    ∷ (octet_at (place (λ x. x.disable_owner_clear) (λ v x. record x { disable_owner_clear = v })))
    ∷ (octet_at (place (λ x. x.allow_maintenance) (λ v x. record x { allow_maintenance = v })))
    ∷ (octet_at (
        place (λ x. x.physical_presence_lifetime_lock)
          (λ v x. record x { physical_presence_lifetime_lock = v })))
    ∷ (octet_at (
        place (λ x. x.physical_presence_hw_enable)
          (λ v x. record x { physical_presence_hw_enable = v })))
    ∷ (octet_at (
        place (λ x. x.physical_presence_cmd_enable)
          (λ v x. record x { physical_presence_cmd_enable = v })))
    ∷ (octet_at (place (λ x. x.cekp_used) (λ v x. record x { cekp_used = v })))
    ∷ (octet_at (place (λ x. x.tpm_post) (λ v x. record x { tpm_post = v })))
    ∷ (octet_at (place (λ x. x.tpm_post_lock) (λ v x. record x { tpm_post_lock = v })))
    ∷ (octet_at (place (λ x. x.fips) (λ v x. record x { fips = v })))
    ∷ (octet_at (place (λ x. x.tpm_operator) (λ v x. record x { tpm_operator = v })))
    ∷ (octet_at (place (λ x. x.enable_revoke_ek) (λ v x. record x { enable_revoke_ek = v })))
    ∷ (octet_at (place (λ x. x.nv_locked) (λ v x. record x { nv_locked = v })))
    ∷ (octet_at (place (λ x. x.read_srk_pub) (λ v x. record x { read_srk_pub = v })))
    ∷ (octet_at (place (λ x. x.tpm_established) (λ v x. record x { tpm_established = v })))
    ∷ []

abbrev pub permanent_flags21_members : List (Member PermanentFlags)
permanent_flags21_members =
    (short_at (place (λ x. x.tag) (λ v x. record x { tag = v })))
    ∷ (octet_at (place (λ x. x.disable) (λ v x. record x { disable = v })))
    ∷ (octet_at (place (λ x. x.ownership) (λ v x. record x { ownership = v })))
    ∷ (octet_at (place (λ x. x.deactivated) (λ v x. record x { deactivated = v })))
    ∷ (octet_at (place (λ x. x.read_pubek) (λ v x. record x { read_pubek = v })))
    ∷ (octet_at (place (λ x. x.disable_owner_clear) (λ v x. record x { disable_owner_clear = v })))
    ∷ (octet_at (place (λ x. x.allow_maintenance) (λ v x. record x { allow_maintenance = v })))
    ∷ (octet_at (
        place (λ x. x.physical_presence_lifetime_lock)
          (λ v x. record x { physical_presence_lifetime_lock = v })))
    ∷ (octet_at (
        place (λ x. x.physical_presence_hw_enable)
          (λ v x. record x { physical_presence_hw_enable = v })))
    ∷ (octet_at (
        place (λ x. x.physical_presence_cmd_enable)
          (λ v x. record x { physical_presence_cmd_enable = v })))
    ∷ (octet_at (place (λ x. x.cekp_used) (λ v x. record x { cekp_used = v })))
    ∷ (octet_at (place (λ x. x.tpm_post) (λ v x. record x { tpm_post = v })))
    ∷ (octet_at (place (λ x. x.tpm_post_lock) (λ v x. record x { tpm_post_lock = v })))
    ∷ (octet_at (place (λ x. x.fips) (λ v x. record x { fips = v })))
    ∷ (octet_at (place (λ x. x.tpm_operator) (λ v x. record x { tpm_operator = v })))
    ∷ (octet_at (place (λ x. x.enable_revoke_ek) (λ v x. record x { enable_revoke_ek = v })))
    ∷ (octet_at (place (λ x. x.nv_locked) (λ v x. record x { nv_locked = v })))
    ∷ (octet_at (place (λ x. x.read_srk_pub) (λ v x. record x { read_srk_pub = v })))
    ∷ (octet_at (place (λ x. x.tpm_established) (λ v x. record x { tpm_established = v })))
    ∷ (octet_at (place (λ x. x.maintenance_done) (λ v x. record x { maintenance_done = v })))
    ∷ []

abbrev pub permanent_flags22_members : List (Member PermanentFlags)
permanent_flags22_members =
    (short_at (place (λ x. x.tag) (λ v x. record x { tag = v })))
    ∷ (octet_at (place (λ x. x.disable) (λ v x. record x { disable = v })))
    ∷ (octet_at (place (λ x. x.ownership) (λ v x. record x { ownership = v })))
    ∷ (octet_at (place (λ x. x.deactivated) (λ v x. record x { deactivated = v })))
    ∷ (octet_at (place (λ x. x.read_pubek) (λ v x. record x { read_pubek = v })))
    ∷ (octet_at (place (λ x. x.disable_owner_clear) (λ v x. record x { disable_owner_clear = v })))
    ∷ (octet_at (place (λ x. x.allow_maintenance) (λ v x. record x { allow_maintenance = v })))
    ∷ (octet_at (
        place (λ x. x.physical_presence_lifetime_lock)
          (λ v x. record x { physical_presence_lifetime_lock = v })))
    ∷ (octet_at (
        place (λ x. x.physical_presence_hw_enable)
          (λ v x. record x { physical_presence_hw_enable = v })))
    ∷ (octet_at (
        place (λ x. x.physical_presence_cmd_enable)
          (λ v x. record x { physical_presence_cmd_enable = v })))
    ∷ (octet_at (place (λ x. x.cekp_used) (λ v x. record x { cekp_used = v })))
    ∷ (octet_at (place (λ x. x.tpm_post) (λ v x. record x { tpm_post = v })))
    ∷ (octet_at (place (λ x. x.tpm_post_lock) (λ v x. record x { tpm_post_lock = v })))
    ∷ (octet_at (place (λ x. x.fips) (λ v x. record x { fips = v })))
    ∷ (octet_at (place (λ x. x.tpm_operator) (λ v x. record x { tpm_operator = v })))
    ∷ (octet_at (place (λ x. x.enable_revoke_ek) (λ v x. record x { enable_revoke_ek = v })))
    ∷ (octet_at (place (λ x. x.nv_locked) (λ v x. record x { nv_locked = v })))
    ∷ (octet_at (place (λ x. x.read_srk_pub) (λ v x. record x { read_srk_pub = v })))
    ∷ (octet_at (place (λ x. x.tpm_established) (λ v x. record x { tpm_established = v })))
    ∷ (octet_at (place (λ x. x.maintenance_done) (λ v x. record x { maintenance_done = v })))
    ∷ (octet_at (
        place (λ x. x.disable_full_da_logic_info)
          (λ v x. record x { disable_full_da_logic_info = v })))
    ∷ []

abbrev pub tag_permanent_flags : ℕ
tag_permanent_flags = 0x1f

abbrev pub tag_persistent_flags : ℕ
tag_persistent_flags = 7

-- The length of the response says which revision of the structure it is.
unfoldable pub tpm_read_permanent_flags :
    (ℕ → Bool) → TpmBuffer → ℕ → PermanentFlags → ℕ → Outcome (ℕ × PermanentFlags)
unfolding read_members
tpm_read_permanent_flags allocates tb offset pf used =
    (if used == 17
      then read_members permanent_flags17_members allocates tb offset pf
      else if used == 20
      then read_members permanent_flags20_members allocates tb offset pf
      else if used == 21
      then read_members permanent_flags21_members allocates tb offset pf
      else if used == 22
      then read_members permanent_flags22_members allocates tb offset pf
      else done (err_structure, pf))
    >>= λ r. done (
        expect_tag (if used == 20 then tag_persistent_flags else tag_permanent_flags) (λ y. y.tag)
          r)
