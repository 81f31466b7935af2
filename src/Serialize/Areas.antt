-- ===== src/Serialize/Areas.antt =====
-- Symmetric keys, endorsement blobs, transport sessions and dictionary attacks
-- (swtpm-utils/lib/tpm_structures.h, newserialize.h, serialize.c). A record has the members that
-- the macros name.
use tpm_luks.Common.{ℕ, Bool, List, [], ◌∷◌, ◌++◌, Option}
use tpm_luks.Common.Memory.{Outcome}
use tpm_luks.Buffer.{TpmBuffer}
use tpm_luks.Serialize.{
  place, inside, members_inside, Member, long_at, short_at, octet_at, array_at, buffer_at, data_at,
}
use tpm_luks.Serialize.{write_members, read_members}
use tpm_luks.Serialize.Pcr.{
  SizedBuffer, PcrInfoShort, pcr_info_short_members, default_pcr_info_short,
}
use tpm_luks.Serialize.Blobs.{CurrentTicks, current_ticks_members}

pub record SymmetricKey : Type 0 where
  pub alg_id : ℕ
  pub enc_scheme : ℕ
  pub size : ℕ
  pub data_area : Option (List ℕ)

abbrev pub symmetric_key_members : List (Member SymmetricKey)
symmetric_key_members =
    (long_at (place (λ x. x.alg_id) (λ v x. record x { alg_id = v })))
    ∷ (short_at (place (λ x. x.enc_scheme) (λ v x. record x { enc_scheme = v })))
    ∷ (data_at (place (λ x. x.size) (λ v x. record x { size = v }))
        (place (λ x. x.data_area) (λ v x. record x { data_area = v })))
    ∷ []

unfoldable pub tpm_write_symmetric_key : TpmBuffer → SymmetricKey → Outcome (ℕ × TpmBuffer)
unfolding write_members
tpm_write_symmetric_key buffer x = write_members symmetric_key_members buffer x

unfoldable pub tpm_read_symmetric_key :
    (ℕ → Bool) → TpmBuffer → ℕ → SymmetricKey → Outcome (ℕ × SymmetricKey)
unfolding read_members
tpm_read_symmetric_key allocates buffer offset x =
    read_members symmetric_key_members allocates buffer offset x

pub record EkBlobActivate : Type 0 where
  pub tag : ℕ
  pub session_key : SymmetricKey
  pub id_digest : List ℕ
  pub pcr_info : PcrInfoShort

abbrev pub ek_blob_activate_members : List (Member EkBlobActivate)
ek_blob_activate_members =
    (short_at (place (λ x. x.tag) (λ v x. record x { tag = v })))
      ∷ (members_inside (place (λ x. x.session_key) (λ v x. record x { session_key = v }))
          symmetric_key_members)
    ++ ((array_at 20 (place (λ x. x.id_digest) (λ v x. record x { id_digest = v })))
        ∷ members_inside (place (λ x. x.pcr_info) (λ v x. record x { pcr_info = v }))
            pcr_info_short_members)

abbrev pub default_ek_blob_activate : EkBlobActivate → EkBlobActivate
default_ek_blob_activate x = record x { pcr_info = default_pcr_info_short x.pcr_info }

unfoldable pub tpm_write_ek_blob_activate :
    TpmBuffer → EkBlobActivate → Outcome (ℕ × TpmBuffer) × EkBlobActivate
unfolding write_members
tpm_write_ek_blob_activate buffer x =
    let x = default_ek_blob_activate x in (write_members ek_blob_activate_members buffer x, x)

pub record EkBlob : Type 0 where
  pub tag : ℕ
  pub ek_type : ℕ
  pub blob : SizedBuffer

abbrev pub ek_blob_members : List (Member EkBlob)
ek_blob_members =
    (short_at (place (λ x. x.tag) (λ v x. record x { tag = v })))
    ∷ (short_at (place (λ x. x.ek_type) (λ v x. record x { ek_type = v })))
    ∷ (buffer_at
        (inside (place (λ x. x.blob) (λ v x. record x { blob = v }))
          (place (λ x. x.size) (λ v x. record x { size = v })))
        (inside (place (λ x. x.blob) (λ v x. record x { blob = v }))
          (place (λ x. x.buffer) (λ v x. record x { buffer = v }))))
    ∷ []

unfoldable pub tpm_write_ek_blob : TpmBuffer → EkBlob → Outcome (ℕ × TpmBuffer)
unfolding write_members
tpm_write_ek_blob buffer x = write_members ek_blob_members buffer x

pub record AsymCaContents : Type 0 where
  pub session_key : SymmetricKey
  pub id_digest : List ℕ

abbrev pub asym_ca_contents_members : List (Member AsymCaContents)
asym_ca_contents_members =
    (members_inside (place (λ x. x.session_key) (λ v x. record x { session_key = v }))
      symmetric_key_members)
    ++ ((array_at 20 (place (λ x. x.id_digest) (λ v x. record x { id_digest = v }))) ∷ [])

unfoldable pub tpm_write_ca_contents : TpmBuffer → AsymCaContents → Outcome (ℕ × TpmBuffer)
unfolding write_members
tpm_write_ca_contents buffer x = write_members asym_ca_contents_members buffer x

pub record TransportPublic : Type 0 where
  pub tag : ℕ
  pub trans_attributes : ℕ
  pub alg_id : ℕ
  pub enc_scheme : ℕ

abbrev pub transport_public_members : List (Member TransportPublic)
transport_public_members =
    (short_at (place (λ x. x.tag) (λ v x. record x { tag = v })))
    ∷ (long_at (place (λ x. x.trans_attributes) (λ v x. record x { trans_attributes = v })))
    ∷ (long_at (place (λ x. x.alg_id) (λ v x. record x { alg_id = v })))
    ∷ (short_at (place (λ x. x.enc_scheme) (λ v x. record x { enc_scheme = v })))
    ∷ []

unfoldable pub tpm_write_transport_public : TpmBuffer → TransportPublic → Outcome (ℕ × TpmBuffer)
unfolding write_members
tpm_write_transport_public buffer x = write_members transport_public_members buffer x

pub record TransportAuth : Type 0 where
  pub tag : ℕ
  pub auth_data : List ℕ

abbrev pub transport_auth_members : List (Member TransportAuth)
transport_auth_members =
    (short_at (place (λ x. x.tag) (λ v x. record x { tag = v })))
    ∷ (array_at 20 (place (λ x. x.auth_data) (λ v x. record x { auth_data = v })))
    ∷ []

unfoldable pub tpm_write_transport_auth : TpmBuffer → TransportAuth → Outcome (ℕ × TpmBuffer)
unfolding write_members
tpm_write_transport_auth buffer x = write_members transport_auth_members buffer x

pub record TransportLogIn : Type 0 where
  pub tag : ℕ
  pub parameters : List ℕ
  pub pub_key_hash : List ℕ

abbrev pub transport_log_in_members : List (Member TransportLogIn)
transport_log_in_members =
    (short_at (place (λ x. x.tag) (λ v x. record x { tag = v })))
    ∷ (array_at 20 (place (λ x. x.parameters) (λ v x. record x { parameters = v })))
    ∷ (array_at 20 (place (λ x. x.pub_key_hash) (λ v x. record x { pub_key_hash = v })))
    ∷ []

unfoldable pub tpm_write_transport_log_in : TpmBuffer → TransportLogIn → Outcome (ℕ × TpmBuffer)
unfolding write_members
tpm_write_transport_log_in buffer x = write_members transport_log_in_members buffer x

pub record TransportLogOut : Type 0 where
  pub tag : ℕ
  pub current_ticks : CurrentTicks
  pub parameters : List ℕ
  pub locality : ℕ

abbrev pub transport_log_out_members : List (Member TransportLogOut)
transport_log_out_members =
    (short_at (place (λ x. x.tag) (λ v x. record x { tag = v })))
      ∷ (members_inside (place (λ x. x.current_ticks) (λ v x. record x { current_ticks = v }))
          current_ticks_members)
    ++ ((array_at 20 (place (λ x. x.parameters) (λ v x. record x { parameters = v })))
        ∷ (long_at (place (λ x. x.locality) (λ v x. record x { locality = v })))
        ∷ [])

unfoldable pub tpm_write_transport_log_out : TpmBuffer → TransportLogOut → Outcome (ℕ × TpmBuffer)
unfolding write_members
tpm_write_transport_log_out buffer x = write_members transport_log_out_members buffer x

pub record DaActionType : Type 0 where
  pub tag : ℕ
  pub actions : ℕ

abbrev pub da_action_type_members : List (Member DaActionType)
da_action_type_members =
    (short_at (place (λ x. x.tag) (λ v x. record x { tag = v })))
    ∷ (long_at (place (λ x. x.actions) (λ v x. record x { actions = v })))
    ∷ []

pub record DaInfo : Type 0 where
  pub tag : ℕ
  pub state : ℕ
  pub current_count : ℕ
  pub threshold_count : ℕ
  pub action_at_threshold : DaActionType
  pub action_depend_value : ℕ
  pub vendor_data : SizedBuffer

abbrev pub da_info_members : List (Member DaInfo)
da_info_members =
    (short_at (place (λ x. x.tag) (λ v x. record x { tag = v })))
      ∷ (octet_at (place (λ x. x.state) (λ v x. record x { state = v })))
      ∷ (short_at (place (λ x. x.current_count) (λ v x. record x { current_count = v })))
      ∷ (short_at (place (λ x. x.threshold_count) (λ v x. record x { threshold_count = v })))
      ∷ (members_inside
          (place (λ x. x.action_at_threshold) (λ v x. record x { action_at_threshold = v }))
          da_action_type_members)
    ++ ((long_at (place (λ x. x.action_depend_value) (λ v x. record x { action_depend_value = v })))
        ∷ (buffer_at
            (inside (place (λ x. x.vendor_data) (λ v x. record x { vendor_data = v }))
              (place (λ x. x.size) (λ v x. record x { size = v })))
            (inside (place (λ x. x.vendor_data) (λ v x. record x { vendor_data = v }))
              (place (λ x. x.buffer) (λ v x. record x { buffer = v }))))
        ∷ [])

unfoldable pub tpm_read_da_info : (ℕ → Bool) → TpmBuffer → ℕ → DaInfo → Outcome (ℕ × DaInfo)
unfolding read_members
tpm_read_da_info allocates buffer offset x = read_members da_info_members allocates buffer offset x

pub record DaInfoLimited : Type 0 where
  pub tag : ℕ
  pub state : ℕ
  pub action_at_threshold : DaActionType
  pub vendor_data : SizedBuffer

abbrev pub da_info_limited_members : List (Member DaInfoLimited)
da_info_limited_members =
    (short_at (place (λ x. x.tag) (λ v x. record x { tag = v })))
      ∷ (octet_at (place (λ x. x.state) (λ v x. record x { state = v })))
      ∷ (members_inside
          (place (λ x. x.action_at_threshold) (λ v x. record x { action_at_threshold = v }))
          da_action_type_members)
    ++ ((buffer_at
          (inside (place (λ x. x.vendor_data) (λ v x. record x { vendor_data = v }))
            (place (λ x. x.size) (λ v x. record x { size = v })))
          (inside (place (λ x. x.vendor_data) (λ v x. record x { vendor_data = v }))
            (place (λ x. x.buffer) (λ v x. record x { buffer = v }))))
        ∷ [])

unfoldable pub tpm_read_da_info_limited :
    (ℕ → Bool) → TpmBuffer → ℕ → DaInfoLimited → Outcome (ℕ × DaInfoLimited)
unfolding read_members
tpm_read_da_info_limited allocates buffer offset x =
    read_members da_info_limited_members allocates buffer offset x
