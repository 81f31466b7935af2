-- ===== src/Serialize/Blobs.antt =====
-- Blobs, ticks, counters and signed structures (swtpm-utils/lib/tpm_structures.h, newserialize.h,
-- serialize.c). A record has the members that the macros name.
use tpm_luks.Common.{ℕ, Bool, List, [], ◌∷◌, ◌++◌}
use tpm_luks.Common.Memory.{Outcome, done, ◌>>=◌}
use tpm_luks.Buffer.{TpmBuffer}
use tpm_luks.Serialize.{
  place, inside, members_inside, Member, long_at, short_at, octet_at, array_at, buffer_at,
}
use tpm_luks.Serialize.{write_members, read_members, expect_tag}
use tpm_luks.Serialize.Pcr.{SizedBuffer}

pub record StructVer : Type 0 where
  pub major : ℕ
  pub minor : ℕ
  pub rev_major : ℕ
  pub rev_minor : ℕ

abbrev pub struct_ver_members : List (Member StructVer)
struct_ver_members =
    (octet_at (place (λ x. x.major) (λ v x. record x { major = v })))
    ∷ (octet_at (place (λ x. x.minor) (λ v x. record x { minor = v })))
    ∷ (octet_at (place (λ x. x.rev_major) (λ v x. record x { rev_major = v })))
    ∷ (octet_at (place (λ x. x.rev_minor) (λ v x. record x { rev_minor = v })))
    ∷ []

pub record StoredData : Type 0 where
  pub ver : StructVer
  pub seal_info : SizedBuffer
  pub enc_data : SizedBuffer

abbrev pub stored_data_members : List (Member StoredData)
stored_data_members =
    (members_inside (place (λ x. x.ver) (λ v x. record x { ver = v })) struct_ver_members)
    ++ ((buffer_at
          (inside (place (λ x. x.seal_info) (λ v x. record x { seal_info = v }))
            (place (λ x. x.size) (λ v x. record x { size = v })))
          (inside (place (λ x. x.seal_info) (λ v x. record x { seal_info = v }))
            (place (λ x. x.buffer) (λ v x. record x { buffer = v }))))
        ∷ (buffer_at
            (inside (place (λ x. x.enc_data) (λ v x. record x { enc_data = v }))
              (place (λ x. x.size) (λ v x. record x { size = v })))
            (inside (place (λ x. x.enc_data) (λ v x. record x { enc_data = v }))
              (place (λ x. x.buffer) (λ v x. record x { buffer = v }))))
        ∷ [])

unfoldable pub tpm_write_stored_data : TpmBuffer → StoredData → Outcome (ℕ × TpmBuffer)
unfolding write_members
tpm_write_stored_data buffer x = write_members stored_data_members buffer x

unfoldable pub tpm_read_stored_data :
    (ℕ → Bool) → TpmBuffer → ℕ → StoredData → Outcome (ℕ × StoredData)
unfolding read_members
tpm_read_stored_data allocates buffer offset x =
    read_members stored_data_members allocates buffer offset x

pub record ContextBlob : Type 0 where
  pub tag : ℕ
  pub resource_type : ℕ
  pub handle : ℕ
  pub label : List ℕ
  pub context_count : ℕ
  pub integrity_digest : List ℕ
  pub additional_data : SizedBuffer
  pub sensitive_data : SizedBuffer

abbrev pub context_blob_members : List (Member ContextBlob)
context_blob_members =
    (short_at (place (λ x. x.tag) (λ v x. record x { tag = v })))
    ∷ (long_at (place (λ x. x.resource_type) (λ v x. record x { resource_type = v })))
    ∷ (long_at (place (λ x. x.handle) (λ v x. record x { handle = v })))
    ∷ (array_at 16 (place (λ x. x.label) (λ v x. record x { label = v })))
    ∷ (long_at (place (λ x. x.context_count) (λ v x. record x { context_count = v })))
    ∷ (array_at 20 (place (λ x. x.integrity_digest) (λ v x. record x { integrity_digest = v })))
    ∷ (buffer_at
        (inside (place (λ x. x.additional_data) (λ v x. record x { additional_data = v }))
          (place (λ x. x.size) (λ v x. record x { size = v })))
        (inside (place (λ x. x.additional_data) (λ v x. record x { additional_data = v }))
          (place (λ x. x.buffer) (λ v x. record x { buffer = v }))))
    ∷ (buffer_at
        (inside (place (λ x. x.sensitive_data) (λ v x. record x { sensitive_data = v }))
          (place (λ x. x.size) (λ v x. record x { size = v })))
        (inside (place (λ x. x.sensitive_data) (λ v x. record x { sensitive_data = v }))
          (place (λ x. x.buffer) (λ v x. record x { buffer = v }))))
    ∷ []

unfoldable pub tpm_write_context_blob : TpmBuffer → ContextBlob → Outcome (ℕ × TpmBuffer)
unfolding write_members
tpm_write_context_blob buffer x = write_members context_blob_members buffer x

abbrev pub tag_contextblob : ℕ
tag_contextblob = 1

unfoldable pub tpm_read_context_blob :
    (ℕ → Bool) → TpmBuffer → ℕ → ContextBlob → Outcome (ℕ × ContextBlob)
unfolding read_members
tpm_read_context_blob allocates buffer offset x =
    read_members context_blob_members allocates buffer offset x >>= λ r.
    done (expect_tag tag_contextblob (λ y. y.tag) r)

pub record Ticks : Type 0 where
  pub sec : ℕ
  pub usec : ℕ

pub record CurrentTicks : Type 0 where
  pub tag : ℕ
  pub current_ticks : Ticks
  pub tick_rate : ℕ
  pub tick_nonce : List ℕ

abbrev pub current_ticks_members : List (Member CurrentTicks)
current_ticks_members =
    (short_at (place (λ x. x.tag) (λ v x. record x { tag = v })))
    ∷ (long_at (
        inside (place (λ x. x.current_ticks) (λ v x. record x { current_ticks = v }))
          (place (λ x. x.sec) (λ v x. record x { sec = v }))))
    ∷ (long_at (
        inside (place (λ x. x.current_ticks) (λ v x. record x { current_ticks = v }))
          (place (λ x. x.usec) (λ v x. record x { usec = v }))))
    ∷ (short_at (place (λ x. x.tick_rate) (λ v x. record x { tick_rate = v })))
    ∷ (array_at 20 (place (λ x. x.tick_nonce) (λ v x. record x { tick_nonce = v })))
    ∷ []

unfoldable pub tpm_write_current_ticks : TpmBuffer → CurrentTicks → Outcome (ℕ × TpmBuffer)
unfolding write_members
tpm_write_current_ticks buffer x = write_members current_ticks_members buffer x

unfoldable pub tpm_read_current_ticks :
    (ℕ → Bool) → TpmBuffer → ℕ → CurrentTicks → Outcome (ℕ × CurrentTicks)
unfolding read_members
tpm_read_current_ticks allocates buffer offset x =
    read_members current_ticks_members allocates buffer offset x

unfoldable pub tpm_get_current_ticks :
    (ℕ → Bool) → TpmBuffer → ℕ → CurrentTicks → Outcome (ℕ × CurrentTicks)
unfolding read_members
tpm_get_current_ticks allocates buffer offset x =
    read_members current_ticks_members allocates buffer offset x

pub record CounterValue : Type 0 where
  pub tag : ℕ
  pub label : List ℕ
  pub counter : ℕ

abbrev pub counter_value_members : List (Member CounterValue)
counter_value_members =
    (short_at (place (λ x. x.tag) (λ v x. record x { tag = v })))
    ∷ (array_at 4 (place (λ x. x.label) (λ v x. record x { label = v })))
    ∷ (long_at (place (λ x. x.counter) (λ v x. record x { counter = v })))
    ∷ []

unfoldable pub tpm_write_counter_value : TpmBuffer → CounterValue → Outcome (ℕ × TpmBuffer)
unfolding write_members
tpm_write_counter_value buffer x = write_members counter_value_members buffer x

pub record AuditEventIn : Type 0 where
  pub tag : ℕ
  pub input_parms : List ℕ
  pub audit_count : CounterValue

abbrev pub audit_event_in_members : List (Member AuditEventIn)
audit_event_in_members =
    (short_at (place (λ x. x.tag) (λ v x. record x { tag = v })))
    ∷ (array_at 20 (place (λ x. x.input_parms) (λ v x. record x { input_parms = v })))
    ∷ members_inside (place (λ x. x.audit_count) (λ v x. record x { audit_count = v }))
        counter_value_members

unfoldable pub tpm_write_audit_event_in : TpmBuffer → AuditEventIn → Outcome (ℕ × TpmBuffer)
unfolding write_members
tpm_write_audit_event_in buffer x = write_members audit_event_in_members buffer x

pub record AuditEventOut : Type 0 where
  pub tag : ℕ
  pub output_parms : List ℕ
  pub audit_count : CounterValue

abbrev pub audit_event_out_members : List (Member AuditEventOut)
audit_event_out_members =
    (short_at (place (λ x. x.tag) (λ v x. record x { tag = v })))
    ∷ (array_at 20 (place (λ x. x.output_parms) (λ v x. record x { output_parms = v })))
    ∷ members_inside (place (λ x. x.audit_count) (λ v x. record x { audit_count = v }))
        counter_value_members

unfoldable pub tpm_write_audit_event_out : TpmBuffer → AuditEventOut → Outcome (ℕ × TpmBuffer)
unfolding write_members
tpm_write_audit_event_out buffer x = write_members audit_event_out_members buffer x

pub record CmkAuth : Type 0 where
  pub migration_authority_digest : List ℕ
  pub destination_key_digest : List ℕ
  pub source_key_digest : List ℕ

abbrev pub cmk_auth_members : List (Member CmkAuth)
cmk_auth_members =
    (array_at 20 (
      place (λ x. x.migration_authority_digest)
        (λ v x. record x { migration_authority_digest = v })))
    ∷ (array_at 20
        (place (λ x. x.destination_key_digest) (λ v x. record x { destination_key_digest = v })))
    ∷ (array_at 20 (place (λ x. x.source_key_digest) (λ v x. record x { source_key_digest = v })))
    ∷ []

unfoldable pub tpm_write_cmk_auth : TpmBuffer → CmkAuth → Outcome (ℕ × TpmBuffer)
unfolding write_members
tpm_write_cmk_auth buffer x = write_members cmk_auth_members buffer x

pub record SignInfo : Type 0 where
  pub tag : ℕ
  pub fixed : List ℕ
  pub replay : List ℕ
  pub data_area : SizedBuffer

abbrev pub sign_info_members : List (Member SignInfo)
sign_info_members =
    (short_at (place (λ x. x.tag) (λ v x. record x { tag = v })))
    ∷ (array_at 4 (place (λ x. x.fixed) (λ v x. record x { fixed = v })))
    ∷ (array_at 20 (place (λ x. x.replay) (λ v x. record x { replay = v })))
    ∷ (buffer_at
        (inside (place (λ x. x.data_area) (λ v x. record x { data_area = v }))
          (place (λ x. x.size) (λ v x. record x { size = v })))
        (inside (place (λ x. x.data_area) (λ v x. record x { data_area = v }))
          (place (λ x. x.buffer) (λ v x. record x { buffer = v }))))
    ∷ []

unfoldable pub tpm_write_sign_info : TpmBuffer → SignInfo → Outcome (ℕ × TpmBuffer)
unfolding write_members
tpm_write_sign_info buffer x = write_members sign_info_members buffer x

pub record QuoteInfo : Type 0 where
  pub version : StructVer
  pub fixed : List ℕ
  pub digest_value : List ℕ
  pub external_data : List ℕ

abbrev pub quote_info_members : List (Member QuoteInfo)
quote_info_members =
    (members_inside (place (λ x. x.version) (λ v x. record x { version = v })) struct_ver_members)
    ++ ((array_at 4 (place (λ x. x.fixed) (λ v x. record x { fixed = v })))
        ∷ (array_at 20 (place (λ x. x.digest_value) (λ v x. record x { digest_value = v })))
        ∷ (array_at 20 (place (λ x. x.external_data) (λ v x. record x { external_data = v })))
        ∷ [])

unfoldable pub tpm_write_quote_info : TpmBuffer → QuoteInfo → Outcome (ℕ × TpmBuffer)
unfolding write_members
tpm_write_quote_info buffer x = write_members quote_info_members buffer x
