-- ===== src/Serialize/Signed.antt =====
-- What is signed or hashed: TPM_QUOTE_INFO2, TPM_CERTIFY_INFO2 and the hashes of structures
-- (swtpm-utils/lib/serialize.c, newserialize.h).
use tpm_luks.Common.{ℕ, Bool, List, [], ◌∷◌, Option}
use tpm_luks.Common.Memory.{Outcome, done, ◌>>=◌}
use tpm_luks.Buffer.{TpmBuffer}
use tpm_luks.Serialize.{place, members_inside, Member, short_at, array_at}
use tpm_luks.Serialize.{expect_tag}
use tpm_luks.Common.{◌+◌, some, none, true, ltb, codes, if◌then◌else◌}
use tpm_luks.Common.Memory.{read_at}
use tpm_luks.Bytes.{is_error, err_mem_err}
use tpm_luks.Buffer.{stack_tpm_buffer}
use tpm_luks.Build.{tss_buildbuff}
use tpm_luks.Parse.{Slot, out, number, area, handle, Value, scalar, tss_parsebuff}
use tpm_luks.Serialize.{params_w_all}
use tpm_luks.Serialize.Pcr.{
  PcrInfoShort, pcr_info_short_members, default_pcr_info_short, PcrComposite,
  tpm_write_pcr_composite,
}
use tpm_luks.Serialize.Blobs.{CmkAuth, tpm_write_cmk_auth}

pub record QuoteInfo2 : Type 0 where
  pub tag : ℕ
  pub fixed : List ℕ
  pub external_data : List ℕ
  pub info_short : PcrInfoShort

abbrev pub quote_info2_members : List (Member QuoteInfo2)
quote_info2_members =
    (short_at (place (λ x. x.tag) (λ v x. record x { tag = v })))
    ∷ (array_at 4 (place (λ x. x.fixed) (λ v x. record x { fixed = v })))
    ∷ (array_at 20 (place (λ x. x.external_data) (λ v x. record x { external_data = v })))
    ∷ members_inside (place (λ x. x.info_short) (λ v x. record x { info_short = v }))
        pcr_info_short_members

abbrev pub default_quote_info2 : QuoteInfo2 → QuoteInfo2
default_quote_info2 x = record x { info_short = default_pcr_info_short x.info_short }

-- The format string has no '^' for the selection: it takes the same parameters as an 'S' for
-- the length and a '%' for the array.
unfoldable pub tpm_write_quote_info2 : TpmBuffer → QuoteInfo2 → Outcome (ℕ × TpmBuffer) × QuoteInfo2
unfolding tss_buildbuff
tpm_write_quote_info2 buffer x =
    let x = default_quote_info2 x in
    (tss_buildbuff (codes "S%%S%o%") buffer (params_w_all quote_info2_members x), x)

-- The parameters of the read: the second is the constant 0 where 'S' expects a pointer, and the
-- buffer behind the key parameters is the place of a pointer, not of bytes.
abbrev pub certify_info2_places : List Slot
certify_info2_places =
    out
    ∷ number 0
    ∷ out
    ∷ out
    ∷ out
    ∷ out
    ∷ out
    ∷ out
    ∷ out
    ∷ area (some 8)
    ∷ number 20
    ∷ area (some 20)
    ∷ number 20
    ∷ area (some 20)
    ∷ out
    ∷ out
    ∷ handle true
    ∷ out
    ∷ handle true
    ∷ []

abbrev pub tag_certify_info2 : ℕ
tag_certify_info2 = 0x29

abbrev pub stored_tag : List Value → ℕ → ℕ
stored_tag (scalar v ∷ vs) old = v
stored_tag vs old = old

-- With what it stored, in order; `tag` is what the structure had before.
unfoldable pub tpm_read_certify_info2 : (ℕ → Bool) → TpmBuffer → ℕ → ℕ → Outcome (ℕ × List Value)
unfolding tss_parsebuff
tpm_read_certify_info2 allocates tb offset tag =
    tss_parsebuff allocates (codes "SSLoLSS@%%o**") tb offset certify_info2_places >>= λ r.
    done (expect_tag tag_certify_info2 (λ vs. stored_tag vs tag) r)

abbrev pub new_buffer : ℕ → Option (List ℕ) → Option TpmBuffer
new_buffer size none = none
new_buffer size (some m) = some (record { size = size; used = 0; flags = 0; buffer = m })

-- TSS_AllocTPMBuffer for a positive length; `memory` is what malloc gives for a size. The flags,
-- which it leaves as they are, are taken as 0.
unfoldable pub tss_alloc_tpm_buffer : (ℕ → Option (List ℕ)) → ℕ → Option TpmBuffer
tss_alloc_tpm_buffer memory len =
    let size = if ltb 16384 len then 16384 else if ltb len 1024 then 2048 else len in
    new_buffer size (memory size)

abbrev pub with_buffer :
    Option TpmBuffer → (TpmBuffer → Outcome (ℕ × Option (List ℕ))) → Outcome (ℕ × Option (List ℕ))
with_buffer none k = done (err_mem_err, none)
with_buffer (some buffer) k = k buffer

-- The composite that a hash is computed of. `sha1` is TSS_sha1. The structure has 24 bytes on
-- x86-64. The length that is hashed is whatever TPM_WritePCRComposite returned.
unfoldable pub tpm_hash_pcr_composite :
    (List ℕ → List ℕ) → (ℕ → Option (List ℕ)) → PcrComposite → Outcome (ℕ × Option (List ℕ))
tpm_hash_pcr_composite sha1 memory comp =
    with_buffer (tss_alloc_tpm_buffer memory ((comp.pcr_value).size + 24)) (λ buffer.
      (tpm_write_pcr_composite buffer comp).0 >>= λ r.
      read_at (r.1).buffer 0 r.0 >>= λ bs. done (0, some (sha1 bs)))

unfoldable pub tpm_hash_cmk_auth : (List ℕ → List ℕ) → CmkAuth → Outcome (ℕ × Option (List ℕ))
tpm_hash_cmk_auth sha1 auth = tpm_write_cmk_auth stack_tpm_buffer auth >>= λ r.
    if is_error r.0
    then done (r.0, none)
    else (read_at (r.1).buffer 0 r.0 >>= λ bs. done (0, some (sha1 bs)))
