-- ===== src/Runs/Structs.antt =====
-- Instances for the structures of serialize.c.
use tpm_luks.Common.{
  ℕ, ◌≡◌, refl, arith, replicate, codes, length, length-replicate, [], ◌∷◌, some, true, Bool,
  if◌then◌else◌, ◌==◌,
}
use tpm_luks.Common.Memory.{done}
use tpm_luks.Bytes.{err_structure}
use tpm_luks.Buffer.{TpmBuffer, IsBuffer}
use tpm_luks.Build.Fields.{encode_all}
use tpm_luks.Build.Refine.{appended}
use tpm_luks.Parse.{tss_parsebuff}
use tpm_luks.Serialize.Pcr.{PcrInfoShort, PcrComposite, default_pcr_composite}
use tpm_luks.Serialize.Public.{
  NvDataPublic, default_nv_data_public, tpm_write_pub_info, tpm_read_nv_data_public,
}
use tpm_luks.Serialize.Blobs.{
  ContextBlob, context_blob_members, tpm_write_context_blob, tpm_read_context_blob, tag_contextblob,
}
use tpm_luks.Serialize.Keys.{Keydata, tpm_write_key, tpm_read_key}
use tpm_luks.Serialize.Flags.{
  PermanentFlags, tpm_read_permanent_flags, tag_permanent_flags, tag_persistent_flags,
}
use tpm_luks.Serialize.Signed.{
  QuoteInfo2, default_quote_info2, tpm_write_quote_info2, tpm_hash_pcr_composite,
}
use tpm_luks.Serialize.RoundTrip.{
  public_into, read_nv_data_public-write_pub_info, blob_into, read_context_blob-write_context_blob,
  key12_into, read_key-write_key12,
}
use tpm_luks.Serialize.Laws.{IsMembers}
use tpm_luks.Serialize.Tags.{IsRevision, read_permanent_flags_accepts}
use tpm_luks.Serialize.Hashes.{
  quote_fields, write_quote_info2-whole_array, serialized, hash_pcr_composite-sha1,
}

abbrev always : ℕ → Bool
always n = true

abbrev large_buffer : TpmBuffer
large_buffer = record { size = 256; used = 0; flags = 1; buffer = replicate 256 0 }

large_buffer-IsBuffer : IsBuffer large_buffer
large_buffer-IsBuffer = record { fits = omega arith; allocated = omega arith; small = omega arith }

abbrev empty_info : PcrInfoShort
empty_info = record {
  pcr_selection = record { size_of_select = 0; pcr_select = 9 ∷ 9 ∷ 9 ∷ [] };
  locality_at_release = 0x1f;
  digest_at_release = replicate 20 5;
}

abbrev two_byte_info : PcrInfoShort
two_byte_info = record empty_info {
  pcr_selection = record { size_of_select = 2; pcr_select = 1 ∷ 2 ∷ 3 ∷ [] };
}

abbrev area_of : PcrInfoShort → ℕ → NvDataPublic
area_of info size = record {
  tag = 0x18;
  nv_index = 0x10000001;
  pcr_info_read = info;
  pcr_info_write = empty_info;
  permission = record { tag = 0x17; attributes = 4 };
  b_read_st_clear = 0;
  b_write_st_clear = 0;
  b_write_define = 1;
  data_size = size;
}

read_nv_data_public-write_pub_info_example :
    (n : ℕ) × (tb' : TpmBuffer) × (tpm_write_pub_info large_buffer (area_of two_byte_info 32)
      ≡ (done (n, tb'), default_nv_data_public (area_of two_byte_info 32)))
    × (tpm_read_nv_data_public always tb' 0 (area_of empty_info 7)
        ≡ done (
          n,
          public_into (default_nv_data_public (area_of two_byte_info 32)) (area_of empty_info 7),
        ))
unfolding encode_all
read_nv_data_public-write_pub_info_example =
    read_nv_data_public-write_pub_info always (area_of two_byte_info 32) (area_of empty_info 7)
      large_buffer large_buffer-IsBuffer (omega arith) (omega arith) (omega arith)

abbrev blob : ContextBlob
blob = record {
  tag = 1;
  resource_type = 1;
  handle = 0x05000001;
  label = replicate 16 3;
  context_count = 8;
  integrity_digest = replicate 20 4;
  additional_data = record { size = 0; buffer = some [] };
  sensitive_data = record { size = 3; buffer = some (7 ∷ 8 ∷ 9 ∷ []) };
}

blob_ok : IsMembers always context_blob_members blob
blob_ok = (
  omega arith,
  (
    omega arith,
    (
      omega arith,
      (
        omega arith,
        (
          omega arith,
          (
            omega arith,
            (((refl, refl), omega arith, refl), (((refl, refl), omega arith, refl), tt)),
          ),
        ),
      ),
    ),
  ),
)

read_context_blob-write_context_blob_example :
    (n : ℕ) × (tb' : TpmBuffer) × (tpm_write_context_blob large_buffer blob ≡ done (n, tb'))
    × (tpm_read_context_blob always tb' 0 blob
        ≡ done (if blob.tag == tag_contextblob then n else err_structure, blob_into blob blob))
unfolding encode_all
read_context_blob-write_context_blob_example =
    read_context_blob-write_context_blob always blob blob large_buffer large_buffer-IsBuffer blob_ok
      refl refl (omega arith)

abbrev key_of : ℕ → Keydata
key_of algorithm = record {
  ver = record { major = 0x28; minor = 0; rev_major = 0; rev_minor = 0 };
  key_usage = 0x10;
  key_flags = 0;
  auth_data_usage = 1;
  public = record {
    algorithm_parms = record {
      algorithm_id = algorithm;
      enc_scheme = 1;
      sig_scheme = 2;
      rsa_key_parms = record {
        key_length = 2048;
        num_primes = 2;
        exponent_size = 0;
        exponent = replicate 3 0;
      };
    };
    pub_key = record { key_length = 4; modulus = replicate 512 6 };
    pcr_info = record { size = 0; buffer = replicate 256 0 };
  };
  enc_data = record { size = 2; buffer = replicate 1024 7 };
}

read_key-write_key12_example :
    (n : ℕ) × (tb' : TpmBuffer) × (tpm_write_key large_buffer (key_of 1) ≡ done (n, tb'))
    × (tpm_read_key always tb' 0 (key_of 6) ≡ done (n, key12_into (key_of 1) (key_of 6)))
unfolding encode_all
read_key-write_key12_example =
    read_key-write_key12 always (key_of 1) (key_of 6) large_buffer large_buffer-IsBuffer
      (omega arith) (omega arith) (omega arith) refl (omega arith)

-- No algorithm has the number 5.
abbrev no_flags : PermanentFlags
no_flags = record {
  tag = 0;
  disable = 0;
  ownership = 0;
  deactivated = 0;
  read_pubek = 0;
  disable_owner_clear = 0;
  allow_maintenance = 0;
  physical_presence_lifetime_lock = 0;
  physical_presence_hw_enable = 0;
  physical_presence_cmd_enable = 0;
  cekp_used = 0;
  tpm_post = 0;
  tpm_post_lock = 0;
  fips = 0;
  tpm_operator = 0;
  enable_revoke_ek = 0;
  nv_locked = 0;
  read_srk_pub = 0;
  tpm_established = 0;
  maintenance_done = 0;
  disable_full_da_logic_info = 0;
}

abbrev flags_answer : TpmBuffer
flags_answer = record { size = 32; used = 17; flags = 1; buffer = 0 ∷ 0x1f ∷ replicate 30 0 }

read_permanent_flags_accepts_example :
    IsRevision 17 × (0x1f ≡ (if 17 == 20 then tag_persistent_flags else tag_permanent_flags))
unfolding tpm_read_permanent_flags tss_parsebuff
read_permanent_flags_accepts_example =
    read_permanent_flags_accepts always flags_answer 0 17 no_flags 17
      (record no_flags { tag = 0x1f }) refl refl

abbrev quote : QuoteInfo2
quote = record {
  tag = 0x36;
  fixed = codes "QUT2";
  external_data = replicate 20 1;
  info_short = two_byte_info;
}

write_quote_info2-whole_array_example : tpm_write_quote_info2 large_buffer quote ≡ (
  done (
    length (encode_all (quote_fields (default_quote_info2 quote))),
    appended large_buffer (encode_all (quote_fields (default_quote_info2 quote))),
  ),
  default_quote_info2 quote,
)
unfolding encode_all
write_quote_info2-whole_array_example =
    write_quote_info2-whole_array always quote large_buffer large_buffer-IsBuffer (omega arith)
      (omega arith)

abbrev composite : PcrComposite
composite = record {
  select = record { size_of_select = 0; pcr_select = 1 ∷ 1 ∷ 1 ∷ [] };
  pcr_value = record { size = 2; buffer = some (7 ∷ 8 ∷ []) };
}

hash_pcr_composite-sha1_example :
    tpm_hash_pcr_composite (λ bs. bs) (λ n. some (replicate n 0)) composite
    ≡ done (0, some (serialized (default_pcr_composite composite)))
hash_pcr_composite-sha1_example =
    hash_pcr_composite-sha1 always (λ bs. bs) (λ n. some (replicate n 0)) composite
      (omega arith, (((refl, refl), omega arith, refl), tt)) (omega arith)
      (λ n. (replicate n 0, refl, length-replicate {A = ℕ} n 0))
