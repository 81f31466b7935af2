-- ===== src/Seal/Covers.antt =====
-- What the authorization digest of TPM_Seal covers (swtpm-utils/lib/seal.c).
use tpm_luks.Common.{ℕ, ◌<◌, ◌≡◌, ◌∙◌, refl, sym, ap, arith, ◌==◌, false}
use tpm_luks.Common.{List, [], ◌∷◌, ◌++◌, length, append_assoc, append-nil, some}
use tpm_luks.Common.Memory.{done, read_at}
use tpm_luks.Bytes.{be32, hash_size}
use tpm_luks.Build.Fields.{Field, raw, sized, encode_all, encode}
use tpm_luks.Hmac.{Input, hash_inputs}
use tpm_luks.Hmac.Check.{read_middle}
use tpm_luks.Command.{word_input, bytes_input, end_input}
use tpm_luks.Seal.{seal_inputs}

-- The parameters of a seal behind the key's handle: the encrypted secret, the PCR information and
-- the data, the latter two with their lengths.
abbrev pub seal_fields : List ℕ → List ℕ → List ℕ → List Field
seal_fields encauth info bytes = raw encauth ∷ sized info ∷ sized bytes ∷ []

hash_step :
    (text p : List ℕ) (n : ℕ) (rest : List Input)
    → n ≡ length p
    → 0 < n
    → hash_inputs text (record { size = n; data_at = some p } ∷ rest) ≡ hash_inputs (text ++ p) rest
unfolding hash_inputs
hash_step text p n rest e h =
    let some_bytes : (n == 0) ≡ false = ground (arith, h) in
    let read : read_at p 0 n ≡ done p = rw append-nil at (read_middle [] p [] 0 n refl e) in
    rw (some_bytes, read) refl

hash_word :
    (text : List ℕ) (v : ℕ) (rest : List Input)
    → hash_inputs text (word_input v ∷ rest) ≡ hash_inputs (text ++ be32 v) rest
unfolding be32
hash_word text v rest = hash_step text (be32 v) 4 rest refl (omega arith)

-- Data, perhaps none, in front of the end.
hash_last :
    (text bs : List ℕ)
    → hash_inputs text (record { size = length bs; data_at = some bs } ∷ end_input ∷ [])
      ≡ done (text ++ bs)
unfolding hash_inputs
hash_last text [] = rw (append-nil text)
hash_last text (x ∷ bs) =
    hash_step text (x ∷ bs) (length (x ∷ bs)) (end_input ∷ []) refl (omega arith)

regroup :
    (a e z i m b : List ℕ)
    → ((((a ++ e) ++ z) ++ i) ++ m) ++ b ≡ a ++ (e ++ ((z ++ i) ++ ((m ++ b) ++ [])))
regroup a e z i m b = simp (append_assoc, append-nil)

regroup_empty :
    (a e z m b : List ℕ) → (((a ++ e) ++ z) ++ m) ++ b ≡ a ++ (e ++ ((z ++ []) ++ ((m ++ b) ++ [])))
regroup_empty a e z m b = simp (append_assoc, append-nil)

-- The end of the digest behind the PCR information.
hash_tail :
    (text bytes : List ℕ)
    → hash_inputs text
        (word_input (length bytes) ∷ bytes_input (length bytes) bytes ∷ end_input ∷ [])
      ≡ done ((text ++ be32 (length bytes)) ++ bytes)
hash_tail text bytes =
    hash_word text (length bytes) _ ∙ hash_last (text ++ be32 (length bytes)) bytes

hash_front :
    (encauth : List ℕ) (n : ℕ) (rest : List Input)
    → length encauth ≡ hash_size
    → hash_inputs [] (word_input 0x17 ∷ bytes_input hash_size encauth ∷ word_input n ∷ rest)
      ≡ hash_inputs ((be32 0x17 ++ encauth) ++ be32 n) rest
hash_front encauth n rest e =
    hash_word [] 0x17 _
    ∙ hash_step (be32 0x17) encauth hash_size _ (sym e) (omega arith)
    ∙ hash_word (be32 0x17 ++ encauth) n rest

-- The bytes that are hashed are the ordinal and the encoding of the fields, for empty PCR
-- information and empty data too.
pub seal_inputs-text :
    (encauth info bytes : List ℕ)
    → length encauth ≡ hash_size
    → hash_inputs [] (seal_inputs encauth (some info) (length info) bytes (length bytes))
      ≡ done (be32 0x17 ++ encode_all (seal_fields encauth info bytes))
unfolding seal_inputs encode_all encode
seal_inputs-text encauth [] bytes e =
    hash_front encauth 0 _ e
    ∙ hash_tail ((be32 0x17 ++ encauth) ++ be32 0) bytes
    ∙ ap done (regroup_empty (be32 0x17) encauth (be32 0) (be32 (length bytes)) bytes)
seal_inputs-text encauth (x ∷ info) bytes e =
    let n = length (x ∷ info) in
    let front = (be32 0x17 ++ encauth) ++ be32 n in
    let some_info : (n == 0) ≡ false = ground arith in
    rw some_info (
      hash_front encauth n _ e
      ∙ hash_step front (x ∷ info) n _ refl (omega arith)
      ∙ hash_tail (front ++ x ∷ info) bytes
      ∙ ap done (regroup (be32 0x17) encauth (be32 n) (x ∷ info) (be32 (length bytes)) bytes))
