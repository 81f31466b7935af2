-- ===== src/Hmac/Spec.antt =====
-- The digests of the TPM's authorization protocol, and a response as the TPM lays it out.
use tpm_luks.Common.{ℕ, ◌+◌, ◌^◌, ◌<◌, ◌≡◌, All, List, [], ◌∷◌, ◌++◌, length, some, none}
use tpm_luks.Buffer.{TpmBuffer}
use tpm_luks.Bytes.{be16, be32}
use tpm_luks.Hmac.{Input, Range, tag_rsp_auth1_command}

abbrev pub concat : List (List ℕ) → List ℕ
concat [] = []
concat (p ∷ ps) = p ++ concat ps

-- HMAC(key, SHA1(parameters) || even nonce || odd nonce || flag).
abbrev pub auth_digest :
    (List ℕ → List ℕ) → (List ℕ → List ℕ → List ℕ) → List ℕ → List ℕ → List ℕ → List ℕ → ℕ → List ℕ
auth_digest sha1 hmac key parameters enonce ononce flag =
    hmac key (sha1 parameters ++ (enonce ++ (ononce ++ (flag ∷ []))))

-- The arguments that pass the pieces of the parameters to TSS_authhmac.
abbrev pub inputs_of : List (List ℕ) → List Input
inputs_of [] = record { size = 0; data_at = none } ∷ []
inputs_of (p ∷ ps) = record { size = length p; data_at = some p } ∷ inputs_of ps

-- The arguments that point TSS_checkhmac1 to pieces that stand one behind the other.
abbrev pub ranges_of : ℕ → List (List ℕ) → List Range
ranges_of pos [] = record { size = 0; position = 0 } ∷ []
ranges_of pos (p ∷ ps) = record { size = length p; position = pos } ∷ ranges_of (pos + length p) ps

-- A response to a command with one authorization.
pub record Response : Type 0 where
  pub result : ℕ
  pub pieces : List (List ℕ)
  pub enonce : List ℕ
  pub flag : ℕ
  pub auth : List ℕ

abbrev pub response_size : Response → ℕ
response_size r = 10 + length (concat r.pieces) + 41

-- The bytes of the response, and what lies behind them in memory.
unfoldable pub response_bytes : Response → List ℕ → List ℕ
unfolding be16 be32
response_bytes r rest =
    be16 tag_rsp_auth1_command
    ++ (be32 (response_size r)
        ++ (be32 r.result ++ (concat r.pieces ++ (r.enonce ++ (r.flag ∷ (r.auth ++ rest))))))

-- The buffer that such a response is received in.
abbrev pub received : Response → ℕ → List ℕ → TpmBuffer
received r size rest = record {
  size = size;
  used = response_size r;
  flags = 1;
  buffer = response_bytes r rest;
}

-- The nonce and the digest have their sizes, no piece is empty, and the size fits its word.
pub record IsResponse (r : Response) : Type 0 where
  pub nonce : length r.enonce ≡ 20
  pub digest : length r.auth ≡ 20
  pub word : r.result < 2 ^ 32
  pub some_bytes : All (λ p. 0 < length p) r.pieces
  pub small : response_size r < 2 ^ 32
