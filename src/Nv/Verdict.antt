-- ===== src/Nv/Verdict.antt =====
-- What TPM_NV_WriteValueAuth (swtpm-utils/lib/nv.c) makes of the response to its request.
use tpm_luks.Common.{ℕ, List, []}
use tpm_luks.Hmac.Spec.{Response}
use tpm_luks.Session.{Session}

-- An AUTH1 response without parameters.
abbrev pub acknowledged : ℕ → List ℕ → ℕ → List ℕ → Response
acknowledged result enonce flag auth = record {
  result = result;
  pieces = [];
  enonce = enonce;
  flag = flag;
  auth = auth;
}
