-- ===== src/Runs/Authorized.antt =====
-- An instance of the write of NV memory, with a TPM that opens a session and then acknowledges.
use tpm_luks.Common.{ℕ, ◌+◌, replicate, [], ◌==◌, if◌then◌else◌}
use tpm_luks.Common.Memory.{done}
use tpm_luks.Buffer.{TpmBuffer}
use tpm_luks.Hmac.Spec.{received}
use tpm_luks.Session.Open.{System}
use tpm_luks.Nv.Verdict.{acknowledged}
use tpm_luks.Runs.Wire.{system, constant_transport, opened}

-- The digest of the acknowledgement is wrong.
abbrev acknowledgement : TpmBuffer
acknowledgement = received (acknowledged 0 (replicate 20 6) 0 (replicate 20 99)) 64 []

abbrev answering : System ℕ
answering = record system {
  transport = record constant_transport {
    recv = λ fd tb w. (w + 1, done (0, if w == 1 then opened else acknowledgement));
  };
}
