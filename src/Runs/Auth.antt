-- ===== src/Runs/Auth.antt =====
-- Instances for the authorization digests and their check.
use tpm_luks.Common.{
  ℕ, ◌≡◌, ◌≢◌, refl, ap, arith, replicate, List, [], ◌∷◌, ◌++◌, none, some, true, false,
}
use tpm_luks.Common.Memory.{read_at, done, failed, fault}
use tpm_luks.Bytes.{be32, swap32, err_hmac_fail, load16, load32, native_load32}
use tpm_luks.Buffer.{TpmBuffer, tpm_buffer_load32, tpm_buffer_load32_native}
use tpm_luks.Hmac.{Header, read_header, tss_authhmac, tss_checkhmac1, verdict, same_bytes}
use tpm_luks.Hmac.Spec.{concat, auth_digest, inputs_of, ranges_of, Response, received, IsResponse}
use tpm_luks.Hmac.Check.{authhmac-auth_digest, checkhmac1-auth_digest}
use tpm_luks.Hmac.Verdict.{checkhmac1_refuses_forged, checkhmac1_range_wraps}
use tpm_luks.Hmac.Unprotected.{unprotected, receive-unprotected}
use tpm_luks.Transmit.{Settings, receive}
use tpm_luks.Runs.Crypto.{toy_sha1, toy_sha1_size}

abbrev pub device : Settings
device = record { chardev = true; use_vtpm = false; instance_number = none; locality = none }

abbrev pub toy_hmac : List ℕ → List ℕ → List ℕ
toy_hmac key text = toy_sha1 (key ++ text)

abbrev key : List ℕ
key = replicate 20 3

abbrev odd : List ℕ
odd = replicate 20 4

abbrev even : List ℕ
even = replicate 20 5

authhmac-auth_digest_example :
    tss_authhmac toy_sha1 toy_hmac key 20
      (some even)
      (some odd)
      1
      (inputs_of ((0 ∷ 0 ∷ 0 ∷ 207 ∷ []) ∷ (1 ∷ 2 ∷ []) ∷ []))
    ≡ done (auth_digest toy_sha1 toy_hmac key (0 ∷ 0 ∷ 0 ∷ 207 ∷ 1 ∷ 2 ∷ []) even odd 1)
authhmac-auth_digest_example =
    authhmac-auth_digest toy_sha1 toy_hmac toy_sha1_size key even odd 1
      ((0 ∷ 0 ∷ 0 ∷ 207 ∷ []) ∷ (1 ∷ 2 ∷ []) ∷ []) refl refl (omega arith, (omega arith, tt))

abbrev answer : Response
answer = record {
  result = 0;
  pieces = (0 ∷ 0 ∷ 0 ∷ 2 ∷ 7 ∷ 8 ∷ []) ∷ [];
  enonce = even;
  flag = 0;
  auth = replicate 20 99;
}

answer-IsResponse : IsResponse answer
answer-IsResponse = record {
  nonce = refl;
  digest = refl;
  word = omega arith;
  some_bytes = (omega arith, tt);
  small = omega arith;
}

checkhmac1-auth_digest_example :
    tss_checkhmac1 toy_sha1 toy_hmac
      (received answer 64 [])
      (swap32 207)
      odd
      key
      20
      (ranges_of 10 answer.pieces)
    ≡ verdict (
        same_bytes
          (auth_digest toy_sha1 toy_hmac key
            ((be32 0 ++ be32 207) ++ concat answer.pieces)
            even
            odd
            0)
          answer.auth)
checkhmac1-auth_digest_example =
    checkhmac1-auth_digest toy_sha1 toy_hmac toy_sha1_size answer 64 [] answer-IsResponse 207 key
      odd refl

abbrev head_of : List ℕ → ℕ
head_of [] = 0
head_of (x ∷ xs) = x

forged :
    auth_digest toy_sha1 toy_hmac key ((be32 0 ++ be32 207) ++ concat answer.pieces) even odd 0
    ≢ answer.auth
unfolding be32
forged e = let h = ap head_of e in absurd (omega (arith, h))

checkhmac1_refuses_forged_example :
    tss_checkhmac1 toy_sha1 toy_hmac
      (received answer 64 [])
      (swap32 207)
      odd
      key
      20
      (ranges_of 10 answer.pieces)
    ≡ failed err_hmac_fail
checkhmac1_refuses_forged_example =
    checkhmac1_refuses_forged toy_sha1 toy_hmac toy_sha1_size answer 64 [] answer-IsResponse 207 key
      odd refl forged

abbrev reply : ℕ → TpmBuffer
reply tag = record {
  size = 64;
  used = 10;
  flags = 1;
  buffer = 0 ∷ tag ∷ 0 ∷ 0 ∷ 0 ∷ 10 ∷ 0 ∷ 0 ∷ 0 ∷ 0 ∷ [];
}

abbrev header_of : ℕ → Header
header_of tag = record { bufsize = 10; tag = tag; result = 0 }

receive-unprotected_example :
    (receive device 0xc2 0 (unprotected 64 14 (9 ∷ 9 ∷ 9 ∷ 9 ∷ []))
      ≡ done (0, unprotected 64 14 (9 ∷ 9 ∷ 9 ∷ 9 ∷ [])))
    × (tss_checkhmac1 toy_sha1 toy_hmac
          (unprotected 64 14 (9 ∷ 9 ∷ 9 ∷ 9 ∷ []))
          (swap32 207)
          odd
          key
          20
          (ranges_of 10 ((9 ∷ 9 ∷ 9 ∷ 9 ∷ []) ∷ []))
        ≡ done 0)
receive-unprotected_example =
    receive-unprotected toy_sha1 toy_hmac device 0xc2 64 14 (swap32 207) 20 (9 ∷ 9 ∷ 9 ∷ 9 ∷ []) odd
      key (ranges_of 10 ((9 ∷ 9 ∷ 9 ∷ 9 ∷ []) ∷ [])) (record { device = refl; plain = refl })
      (omega arith) (omega arith)

checkhmac1_range_wraps_example :
    tss_checkhmac1 toy_sha1 toy_hmac
      (reply 0xc5)
      (swap32 207)
      odd
      key
      20
      (record { size = 0xfffffffa; position = 10 } ∷ [])
    ≡ fault
unfolding read_header tpm_buffer_load32 load32 read_at load16 tpm_buffer_load32_native native_load32
checkhmac1_range_wraps_example =
    checkhmac1_range_wraps toy_sha1 toy_hmac (reply 0xc5) (swap32 207) odd key 20 10 0xfffffffa []
      (header_of 0xc5) refl refl (omega arith) (omega arith)
