-- ===== src/Seal/Closing.antt =====
-- The sessions of TPM_Unseal (swtpm-utils/lib/seal.c) and how they are closed.
use tpm_luks.Common.{ℕ, ◌+◌, ◌≡◌, refl, List, some}
use tpm_luks.Common.Memory.{Outcome, done, failed, fault}
use tpm_luks.Common.Effects.{Call, ◌>>>=◌, continue_with, fail}
use tpm_luks.Hmac.{Input}
use tpm_luks.Build.{Arg}
use tpm_luks.Common.{String}
use tpm_luks.Session.{Session, session_oiap, session_osap, session_dsap}
use tpm_luks.Session.Open.{System, tss_session_open, tss_session_close, et_keyhandle}
use tpm_luks.Command.{no_session, send_in_both}
use tpm_luks.Command.Closing.{EndsWith, close_after-EndsWith, then_lift}
use tpm_luks.Seal.{unseal}

module _ {W : Type 0} where
  -- A close after which the command fails.
  close_then_stop :
      {A B : Type 0} (code : ℕ) (close : Call W ℕ) (k : A → Call W B) (closed : W × Outcome ℕ)
      (w' : W)
      → closed.0 ≡ (close w').0
      → EndsWith close (
          continue_with
            (continue_with closed.1 (λ ret. fail code) closed.0).1
            k
            (continue_with closed.1 (λ ret. fail {W = W} {A = A} code) closed.0).0)
  close_then_stop code close k (w, done n) w' e = (w', e)
  close_then_stop code close k (w, failed c) w' e = (w', e)
  close_then_stop code close k (w, fault) w' e = tt

module _ {W : Type 0} (sys : System W) where
  -- Both sessions closed, one after the other.
  unfoldable pub close_both : Session → Session → Call W ℕ
  close_both sess sess2 = tss_session_close sys sess >>>= λ ret. tss_session_close sys sess2

  send_in_both-EndsWith :
      (sess sess2 : Session) (nonceodd nonceodd2 : List ℕ) (ordinal : ℕ) (inputs : List Input)
      (format : String) (args : List Arg) (w : W)
      → EndsWith
          (close_both sess sess2)
          (send_in_both sys sess sess2 nonceodd nonceodd2 ordinal inputs format args w)
  unfolding send_in_both close_both
  send_in_both-EndsWith sess sess2 nonceodd nonceodd2 ordinal inputs format args w =
      close_after-EndsWith _ (close_both sess sess2) _

  -- A call after which none of `sess` and the session that `second` may have opened is open.
  abbrev pub ClosesAll : {A : Type 0} → Session → W × Outcome Session → W × Outcome A → Type 0
  ClosesAll sess (w, done sess2) r = EndsWith (close_both sess sess2) r
  ClosesAll sess (w, failed code) r = EndsWith (tss_session_close sys sess) r
  ClosesAll sess (w, fault) r = Unit {0}

  -- TPM_Unseal with the password of the key, once the session for the key is open, leaves no
  -- session open. When the session for the data opens, the command ends with the close of both
  -- sessions, whatever the digests, the request, the transmission and the checks give, and when it
  -- fails, with the close of the session for the key, unless the command does not return at all.
  pub unseal-ClosesAll :
      (nonceodd keyauth dataauth blob rawdata : List ℕ) (keyhandle bloblen : ℕ)
      (nonce2 : ℕ × List ℕ) (sess : Session) (second : W × Outcome Session) (w w1 w2 : W)
      → sys.random w ≡ (w1, done nonce2)
      → tss_session_open sys
          (session_osap + session_dsap)
          no_session
          (some keyauth)
          et_keyhandle
          keyhandle
          w1
        ≡ (w2, done sess)
      → tss_session_open sys session_oiap no_session (some dataauth) 0 0 w2 ≡ second
      → ClosesAll sess second
          (unseal sys nonceodd keyhandle (some keyauth) dataauth blob bloblen rawdata w)
  unfolding unseal
  unseal-ClosesAll nonceodd keyauth dataauth blob rawdata keyhandle bloblen nonce2 sess
        (w3, done sess2) w w1 w2 a b c =
      rw (a, b, c)
        (then_lift (close_both sess sess2) _ _
          (send_in_both-EndsWith sess sess2 nonceodd nonce2.1 0x18 _ _ _ w3))
  unseal-ClosesAll nonceodd keyauth dataauth blob rawdata keyhandle bloblen nonce2 sess
        (w3, failed code) w w1 w2 a b c =
      rw (a, b, c)
        (close_then_stop code (tss_session_close sys sess) _ (tss_session_close sys sess w3) w3
          refl)
  unseal-ClosesAll nonceodd keyauth dataauth blob rawdata keyhandle bloblen nonce2 sess (w3, fault)
        w w1 w2 a b c =
      tt
