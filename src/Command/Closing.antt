-- ===== src/Command/Closing.antt =====
-- The session of an authorized command of swtpm-utils/lib, and how it is closed.
use tpm_luks.Common.{
  ℕ, ◌≡◌, refl, List, ◌∷◌, ◌++◌, codes, String, ◌==◌, if◌then◌else◌, Bool-cases, inl, inr,
}
use tpm_luks.Common.Memory.{Outcome, done, failed, fault}
use tpm_luks.Common.Effects.{Call, ◌>>>=◌, continue_with, lift, return, fail}
use tpm_luks.Bytes.{swap32}
use tpm_luks.Buffer.{TpmBuffer, stack_tpm_buffer}
use tpm_luks.Build.{Arg, word}
use tpm_luks.Hmac.{Input}
use tpm_luks.Session.{Session}
use tpm_luks.Session.Open.{System, tss_session_close}
use tpm_luks.Transmit.{tpm_transmit}
use tpm_luks.Command.{
  close_after, close_unless_done, finally, or_close, built_request, digest_in, auth_args,
  transmit_and_close, send_authorized, send_authorized_from,
}

-- The last thing that happened is that `close` ran, or the call does not return.
abbrev pub EndsWith : {W A : Type 0} → Call W ℕ → W × Outcome A → Type 0
EndsWith close (w, fault) = Unit {0}
EndsWith {W} close (w, o) = (w' : W) × (w ≡ (close w').0)

module _ {W : Type 0} where
  -- `return` or `fail` behind a close.
  pub after_close :
      {A : Type 0} (o : Outcome ℕ) (k : ℕ → Call W A) (close : Call W ℕ) (w w' : W)
      → w ≡ (close w').0
      → ((n : ℕ) → EndsWith close (k n w))
      → EndsWith close (continue_with o k w)
  after_close (done n) k close w w' e h = h n
  after_close (failed c) k close w w' e h = (w', e)
  after_close fault k close w w' e h = tt

  pub close_after-EndsWith :
      {A : Type 0} (o : Outcome A) (close : Call W ℕ) (w : W)
      → EndsWith close (close_after o close w)
  close_after-EndsWith (done a) close w =
      after_close (close w).1 _ close (close w).0 w refl (λ n. (w, refl))
  close_after-EndsWith (failed e) close w =
      after_close (close w).1 _ close (close w).0 w refl (λ n. (w, refl))
  close_after-EndsWith fault close w = tt

  -- What returns at once behind a call does not come behind its last step.
  pub then_return :
      {A B : Type 0} (close : Call W ℕ) (f : A → B) (r : W × Outcome A)
      → EndsWith close r
      → EndsWith close (continue_with r.1 (λ a. return (f a)) r.0)
  then_return close f (w, done a) e = e
  then_return close f (w, failed c) e = e
  then_return close f (w, fault) e = tt

  -- What only looks at the result does not come behind the last step.
  pub end_kept :
      {A : Type 0} (o : Outcome A) (close : Call W ℕ) (w w' : W)
      → w ≡ (close w').0
      → EndsWith close (w, o)
  end_kept (done a) close w w' e = (w', e)
  end_kept (failed c) close w w' e = (w', e)
  end_kept fault close w w' e = tt

  pub then_lift :
      {A B : Type 0} (close : Call W ℕ) (f : A → Outcome B) (r : W × Outcome A)
      → EndsWith close r
      → EndsWith close (continue_with r.1 (λ a. lift (f a)) r.0)
  then_lift close f (w, done a) e = end_kept (f a) close w e.0 e.1
  then_lift close f (w, failed c) e = e
  then_lift close f (w, fault) e = tt

  -- What comes behind a call that is closed when it fails.
  or_close_then :
      {A B : Type 0} (o : Outcome A) (close : Call W ℕ) (k : A → Call W B) (w : W)
      → ((a : A) → EndsWith close (k a w))
      → EndsWith close
          (continue_with (close_unless_done o close w).1 k (close_unless_done o close w).0)
  or_close_then (done a) close k w h = h a
  or_close_then {A} (failed e) close k w h = failing (close w) w refl
    where
      failing :
          (closed : W × Outcome ℕ) (w' : W)
          → closed.0 ≡ (close w').0
          → EndsWith close (
              continue_with
                (continue_with closed.1 (λ ret. fail e) closed.0).1
                k
                (continue_with closed.1 (λ ret. fail {W = W} {A = A} e) closed.0).0)
      failing (w1, done n) w' q = (w', q)
      failing (w1, failed c) w' q = (w', q)
      failing (w1, fault) w' q = tt
  or_close_then fault close k w h = tt

module _ {W : Type 0} (sys : System W) where
  transmit_and_close-EndsWith :
      (sess : Session) (tpmdata : TpmBuffer) (w : W)
      → EndsWith (tss_session_close sys sess) (transmit_and_close sys sess tpmdata w)
  unfolding transmit_and_close
  transmit_and_close-EndsWith sess tpmdata w =
      tested (finally (tpm_transmit sys.transport sys.settings tpmdata) close w)
        (close_after-EndsWith _ close _)
    where
      close : Call W ℕ
      close = tss_session_close sys sess

      tested :
          (r : W × Outcome (ℕ × TpmBuffer))
          → EndsWith close r
          → EndsWith close (
              continue_with r.1
                (λ answer. if answer.0 == 0 then return answer.1 else fail answer.0)
                r.0)
      tested (w1, done (n, tb)) (w', q) = elim (Bool-cases (n == 0)) [
        | inl good ↦ rw good (w', q)
        | inr bad ↦ rw bad (w', q)
      ]
      tested (w1, failed e) q = q
      tested (w1, fault) q = tt

  pub send_authorized-EndsWith :
      (sess : Session) (nonceodd : List ℕ) (ordinal : ℕ) (inputs : List Input) (format : String)
      (args : List Arg) (w : W)
      → EndsWith
          (tss_session_close sys sess)
          (send_authorized sys sess nonceodd ordinal inputs format args w)
  unfolding send_authorized send_authorized_from
  send_authorized-EndsWith sess nonceodd ordinal inputs format args w =
      let close = tss_session_close sys sess in
      let build = λ (authdata : List ℕ).
        built_request stack_tpm_buffer (codes format)
          (word (swap32 ordinal) ∷ (args ++ auth_args sess nonceodd authdata)) in
      or_close_then (digest_in sys sess nonceodd inputs) close
        (λ authdata. or_close (lift (build authdata)) close >>>= transmit_and_close sys sess) w
        (λ authdata.
          or_close_then (build authdata) close (transmit_and_close sys sess) w
            (λ tpmdata. transmit_and_close-EndsWith sess tpmdata w))
