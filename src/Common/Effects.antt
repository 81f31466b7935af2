-- ===== src/Common/Effects.antt =====
-- Calls that use the outside world: its state is passed on whether the call succeeds or not.
use Prim.Native.Nat.{ℕ}
use tpm_luks.Common.Memory.{Outcome, done, failed, fault}

-- A call in a world of states `W`.
abbrev pub Call : Type 0 → Type 0 → Type 0
Call W A = W → W × Outcome A

abbrev pub continue_with : {W A B : Type 0} → Outcome A → (A → Call W B) → Call W B
continue_with (done a) f w = f a w
continue_with (failed e) f w = (w, failed e)
continue_with fault f w = (w, fault)

infixl 5 ◌>>>=◌
abbrev pub ◌>>>=◌ : {W A B : Type 0} → Call W A → (A → Call W B) → Call W B
(m >>>= f) w = continue_with (m w).1 f (m w).0

-- A computation that does not touch the world.
abbrev pub lift : {W A : Type 0} → Outcome A → Call W A
lift o w = (w, o)

abbrev pub return : {W A : Type 0} → A → Call W A
return a w = (w, done a)

abbrev pub fail : {W A : Type 0} → ℕ → Call W A
fail code w = (w, failed code)
