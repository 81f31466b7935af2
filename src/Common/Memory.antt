-- ===== src/Common/Memory.antt =====
-- An array of bytes in memory: reads and writes at an offset, and undefined behaviour as a value.
use Prim.Native.Nat.{ℕ, zero, suc, ◌+◌, ◌≤◌}
use mathlib.Core.Path.{◌≡◌, refl, ap}
use mathlib.Core.List.{List, [], ◌∷◌, ◌++◌}
use native.Mathlib.Omega.{arith}
use tpm_luks.Common.Tests.{leb, if◌then◌else◌}
use tpm_luks.Common.Lists.{length, take, drop}

-- How a call ends: it returns a value, it returns an error code early, or its behaviour is
-- undefined in C (`fault`): an access out of bounds, or an argument that was not passed.
pub data Outcome {ℓ} (A : Type ℓ) : Type ℓ where
  done : A → Outcome A
  failed : ℕ → Outcome A
  fault : Outcome A

infixl 5 ◌>>=◌
abbrev pub ◌>>=◌ {ℓ κ} : {A : Type ℓ} {B : Type κ} → Outcome A → (A → Outcome B) → Outcome B
done a >>= f = f a
failed e >>= f = failed e
fault >>= f = fault

-- The bytes `bs` laid over the array from index `o` on; what would fall past its end is lost.
unfoldable pub splice : List ℕ → ℕ → List ℕ → List ℕ
splice m zero [] = m
splice [] zero (b ∷ bs) = []
splice (x ∷ m) zero (b ∷ bs) = b ∷ splice m zero bs
splice [] (suc o) bs = []
splice (x ∷ m) (suc o) bs = x ∷ splice m o bs

unfoldable pub write_at : List ℕ → ℕ → List ℕ → Outcome (List ℕ)
unfolding splice
write_at m o bs = if leb (o + length bs) (length m) then done (splice m o bs) else fault

unfoldable pub read_at : List ℕ → ℕ → ℕ → Outcome (List ℕ)
read_at m o n = if leb (o + n) (length m) then done (take n (drop o m)) else fault

pub length-splice : (m : List ℕ) (o : ℕ) (bs : List ℕ) → length (splice m o bs) ≡ length m
unfolding splice
length-splice m zero [] = refl
length-splice [] zero (b ∷ bs) = refl
length-splice (x ∷ m) zero (b ∷ bs) = ap suc (length-splice m zero bs)
length-splice [] (suc o) bs = refl
length-splice (x ∷ m) (suc o) bs = ap suc (length-splice m o bs)

pub splice-nil : (m : List ℕ) (o : ℕ) → splice m o [] ≡ m
unfolding splice
splice-nil m zero = refl
splice-nil [] (suc o) = refl
splice-nil (x ∷ m) (suc o) = ap (λ t. x ∷ t) (splice-nil m o)

-- Two writes one behind the other are one write.
pub splice-append :
    (m : List ℕ) (o : ℕ) (xs ys : List ℕ)
    → splice (splice m o xs) (o + length xs) ys ≡ splice m o (xs ++ ys)
unfolding splice
splice-append m zero [] ys = refl
splice-append [] zero (x ∷ xs) [] =
    let e : 0 + suc (length xs) ≡ suc (length xs) = omega arith in rw e
splice-append [] zero (x ∷ xs) (y ∷ ys) =
    let e : 0 + suc (length xs) ≡ suc (length xs) = omega arith in rw e
splice-append (z ∷ m) zero (x ∷ xs) ys =
    let e : 0 + suc (length xs) ≡ suc (0 + length xs) = omega arith in
    rw e (ap (λ t. x ∷ t) (splice-append m zero xs ys))
splice-append [] (suc o) xs ys =
    let e : suc o + length xs ≡ suc (o + length xs) = omega arith in rw e
splice-append (z ∷ m) (suc o) xs ys =
    let e : suc o + length xs ≡ suc (o + length xs) = omega arith in
    rw e (ap (λ t. z ∷ t) (splice-append m o xs ys))

-- The same, the second part written first.
pub splice-append_late :
    (m : List ℕ) (o : ℕ) (xs ys : List ℕ)
    → splice (splice m (o + length xs) ys) o xs ≡ splice m o (xs ++ ys)
unfolding splice
splice-append_late m zero [] ys = refl
splice-append_late [] zero (x ∷ xs) ys =
    let e : 0 + suc (length xs) ≡ suc (length xs) = omega arith in rw e
splice-append_late (z ∷ m) zero (x ∷ xs) ys =
    let e : 0 + suc (length xs) ≡ suc (0 + length xs) = omega arith in
    rw e (ap (λ t. x ∷ t) (splice-append_late m zero xs ys))
splice-append_late [] (suc o) xs ys =
    let e : suc o + length xs ≡ suc (o + length xs) = omega arith in rw e
splice-append_late (z ∷ m) (suc o) xs ys =
    let e : suc o + length xs ≡ suc (o + length xs) = omega arith in
    rw e (ap (λ t. z ∷ t) (splice-append_late m o xs ys))

-- What was written is read back, and what stands in front stays.
pub drop-splice :
    (m : List ℕ) (o : ℕ) (bs : List ℕ)
    → o + length bs ≤ length m
    → drop o (splice m o bs) ≡ bs ++ drop (o + length bs) m
unfolding splice
drop-splice m zero [] h = refl
drop-splice [] zero (b ∷ bs) h = absurd (omega arith)
drop-splice (x ∷ m) zero (b ∷ bs) h =
    let e : 0 + suc (length bs) ≡ suc (0 + length bs) = omega arith in
    rw e (ap (λ t. b ∷ t) (drop-splice m zero bs (omega arith)))
drop-splice [] (suc o) bs h = absurd (omega arith)
drop-splice (x ∷ m) (suc o) bs h =
    let e : suc o + length bs ≡ suc (o + length bs) = omega arith in
    rw e (drop-splice m o bs (omega arith))

pub take-splice : (m : List ℕ) (o : ℕ) (bs : List ℕ) → take o (splice m o bs) ≡ take o m
unfolding splice
take-splice m zero bs = refl
take-splice [] (suc o) bs = refl
take-splice (x ∷ m) (suc o) bs = ap (λ t. x ∷ t) (take-splice m o bs)
