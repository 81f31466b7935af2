-- ===== src/Serialize/Tags.antt =====
-- Where TPM_ReadPermanentFlags of swtpm-utils/lib/serialize.c succeeds.
use tpm_luks.Common.{ℕ, ◌≡◌, refl, ap, sym, ◌∙◌, arith, Bool, true, false, if◌then◌else◌, ◌==◌, ◌⊎◌}
use tpm_luks.Common.{Bool-cases, inl, inr, ==_iff}
use tpm_luks.Common.Memory.{Outcome, done, failed, ◌>>=◌}
use tpm_luks.Bytes.{is_error}
use tpm_luks.Buffer.{TpmBuffer}
use tpm_luks.Serialize.{expect_tag}
use tpm_luks.Serialize.Flags.{
  PermanentFlags, tpm_read_permanent_flags, tag_permanent_flags, tag_persistent_flags,
}

abbrev is_done : {A : Type 0} → Outcome A → Bool
is_done (done x) = true
is_done _ = false

abbrev value_of : {A : Type 0} → A → Outcome A → A
value_of x (done y) = y
value_of x _ = x

module _ {A : Type 0} (tag : ℕ) (get : A → ℕ) where
  -- What passes the check of the tag is no error and has the tag.
  tag_accepted :
      (n : ℕ) (x : A)
      → is_error (expect_tag tag get (n, x)).0 ≡ false
      → (is_error n ≡ false) × (get (expect_tag tag get (n, x)).1 ≡ tag)
  tag_accepted n x h = elim (Bool-cases (is_error n)) [
    | inl bad ↦ absurd (grind (arith, bad, rw bad at h))
    | inr good ↦ elim (Bool-cases (get x == tag)) [
      | inl same ↦ (good, rw (good, same) ((==_iff (get x) tag).0 same))
      | inr other ↦ absurd (grind (arith, rw (good, other) at h))
    ]
  ]

  tag_after :
      (o : Outcome (ℕ × A)) (n : ℕ) (x : A)
      → (o >>= λ r. done (expect_tag tag get r)) ≡ done (n, x)
      → is_error n ≡ false
      → (m : ℕ) × (y : A) × (o ≡ done (m, y)) × (is_error m ≡ false) × (get x ≡ tag)
  tag_after (done (m, y)) n x e h =
      let same : expect_tag tag get (m, y) ≡ (n, x) = ap (value_of (n, x)) e in
      let code = ap (λ r. r.0) same in
      let kept = tag_accepted m y (ap is_error code ∙ h) in
      (m, y, refl, kept.0, sym (ap (λ r. get r.1) same) ∙ kept.1)
  tag_after (failed c) n x e h = absurd (grind (arith, ap is_done e))
  tag_after Outcome.fault n x e h = absurd (grind (arith, ap is_done e))

-- The lengths of a response with permanent flags.
abbrev pub IsRevision : ℕ → Type 0
IsRevision used = (used ≡ 17) ⊎ ((used ≡ 20) ⊎ ((used ≡ 21) ⊎ (used ≡ 22)))

-- TPM_ReadPermanentFlags succeeds only for the four revisions of the structure, and only with
-- their tag: when it returns a number that is no error code, the length it was told is 17, 20, 21
-- or 22, and the structure it filled has the tag TPM_TAG_PERSISTENT_FLAGS for 20 and
-- TPM_TAG_PERMANENT_FLAGS for the others.
pub read_permanent_flags_accepts :
    (allocates : ℕ → Bool) (tb : TpmBuffer) (offset used : ℕ) (pf : PermanentFlags) (n : ℕ)
    (x : PermanentFlags)
    → tpm_read_permanent_flags allocates tb offset pf used ≡ done (n, x)
    → is_error n ≡ false
    → IsRevision used × (x.tag ≡ (if used == 20 then tag_persistent_flags else tag_permanent_flags))
unfolding tpm_read_permanent_flags
read_permanent_flags_accepts allocates tb offset used pf n x e h =
    let tag = if used == 20 then tag_persistent_flags else tag_permanent_flags in
    let (m, y, ran, good, right) = tag_after tag (λ z. z.tag) _ n x e h in
    elim (Bool-cases (used == 17)) [
      | inl a ↦ (inl ((==_iff used 17).0 a), right)
      | inr a ↦ elim (Bool-cases (used == 20)) [
        | inl b ↦ (inr (inl ((==_iff used 20).0 b)), right)
        | inr b ↦ elim (Bool-cases (used == 21)) [
          | inl c ↦ (inr (inr (inl ((==_iff used 21).0 c))), right)
          | inr c ↦ elim (Bool-cases (used == 22)) [
            | inl d ↦ (inr (inr (inr ((==_iff used 22).0 d))), right)
            | inr d ↦
                let code =
                  ap (λ o. (value_of {A = ℕ × PermanentFlags} (m, y) o).0)
                    (rw (a, b, c, d) at ran) in
                absurd (grind (arith, ap is_error code, good))
          ]
        ]
      ]
    ]
