-- ===== src/Keyswap/Loop.antt =====
-- The loop of swapOutKeys (swtpm-utils/lib/keyswap.c): what it leaves alone, and that it ends.
use tpm_luks.Common.{
  ℕ, zero, suc, ◌+◌, ◌-◌, ◌*◌, ◌^◌, ◌≤◌, ◌<◌, ◌≡◌, ◌≢◌, refl, arith, Bool, true, false,
}
use tpm_luks.Common.{
  leb, leb→lt, le→leb, length, take, drop, Bool-cases, inl, inr, ◌==◌, ==_iff, ltb, ltb→lt, lt→ltb,
  if◌then◌else◌, ◌&&◌, not,
}
use tpm_luks.Common.Memory.{Outcome, done, failed, fault, read_at}
use tpm_luks.Common.Effects.{Call, continue_with, return}
use tpm_luks.Bytes.{u32, load32, word_of}
use tpm_luks.Buffer.{TpmBuffer, IsBuffer, tpm_buffer_load32}
use tpm_luks.Keyswap.{
  must_keep, loaded_handle, loop_step, swap_pass, swap_loop, swap_out_keys, owner_control,
}

not_to_keep :
    (key1 key2 key3 h : ℕ)
    → must_keep key1 key2 key3 h ≡ false
    → (h ≢ key1) × (h ≢ key2) × (h ≢ key3)
not_to_keep key1 key2 key3 h e = (
  λ same. absurd (grind (arith, e, (==_iff h key1).1 same)),
  λ same. absurd (grind (arith, e, (==_iff h key2).1 same)),
  λ same. absurd (grind (arith, e, (==_iff h key3).1 same)),
)

-- A property of both branches.
both : {A : Type 0} (Q : A → Type 0) (test : Bool) (x y : A) → Q x → Q y → Q (if test then x else y)
both Q true x y p q = p
both Q false x y p q = q

module _ {W : Type 0} (swap_out : ℕ → Call W ℕ) (key1 key2 key3 : ℕ)
    (capabilities : TpmBuffer) where
  module _ (P : W → Type 0)
      (keeps : (h : ℕ) (w : W) → h ≢ key1 → h ≢ key2 → h ≢ key3 → P w → P (swap_out h w).0) where
    step_keeps :
        (o : Outcome ℕ) (n : ℕ) (rest : ℕ → ℕ → Call W ℕ) (w : W)
        → ((ret left : ℕ) (w : W) → P w → P (rest ret left w).0)
        → P w
        → P (continue_with o (λ ret. loop_step ret n (rest ret)) w).0
    step_keeps (done ret) n rest w later p =
        let left = u32 (n + (2 ^ 32 - 1)) in
        let Q : Call W ℕ → Type 0 = λ m. P (m w).0 in
        both Q (not (ret == 0) && not (ret == owner_control)) (return ret) _ p (
          both Q (ret == 0) _ (rest ret n)
            (both Q (left == 0) (return ret) (rest ret left) p (later ret left w p))
            (later ret n w p))
    step_keeps (failed e) n rest w later p = p
    step_keeps fault n rest w later p = p

    pass_keeps :
        (ret n : ℕ) (rest : ℕ → ℕ → ℕ → Call W ℕ) (w : W) (loaded : Outcome ℕ)
        → ((h ret left : ℕ) (w : W) → P w → P (rest h ret left w).0)
        → P w
        → P
            (continue_with loaded
              (λ h. swap_pass swap_out key1 key2 key3 capabilities ret n (rest h) h)
              w).0
    pass_keeps ret n rest w (failed e) later p = p
    pass_keeps ret n rest w fault later p = p
    pass_keeps ret n rest w (done h) later p = elim (Bool-cases (must_keep key1 key2 key3 h)) [
      | inl protected ↦ rw protected (step_keeps (done ret) n (rest h) w (later h) p)
      | inr free ↦
          let (a, b, c) = not_to_keep key1 key2 key3 h free in
          rw free
            (step_keeps (swap_out h w).1 n (rest h) (swap_out h w).0 (later h) (keeps h w a b c p))
    ]

    loop_keeps :
        (fuel ctr handle ret n : ℕ) (w : W)
        → P w
        → P (swap_loop swap_out key1 key2 key3 capabilities fuel ctr handle ret n w).0
    unfolding swap_loop
    loop_keeps zero ctr handle ret n w p = p
    loop_keeps (suc fuel) ctr handle ret n w p =
        let rest = swap_loop swap_out key1 key2 key3 capabilities fuel (u32 (ctr + 4)) in
        elim (Bool-cases (ltb ctr capabilities.used)) [
          | inr over ↦ rw over p
          | inl inside ↦ rw inside (
              pass_keeps ret n rest w (loaded_handle (tpm_buffer_load32 capabilities ctr) handle)
                (loop_keeps fuel (u32 (ctr + 4))) p)
        ]

-- swapOutKeys never swaps out one of the three keys it is to keep: whatever the list of handles
-- holds and whatever the calls return, a property of the world that is preserved when any key but
-- these three is swapped out still holds when the loop ends.
pub swap_out_keys-keeps :
    {W : Type 0} (swap_out : ℕ → Call W ℕ) (key1 key2 key3 : ℕ) (capabilities : TpmBuffer)
    (P : W → Type 0)
    → ((h : ℕ) (w : W) → h ≢ key1 → h ≢ key2 → h ≢ key3 → P w → P (swap_out h w).0)
    → (handle neededslots : ℕ) (w : W) → P w
    → P (swap_out_keys swap_out key1 key2 key3 capabilities handle neededslots w).0
unfolding swap_out_keys
swap_out_keys-keeps swap_out key1 key2 key3 capabilities P keeps handle neededslots w p =
    loop_keeps swap_out key1 key2 key3 capabilities P keeps (suc capabilities.used) 2 handle 0
      neededslots w p

-- A call returned a code.
abbrev pub Returns : {W : Type 0} → W × Outcome ℕ → Type 0
Returns {W} r = (w : W) × (code : ℕ) × (r ≡ (w, done code))

module _ {W : Type 0} (swap_out : ℕ → Call W ℕ) (key1 key2 key3 : ℕ) (capabilities : TpmBuffer)
    (returns : (h : ℕ) (w : W) → Returns (swap_out h w)) where
  loop_step-Returns :
      (ret n : ℕ) (rest : ℕ → ℕ → Call W ℕ) (w : W)
      → ((ret left : ℕ) (w : W) → Returns (rest ret left w))
      → Returns (loop_step ret n (rest ret) w)
  loop_step-Returns ret n rest w later =
      let left = u32 (n + (2 ^ 32 - 1)) in
      let Q : Call W ℕ → Type 0 = λ m. Returns (m w) in
      let ends : Q (return ret) = (w, ret, refl) in
      both Q (not (ret == 0) && not (ret == owner_control)) (return ret) _ ends (
        both Q (ret == 0) _ (rest ret n)
          (both Q (left == 0) (return ret) (rest ret left) ends (later ret left w)) (later ret n w))

  -- A word inside the list is loaded, or the load is refused; nothing is read out of bounds.
  handle_loads :
      IsBuffer capabilities
      → (ctr old : ℕ) → ctr < capabilities.used
      → (h : ℕ) × (loaded_handle (tpm_buffer_load32 capabilities ctr) old ≡ done h)
  unfolding tpm_buffer_load32 load32 read_at
  handle_loads b ctr old inside =
      let u : u32 (ctr + 3) ≡ ctr + 3 = omega (arith, b.fits, b.small) in
      elim (Bool-cases (leb capabilities.used (ctr + 3))) [
        | inl refused ↦ (old, rw (u, refused))
        | inr loads ↦
            let room = leb→lt capabilities.used (ctr + 3) loads in
            (
              word_of 0 (take 4 (drop ctr capabilities.buffer)),
              rw (
                u,
                loads,
                le→leb (ctr + 4) (length capabilities.buffer) (omega (arith, b.fits, b.allocated)),
              ),
            )
      ]

  swap_loop-Returns :
      IsBuffer capabilities
      → (fuel ctr handle ret n : ℕ) (w : W) → capabilities.used ≤ ctr + 4 * fuel
      → Returns (swap_loop swap_out key1 key2 key3 capabilities (suc fuel) ctr handle ret n w)
  unfolding swap_loop
  swap_loop-Returns b zero ctr handle ret n w enough =
      elim (Bool-cases (ltb ctr capabilities.used)) [
        | inr over ↦ rw over (w, ret, refl)
        | inl inside ↦ absurd (omega (arith, ltb→lt ctr capabilities.used inside))
      ]
  swap_loop-Returns b (suc fuel) ctr handle ret n w enough =
      let rest = swap_loop swap_out key1 key2 key3 capabilities (suc fuel) (u32 (ctr + 4)) in
      elim (Bool-cases (ltb ctr capabilities.used)) [
        | inr over ↦ rw over (w, ret, refl)
        | inl inside ↦
            let lt = ltb→lt ctr capabilities.used inside in
            let u : u32 (ctr + 4) ≡ ctr + 4 = omega (arith, b.fits, b.small) in
            let (h, load) = handle_loads b ctr handle lt in
            let later : (ret left : ℕ) (w : W) → Returns (rest h ret left w) =
              λ ret left w. swap_loop-Returns b fuel (u32 (ctr + 4)) h ret left w (omega arith) in
            rw (inside, load)
              (elim (Bool-cases (must_keep key1 key2 key3 h)) [
                | inl protected ↦ rw protected (loop_step-Returns ret n (rest h) w later)
                | inr free ↦
                    let (w', code, e) = returns h w in
                    rw (free, e) (loop_step-Returns code n (rest h) w' later)
              ])
      ]

-- swapOutKeys ends: when every attempt to swap a key out returns a code, so does the loop, for
-- every list of handles in a well-formed buffer and every number of slots. No load reads out of
-- bounds, and the offset of the loop does not wrap around.
pub swap_out_keys-Returns :
    {W : Type 0} (swap_out : ℕ → Call W ℕ) (key1 key2 key3 : ℕ) (capabilities : TpmBuffer)
    → IsBuffer capabilities
    → ((h : ℕ) (w : W) → Returns (swap_out h w))
    → (handle neededslots : ℕ) (w : W)
    → Returns (swap_out_keys swap_out key1 key2 key3 capabilities handle neededslots w)
unfolding swap_out_keys
swap_out_keys-Returns swap_out key1 key2 key3 capabilities b returns handle neededslots w =
    swap_loop-Returns swap_out key1 key2 key3 capabilities returns b capabilities.used 2 handle 0
      neededslots w (omega arith)

-- swapOutKeys counts a key that it keeps as a slot that it freed: when the first handle of the
-- list is one of the three keys to keep and one slot is needed, it returns 0 and has done nothing.
pub swap_out_keys_counts_kept :
    {W : Type 0} (swap_out : ℕ → Call W ℕ) (key1 key2 key3 : ℕ) (capabilities : TpmBuffer)
    (handle h : ℕ) (w : W)
    → 2 < capabilities.used
    → tpm_buffer_load32 capabilities 2 ≡ done h
    → must_keep key1 key2 key3 h ≡ true
    → swap_out_keys swap_out key1 key2 key3 capabilities handle 1 w ≡ (w, done 0)
unfolding swap_out_keys swap_loop
swap_out_keys_counts_kept swap_out key1 key2 key3 capabilities handle h w some_handle first same =
    rw (lt→ltb 2 capabilities.used some_handle, first, same)
