-- ===== src/Transmit.antt =====
-- TPM_Send and the lower half of TPM_Transmit in swtpm-utils/lib/tpmutil.c: a request goes to the
-- TPM over a low-level transport, and the response takes its place in the buffer. The transport's
-- functions are parameters, as are the numbers that atoi reads from the environment.
pub mod Laws
use tpm_luks.Common.{
  ℕ, ◌+◌, ◌-◌, ◌*◌, ◌%◌, ◌^◌, ltb, leb, ◌==◌, if◌then◌else◌, ◌||◌, ◌&&◌, not, Bool, true, false,
}
use tpm_luks.Common.{List, ◌++◌, Option, none, some}
use tpm_luks.Common.Memory.{Outcome, done, failed, fault, ◌>>=◌, read_at, write_at}
use tpm_luks.Common.Effects.{Call, ◌>>>=◌, lift, return, fail}
use tpm_luks.Bytes.{be32, load32, load16, u32, err_bad_response_tag, err_bad_resp, return_offset}
use tpm_luks.Buffer.{TpmBuffer, tpm_buffer_load16, tpm_buffer_load32}

-- A `struct tpm_transport`: every function returns its code, and that of `open` the descriptor too.
pub record Transport (W : Type 0) : Type 0 where
  pub open_socket : Call W (ℕ × ℕ)
  pub send : ℕ → TpmBuffer → Call W ℕ
  pub recv : ℕ → TpmBuffer → Call W (ℕ × TpmBuffer)
  pub close : ℕ → Call W ℕ

-- What the static variables and the environment select.
pub record Settings : Type 0 where
  pub chardev : Bool
  pub use_vtpm : Bool
  pub instance_number : Option ℕ
  pub locality : Option ℕ

-- The instance word: TPM_USE_LOCALITY, if it is set, gives bits 31 to 29.
abbrev pub with_locality : ℕ → Option ℕ → ℕ
with_locality inst none = inst
with_locality inst (some locty) = inst % 2 ^ 29 + (if ltb 4 locty then 0 else locty) * 2 ^ 29

abbrev pub instance_word : Option ℕ → Option ℕ → ℕ
instance_word none locality = with_locality 0 locality
instance_word (some inst) locality = with_locality (u32 inst) locality

-- The variable keeps the value that it has when the load is refused.
abbrev pub loaded_or : ℕ → Outcome ℕ → Outcome ℕ
loaded_or v (done x) = done x
loaded_or v (failed e) = done v
loaded_or v fault = fault

-- The variable is used without a value when the load is refused.
abbrev pub loaded : Outcome ℕ → Outcome ℕ
loaded (done x) = done x
loaded (failed e) = fault
loaded fault = fault

-- What -1 is as an unsigned word.
abbrev pub minus_one : ℕ
minus_one = 2 ^ 32 - 1

abbrev pub tag_offset : Settings → ℕ
tag_offset s = if s.use_vtpm then 4 else 0

abbrev pub instance_of : Settings → ℕ
instance_of s = instance_word s.instance_number s.locality

-- The instance word is put in front of the request.
unfoldable pub prepend_instance : Settings → TpmBuffer → Outcome TpmBuffer
prepend_instance s tb =
    let shifted = read_at tb.buffer 0 tb.used >>= λ request.
    write_at tb.buffer 0 (be32 (instance_of s) ++ request) >>= λ m.
    done (record tb { buffer = m; used = tb.used + 4 }) in
    if s.use_vtpm then shifted else done tb

-- The comparison of the tags, in `int`: that of the response is greater by three.
unfoldable pub check_tag : Settings → ℕ → ℕ → TpmBuffer → Outcome ℕ
check_tag s tag_out rc tb =
    let compared = loaded_or 0 (tpm_buffer_load16 tb (tag_offset s)) >>= λ tag_in.
    done (if tag_in == tag_out + 3 then 0 else err_bad_response_tag) in
    if not s.chardev && (rc == 0) then compared else done rc

-- The return code of the response, when the transport succeeded and the length is right.
unfoldable pub judge : ℕ → TpmBuffer → Outcome (ℕ × TpmBuffer)
judge rc tb =
    let result = loaded_or 0 (tpm_buffer_load32 tb return_offset) >>= λ rc. done (rc, tb) in
    let checked = loaded (tpm_buffer_load32 tb 2) >>= λ used.
    (if tb.used == used then result else done (err_bad_resp, tb)) in
    if rc == 0 then checked else done (rc, tb)

-- What TPM_Transmit does behind TPM_Send, but for auditing.
unfoldable pub receive : Settings → ℕ → ℕ → TpmBuffer → Outcome (ℕ × TpmBuffer)
receive s tag_out rc tb =
    let used = u32 (tb.used + (2 ^ 32 - 4)) in
    let stripped = read_at tb.buffer 4 used >>= λ response.
    write_at tb.buffer 0 response >>= λ m. done (record tb { buffer = m; used = used }) in
    check_tag s tag_out rc tb >>= λ rc.
    if s.use_vtpm
    then (load32 tb.buffer 0 >>= λ ret_inst.
        if instance_of s == ret_inst
        then (stripped >>= λ tb. judge rc tb)
        else done (minus_one, tb))
    else judge rc tb

module _ {W : Type 0} (transport : Transport W) where
  -- The socket is closed whatever happened.
  unfoldable pub tpm_send : TpmBuffer → Call W (ℕ × TpmBuffer)
  tpm_send tb = transport.open_socket >>>= λ opened.
      (if opened.0 == 0 then transport.send opened.1 tb else return opened.0) >>>= λ rc.
      (if rc == 0 then transport.recv opened.1 tb else return (rc, tb)) >>>= λ received.
      transport.close opened.1 >>>= λ closed. return received

  unfoldable pub tpm_transmit : Settings → TpmBuffer → Call W (ℕ × TpmBuffer)
  unfolding tpm_send receive judge check_tag prepend_instance read_at write_at be32 load32 load16
      tpm_buffer_load16 tpm_buffer_load32
  tpm_transmit s tb =
      let sent = lift (prepend_instance s tb) >>>= λ tb.
      lift (loaded_or 0 (tpm_buffer_load16 tb (tag_offset s))) >>>= λ tag_out.
      tpm_send tb >>>= λ received. lift (receive s tag_out received.0 received.1) in
      if s.use_vtpm && leb tb.size (u32 (tb.used + 4)) then return (minus_one, tb) else sent
