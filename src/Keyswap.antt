-- ===== src/Keyswap.antt =====
-- swtpm-utils/lib/keyswap.c: making room for keys in the TPM by swapping others out to files, with
-- the commands it sends: TPM_SaveContext and TPM_LoadContext of session.c, TPM_EvictKey of keys.c
-- and TPM_GetCapability of miscfunc.c.
pub mod Loop
pub mod Lookup
use tpm_luks.Common.{
  ℕ, zero, suc, ◌+◌, ◌-◌, ◌/◌, ◌%◌, ◌^◌, leb, ltb, ◌==◌, if◌then◌else◌, ◌||◌, ◌&&◌, not,
}
use tpm_luks.Common.{Bool, true, false, String, codes, replicate, drop}
use tpm_luks.Common.{List, [], ◌∷◌, ◌++◌, length, Option, none, some}
use tpm_luks.Common.Memory.{Outcome, done, failed, fault, ◌>>=◌, read_at}
use tpm_luks.Common.Effects.{Call, ◌>>>=◌, lift, return, fail}
use tpm_luks.Bytes.{u32, be32, swap32, is_error, data_offset, err_bad_file}
use tpm_luks.Buffer.{TpmBuffer, stack_tpm_buffer, set_tpm_buffer, tpm_buffer_load32}
use tpm_luks.Build.{word, ptr}
use tpm_luks.Session.Open.{
  System, exchange, request, tpm_flush_specific, is_unset, is_set_to, bad_ordinal,
}

-- The files that the keys are swapped to. `save` is fopen and fwrite, whether fopen succeeded;
-- `read` is TPM_ReadFile, `remove` is unlink.
pub record Files (W : Type 0) : Type 0 where
  pub save : List ℕ → List ℕ → Call W Bool
  pub read : List ℕ → Call W (ℕ × List ℕ)
  pub remove : List ℕ → Call W (Unit {0})

-- The environment variables, with the static `g_num_transports`.
pub record Environment : Type 0 where
  pub instance_name : List ℕ
  pub auditing : Option (List ℕ)
  pub transport : Option (List ℕ)
  pub no_key_swap : Option (List ℕ)
  pub num_transports : ℕ

-- "%X" of a digit, and "%08X".
abbrev pub hex_char : ℕ → ℕ
hex_char d = if ltb d 10 then b'0' + d else b'A' + (d - 10)

abbrev pub hex_digits : ℕ → ℕ → List ℕ
hex_digits zero v = []
hex_digits (suc n) v = hex_digits n (v / 16) ++ (hex_char (v % 16) ∷ [])

-- The buffer has 200 bytes, and the name ends with a zero.
unfoldable pub create_key_filename : List ℕ → ℕ → Outcome (List ℕ)
create_key_filename inst keyhandle =
    let name = codes "/tmp/.key-" ++ (hex_digits 8 keyhandle ++ (codes "-" ++ inst)) in
    if ltb (length name) 200 then done name else fault

abbrev pub rt_key : ℕ
rt_key = 1

abbrev pub owner_control : ℕ
owner_control = 79

-- A call that ended with a code, as that code.
abbrev pub caught : {W : Type 0} → W × Outcome ℕ → W × Outcome ℕ
caught (w, failed e) = (w, done e)
caught (w, o) = (w, o)

abbrev pub code_of : {W : Type 0} → Call W ℕ → Call W ℕ
code_of m w = caught (m w)

module _ {W : Type 0} (sys : System W) where
  unfoldable pub tpm_save_context : ℕ → ℕ → List ℕ → TpmBuffer → Call W TpmBuffer
  tpm_save_context handle resource_type label context =
      request sys "00 c1 T l l l %" (
        word (swap32 0xb8)
        ∷ word (swap32 handle)
        ∷ word (swap32 resource_type)
        ∷ word 16
        ∷ ptr (some label)
        ∷ [])
      >>>= λ tb. lift (
          tpm_buffer_load32 tb data_offset >>= λ len.
          set_tpm_buffer context (drop (data_offset + 4) tb.buffer) len)

  unfoldable pub tpm_load_context : ℕ → ℕ → TpmBuffer → Call W ℕ
  tpm_load_context handle keephandle context =
      request sys "00 c1 T l l o @" (
        word (swap32 0xb9)
        ∷ word (swap32 handle)
        ∷ word keephandle
        ∷ word context.used
        ∷ ptr (some context.buffer)
        ∷ [])
      >>>= λ tb. lift (tpm_buffer_load32 tb data_offset)

  unfoldable pub tpm_evict_key : ℕ → Call W ℕ
  tpm_evict_key keyhandle =
      if is_unset sys.tpm_version || is_set_to "11" sys.tpm_version
      then (exchange sys "00 c1 T 00 00 00 22 L" (word keyhandle ∷ []) >>>= λ answer.
          if answer.0 == bad_ordinal
          then tpm_flush_specific sys keyhandle rt_key
          else return answer.0)
      else tpm_flush_specific sys keyhandle rt_key

  unfoldable pub tpm_get_capability : ℕ → List ℕ → TpmBuffer → Call W TpmBuffer
  tpm_get_capability caparea scap response =
      request sys "00 c1 T l L @"
        (word (swap32 0x65) ∷ word caparea ∷ word (length scap) ∷ ptr (some scap) ∷ [])
      >>>= λ tb. lift (
          tpm_buffer_load32 tb data_offset >>= λ rlen.
          set_tpm_buffer response (drop (data_offset + 4) tb.buffer) rlen)

  module _ (files : Files W) (env : Environment) where
    unfoldable pub swap_out_key : ℕ → Call W ℕ
    swap_out_key handle = code_of (
        lift (create_key_filename env.instance_name handle) >>>= λ filename.
        tpm_save_context handle rt_key (sys.sha1 (codes "KEY")) stack_tpm_buffer >>>= λ context.
        lift (read_at context.buffer 0 context.used) >>>= λ bs. files.save filename bs >>>= λ saved.
        if saved then tpm_evict_key handle else fail err_bad_file)

    unfoldable pub swap_in_key : ℕ → Call W ℕ
    swap_in_key handle = code_of (
        lift (create_key_filename env.instance_name handle) >>>= λ filename.
        files.read filename >>>= λ file.
        if is_error file.0
        then return file.0
        else (lift (set_tpm_buffer stack_tpm_buffer file.1 (length file.1)) >>>= λ context.
            tpm_load_context handle 1 context >>>= λ newhandle.
            files.remove filename >>>= λ removed. return 0))

-- A word that is loaded from the list of handles. Where the load is refused, the variable keeps
-- the value it had.
abbrev pub loaded_handle : Outcome ℕ → ℕ → Outcome ℕ
loaded_handle (done handle) old = done handle
loaded_handle (failed e) old = done old
loaded_handle fault old = fault

abbrev pub must_keep : ℕ → ℕ → ℕ → ℕ → Bool
must_keep key1 key2 key3 handle = handle == key1 || handle == key2 || handle == key3

-- What a pass of the loop does with the code: it ends, or it counts a slot and goes on.
abbrev pub loop_step : {W : Type 0} → ℕ → ℕ → (ℕ → Call W ℕ) → Call W ℕ
loop_step ret neededslots continue =
    if not (ret == 0) && not (ret == owner_control)
    then return ret
    else if ret == 0
    then (let left = u32 (neededslots + (2 ^ 32 - 1)) in
        if left == 0 then return ret else continue left)
    else continue neededslots

module _ {W : Type 0} (swap_out : ℕ → Call W ℕ) (key1 key2 key3 : ℕ)
    (capabilities : TpmBuffer) where
  -- What a pass does with the handle that it loaded; `rest` is what follows it.
  abbrev pub swap_pass : ℕ → ℕ → (ℕ → ℕ → Call W ℕ) → ℕ → Call W ℕ
  swap_pass ret neededslots rest handle =
      (if must_keep key1 key2 key3 handle then return ret else swap_out handle) >>>= λ ret.
      loop_step ret neededslots (rest ret)

  -- The while loop, with what is left in `handle` and `ret`. `ctr` is a word.
  pub swap_loop : ℕ → ℕ → ℕ → ℕ → ℕ → Call W ℕ
  swap_loop zero ctr handle ret neededslots = lift fault
  swap_loop (suc fuel) ctr handle ret neededslots =
      let rest = swap_loop fuel (u32 (ctr + 4)) in
      let pass = lift (loaded_handle (tpm_buffer_load32 capabilities ctr) handle) >>>= λ handle.
      swap_pass ret neededslots (rest handle) handle in
      if ltb ctr capabilities.used then pass else return ret

  -- There are at most `used` passes, unless `ctr` wraps around. `handle` is what the variable has before it is set.
  unfoldable pub swap_out_keys : ℕ → ℕ → Call W ℕ
  unfolding swap_loop
  swap_out_keys handle neededslots = swap_loop (suc capabilities.used) 2 handle 0 neededslots

-- The handles that are always there.
abbrev pub is_fixed : ℕ → Bool
is_fixed h = h == 0 || h == 0x40000000 || h == 0x40000006 || h == 0xffffffff

-- `ctr` is a word.
pub search_loop : ℕ → TpmBuffer → ℕ → ℕ → ℕ → Outcome Bool
search_loop zero capabilities shandle ctr handle = fault
search_loop (suc fuel) capabilities shandle ctr handle =
    let rest = search_loop fuel capabilities shandle (u32 (ctr + 4)) in
    let pass = loaded_handle (tpm_buffer_load32 capabilities ctr) handle >>= λ handle.
    (if handle == shandle then done true else rest handle) in
    if ltb ctr capabilities.used then pass else done false

unfoldable pub is_key_in_tpm : ℕ → TpmBuffer → ℕ → Outcome Bool
unfolding search_loop
is_key_in_tpm handle capabilities shandle =
    if is_fixed shandle
    then done true
    else search_loop (suc capabilities.used) capabilities shandle 2 handle

abbrev pub missing : Bool → ℕ
missing in_tpm = if in_tpm then 0 else 1

-- The slots that are needed. The third test reads the flag of the second key.
abbrev pub needed_slots : ℕ → Bool → Bool → Bool → ℕ
needed_slots room intpm1 intpm2 intpm3 =
    u32 (room + missing intpm1 + missing intpm2 + missing intpm2)

-- `(int)a > (int)b - (int)c`.
abbrev pub exceeds : ℕ → ℕ → Bool
exceeds a b = ltb (u32 (b + 2 ^ 31)) (u32 (a + 2 ^ 31))

abbrev pub swapping_disabled : Environment → Bool
swapping_disabled env =
    is_set_to "1" env.auditing && is_set_to "1" env.transport || is_set_to "1" env.no_key_swap

module _ {W : Type 0} (sys : System W) (files : Files W) (env : Environment) (handle : ℕ) where
  abbrev pub swap_in_missing : Bool → ℕ → ℕ → Call W ℕ
  swap_in_missing in_tpm key ret =
      if ret == 0 && not in_tpm then swap_in_key sys files env key else return ret

  -- Behind the two queries: `tpmkeyroom` keys fit.
  unfoldable pub make_room : ℕ → ℕ → ℕ → ℕ → ℕ → TpmBuffer → Call W ℕ
  unfolding swap_out_keys is_key_in_tpm
  make_room key1 key2 key3 room tpmkeyroom capabilities =
      lift (is_key_in_tpm handle capabilities key1) >>>= λ intpm1.
      lift (is_key_in_tpm handle capabilities key2) >>>= λ intpm2.
      lift (is_key_in_tpm handle capabilities key3) >>>= λ intpm3.
      let neededslots = needed_slots room intpm1 intpm2 intpm3 in
      let keysintpm = u32 (capabilities.used + (2 ^ 32 - 2)) / 4 in
      let free = u32 (tpmkeyroom + (2 ^ 32 - keysintpm)) in
      (if exceeds neededslots free
        then swap_out_keys (swap_out_key sys files env) key1 key2 key3 capabilities handle
            (u32 (neededslots + (2 ^ 32 - free)))
        else return 0)
      >>>= λ ret. swap_in_missing intpm1 key1 ret >>>= λ ret.
          swap_in_missing intpm2 key2 ret >>>= λ ret. swap_in_missing intpm3 key3 ret

  -- The second query, whose failure is returned.
  abbrev pub query_handles : ℕ → ℕ → ℕ → ℕ → ℕ → TpmBuffer → Call W ℕ
  query_handles key1 key2 key3 room tpmkeyroom capabilities =
      tpm_get_capability sys 7 (be32 rt_key) capabilities >>>= λ capabilities.
      make_room key1 key2 key3 room tpmkeyroom capabilities

  -- The first query, whose failure is no failure.
  abbrev pub query_room : ℕ → ℕ → ℕ → ℕ → W × Outcome TpmBuffer → W × Outcome ℕ
  query_room key1 key2 key3 room (w, done capabilities) =
      (lift (tpm_buffer_load32 capabilities 0) >>>= λ tpmkeyroom.
      query_handles key1 key2 key3 room tpmkeyroom capabilities)
        w
  query_room key1 key2 key3 room (w, failed e) = (w, done 0)
  query_room key1 key2 key3 room (w, fault) = (w, fault)

  -- `in_swapping` is the static variable, 0 again whenever the function returns. `handle` is what
  -- the local variables of that name have before they are set.
  unfoldable pub need_keys_room_general : Bool → ℕ → ℕ → ℕ → ℕ → Call W ℕ
  unfolding make_room
  need_keys_room_general in_swapping key1 key2 key3 room w =
      if in_swapping || swapping_disabled env
      then (w, done 0)
      else query_room key1 key2 key3 room (tpm_get_capability sys 5 (be32 0x110) stack_tpm_buffer w)

  unfoldable pub need_keys_room : Bool → ℕ → ℕ → ℕ → ℕ → Call W ℕ
  unfolding need_keys_room_general
  need_keys_room in_swapping key1 key2 key3 room =
      need_keys_room_general in_swapping key1 key2 key3 (u32 (room + env.num_transports + 3))

  unfoldable pub need_keys_room_stacked : Bool → ℕ → Call W ℕ
  unfolding need_keys_room_general
  need_keys_room_stacked in_swapping key1 = need_keys_room_general in_swapping key1 0 0 0
