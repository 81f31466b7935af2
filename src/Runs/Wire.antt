-- ===== src/Runs/Wire.antt =====
-- Instances for the requests of nv.c and the responses that TPM_Transmit accepts, with a system
-- of which every function answers with a constant.
use tpm_luks.Common.{
  ℕ, ◌+◌, ◌-◌, ◌≡◌, refl, arith, replicate, List, [], ◌∷◌, ◌++◌, some, none, take, drop,
}
use tpm_luks.Common.Memory.{read_at, done, fault, splice}
use tpm_luks.Common.Effects.{return}
use tpm_luks.Bytes.{be32, load32, err_bad_resp}
use tpm_luks.Buffer.{TpmBuffer, stack_tpm_buffer, tpm_buffer_load32}
use tpm_luks.Build.{tss_buildbuff}
use tpm_luks.Build.Refine.{appended}
use tpm_luks.Session.{Session, session_osap, session_oiap}
use tpm_luks.Hmac.{tss_rawhmac}
use tpm_luks.Session.Open.{
  System, tss_session_open, session_choice, open_other, tss_osap_open, tss_oiap_open,
  tss_session_close, request, exchange, share_secret, et_owner, et_nv,
}
use tpm_luks.Transmit.{Transport, receive, tpm_transmit}
use tpm_luks.Transmit.Laws.{
  IsDevice, receive-result, receive_refuses_length, receive_short_succeeds,
}
use tpm_luks.Nv.{
  tpm_nv_read_value, tpm_nv_write_value, tpm_nv_read_value_auth, tpm_nv_write_value_auth,
}
use tpm_luks.Command.{no_session, fresh_nonce}
use tpm_luks.Command.Closing.{EndsWith}
use tpm_luks.Nv.Closing.{nv_auth-EndsWith}
use tpm_luks.Nv.Reading.{read_value-prefix, read_value_overreads}
use tpm_luks.Nv.Writing.{write_value-request}
use tpm_luks.Runs.Crypto.{toy_sha1, toy_aes}
use tpm_luks.Runs.Auth.{toy_hmac, device}

device-IsDevice : IsDevice device
device-IsDevice = record { device = refl; plain = refl }

abbrev response : ℕ → ℕ → TpmBuffer
response size used = record {
  size = 64;
  used = used;
  flags = 1;
  buffer = 0 ∷ 0xc4 ∷ 0 ∷ 0 ∷ 0 ∷ size ∷ 0 ∷ 0 ∷ 0 ∷ 3 ∷ replicate 54 0;
}

receive-result_example : receive device 0xc1 0 (response 10 10) ≡ done (3, response 10 10)
unfolding load32 read_at
receive-result_example =
    receive-result device 0xc1 3 (response 10 10) device-IsDevice (omega arith) (omega arith) refl
      refl

receive_refuses_length_example :
    receive device 0xc1 0 (response 12 10) ≡ done (err_bad_resp, response 12 10)
unfolding load32 read_at
receive_refuses_length_example =
    receive_refuses_length device 0xc1 12 (response 12 10) device-IsDevice (omega arith)
      (omega arith) refl (λ e. absurd (omega (arith, e)))

receive_short_succeeds_example : receive device 0xc1 0 (response 8 8) ≡ done (0, response 8 8)
unfolding load32 read_at
receive_short_succeeds_example =
    receive_short_succeeds device 0xc1 (response 8 8) device-IsDevice (omega arith) (omega arith)
      refl

-- The TPM answers every request with a session handle and two nonces; the second nonce that is
-- asked for fails.
abbrev pub opened : TpmBuffer
opened = record {
  size = 64;
  used = 54;
  flags = 1;
  buffer = 0 ∷ 0xc4 ∷ 0 ∷ 0 ∷ 0 ∷ 54 ∷ 0 ∷ 0 ∷ 0 ∷ 0 ∷ 0 ∷ 0 ∷ 0 ∷ 9 ∷ replicate 50 6;
}

abbrev pub constant_transport : Transport ℕ
constant_transport = record {
  open_socket = return (0, 3);
  send = λ fd tb. return 0;
  recv = λ fd tb. return (0, opened);
  close = λ fd. return 0;
}

abbrev pub system : System ℕ
system = record {
  transport = constant_transport;
  settings = device;
  random = λ w. (w + 1, done (1 - w, replicate 20 7));
  sha1 = toy_sha1;
  hmac = toy_hmac;
  aes = toy_aes;
  delegation = λ kind keyhandle pass. return (1, []);
  keys_room = λ handle. return 0;
  tpm_version = none;
  tpm_session = none;
  encrypt_aes = none;
}

abbrev pub owner : List ℕ
owner = replicate 20 1

abbrev secret : List ℕ
secret = toy_hmac owner (replicate 20 6 ++ replicate 20 7)

abbrev pub owner_session : Session
owner_session = record {
  sess_type = 2;
  handle = 9;
  enonce = replicate 20 6;
  enonce_sap = replicate 20 6;
  ononce_sap = replicate 20 7;
  ssecret = secret;
  etype = 2;
  authdata = owner;
}

owner_session_opens :
    tss_session_open system session_osap no_session (some owner) et_owner 0 0
    ≡ (1, done owner_session)
unfolding tss_session_open read_at session_choice open_other tss_osap_open request exchange
    tss_buildbuff stack_tpm_buffer tpm_transmit share_secret tss_rawhmac
owner_session_opens = refl

abbrev pub area_session : Session
area_session = record no_session {
  sess_type = session_oiap;
  handle = 9;
  enonce = replicate 20 6;
  authdata = owner;
}

first_nonce : fresh_nonce system 0 ≡ (1, done (replicate 20 7))
unfolding fresh_nonce
first_nonce = refl

area_session_opens :
    tss_session_open system (session_osap + session_oiap) no_session (some owner) et_nv 1 1
    ≡ (1, done area_session)
unfolding tss_session_open read_at session_choice open_other tss_oiap_open request exchange
    tss_buildbuff stack_tpm_buffer tpm_transmit
area_session_opens = refl

nv_auth-EndsWith_example :
    EndsWith
      (tss_session_close system area_session)
      (tpm_nv_read_value_auth system 1 0 4 (some (replicate 8 0)) 8 (some owner) 0)
    × EndsWith
        (tss_session_close system area_session)
        (tpm_nv_write_value_auth system 1 0 (replicate 8 0) 8 (some owner) 0)
nv_auth-EndsWith_example =
    nv_auth-EndsWith system 1 0 8 (replicate 8 0) owner (replicate 20 7) area_session 0 1 1
      first_nonce area_session_opens 4

-- The request of a read of 32 bytes at 0 in the index 0x01000000, and that of a write.
abbrev read_sent : TpmBuffer
read_sent =
    appended stack_tpm_buffer
      (0x00 ∷ 0xc1 ∷ (be32 22 ++ (be32 0xcf ++ (be32 0x01000000 ++ (be32 0 ++ be32 32)))))

abbrev write_sent : TpmBuffer
write_sent = appended stack_tpm_buffer (
    0x00
    ∷ 0xc1
    ∷ (be32 25 ++ (be32 0xcd ++ (be32 0x01000000 ++ (be32 0 ++ (be32 3 ++ (7 ∷ 8 ∷ 9 ∷ [])))))))

-- A TPM whose responses give a length of 4096 bytes.
abbrev overlong : TpmBuffer
overlong = record opened {
  buffer = 0 ∷ 0xc4 ∷ 0 ∷ 0 ∷ 0 ∷ 54 ∷ 0 ∷ 0 ∷ 0 ∷ 0 ∷ 0 ∷ 0 ∷ 16 ∷ 0 ∷ replicate 50 6;
}

abbrev overlong_system : System ℕ
overlong_system = record system {
  transport = record constant_transport { recv = λ fd tb. return (0, overlong) };
}

read_answered : tpm_transmit constant_transport device read_sent 0 ≡ (0, done (0, opened))
unfolding tpm_transmit stack_tpm_buffer splice be32
read_answered = refl

write_answered : tpm_transmit constant_transport device write_sent 0 ≡ (0, done (0, opened))
unfolding tpm_transmit stack_tpm_buffer splice be32
write_answered = refl

overlong_answered :
    tpm_transmit overlong_system.transport device read_sent 0 ≡ (0, done (0, overlong))
unfolding tpm_transmit stack_tpm_buffer splice be32
overlong_answered = refl

opened_length : tpm_buffer_load32 opened 10 ≡ done 9
unfolding tpm_buffer_load32 load32 read_at
opened_length = refl

overlong_length : tpm_buffer_load32 overlong 10 ≡ done 0x1000
unfolding tpm_buffer_load32 load32 read_at
overlong_length = refl

read_value-prefix_example :
    tpm_nv_read_value system 0x01000000 0 32 (some (replicate 16 1)) 8 none 0
    ≡ (0, done (8, splice (replicate 16 1) 0 (take 8 (drop 14 opened.buffer))))
read_value-prefix_example =
    read_value-prefix system 0x01000000 0 32 8 9 (replicate 16 1) 0 0 opened read_answered
      opened_length (omega arith) (omega arith)

read_value_overreads_example :
    tpm_nv_read_value overlong_system 0x01000000 0 32 (some (replicate 16 1)) 0x2000 none 0
    ≡ (0, fault)
read_value_overreads_example =
    read_value_overreads overlong_system 0x01000000 0 32 0x2000 0x1000 (replicate 16 1) 0 0 overlong
      overlong_answered overlong_length (omega arith) (omega arith)

write_value-request_example :
    tpm_nv_write_value system 0x01000000 0 (7 ∷ 8 ∷ 9 ∷ []) 3 none 0 ≡ (0, done 0)
write_value-request_example =
    write_value-request system 0x01000000 0 0 (7 ∷ 8 ∷ 9 ∷ []) 0 0 opened (omega arith)
      write_answered
