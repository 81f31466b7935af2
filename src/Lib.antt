-- ===== src/Lib.antt =====
-- Verification of the TPM client library of tpm-luks, the C code under swtpm-utils/lib. The tools
-- of the repository talk to a TPM 1.2 through it: a command is laid out in a buffer, authorized by
-- digests under a session, sent to the TPM, and its response is checked and read.
--
-- The parts, from the bottom up, with the files that model them:
--
-- - Common and its children: Boolean tests, lists, facts on bits, arrays of bytes with bounds
--   (Common/Memory) and calls that change the outside world (Common/Effects).
-- - Bytes: the byte-order macros and the error codes of swtpm-utils/lib/tpm.h.
-- - Buffer: struct tpm_buffer of tpm.h and its accessors in swtpm-utils/lib/tpmutil.c
--   (tpm_buffer_load32 and its kin, tpm_buffer_store, SET_TPM_BUFFER).
-- - Build: TSS_buildbuff of tpmutil.c. `build_char` is its switch, one function stands for each
--   group of cases, `build_loop` and `finish` are the loop and what follows it. Build/Fields is
--   the independent description: a list of fields, its bytes, its format string and its arguments.
-- - Parse: TSS_parsebuff of tpmutil.c in the same way.
-- - Crypt: TPM_AES_ctr128_Encrypt, TPM_XOR, TPM_MGF1, TPM_SHA1 and parseHash of tpmutil.c.
-- - Session: the session record and its accessors, and TPM_CreateEncAuth, of
--   swtpm-utils/lib/oiaposap.c. Session/Open: opening and closing of sessions there (TSS_OIAPopen,
--   TSS_OSAPopen, TSS_DSAPopen, TSS_SessionOpen, TSS_SessionClose, TSS_HANDclose) and
--   TPM_FlushSpecific of eviction.c.
-- - Hmac: swtpm-utils/lib/hmac.c (TSS_rawhmac, TSS_authhmac, TSS_checkhmac1, TSS_checkhmac1New,
--   TSS_checkhmac2). Hmac/Spec is the protocol's description of the digests and of a response.
-- - Transmit: TPM_Send and the branch of TPM_Transmit in tpmutil.c that talks to a low-level
--   transport.
-- - Serialize: swtpm-utils/lib/serialize.c over the structures of tpm_structures.h and tpmkeys.h.
--   A list of members stands for the macros FORMAT_..., PARAMS_..._W and PARAMS_..._R of
--   newserialize.h. Its children are named for the structures: Pcr, Public (NV memory and
--   delegation), Blobs, Areas, Flags, Keys, and Signed (what is signed or hashed).
-- - Command: what the commands have in common: the nonce, the session, the digest, the request in
--   one or in two sessions, the closes on each way out, the check of the response, the copy of a
--   result.
-- - Nv: the commands of swtpm-utils/lib/nv.c. Seal: TPM_Seal and TPM_Unseal of seal.c, TPM_UnBind
--   of bind.c, TPM_Sign of signature.c. Counter: counter.c. Pcrs: TPM_Extend, TPM_PcrRead and
--   TPM_PCRReset of pcrs.c, and rng.c. Delegation: the commands of delegation.c. Chgauth:
--   chgauth.c. Maintenance: context.c and maintenance.c. Owner: owner.c but TPM_TakeOwnership,
--   optin.c, startup.c. Testing: testing.c, dir.c, management.c. Keys: the sizes of keys and the
--   loading of keys in keys.c. Query: commands on capabilities of miscfunc.c, TPM_TickStampBlob of
--   ticks.c, sha.c. All in swtpm-utils/lib.
-- - Keyswap: swtpm-utils/lib/keyswap.c, and the commands that it sends: TPM_SaveContext and
--   TPM_LoadContext of session.c, TPM_EvictKey of keys.c, TPM_GetCapability of miscfunc.c.
-- - Runs: tests, and an instance of every general statement.
--
-- How the code is modelled. The machine is x86-64: little-endian, with 32-bit int and 64-bit
-- unsigned long, except where TPM_MGF1 takes the size of a long as an argument, at which its sums
-- wrap around. A word is its unsigned value, and its wrap-around is written out. A pointer into a
-- buffer is an index; a pointer that may be NULL is an Option. Variable arguments are a list, and
-- taking one that was not passed is undefined. A call ends with a value, with an error code
-- (`failed`), or with `fault`, which stands for undefined behaviour such as an access out of
-- bounds. The memory of a struct tpm_buffer is the list `buffer`, as long as the object behind the
-- pointer. A call that reaches the TPM passes on a state of the world, of any type.
--
-- Loops over a format string and over lists of arguments are structural. The loop of
-- TPM_AES_ctr128_Encrypt has the data's size as fuel, and a round takes a byte at least, so it
-- does not run out. The loop of TPM_MGF1 has the mask's size as fuel: a round adds a byte at
-- least, unless a sum of two longs of four bytes wraps around, which masks of up to 2^32 - 20
-- bytes exclude. The loops over the list of key handles of keyswap.c have its length in bytes as
-- fuel, and a round moves on by four of them, a sum that does not wrap around in a buffer of less
-- than 2^31 bytes.
--
-- What is a parameter: OpenSSL (AES_encrypt under a key, SHA1, HMAC over SHA1, RAND_bytes), malloc
-- (which sizes it grants), the functions of the low-level transport, the environment variables,
-- the file of delegation blobs, the files that keys are swapped to, and the eviction of keys that
-- precedes a session on a key, which Keyswap models by itself, on top of the commands that it
-- sends.
--
-- What is not modelled: auditing, which writes digests of commands to files, and the transport
-- sessions inside TPM_Transmit, the functions of serialize.c that read files or plain arrays, the
-- commands of the files that are not named above, the command-line tools, error messages, and the
-- shell scripts that call the tools.
pub mod Common
pub mod Bytes
pub mod Buffer
pub mod Build
pub mod Parse
pub mod Crypt
pub mod Serialize
pub mod Session
pub mod Hmac
pub mod Transmit
pub mod Command
pub mod Nv
pub mod Delegation
pub mod Maintenance
pub mod Chgauth
pub mod Owner
pub mod Seal
pub mod Testing
pub mod Counter
pub mod Pcrs
pub mod Keyswap
pub mod Keys
pub mod Query
pub mod Runs
