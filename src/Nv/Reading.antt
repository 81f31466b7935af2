-- ===== src/Nv/Reading.antt =====
-- TPM_NV_ReadValue without the owner's password (swtpm-utils/lib/nv.c): its request, and what it
-- copies out of the response.
use tpm_luks.Common.{
  ℕ, append-nil, ◌*◌, ◌+◌, ◌≤◌, ◌<◌, ◌≡◌, ◌∙◌, refl, ap, ap₂, arith, le→leb, lt→leb, min, codes,
}
use tpm_luks.Common.{
  List, [], ◌∷◌, ◌++◌, length, length-append, length-take, length-drop, take, drop, All, none, some,
}
use tpm_luks.Common.Memory.{done, fault, splice, read_at, write_at}
use tpm_luks.Bytes.{be32, swap32}
use tpm_luks.Bytes.Laws.{le32-swap32, length-be32}
use tpm_luks.Buffer.{TpmBuffer, stack_tpm_buffer, tpm_buffer_load32}
use tpm_luks.Build.{word, tss_buildbuff}
use tpm_luks.Build.Fields.{Field, blank, native_long, encode_all, IsField}
use tpm_luks.Build.Refine.{appended}
use tpm_luks.Session.Open.{System, request, exchange}
use tpm_luks.Transmit.{tpm_transmit}
use tpm_luks.Nv.{copy_value, read_args, ord_nv_read_value, tpm_nv_read_value, read_plain}
use tpm_luks.Nv.Requests.{plain_request}

-- Words in network order behind blanks, as the requests spell them, and their bytes.
spaced : List ℕ → List Field
spaced [] = []
spaced (v ∷ vs) = blank ∷ native_long (swap32 v) ∷ spaced vs

words : List ℕ → List ℕ
words [] = []
words (v ∷ vs) = be32 v ++ words vs

encode_all-spaced : (vs : List ℕ) → encode_all (spaced vs) ≡ words vs
unfolding encode_all spaced words
encode_all-spaced [] = refl
encode_all-spaced (v ∷ vs) = ap₂ (λ a b. a ++ b) (le32-swap32 v) (encode_all-spaced vs)

length-words : (vs : List ℕ) → length (words vs) ≡ 4 * length vs
unfolding words
length-words [] = refl
length-words (v ∷ vs) =
    omega (arith, length-append (be32 v) (words vs), length-be32 v, length-words vs)

spaced-IsField : (vs : List ℕ) → All IsField (spaced vs)
unfolding spaced
spaced-IsField [] = tt
spaced-IsField (v ∷ vs) = (tt, (tt, spaced-IsField vs))

read_request :
    (nv_index offset datasize : ℕ)
    → tss_buildbuff
        (codes "00 c1 T l l l l")
        stack_tpm_buffer
        (word (swap32 ord_nv_read_value) ∷ read_args nv_index offset datasize)
      ≡ done (
        22,
        appended stack_tpm_buffer (
            0x00
            ∷ 0xc1
            ∷ (be32 22
                ++ (be32 ord_nv_read_value ++ (be32 nv_index ++ (be32 offset ++ be32 datasize))))),
      )
unfolding spaced words
read_request nv_index offset datasize =
    let vs = ord_nv_read_value ∷ nv_index ∷ offset ∷ datasize ∷ [] in
    let size : length (words vs) ≡ 16 = length-words vs in
    let run =
      plain_request (spaced vs) (spaced-IsField vs)
        (rw (encode_all-spaced vs, size) (omega arith)) in
    rw (encode_all-spaced vs, size, append-nil (be32 datasize)) at run

copy_value-prefix :
    (tb : TpmBuffer) (len : ℕ) (buffer : List ℕ) (buffersize : ℕ)
    → 14 + min buffersize len ≤ length tb.buffer
    → buffersize ≤ length buffer
    → copy_value tb len buffer buffersize
      ≡ done (min buffersize len, splice buffer 0 (take (min buffersize len) (drop 14 tb.buffer)))
unfolding copy_value read_at write_at
copy_value-prefix tb len buffer buffersize inside room =
    let n = min buffersize len in
    let size : length (take n (drop 14 tb.buffer)) ≡ n =
      omega (arith, length-take n (drop 14 tb.buffer), length-drop 14 tb.buffer) in
    rw (
      le→leb (14 + n) (length tb.buffer) inside,
      size,
      le→leb (0 + n) (length buffer) (omega arith),
    )

copy_value_overreads :
    (tb : TpmBuffer) (len : ℕ) (buffer : List ℕ) (buffersize : ℕ)
    → length tb.buffer < 14 + len
    → len ≤ buffersize
    → copy_value tb len buffer buffersize ≡ fault
unfolding copy_value read_at write_at
copy_value_overreads tb len buffer buffersize behind room =
    rw (lt→leb (14 + min buffersize len) (length tb.buffer) (omega arith))

module _ {W : Type 0} (sys : System W) where
  -- What the read without the owner's password does with a response that counts as a success.
  read_with :
      (nv_index offset datasize buffersize len : ℕ) (buffer : List ℕ) (w w' : W) (tb : TpmBuffer)
      → tpm_transmit sys.transport sys.settings
          (appended stack_tpm_buffer (
            0x00
            ∷ 0xc1
            ∷ (be32 22 ++ (be32 0xcf ++ (be32 nv_index ++ (be32 offset ++ be32 datasize))))))
          w
        ≡ (w', done (0, tb))
      → tpm_buffer_load32 tb 10 ≡ done len
      → tpm_nv_read_value sys nv_index offset datasize (some buffer) buffersize none w
        ≡ (w', copy_value tb len buffer buffersize)
  unfolding tpm_nv_read_value read_plain request exchange
  read_with nv_index offset datasize buffersize len buffer w w' tb sent load =
      rw (read_request nv_index offset datasize, sent, load)

  -- TPM_NV_ReadValue without the owner's password sends the tag 0xc1, the length 22, the ordinal 0xcf
  -- and the index, the offset and the size, all big-endian. When that request is answered with
  -- success, with a length behind the header such that the smaller of it and `*buffersize` lies
  -- inside the memory of the response, and with a destination of `*buffersize` bytes, as many of
  -- the bytes behind the length are copied to the start of the destination, and their number
  -- becomes the size.
  pub read_value-prefix :
      (nv_index offset datasize buffersize len : ℕ) (buffer : List ℕ) (w w' : W) (tb : TpmBuffer)
      → tpm_transmit sys.transport sys.settings
          (appended stack_tpm_buffer (
            0x00
            ∷ 0xc1
            ∷ (be32 22 ++ (be32 0xcf ++ (be32 nv_index ++ (be32 offset ++ be32 datasize))))))
          w
        ≡ (w', done (0, tb))
      → tpm_buffer_load32 tb 10 ≡ done len
      → 14 + min buffersize len ≤ length tb.buffer
      → buffersize ≤ length buffer
      → tpm_nv_read_value sys nv_index offset datasize (some buffer) buffersize none w ≡ (
        w',
        done (min buffersize len, splice buffer 0 (take (min buffersize len) (drop 14 tb.buffer))),
      )
  read_value-prefix nv_index offset datasize buffersize len buffer w w' tb sent load inside room =
      read_with nv_index offset datasize buffersize len buffer w w' tb sent load
      ∙ ap (λ o. (w', o)) (copy_value-prefix tb len buffer buffersize inside room)

  -- TPM_NV_ReadValue without the owner's password does not compare the length in the response with
  -- how much was received: when its request is answered with success, and with a length that
  -- passes the end of the response's memory and is at most `*buffersize`, the copy reads behind
  -- that memory.
  pub read_value_overreads :
      (nv_index offset datasize buffersize len : ℕ) (buffer : List ℕ) (w w' : W) (tb : TpmBuffer)
      → tpm_transmit sys.transport sys.settings
          (appended stack_tpm_buffer (
            0x00
            ∷ 0xc1
            ∷ (be32 22 ++ (be32 0xcf ++ (be32 nv_index ++ (be32 offset ++ be32 datasize))))))
          w
        ≡ (w', done (0, tb))
      → tpm_buffer_load32 tb 10 ≡ done len
      → length tb.buffer < 14 + len
      → len ≤ buffersize
      → tpm_nv_read_value sys nv_index offset datasize (some buffer) buffersize none w ≡ (w', fault)
  read_value_overreads nv_index offset datasize buffersize len buffer w w' tb sent load behind
        room =
      read_with nv_index offset datasize buffersize len buffer w w' tb sent load
      ∙ ap (λ o. (w', o)) (copy_value_overreads tb len buffer buffersize behind room)
