-- ===== src/Build/Steps.antt =====
-- One field of a format, run by the loop: with room for it the loop writes its bytes and goes on.
use tpm_luks.Common.{ℕ, suc, ◌+◌, ◌^◌, ◌≤◌, ◌<◌, ◌≡◌, refl, arith, ltb}
use tpm_luks.Common.{
  List, [], ◌∷◌, ◌++◌, length, Option, some, Bool, true, false, take-append, length-append,
  append-nil,
}
use tpm_luks.Common.{lt→leb, le→leb, ◌&&◌}
use tpm_luks.Common.Memory.{splice, splice-append, splice-nil, length-splice}
use tpm_luks.Bytes.{u16, u32, u64, be32, be16}
use tpm_luks.Bytes.Laws.{length-be32, length-be16, sign_extend-small}
use tpm_luks.Build.{Arg, word, ptr, Builder, next, ◌>>>=◌, put, copy, skip, count}
use tpm_luks.Build.{
  store_word, store_sized, store_sized_short, store_raw, store_bounded_short, store_bounded,
}

-- The loop between two fields: the pointer stands at the end of what is written.
abbrev pub between : List ℕ → ℕ → ℕ → Option ℕ → ℕ → List Arg → Builder
between m size t pos byte args = record {
  mem = m;
  size = size;
  o = t;
  totlen = t;
  totpos = pos;
  byte = byte;
  hexflag = false;
  args = args;
}

pub put_inside :
    (bs : List ℕ) (b : Builder)
    → b.o + length bs ≤ length b.mem
    → put bs b ≡ next (record b { mem = splice b.mem b.o bs })
unfolding put
put_inside bs b h = rw (le→leb _ _ h)

-- The bytes that are copied may be followed by more in the caller's memory.
copy_front :
    (bs more : List ℕ) (b : Builder)
    → b.o + length bs ≤ length b.mem
    → copy (length bs) (some (bs ++ more)) b ≡ next (record b { mem = splice b.mem b.o bs })
unfolding copy
copy_front [] more b h = rw splice-nil
copy_front (x ∷ bs) more b h =
    let l = length-append (x ∷ bs) more in
    rw
      (
        le→leb (suc (length bs)) (suc (length (bs ++ more))) (omega arith),
        take-append (length bs) bs more refl,
      )
      (put_inside (x ∷ bs) b h)

pub copy_inside :
    (bs : List ℕ) (b : Builder)
    → b.o + length bs ≤ length b.mem
    → copy (length bs) (some bs) b ≡ next (record b { mem = splice b.mem b.o bs })
copy_inside bs b h = rw append-nil at (copy_front bs [] b h)

pub and-false : (b : Bool) → b && false ≡ false
and-false true = refl
and-false false = refl

pub store_word_runs :
    (n : ℕ) (bytes : ℕ → List ℕ) (w : ℕ) (m : List ℕ) (size t : ℕ) (pos : Option ℕ) (byte : ℕ)
    (rest : List Arg)
    → n ≡ length (bytes w)
    → t + n < size
    → size ≤ length m
    → size < 2 ^ 31
    → store_word n bytes (between m size t pos byte (word w ∷ rest))
      ≡ next (between (splice m t (bytes w)) size (t + n) pos 0 rest)
unfolding store_word
store_word_runs n bytes w m size t pos byte rest e fits room small =
    let u : u32 (t + n) ≡ t + n = omega arith in
    rw (
      u,
      lt→leb size (t + n) (omega arith),
      put_inside (bytes w) (between m size t pos 0 rest) (omega arith),
      u,
    )

-- A length word `ls` of `k` bytes and then the bytes it counts.
prefix_then_front :
    (ls bs more : List ℕ) (k c : ℕ) (m : List ℕ) (size t : ℕ) (pos : Option ℕ) (args : List Arg)
    → length ls ≡ k
    → c ≡ length bs + k
    → t + (k + length bs) < size
    → size ≤ length m
    → size < 2 ^ 31
    → (put ls (between m size t pos 0 args) >>>= λ b.
        copy (length bs) (some (bs ++ more)) (skip k b) >>>= λ b.
        next (count c (skip (length bs) b)))
      ≡ next (between (splice m t (ls ++ bs)) size (t + (k + length bs)) pos 0 args)
prefix_then_front ls bs more k c m size t pos args e ec fits room small =
    let n = length bs in
    let after : Builder = record (between m size t pos 0 args) { mem = splice m t ls; o = t + k } in
    let inside : t + k + n ≤ length (splice m t ls) = rw (length-splice m t ls) (omega arith) in
    let joined : splice (splice m t ls) (t + k) bs ≡ splice m t (ls ++ bs) =
      rw (← e) (splice-append m t ls bs) in
    let u : u32 (t + c) ≡ t + (k + n) = omega arith in
    let v : t + k + n ≡ t + (k + n) = omega arith in
    rw (
      put_inside ls (between m size t pos 0 args) (omega arith),
      copy_front bs more after inside,
      joined,
      u,
      v,
    )

prefix_then_copy :
    (ls bs : List ℕ) (k c : ℕ) (m : List ℕ) (size t : ℕ) (pos : Option ℕ) (args : List Arg)
    → length ls ≡ k
    → c ≡ length bs + k
    → t + (k + length bs) < size
    → size ≤ length m
    → size < 2 ^ 31
    → (put ls (between m size t pos 0 args) >>>= λ b.
        copy (length bs) (some bs) (skip k b) >>>= λ b. next (count c (skip (length bs) b)))
      ≡ next (between (splice m t (ls ++ bs)) size (t + (k + length bs)) pos 0 args)
prefix_then_copy ls bs k c m size t pos args e ec fits room small =
    rw append-nil at (prefix_then_front ls bs [] k c m size t pos args e ec fits room small)

pub store_sized_runs :
    (bs : List ℕ) (m : List ℕ) (size t : ℕ) (pos : Option ℕ) (byte : ℕ) (rest : List Arg)
    → t + (4 + length bs) < size
    → size ≤ length m
    → size < 2 ^ 31
    → store_sized (between m size t pos byte (word (length bs) ∷ ptr (some bs) ∷ rest))
      ≡ next (between (splice m t (be32 (length bs) ++ bs)) size (t + (4 + length bs)) pos 0 rest)
unfolding store_sized
store_sized_runs bs m size t pos byte rest fits room small =
    let n = length bs in
    let u : u64 (u32 (t + 4) + n) ≡ t + 4 + n = omega arith in
    rw
      (
        sign_extend-small n (omega arith),
        u,
        lt→leb size (t + 4 + n) (omega arith),
        and-false (ltb 0 n),
      )
      (prefix_then_copy (be32 n) bs 4 (n + 4) m size t pos rest (length-be32 n) refl fits room
        small)

pub store_sized_short_runs :
    (bs : List ℕ) (m : List ℕ) (size t : ℕ) (pos : Option ℕ) (byte : ℕ) (rest : List Arg)
    → length bs < 2 ^ 16
    → t + (2 + length bs) < size
    → size ≤ length m
    → size < 2 ^ 31
    → store_sized_short (between m size t pos byte (word (length bs) ∷ ptr (some bs) ∷ rest))
      ≡ next (between (splice m t (be16 (length bs) ++ bs)) size (t + (2 + length bs)) pos 0 rest)
unfolding store_sized_short
store_sized_short_runs bs m size t pos byte rest h fits room small =
    let n = length bs in
    let e : u16 n ≡ n = omega arith in
    let u : u32 (t + 2 + n) ≡ t + 2 + n = omega arith in
    rw (e, u, lt→leb size (t + 2 + n) (omega arith), and-false (ltb 0 n))
      (prefix_then_copy (be16 n) bs 2 (n + 2) m size t pos rest (length-be16 n) refl fits room
        small)

pub store_raw_runs :
    (bs : List ℕ) (m : List ℕ) (size t : ℕ) (pos : Option ℕ) (byte : ℕ) (rest : List Arg)
    → t + length bs < size
    → size ≤ length m
    → size < 2 ^ 31
    → store_raw (between m size t pos byte (word (length bs) ∷ ptr (some bs) ∷ rest))
      ≡ next (between (splice m t bs) size (t + length bs) pos 0 rest)
unfolding store_raw
store_raw_runs bs m size t pos byte rest fits room small =
    let n = length bs in
    let u : u64 (t + n) ≡ t + n = omega arith in
    let v : u32 (t + n) ≡ t + n = omega arith in
    rw (
      sign_extend-small n (omega arith),
      u,
      lt→leb size (t + n) (omega arith),
      and-false (ltb 0 n),
      copy_inside bs (between m size t pos 0 rest) (omega arith),
      v,
    )

pub store_bounded_short_runs :
    (max : ℕ) (bs more : List ℕ) (m : List ℕ) (size t : ℕ) (pos : Option ℕ) (byte : ℕ)
    (rest : List Arg)
    → length bs < 2 ^ 16
    → t + (2 + length bs) < size
    → size ≤ length m
    → size < 2 ^ 31
    → store_bounded_short
        (between m size t pos byte (word (length bs) ∷ word max ∷ ptr (some (bs ++ more)) ∷ rest))
      ≡ next (between (splice m t (be16 (length bs) ++ bs)) size (t + (2 + length bs)) pos 0 rest)
unfolding store_bounded_short
store_bounded_short_runs max bs more m size t pos byte rest h fits room small =
    let n = length bs in
    let e : u16 n ≡ n = omega arith in
    let u : u32 (t + n) ≡ t + n = omega arith in
    rw (e, u, lt→leb size (t + n) (omega arith), and-false (ltb 0 n))
      (prefix_then_front (be16 n) bs more 2 (2 + n) m size t pos rest (length-be16 n) (omega arith)
        fits room small)

pub store_bounded_runs :
    (max : ℕ) (bs more : List ℕ) (m : List ℕ) (size t : ℕ) (pos : Option ℕ) (byte : ℕ)
    (rest : List Arg)
    → t + (4 + length bs) < size
    → size ≤ length m
    → size < 2 ^ 31
    → store_bounded
        (between m size t pos byte (word (length bs) ∷ word max ∷ ptr (some (bs ++ more)) ∷ rest))
      ≡ next (between (splice m t (be32 (length bs) ++ bs)) size (t + (4 + length bs)) pos 0 rest)
unfolding store_bounded
store_bounded_runs max bs more m size t pos byte rest fits room small =
    let n = length bs in
    let u : u64 (t + n) ≡ t + n = omega arith in
    rw
      (sign_extend-small n (omega arith), u, lt→leb size (t + n) (omega arith), and-false (ltb 0 n))
      (prefix_then_front (be32 n) bs more 4 (4 + n) m size t pos rest (length-be32 n) (omega arith)
        fits room small)
