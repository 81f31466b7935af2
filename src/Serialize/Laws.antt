-- ===== src/Serialize/Laws.antt =====
-- One list of members read back as it was written.
use tpm_luks.Common.{ℕ, ◌+◌, ◌^◌, ◌≤◌, ◌<◌, ◌≡◌, refl, sym, ap, ap₂, ◌∙◌, arith, Bool, true}
use tpm_luks.Common.{List, [], ◌∷◌, ◌++◌, length, take, drop, Option, none, some, All}
use tpm_luks.Common.{length-take, take-append-drop}
use tpm_luks.Common.Memory.{done}
use tpm_luks.Buffer.{TpmBuffer, IsBuffer}
use tpm_luks.Build.{word, ptr}
use tpm_luks.Build.Fields.{
  Field, long, short, octet, sized_short, raw, allocated, expected, bounded_short, bounded,
}
use tpm_luks.Build.Fields.{format_of, formats, args_of, arguments, IsField, encode_all}
use tpm_luks.Build.Refine.{appended, buildbuff-encode_all}
use tpm_luks.Parse.{Value}
use tpm_luks.Parse.Steps.{copied}
use tpm_luks.Parse.Fields.{slots_of, values_of, IsReadable, all_slots, all_values}
use tpm_luks.Parse.RoundTrip.{parsebuff-buildbuff}
use tpm_luks.Serialize.{
  Place, Member, long_at, short_at, octet_at, array_at, selected_at, counted_at, buffer_at, data_at,
  constant,
}
use tpm_luks.Serialize.{
  format_char, params_w, params_r, fill, copied_bytes, overlay, replace, fill_array, fill_pointer,
}
use tpm_luks.Serialize.{
  format_all, params_w_all, params_r_all, fill_all, write_members, read_members,
}

abbrev pub content : Option (List ℕ) → List ℕ
content none = []
content (some bs) = bs

-- A pointer to as many bytes as the length beside it says.
abbrev pub Holds : ℕ → Option (List ℕ) → Type 0
Holds n p = (p ≡ some (content p)) × (length (content p) ≡ n)

pub copied_bytes-copied :
    (bs : List ℕ) (vs : List Value) → copied_bytes (length bs) (copied bs ++ vs) ≡ (bs, vs)
copied_bytes-copied [] vs = refl
copied_bytes-copied (b ∷ bs) vs = refl

length-front : (n : ℕ) (xs : List ℕ) → n ≤ length xs → length (take n xs) ≡ n
length-front n xs h = omega (arith, length-take n xs)

module _ {A : Type 0} where
  -- The field that a member stands for.
  abbrev pub field : Member A → A → Field
  field (long_at p) x = long (p.get x)
  field (short_at p) x = short (p.get x)
  field (octet_at p) x = octet (p.get x)
  field (array_at n p) x = raw (p.get x)
  field (selected_at max n p) x =
      bounded_short max (take (n.get x) (p.get x)) (drop (n.get x) (p.get x))
  field (counted_at max n p) x = bounded max (take (n.get x) (p.get x)) (drop (n.get x) (p.get x))
  field (buffer_at n p) x = allocated (content (p.get x))
  field (data_at n p) x = sized_short (content (p.get x))
  field (constant v) x = expected v

  -- A member has a value of its type: numbers fit, an array is as long as it is declared, a
  -- length stays inside its array, a pointer shows as many bytes as the length beside it says.
  abbrev pub IsMember : (ℕ → Bool) → Member A → A → Type 0
  IsMember allocates (long_at p) x = p.get x < 2 ^ 32
  IsMember allocates (short_at p) x = p.get x < 2 ^ 16
  IsMember allocates (octet_at p) x = p.get x < 2 ^ 8
  IsMember allocates (array_at n p) x = (length (p.get x) ≡ n) × (n < 2 ^ 31)
  IsMember allocates (selected_at max n p) x =
      (n.get x ≤ max) × (length (p.get x) ≡ max) × (max < 2 ^ 16)
  IsMember allocates (counted_at max n p) x =
      (n.get x ≤ max) × (length (p.get x) ≡ max) × (max < 2 ^ 31)
  IsMember allocates (buffer_at n p) x =
      Holds (n.get x) (p.get x) × (n.get x < 2 ^ 31) × (allocates (n.get x) ≡ true)
  IsMember allocates (data_at n p) x =
      Holds (n.get x) (p.get x) × (n.get x < 2 ^ 16) × (allocates (n.get x) ≡ true)
  IsMember allocates (constant v) x = v < 2 ^ 32

  -- The member of `old` after the member of `x` was read into it.
  abbrev pub put : Member A → A → A → A
  put (long_at p) x old = p.set (p.get x) old
  put (short_at p) x old = p.set (p.get x) old
  put (octet_at p) x old = p.set (p.get x) old
  put (array_at n p) x old = p.set (overlay (p.get x) (p.get old)) old
  put (selected_at max n p) x old =
      let y = n.set (n.get x) old in p.set (overlay (take (n.get x) (p.get x)) (p.get y)) y
  put (counted_at max n p) x old =
      let y = n.set (n.get x) old in p.set (overlay (take (n.get x) (p.get x)) (p.get y)) y
  put (buffer_at n p) x old =
      let y = n.set (n.get x) old in p.set (replace (content (p.get x)) (p.get y)) y
  put (data_at n p) x old =
      let y = n.set (n.get x) old in p.set (replace (content (p.get x)) (p.get y)) y
  put (constant v) x old = old

  abbrev pub put_all : List (Member A) → A → A → A
  put_all [] x old = old
  put_all (m ∷ ms) x old = put_all ms x (put m x old)

  abbrev pub IsMembers : (ℕ → Bool) → List (Member A) → A → Type 0
  IsMembers allocates ms x = All (λ m. IsMember allocates m x) ms

  abbrev pub fields : List (Member A) → A → List Field
  fields [] x = []
  fields (m ∷ ms) x = field m x ∷ fields ms x

  module _ (allocates : ℕ → Bool) (x : A) where
    member-args : (m : Member A) → IsMember allocates m x → args_of (field m x) ≡ params_w m x
    member-args (long_at p) h = refl
    member-args (short_at p) h = refl
    member-args (octet_at p) h = refl
    member-args (array_at n p) (e, h) = rw e
    member-args (selected_at max n p) (h, e, k) =
        rw (length-front (n.get x) (p.get x) (omega arith), take-append-drop (n.get x) (p.get x))
    member-args (counted_at max n p) (h, e, k) =
        rw (length-front (n.get x) (p.get x) (omega arith), take-append-drop (n.get x) (p.get x))
    member-args (buffer_at n p) ((s, e), k, a) = ap₂ (λ k q. word k ∷ ptr q ∷ []) e (sym s)
    member-args (data_at n p) ((s, e), k, a) = ap₂ (λ k q. word k ∷ ptr q ∷ []) e (sym s)
    member-args (constant v) h = refl

    member-slots : (m : Member A) → IsMember allocates m x → slots_of (field m x) ≡ params_r m
    member-slots (long_at p) h = refl
    member-slots (short_at p) h = refl
    member-slots (octet_at p) h = refl
    member-slots (array_at n p) (e, h) = rw e
    member-slots (selected_at max n p) h = refl
    member-slots (counted_at max n p) h = refl
    member-slots (buffer_at n p) h = refl
    member-slots (data_at n p) h = refl
    member-slots (constant v) h = refl

    member-format : (m : Member A) → format_of (field m x) ≡ format_char m ∷ []
    member-format (long_at p) = refl
    member-format (short_at p) = refl
    member-format (octet_at p) = refl
    member-format (array_at n p) = refl
    member-format (selected_at max n p) = refl
    member-format (counted_at max n p) = refl
    member-format (buffer_at n p) = refl
    member-format (data_at n p) = refl
    member-format (constant v) = refl

    member-IsField : (m : Member A) → IsMember allocates m x → IsField (field m x)
    member-IsField (long_at p) h = tt
    member-IsField (short_at p) h = tt
    member-IsField (octet_at p) h = tt
    member-IsField (array_at n p) (e, h) = omega arith
    member-IsField (selected_at max n p) (h, e, k) =
        omega (arith, length-front (n.get x) (p.get x) (omega arith))
    member-IsField (counted_at max n p) (h, e, k) =
        omega (arith, length-front (n.get x) (p.get x) (omega arith))
    member-IsField (buffer_at n p) ((s, e), k, a) = omega arith
    member-IsField (data_at n p) ((s, e), k, a) = omega arith
    member-IsField (constant v) h = tt

    member-IsReadable : (m : Member A) → IsMember allocates m x → IsReadable allocates (field m x)
    member-IsReadable (long_at p) h = h
    member-IsReadable (short_at p) h = h
    member-IsReadable (octet_at p) h = h
    member-IsReadable (array_at n p) (e, h) = omega arith
    member-IsReadable (selected_at max n p) (h, e, k) =
        let l = length-front (n.get x) (p.get x) (omega arith) in
        (omega arith, omega arith, omega arith)
    member-IsReadable (counted_at max n p) (h, e, k) =
        let l = length-front (n.get x) (p.get x) (omega arith) in
        (omega arith, omega arith, omega arith)
    member-IsReadable (buffer_at n p) ((s, e), k, a) = (omega arith, rw e a)
    member-IsReadable (data_at n p) ((s, e), k, a) = (omega arith, rw e a)
    member-IsReadable (constant v) h = h

    counted :
        (n : Place A ℕ) (p : Place A (List ℕ)) (vs : List Value) (old : A)
        → length (take (n.get x) (p.get x)) ≡ n.get x
        → (let bs = take (n.get x) (p.get x) in
            fill_array (length bs) p (copied bs ++ vs) (n.set (length bs) old))
          ≡ (let y = n.set (n.get x) old in
              (p.set (overlay (take (n.get x) (p.get x)) (p.get y)) y, vs))
    counted n p vs old e = rw (copied_bytes-copied (take (n.get x) (p.get x)) vs) (
        ap
          (λ k. let y = n.set k old in (p.set (overlay (take (n.get x) (p.get x)) (p.get y)) y, vs))
          e)

    pointed :
        (n : Place A ℕ) (p : Place A (Option (List ℕ))) (vs : List Value) (old : A)
        → length (content (p.get x)) ≡ n.get x
        → (let bs = content (p.get x) in
            fill_pointer (length bs) p (copied bs ++ vs) (n.set (length bs) old))
          ≡ (let y = n.set (n.get x) old in (p.set (replace (content (p.get x)) (p.get y)) y, vs))
    pointed n p vs old e =
        rw (copied_bytes-copied (content (p.get x)) vs)
          (ap (λ k. let y = n.set k old in (p.set (replace (content (p.get x)) (p.get y)) y, vs)) e)

    member-fill :
        (m : Member A) (vs : List Value) (old : A)
        → IsMember allocates m x
        → fill m (values_of (field m x) ++ vs) old ≡ (put m x old, vs)
    member-fill (long_at p) vs old h = refl
    member-fill (short_at p) vs old h = refl
    member-fill (octet_at p) vs old h = refl
    member-fill (array_at n p) vs old (e, h) =
        ap (λ r. (p.set (overlay r.0 (p.get old)) old, r.1))
          (ap (λ k. copied_bytes k (copied (p.get x) ++ vs)) (sym e)
            ∙ copied_bytes-copied (p.get x) vs)
    member-fill (selected_at max n p) vs old (h, e, k) =
        counted n p vs old (length-front (n.get x) (p.get x) (omega arith))
    member-fill (counted_at max n p) vs old (h, e, k) =
        counted n p vs old (length-front (n.get x) (p.get x) (omega arith))
    member-fill (buffer_at n p) vs old ((s, e), k, a) = pointed n p vs old e
    member-fill (data_at n p) vs old ((s, e), k, a) = pointed n p vs old e
    member-fill (constant v) vs old h = refl

    members-format : (ms : List (Member A)) → formats (fields ms x) ≡ format_all ms
    members-format [] = refl
    members-format (m ∷ ms) = rw (member-format m, members-format ms)

    members-args :
        (ms : List (Member A))
        → IsMembers allocates ms x
        → arguments (fields ms x) ≡ params_w_all ms x
    members-args [] h = refl
    members-args (m ∷ ms) (h, hs) = ap₂ (λ a b. a ++ b) (member-args m h) (members-args ms hs)

    members-slots :
        (ms : List (Member A))
        → IsMembers allocates ms x
        → all_slots (fields ms x) ≡ params_r_all ms
    members-slots [] h = refl
    members-slots (m ∷ ms) (h, hs) = ap₂ (λ a b. a ++ b) (member-slots m h) (members-slots ms hs)

    members-IsField : (ms : List (Member A)) → IsMembers allocates ms x → All IsField (fields ms x)
    members-IsField [] h = h
    members-IsField (m ∷ ms) (h, hs) = (member-IsField m h, members-IsField ms hs)

    members-IsReadable :
        (ms : List (Member A)) → IsMembers allocates ms x → All (IsReadable allocates) (fields ms x)
    members-IsReadable [] h = h
    members-IsReadable (m ∷ ms) (h, hs) = (member-IsReadable m h, members-IsReadable ms hs)

    members-fill :
        (ms : List (Member A)) (old : A)
        → IsMembers allocates ms x
        → fill_all ms (all_values (fields ms x)) old ≡ put_all ms x old
    members-fill [] old h = refl
    members-fill (m ∷ ms) old (h, hs) =
        let e = member-fill m (all_values (fields ms x)) old h in
        rw e (members-fill ms (put m x old) hs)

    pub size_of : List (Member A) → ℕ
    size_of ms = length (encode_all (fields ms x))

    -- The members are appended to the buffer as their fields.
    pub write_members-encode_all :
        (ms : List (Member A)) (tb : TpmBuffer)
        → IsBuffer tb
        → IsMembers allocates ms x
        → tb.used + length (encode_all (fields ms x)) < tb.size
        → write_members ms tb x
          ≡ done (length (encode_all (fields ms x)), appended tb (encode_all (fields ms x)))
    unfolding write_members
    write_members-encode_all ms tb b h fits =
        rw (members-format ms, members-args ms h) at
          (buildbuff-encode_all (fields ms x) tb b (members-IsField ms h) fits)

    -- What the members of `x` made TSS_buildbuff write, TSS_parsebuff stores in those of `old`.
    pub read_members-write_members :
        (ms : List (Member A)) (tb : TpmBuffer) (old : A)
        → IsBuffer tb
        → IsMembers allocates ms x
        → tb.used + length (encode_all (fields ms x)) < tb.size
        → (n : ℕ) × (tb' : TpmBuffer) × (write_members ms tb x ≡ done (n, tb'))
          × (read_members ms allocates tb' tb.used old ≡ done (n, put_all ms x old))
    unfolding write_members read_members
    read_members-write_members ms tb old b h fits =
        let (n, tb', w, r) =
          parsebuff-buildbuff allocates (fields ms x) tb b (members-IsField ms h)
            (members-IsReadable ms h) fits in
        let w' = rw (members-format ms, members-args ms h) at w in
        let r' = rw (members-format ms, members-slots ms h) at r in
        (n, tb', w', rw r' (ap (λ y. done (n, y)) (members-fill ms old h)))
