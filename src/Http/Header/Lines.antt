-- ===== src/Http/Header/Lines.antt =====
-- The automaton over the header lines.
use erishttp.Common.{
  ℕ, ◌+◌, ◌≤◌, ◌≡◌, refl, true, false, some, List, [], ◌∷◌, ◌++◌, arith, length, All, ◌==◌, subst,
  append_assoc, length-append,
}
use erishttp.EString.{EString, cleanup, clone_eris}
use erishttp.Http.Types.{Request, Http, Hnode}
use erishttp.Http.Header.Parser.{Sreq, Heap, grants, cr, lf}
use erishttp.Http.Header.Fields.{
  on_header_name, on_header_colon, on_header_value, on_header_cr1, on_header_lf1,
}
use erishttp.Http.Header.Feed.{
  grow, extend-some, append_c-grow, at, asking, Feeds, Feeds-append, Feeds-byte, Feeds-text,
}
use erishttp.Http.Header.Render.{
  Field, name_of, render_field, field_texts, line_end, IsNameChar, IsValueChar, IsField,
}

-- the node for a header line, and the list after more lines: the newest is at its head
abbrev pub node : Field → Hnode
node f = (some (name_of f), some f.value)

abbrev pub stacked : List Hnode → List Field → List Hnode
stacked hs [] = hs
stacked hs (f ∷ fs) = stacked (node f ∷ hs) fs

module _ (heap : Heap) (granted : (n : ℕ) → grants (heap n) ≡ true) (ctx : Http)
    (tmp : EString) where
  name-byte :
      (value es : EString) (n c : ℕ)
      → IsNameChar c
      → n + 1 ≤ ctx.attrs.header_max_size
      → Feeds heap
          (at ctx Sreq.header_name tmp es value n)
          (c ∷ [])
          (at ctx Sreq.header_name tmp (grow es c) value (n + 1))
  unfolding on_header_name
  name-byte value es n c fits room =
      let a : (c == b':') ≡ false = ground arith in
      Feeds-byte ctx Sreq.header_name tmp es value n c room
        (λ hb i. rw (a, fits, granted (n + 1), append_c-grow es c (ground arith)) refl) refl

  value-byte :
      (name es : EString) (n c : ℕ)
      → IsValueChar c
      → n + 1 ≤ ctx.attrs.header_max_size
      → Feeds heap
          (at ctx Sreq.header_value tmp name es n)
          (c ∷ [])
          (at ctx Sreq.header_value tmp name (grow es c) (n + 1))
  unfolding on_header_value
  value-byte name es n c fits room =
      let a : (c == 13) ≡ false = ground arith in
      Feeds-byte ctx Sreq.header_value tmp name es n c room
        (λ hb i. rw (a, granted (n + 1), append_c-grow es c (ground arith)) refl) refl

  name-Feeds :
      (u w : List ℕ) (n : ℕ)
      → All IsNameChar w
      → n + length w ≤ ctx.attrs.header_max_size
      → Feeds heap
          (at ctx Sreq.header_name tmp (some u) (some []) n)
          w
          (at ctx Sreq.header_name tmp (some (u ++ w)) (some []) (n + length w))
  name-Feeds u w n plain room =
      subst
        (λ es.
          Feeds heap (at ctx Sreq.header_name tmp (some u) (some []) n) w
            (at ctx Sreq.header_name tmp es (some []) (n + length w)))
        (extend-some u w)
        (Feeds-text (λ es k. at ctx Sreq.header_name tmp es (some []) k) IsNameChar
          ctx.attrs.header_max_size (length u + length w)
          (λ es k c fits r _. name-byte (some []) es k c fits r) w (some u) n plain room
          (omega arith))

  value-Feeds :
      (name : EString) (w : List ℕ) (n : ℕ)
      → All IsValueChar w
      → n + length w ≤ ctx.attrs.header_max_size
      → Feeds heap
          (at ctx Sreq.header_value tmp name (some []) n)
          w
          (at ctx Sreq.header_value tmp name (some w) (n + length w))
  value-Feeds name w n plain room =
      subst
        (λ es.
          Feeds heap (at ctx Sreq.header_value tmp name (some []) n) w
            (at ctx Sreq.header_value tmp name es (n + length w)))
        (extend-some [] w)
        (Feeds-text (λ es k. at ctx Sreq.header_value tmp name es k) IsValueChar
          ctx.attrs.header_max_size (length w) (λ es k c fits r _. value-byte name es k c fits r) w
          (some []) n plain room (omega arith))

  -- the rest of a header line, from some place in its name on
  line-Feeds :
      (u w v : List ℕ) (n : ℕ)
      → All IsNameChar w
      → All IsValueChar v
      → n + length w + length v + 4 ≤ ctx.attrs.header_max_size
      → Feeds heap
          (at ctx Sreq.header_name tmp (some u) (some []) n)
          (w ++ (b':' ∷ b' ' ∷ (v ++ line_end)))
          (at ctx Sreq.header_lf1 tmp (some (u ++ w)) (some v) (n + length w + length v + 4))
  unfolding on_header_name on_header_colon on_header_value on_header_cr1
  line-Feeds u w v n plain_w plain_v room =
      let k : n + length w + 1 + 1 + length v + 1 + 1 ≡ n + length w + length v + 4 = omega arith in
      rw (← k) (
        Feeds-append w (b':' ∷ b' ' ∷ (v ++ line_end)) (name-Feeds u w n plain_w (omega arith)) (
          Feeds-append (b':' ∷ []) (b' ' ∷ (v ++ line_end))
            (Feeds-byte ctx Sreq.header_name tmp (some (u ++ w)) (some []) (n + length w) b':'
              (omega arith) (λ b i. refl) refl)
            (Feeds-append (b' ' ∷ []) (v ++ line_end)
              (Feeds-byte ctx Sreq.header_colon tmp (some (u ++ w)) (some []) (n + length w + 1)
                b' ' (omega arith) (λ b i. refl) refl)
              (Feeds-append v line_end
                (value-Feeds (some (u ++ w)) v (n + length w + 1 + 1) plain_v (omega arith))
                (Feeds-append (cr ∷ []) (lf ∷ [])
                  (Feeds-byte ctx Sreq.header_value tmp (some (u ++ w)) (some v)
                    (n + length w + 1 + 1 + length v) cr (omega arith) (λ b i. refl) refl)
                  (Feeds-byte ctx Sreq.header_cr1 tmp (some (u ++ w)) (some v)
                    (n + length w + 1 + 1 + length v + 1) lf (omega arith) (λ b i. refl) refl))))))

length-field_texts :
    (f : Field) (fs : List Field)
    → length (field_texts (f ∷ fs))
      ≡ length (name_of f) + length f.value + 4 + length (field_texts fs)
length-field_texts f fs = omega (
  arith,
  length-append (render_field f) (field_texts fs),
  length-append (name_of f) (b':' ∷ b' ' ∷ (f.value ++ line_end)),
  length-append f.value line_end,
)

-- the request with one more header at the head of its list
abbrev pub linked : Field → Request → Request
linked f r = record r { headers = node f ∷ r.headers }

module _ (heap : Heap) (granted : (n : ℕ) → grants (heap n) ≡ true) (ctx : Http)
    (tmp : EString) where
  last-byte :
      (f : Field) (r : Request) (n : ℕ)
      → n + 1 ≤ ctx.attrs.header_max_size
      → Feeds heap
          (at (asking ctx r) Sreq.header_lf1 tmp (some (name_of f)) (some f.value) n)
          (cr ∷ [])
          (at (asking ctx (linked f r)) Sreq.header_cr2 tmp (some []) (some []) (n + 1))
  unfolding on_header_lf1 clone_eris cleanup
  last-byte f r n room =
      Feeds-byte (asking ctx r) Sreq.header_lf1 tmp (some (name_of f)) (some f.value) n cr room
        (λ hb i. rw (granted (n + 1)) refl) refl

  -- the first character of the next name, which is stored without a test
  next-byte :
      (f : Field) (r : Request) (n c : ℕ)
      → IsNameChar c
      → n + 1 ≤ ctx.attrs.header_max_size
      → Feeds heap
          (at (asking ctx r) Sreq.header_lf1 tmp (some (name_of f)) (some f.value) n)
          (c ∷ [])
          (at (asking ctx (linked f r)) Sreq.header_name tmp (some (c ∷ [])) (some []) (n + 1))
  unfolding on_header_lf1 clone_eris cleanup
  next-byte f r n c fits room =
      let a : (c == b' ') ≡ false = ground arith in
      let b : (c == 13) ≡ false = ground arith in
      Feeds-byte (asking ctx r) Sreq.header_lf1 tmp (some (name_of f)) (some f.value) n c room
        (λ hb i. rw (a, b, granted (n + 1), append_c-grow (some []) c (ground arith)) refl) refl

  rest-Feeds :
      (f : Field) (fs : List Field) (r : Request) (n : ℕ)
      → All IsField fs
      → n + length (field_texts fs) + 1 ≤ ctx.attrs.header_max_size
      → Feeds heap
          (at (asking ctx r) Sreq.header_lf1 tmp (some (name_of f)) (some f.value) n)
          (field_texts fs ++ (cr ∷ []))
          (at
            (asking ctx (record r { headers = stacked (node f ∷ r.headers) fs }))
            Sreq.header_cr2
            tmp
            (some [])
            (some [])
            (n + length (field_texts fs) + 1))
  rest-Feeds f [] r n plain room =
      let k : n + 0 + 1 ≡ n + 1 = omega arith in rw k (last-byte f r n (omega arith))
  rest-Feeds f (g ∷ fs) r n ((first, more, value), plain) room =
      let l = length-field_texts g fs in
      let k : n + length (field_texts (g ∷ fs)) + 1
          ≡ n + 1 + length g.more + length g.value + 4 + length (field_texts fs) + 1 =
        omega (arith, l) in
      rw (k, append_assoc (render_field g) (field_texts fs) (cr ∷ []))
        (Feeds-append (render_field g) (field_texts fs ++ (cr ∷ []))
          (Feeds-append (g.initial ∷ []) (g.more ++ (b':' ∷ b' ' ∷ (g.value ++ line_end)))
            (next-byte f r n g.initial first (omega (arith, l)))
            (line-Feeds heap granted (asking ctx (linked f r)) tmp (g.initial ∷ []) g.more g.value
              (n + 1) more value (omega (arith, l))))
          (rest-Feeds g fs (linked f r) (n + 1 + length g.more + length g.value + 4) plain
            (omega (arith, l))))

  -- The header lines and the carriage return behind them.
  pub fields-Feeds :
      (f : Field) (fs : List Field) (r : Request) (n : ℕ)
      → IsField f
      → All IsField fs
      → n + length (field_texts (f ∷ fs)) + 1 ≤ ctx.attrs.header_max_size
      → Feeds heap
          (at (asking ctx r) Sreq.header_name tmp (some []) (some []) n)
          (field_texts (f ∷ fs) ++ (cr ∷ []))
          (at
            (asking ctx (record r { headers = stacked r.headers (f ∷ fs) }))
            Sreq.header_cr2
            tmp
            (some [])
            (some [])
            (n + length (field_texts (f ∷ fs)) + 1))
  fields-Feeds f fs r n (first, more, value) plain room =
      let l = length-field_texts f fs in
      let k : n + length (field_texts (f ∷ fs)) + 1
          ≡ n + length (name_of f) + length f.value + 4 + length (field_texts fs) + 1 =
        omega (arith, l) in
      rw (k, append_assoc (render_field f) (field_texts fs) (cr ∷ []))
        (Feeds-append (render_field f) (field_texts fs ++ (cr ∷ []))
          (line-Feeds heap granted (asking ctx r) tmp [] (name_of f) f.value n (first, more) value
            (omega (arith, l)))
          (rest-Feeds f fs r (n + length (name_of f) + length f.value + 4) plain
            (omega (arith, l))))
