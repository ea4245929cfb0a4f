-- ===== src/Http/Header/Target.antt =====
-- The automaton over the target: path, parameters, query and fragment.
use erishttp.Common.{
  ℕ, suc, ◌+◌, ◌≤◌, ◌≡◌, refl, true, false, Option, none, some, List, [], ◌∷◌, arith, ◌==◌, ltb,
  length,
}
use erishttp.Buffer.{Buffer}
use erishttp.EString.{EString, text, size}
use erishttp.Buffer.Block.{Grant}
use erishttp.Http.Types.{Request, Http}
use erishttp.Http.Header.Parser.{Sreq, Heap, grants}
use erishttp.Http.Header.Line.{on_url_start, on_url, on_parameters, on_query, on_fragment}
use erishttp.Http.Header.Loop.{step}
use erishttp.Http.Header.Feed.{
  grow, extend, length-grow, append_c-grow, at, asking, keeping, Feeds, Feeds-nil, Feeds-append,
  Feeds-byte, Feeds-text,
}
use erishttp.Http.Header.Render.{
  part, IsPathChar, IsParameterChar, IsQueryChar, IsFragmentChar, AllIn,
}

-- a string behind an optional part, and the state there
abbrev pub extended : EString → Option (List ℕ) → EString
extended es none = es
extended es (some w) = extend es w

abbrev pub after : Sreq → Sreq → Option (List ℕ) → Sreq
after s s' none = s
after s s' (some w) = s'

module _ (heap : Heap) (granted : (n : ℕ) → grants (heap n) ≡ true) (ctx : Http)
    (tmp name value : EString) where
  -- in the state `s` the byte `c` leads to the state `t` and changes nothing else
  abbrev pub Leaves : Sreq → ℕ → Sreq → Type 0
  Leaves s c t =
      (b : Buffer) (g : Grant) (i n : ℕ) (r : Request)
      → length (text r.url) ≤ ctx.attrs.url_max_size
      → step g i c s (at (asking (keeping b ctx) r) s tmp name value n)
        ≡ at (asking (keeping b ctx) r) t tmp name value n

  pub Leaves-after :
      (s s' : Sreq) (c : ℕ) (t : Sreq) (o : Option (List ℕ))
      → Leaves s c t
      → Leaves s' c t
      → Leaves (after s s' o) c t
  Leaves-after s s' c t none l l' = l
  Leaves-after s s' c t (some w) l l' = l'

  length-size : (es : EString) → size es ≡ length (text es)
  unfolding size
  length-size none = refl
  length-size (some xs) = refl

  pub url-Leaves :
      (c : ℕ) (t : Sreq)
      → ((b : Buffer) (g : Grant) (i n : ℕ) (r : Request)
          → ltb ctx.attrs.url_max_size (size r.url) ≡ false
          → step g i c Sreq.url (at (asking (keeping b ctx) r) Sreq.url tmp name value n)
            ≡ at (asking (keeping b ctx) r) t tmp name value n)
      → Leaves Sreq.url c t
  url-Leaves c t h b g i n r small = h b g i n r (ground (arith, length-size r.url))

  pub mark-Feeds :
      (s : Sreq) (c : ℕ) (t : Sreq) (r : Request) (n : ℕ)
      → Leaves s c t
      → length (text r.url) ≤ ctx.attrs.url_max_size
      → n + 1 ≤ ctx.attrs.header_max_size
      → Feeds heap
          (at (asking ctx r) s tmp name value n)
          (c ∷ [])
          (at (asking ctx r) t tmp name value (n + 1))
  mark-Feeds s c t r n leaves small room =
      Feeds-byte (asking ctx r) s tmp name value n c room
        (λ b i. leaves b (heap (n + 1)) i (n + 1) r small) refl

  -- An optional part of the target: the mark, then bytes that one string of the request takes.
  pub part-Feeds :
      (s s' : Sreq) (mark : ℕ) (P : EString → Request) (Fits : ℕ → Type 0)
      → Leaves s mark s'
      → ((es : EString) → length (text (P es).url) ≤ ctx.attrs.url_max_size)
      → ((es : EString) (n c : ℕ)
          → Fits c
          → n + 1 ≤ ctx.attrs.header_max_size
          → Feeds heap
              (at (asking ctx (P es)) s' tmp name value n)
              (c ∷ [])
              (at (asking ctx (P (grow es c))) s' tmp name value (n + 1)))
      → (o : Option (List ℕ)) (es : EString) (n : ℕ) → AllIn Fits o
      → n + length (part mark o) ≤ ctx.attrs.header_max_size
      → Feeds heap (at (asking ctx (P es)) s tmp name value n) (part mark o) (
          at
            (asking ctx (P (extended es o)))
            (after s s' o)
            tmp
            name
            value
            (n + length (part mark o)))
  part-Feeds s s' mark P Fits leaves small one none es n all room =
      let e : n + 0 ≡ n = omega arith in
      rw e (Feeds-nil (at (asking ctx (P es)) s tmp name value n))
  part-Feeds s s' mark P Fits leaves small one (some w) es n all room =
      let e : n + suc (length w) ≡ n + 1 + length w = omega arith in
      rw e (
        Feeds-append (mark ∷ []) w (mark-Feeds s mark s' (P es) n leaves (small es) (omega arith)) (
          Feeds-text (λ xs k. at (asking ctx (P xs)) s' tmp name value k) Fits
            ctx.attrs.header_max_size (length (text es) + length w)
            (λ xs k c fits r _. one xs k c fits r) w es (n + 1) all (omega arith) (omega arith)))

  pub url_start-byte :
      (r : Request) (n : ℕ)
      → n + 1 ≤ ctx.attrs.header_max_size
      → Feeds heap
          (at (asking ctx r) Sreq.url_start tmp name value n)
          (b'/' ∷ [])
          (at (asking ctx (record r { url = grow r.url b'/' })) Sreq.url tmp name value (n + 1))
  unfolding on_url_start
  url_start-byte r n room =
      Feeds-byte (asking ctx r) Sreq.url_start tmp name value n b'/' room
        (λ hb i. rw (granted (n + 1), append_c-grow r.url b'/' refl) refl) refl

  pub url-byte :
      (r : Request) (es : EString) (n c : ℕ)
      → IsPathChar c
      → n + 1 ≤ ctx.attrs.header_max_size
      → length (text es) + 1 ≤ ctx.attrs.url_max_size
      → Feeds heap
          (at (asking ctx (record r { url = es })) Sreq.url tmp name value n)
          (c ∷ [])
          (at (asking ctx (record r { url = grow es c })) Sreq.url tmp name value (n + 1))
  unfolding on_url
  url-byte r es n c fits room short =
      let a : (c == b' ') ≡ false = ground arith in
      let b : (c == b';') ≡ false = ground arith in
      let d : (c == b'?') ≡ false = ground arith in
      let e : (c == b'#') ≡ false = ground arith in
      let f : (c == 13) ≡ false = ground arith in
      let small : ltb ctx.attrs.url_max_size (size (grow es c)) ≡ false =
        ground (arith, length-size (grow es c), length-grow es c) in
      Feeds-byte (asking ctx (record r { url = es })) Sreq.url tmp name value n c room
        (λ hb i. rw (a, b, d, e, f, granted (n + 1), append_c-grow es c (ground arith), small) refl)
        refl

  pub parameters-byte :
      (r : Request) (es : EString) (n c : ℕ)
      → IsParameterChar c
      → n + 1 ≤ ctx.attrs.header_max_size
      → Feeds heap
          (at (asking ctx (record r { parameters = es })) Sreq.parameters tmp name value n)
          (c ∷ [])
          (at
            (asking ctx (record r { parameters = grow es c }))
            Sreq.parameters
            tmp
            name
            value
            (n + 1))
  unfolding on_parameters
  parameters-byte r es n c fits room =
      let a : (c == b' ') ≡ false = ground arith in
      let d : (c == b'?') ≡ false = ground arith in
      let e : (c == b'#') ≡ false = ground arith in
      let f : (c == 13) ≡ false = ground arith in
      Feeds-byte (asking ctx (record r { parameters = es })) Sreq.parameters tmp name value n c room
        (λ hb i. rw (a, d, e, f, granted (n + 1), append_c-grow es c (ground arith)) refl) refl

  pub query-byte :
      (r : Request) (es : EString) (n c : ℕ)
      → IsQueryChar c
      → n + 1 ≤ ctx.attrs.header_max_size
      → Feeds heap
          (at (asking ctx (record r { query = es })) Sreq.query tmp name value n)
          (c ∷ [])
          (at (asking ctx (record r { query = grow es c })) Sreq.query tmp name value (n + 1))
  unfolding on_query
  query-byte r es n c fits room =
      let a : (c == b' ') ≡ false = ground arith in
      let b : (c == b';') ≡ false = ground arith in
      let e : (c == b'#') ≡ false = ground arith in
      let f : (c == 13) ≡ false = ground arith in
      Feeds-byte (asking ctx (record r { query = es })) Sreq.query tmp name value n c room
        (λ hb i. rw (a, b, e, f, granted (n + 1), append_c-grow es c (ground arith)) refl) refl

  pub fragment-byte :
      (r : Request) (es : EString) (n c : ℕ)
      → IsFragmentChar c
      → n + 1 ≤ ctx.attrs.header_max_size
      → Feeds heap
          (at (asking ctx (record r { fragment = es })) Sreq.fragment tmp name value n)
          (c ∷ [])
          (at (asking ctx (record r { fragment = grow es c })) Sreq.fragment tmp name value (n + 1))
  unfolding on_fragment
  fragment-byte r es n c fits room =
      let a : (c == b' ') ≡ false = ground arith in
      let f : (c == 13) ≡ false = ground arith in
      Feeds-byte (asking ctx (record r { fragment = es })) Sreq.fragment tmp name value n c room
        (λ hb i. rw (a, f, granted (n + 1), append_c-grow es c (ground arith)) refl) refl
