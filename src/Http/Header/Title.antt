-- ===== src/Http/Header/Title.antt =====
-- The automaton over a whole request line.
use erishttp.Common.{ℕ, ◌+◌, ◌≤◌, ◌≡◌, refl, true, [], ◌∷◌, ◌++◌, arith, length, All}
use erishttp.EString.{EString, text}
use erishttp.Http.Types.{Request, Http}
use erishttp.Http.Header.Parser.{Sreq, Heap, grants}
use erishttp.Http.Header.Line.{on_url, on_parameters, on_query, on_fragment}
use erishttp.Http.Header.Feed.{
  grow, extend, length-grow, length-extend, at, asking, Feeds, Feeds-append, Feeds-text,
}
use erishttp.Http.Header.Render.{
  Message, IsPlain, part, IsPathChar, IsParameterChar, IsQueryChar, IsFragmentChar, render_target,
}
use erishttp.Http.Header.Target.{
  extended, after, Leaves, Leaves-after, url-Leaves, mark-Feeds, part-Feeds, url_start-byte,
  url-byte, parameters-byte, query-byte, fragment-byte,
}

-- the request with the target of a message
abbrev pub with_target : Message → Request → Request
with_target m r = record r {
  url = extend (grow r.url b'/') m.path;
  parameters = extended r.parameters m.parameters;
  query = extended r.query m.query;
  fragment = extended r.fragment m.fragment;
}

-- The place behind the target.
abbrev pub target_end : Message → ℕ → ℕ
target_end m n =
    n
    + 1
    + length m.path
    + length (part b';' m.parameters)
    + length (part b'?' m.query)
    + length (part b'#' m.fragment)

module _ (heap : Heap) (granted : (n : ℕ) → grants (heap n) ≡ true) (ctx : Http)
    (tmp name value : EString) where
  abbrev Goes : Sreq → ℕ → Sreq → Type 0
  Goes = Leaves heap granted ctx tmp name value

  url-semicolon : Goes Sreq.url b';' Sreq.parameters
  unfolding on_url
  url-semicolon =
      url-Leaves heap granted ctx tmp name value b';' Sreq.parameters
        (λ b g i n r small. rw small refl)

  url-question : Goes Sreq.url b'?' Sreq.query
  unfolding on_url
  url-question =
      url-Leaves heap granted ctx tmp name value b'?' Sreq.query (λ b g i n r small. rw small refl)

  url-hash : Goes Sreq.url b'#' Sreq.fragment
  unfolding on_url
  url-hash =
      url-Leaves heap granted ctx tmp name value b'#' Sreq.fragment
        (λ b g i n r small. rw small refl)

  url-blank : Goes Sreq.url b' ' Sreq.h
  unfolding on_url
  url-blank =
      url-Leaves heap granted ctx tmp name value b' ' Sreq.h (λ b g i n r small. rw small refl)

  parameters-question : Goes Sreq.parameters b'?' Sreq.query
  unfolding on_parameters
  parameters-question b g i n r small = refl

  parameters-hash : Goes Sreq.parameters b'#' Sreq.fragment
  unfolding on_parameters
  parameters-hash b g i n r small = refl

  parameters-blank : Goes Sreq.parameters b' ' Sreq.h
  unfolding on_parameters
  parameters-blank b g i n r small = refl

  query-hash : Goes Sreq.query b'#' Sreq.fragment
  unfolding on_query
  query-hash b g i n r small = refl

  query-blank : Goes Sreq.query b' ' Sreq.h
  unfolding on_query
  query-blank b g i n r small = refl

  fragment-blank : Goes Sreq.fragment b' ' Sreq.h
  unfolding on_fragment
  fragment-blank b g i n r small = refl

  -- the states in which the path with the parameters, the query and the fragment may end
  abbrev after_parameters : Message → Sreq
  after_parameters m = after Sreq.url Sreq.parameters m.parameters

  abbrev after_query : Message → Sreq
  after_query m = after (after_parameters m) Sreq.query m.query

  abbrev after_fragment : Message → Sreq
  after_fragment m = after (after_query m) Sreq.fragment m.fragment

  ends :
      (m : Message)
      → Goes (after_parameters m) b'?' Sreq.query
        × Goes (after_query m) b'#' Sreq.fragment
        × Goes (after_fragment m) b' ' Sreq.h
  ends m =
      let L = Leaves-after heap granted ctx tmp name value in
      (
        L Sreq.url Sreq.parameters b'?' Sreq.query m.parameters url-question parameters-question,
        L (after_parameters m) Sreq.query b'#' Sreq.fragment m.query
            (L Sreq.url Sreq.parameters b'#' Sreq.fragment m.parameters url-hash parameters-hash)
            query-hash,
        L (after_query m) Sreq.fragment b' ' Sreq.h m.fragment
            (L (after_parameters m) Sreq.query b' ' Sreq.h m.query
              (L Sreq.url Sreq.parameters b' ' Sreq.h m.parameters url-blank parameters-blank)
              query-blank)
            fragment-blank,
      )

  path-Feeds :
      (m : Message) (r : Request) (n : ℕ)
      → All IsPathChar m.path
      → length (text r.url) + 1 + length m.path ≤ ctx.attrs.url_max_size
      → n + 1 + length m.path ≤ ctx.attrs.header_max_size
      → Feeds heap (at (asking ctx r) Sreq.url_start tmp name value n) (b'/' ∷ m.path) (
          at
            (asking ctx (record r { url = extend (grow r.url b'/') m.path }))
            Sreq.url
            tmp
            name
            value
            (n + 1 + length m.path))
  path-Feeds m r n plain short room =
      Feeds-append (b'/' ∷ []) m.path
        (url_start-byte heap granted ctx tmp name value r n (omega arith))
        (Feeds-text (λ es k. at (asking ctx (record r { url = es })) Sreq.url tmp name value k)
          IsPathChar ctx.attrs.header_max_size ctx.attrs.url_max_size
          (url-byte heap granted ctx tmp name value r) m.path (grow r.url b'/') (n + 1) plain room
          (omega (arith, length-grow r.url b'/')))

  pub target-Feeds :
      (m : Message) (r : Request) (n : ℕ)
      → IsPlain m
      → length (text r.url) + 1 + length m.path ≤ ctx.attrs.url_max_size
      → target_end m n + 1 ≤ ctx.attrs.header_max_size
      → Feeds heap
          (at (asking ctx r) Sreq.url_start tmp name value n)
          (render_target m ++ (b' ' ∷ []))
          (at (asking ctx (with_target m r)) Sreq.h tmp name value (target_end m n + 1))
  target-Feeds m r n plain short room =
      let (question, hash, blank) = ends m in
      let url : EString = extend (grow r.url b'/') m.path in
      let small : length (text url) ≤ ctx.attrs.url_max_size =
        omega (arith, length-extend (grow r.url b'/') m.path, length-grow r.url b'/') in
      let n1 : ℕ = n + 1 + length m.path in
      let n2 : ℕ = n1 + length (part b';' m.parameters) in
      let n3 : ℕ = n2 + length (part b'?' m.query) in
      Feeds-append (render_target m) (b' ' ∷ [])
        (Feeds-append (b'/' ∷ m.path)
          (part b';' m.parameters ++ (part b'?' m.query ++ part b'#' m.fragment))
          (path-Feeds m r n plain.path short (omega arith))
          (Feeds-append (part b';' m.parameters) (part b'?' m.query ++ part b'#' m.fragment)
            (part-Feeds heap granted ctx tmp name value Sreq.url Sreq.parameters b';'
              (λ es. record r { url = url; parameters = es }) IsParameterChar url-semicolon
              (λ es. small)
              (parameters-byte heap granted ctx tmp name value (record r { url = url }))
              m.parameters r.parameters n1 plain.parameters (omega arith))
            (Feeds-append (part b'?' m.query) (part b'#' m.fragment)
              (part-Feeds heap granted ctx tmp name value (after_parameters m) Sreq.query b'?'
                (λ es. record r {
                  url = url;
                  parameters = extended r.parameters m.parameters;
                  query = es;
                })
                IsQueryChar question (λ es. small)
                (query-byte heap granted ctx tmp name value
                  (record r { url = url; parameters = extended r.parameters m.parameters }))
                m.query r.query n2 plain.query (omega arith))
              (part-Feeds heap granted ctx tmp name value (after_query m) Sreq.fragment b'#'
                (λ es. record r {
                  url = url;
                  parameters = extended r.parameters m.parameters;
                  query = extended r.query m.query;
                  fragment = es;
                })
                IsFragmentChar hash (λ es. small)
                (fragment-byte heap granted ctx tmp name value (record r {
                  url = url;
                  parameters = extended r.parameters m.parameters;
                  query = extended r.query m.query;
                }))
                m.fragment r.fragment n3 plain.fragment (omega arith)))))
        (mark-Feeds heap granted ctx tmp name value (after_fragment m) b' ' Sreq.h (with_target m r)
          (target_end m n) blank small room)
