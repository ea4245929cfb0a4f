-- ===== src/Http/Header/Open.antt =====
-- The automaton over the header of a request, up to its last character.
use erishttp.Common.{
  ℕ, ◌+◌, ◌≤◌, ◌≡◌, ◌≢◌, refl, true, some, [], ◌∷◌, ◌++◌, arith, length, length-append,
}
use erishttp.EString.{text, cleanup}
use erishttp.Http.Types.{Request, Http, Version, v00, v09, v10, v11}
use erishttp.Http.Header.Parser.{Sreq, Heap, grants, cr}
use erishttp.Http.Header.Feed.{at, asking, Feeds, Feeds-append}
use erishttp.Http.Header.Method.{method-Feeds}
use erishttp.Http.Header.Version.{version-Feeds}
use erishttp.Http.Header.Title.{with_target, target_end, target-Feeds}
use erishttp.Http.Header.Lines.{stacked, fields-Feeds}
use erishttp.Http.Header.Render.{
  Message, IsPlain, method_name, version_name, render_title, render_target, render_open, part,
  field_texts, line_end,
}

-- The request that a message asks for, in a request that is otherwise as `r`.
abbrev pub asked : Message → Request → Request
asked m r = record (with_target m r) {
  command = m.command;
  version = m.version;
  headers = stacked r.headers (m.field ∷ m.fields);
}

-- the place of the last character of the header
abbrev pub open_end : Message → ℕ
open_end m = length (render_open m)

length-version_name : (v : Version) → v ≢ v00 → length (version_name v ++ line_end) ≡ 10
length-version_name v00 h = absurd (h refl)
length-version_name v09 h = refl
length-version_name v10 h = refl
length-version_name v11 h = refl

length-render_target :
    (m : Message)
    → length (render_target m)
      ≡ 1
        + length m.path
        + length (part b';' m.parameters)
        + length (part b'?' m.query)
        + length (part b'#' m.fragment)
length-render_target m = omega (
  arith,
  length-append m.path (part b';' m.parameters ++ (part b'?' m.query ++ part b'#' m.fragment)),
  length-append (part b';' m.parameters) (part b'?' m.query ++ part b'#' m.fragment),
  length-append (part b'?' m.query) (part b'#' m.fragment),
)

length-render_title :
    (m : Message)
    → IsPlain m
    → target_end m (length (method_name m.command) + 1) + 1 + 10 ≡ length (render_title m)
length-render_title m plain = omega (
  arith,
  length-append (method_name m.command ++ (b' ' ∷ []))
      ((render_target m ++ (b' ' ∷ [])) ++ (version_name m.version ++ line_end)),
  length-append (method_name m.command) (b' ' ∷ []),
  length-append (render_target m ++ (b' ' ∷ [])) (version_name m.version ++ line_end),
  length-append (render_target m) (b' ' ∷ []),
  length-render_target m,
  length-version_name m.version plain.version,
)

module _ (heap : Heap) (granted : (n : ℕ) → grants (heap n) ≡ true) (ctx : Http) where
  title-Feeds :
      (m : Message)
      → IsPlain m
      → length (text ctx.request.url) + 1 + length m.path ≤ ctx.attrs.url_max_size
      → length (render_title m) ≤ ctx.attrs.header_max_size
      → Feeds heap (at ctx Sreq.start (some []) (some []) (some []) 0) (render_title m) (
          at
            (asking ctx
              (record (with_target m ctx.request) { command = m.command; version = m.version }))
            Sreq.header_name
            (some [])
            (some [])
            (some [])
            (length (render_title m)))
  unfolding cleanup
  title-Feeds m plain short room =
      let n : ℕ = length (method_name m.command) + 1 in
      let l : target_end m n + 1 + 10 ≡ length (render_title m) = length-render_title m plain in
      rw (← l) (
        Feeds-append (method_name m.command ++ (b' ' ∷ []))
          ((render_target m ++ (b' ' ∷ [])) ++ (version_name m.version ++ line_end))
          (method-Feeds heap granted ctx (some []) (some []) m.command plain.method
            (omega (arith, l)))
          (Feeds-append (render_target m ++ (b' ' ∷ [])) (version_name m.version ++ line_end)
            (target-Feeds heap granted ctx (some []) (some []) (some []) m
              (record (ctx.request) { command = m.command }) n plain short (omega (arith, l)))
            (version-Feeds heap granted
              (asking ctx (with_target m (record (ctx.request) { command = m.command }))) (some [])
              (some []) m.version [] (target_end m n + 1) plain.version (omega (arith, l)))))

  -- All but the last line feed.
  pub open-Feeds :
      (m : Message)
      → IsPlain m
      → length (text ctx.request.url) + 1 + length m.path ≤ ctx.attrs.url_max_size
      → open_end m ≤ ctx.attrs.header_max_size
      → Feeds heap (at ctx Sreq.start (some []) (some []) (some []) 0) (render_open m) (
          at
            (asking ctx (asked m ctx.request))
            Sreq.header_cr2
            (some [])
            (some [])
            (some [])
            (open_end m))
  open-Feeds m plain short room =
      let l : open_end m ≡ length (render_title m) + length (field_texts (m.field ∷ m.fields)) + 1 =
        omega (
          arith,
          length-append (render_title m) (field_texts (m.field ∷ m.fields) ++ (cr ∷ [])),
          length-append (field_texts (m.field ∷ m.fields)) (cr ∷ []),
        ) in
      rw l (
        Feeds-append (render_title m) (field_texts (m.field ∷ m.fields) ++ (cr ∷ []))
          (title-Feeds m plain short (omega (arith, l)))
          (fields-Feeds heap granted ctx (some []) m.field m.fields
            (record (with_target m ctx.request) { command = m.command; version = m.version })
            (length (render_title m)) plain.field plain.fields (omega (arith, l))))
