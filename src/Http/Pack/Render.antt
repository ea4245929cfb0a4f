-- ===== src/Http/Pack/Render.antt =====
-- A packed request is the text that a client writes.
use erishttp.Common.{
  ℕ, suc, ◌+◌, ◌<◌, ◌^◌, ◌≡◌, ◌≢◌, ◌∙◌, refl, ap, true, none, some, List, [], ◌∷◌, ◌++◌,
  append_assoc, arith, length, get_or, map, if◌then◌else◌, ok, ltb,
}
use erishttp.Buffer.{Buffer, contents}
use erishttp.Buffer as buffer
use erishttp.Buffer.Inv.{IsValid, cleanup-IsValid}
use erishttp.EString.{EString, size}
use erishttp.Http.Types.{
  Command, unknow, propfind, view, Version, v00, v09, v10, v11, Request, Http,
}
use erishttp.Http.Header.Parser.{Heap, grants}
use erishttp.Http.Header.Render.{
  Message, Field, render, render_title, field_texts, part, method_name, version_name, line_end,
}
use erishttp.Http.Header.Lines.{node}
use erishttp.Http.Pack.Pieces.{Piece, bytes, char, put_pieces}
use erishttp.Http.Pack.Bytes.{all_bytes, cost, put_pieces-bytes}
use erishttp.Http.Pack.{
  command_v, command_arrs, marked, before_version, from_version, header_pieces, version_tos,
  with_version, chosen_version, crlf, request_pack, with_command, chosen_command, written,
  pack_from, pack_rest,
}
use erishttp.Http.Body.{has_body}

-- `r` with what a message says; the header lines in the order in which they are written
abbrev pub request_of : Message → Request → Request
request_of m r = record r {
  command = m.command;
  url = some (b'/' ∷ m.path);
  parameters = m.parameters;
  query = m.query;
  fragment = m.fragment;
  version = m.version;
  headers = map node (m.field ∷ m.fields);
}

-- The method is one whose number is its place in the table, the version is known, and no part is
-- there and empty.
pub record IsPackable (m : Message) : Type 0 where
  pub method : m.command ≢ unknow
  pub no_propfind : m.command ≢ propfind
  pub no_view : m.command ≢ view
  pub version : m.version ≢ v00
  pub parameters : m.parameters ≢ some []
  pub query : m.query ≢ some []
  pub fragment : m.fragment ≢ some []

command_arrs-method_name :
    (c : Command)
    → c ≢ unknow
    → c ≢ propfind
    → c ≢ view
    → get_or command_arrs (command_v c) [] ≡ method_name c
command_arrs-method_name unknow u p v = absurd (u refl)
command_arrs-method_name propfind u p v = absurd (p refl)
command_arrs-method_name view u p v = absurd (v refl)
command_arrs-method_name _ u p v = refl

chosen_command_self : (c : Command) → c ≢ unknow → chosen_command c ≡ c
chosen_command_self unknow u = absurd (u refl)
chosen_command_self _ u = refl

version_tos-version_name : (v : Version) → v ≢ v00 → version_tos v ≡ version_name v
version_tos-version_name v00 h = absurd (h refl)
version_tos-version_name v09 h = refl
version_tos-version_name v10 h = refl
version_tos-version_name v11 h = refl

ltb-suc : (n : ℕ) → ltb 0 (suc n) ≡ true
ltb-suc n = ground arith

marked-bytes :
    (mark : ℕ) (es : EString) (ps : List Piece)
    → es ≢ some []
    → all_bytes (marked mark es ++ ps) ≡ part mark es ++ all_bytes ps
unfolding marked size
marked-bytes mark none ps h = refl
marked-bytes mark (some []) ps h = absurd (h refl)
marked-bytes mark (some (x ∷ xs)) ps h = rw (ltb-suc (length xs)) refl

header_pieces-bytes :
    (fs : List Field) (ps : List Piece)
    → all_bytes (header_pieces (map node fs) ++ ps) ≡ field_texts fs ++ all_bytes ps
header_pieces-bytes [] ps = refl
header_pieces-bytes (f ∷ fs) ps = simp (append_assoc, header_pieces-bytes fs ps)

title-bytes :
    (m : Message) (r : Request) (end : List ℕ)
    → IsPackable m
    → all_bytes (before_version (request_of m r)) ++ (version_name m.version ++ (line_end ++ end))
      ≡ render_title m ++ end
title-bytes m r end k = simp (
  command_arrs-method_name m.command k.method k.no_propfind k.no_view,
  marked-bytes b';' m.parameters
      (marked b'?' m.query ++ (marked b'#' m.fragment ++ (char b' ' ∷ []))) k.parameters,
  marked-bytes b'?' m.query (marked b'#' m.fragment ++ (char b' ' ∷ [])) k.query,
  marked-bytes b'#' m.fragment (char b' ' ∷ []) k.fragment,
  append_assoc,
)

rest-bytes :
    (m : Message) (r : Request)
    → IsPackable m
    → all_bytes (from_version (request_of m r))
      ≡ version_name m.version ++ (line_end ++ (field_texts (m.field ∷ m.fields) ++ line_end))
rest-bytes m r k = simp (
  version_tos-version_name m.version k.version,
  header_pieces-bytes m.fields (bytes crlf ∷ []),
  append_assoc,
)

request-bytes :
    (m : Message) (r : Request)
    → IsPackable m
    → all_bytes (before_version (request_of m r)) ++ all_bytes (from_version (request_of m r))
      ≡ render m
unfolding render
request-bytes m r k =
    ap (λ xs. all_bytes (before_version (request_of m r)) ++ xs) (rest-bytes m r k)
    ∙ title-bytes m r (field_texts (m.field ∷ m.fields) ++ line_end) k
    ∙ simp append_assoc

abbrev pub asking : Message → Http → Http
asking m ctx = record ctx { request = request_of m ctx.request }

chosen_version_self :
    (m : Message) (r : Request)
    → m.version ≢ v00
    → with_version ok (request_of m r) ≡ request_of m r
chosen_version_self m r h = ap (λ v. record (request_of m r) { version = v }) (same m.version h)
  where
    same : (v : Version) → v ≢ v00 → chosen_version v ≡ v
    same v00 h = absurd (h refl)
    same v09 h = refl
    same v10 h = refl
    same v11 h = refl

pack_steps :
    (heap : Heap) (ctx : Http) (r : Request) (b1 b2 : Buffer)
    → with_command (chosen_command ctx.request.command) ctx.request ≡ r
    → put_pieces heap 0 (before_version r) (ok, buffer.cleanup ctx.hbuffer) ≡ (ok, b1)
    → with_version ok r ≡ r
    → put_pieces heap (length (before_version r)) (from_version r) (ok, b1) ≡ (ok, b2)
    → request_pack heap ctx ≡ written (record ctx { request = r }) (ok, b2)
unfolding request_pack
pack_steps heap ctx r b1 b2 e1 e2 e3 e4 =
    ap (pack_from heap ctx) e1
    ∙ ap (pack_rest heap ctx r) e2
    ∙ ap
        (λ r'.
          written (record ctx { request = r' })
            (put_pieces heap (length (before_version r)) (from_version r') (ok, b1)))
        e3
    ∙ ap (written (record ctx { request = r })) e4

-- what the pack of `m` may add to an allocation
abbrev pub room_for : Message → Request → ℕ
room_for m r = cost (before_version (request_of m r)) + cost (from_version (request_of m r))

-- With memory for it, the pack of a request of a method and version that the tables know, no part of
-- which is there and empty, gives the callback the text that a client writes for the request, and
-- then the body if the method has one; it returns 0.
pub request_pack-render :
    (heap : Heap) (m : Message) (ctx : Http)
    → ((n : ℕ) → grants (heap n) ≡ true)
    → IsPackable m
    → IsValid ctx.hbuffer
    → ctx.hbuffer.alloc + room_for m ctx.request < 2 ^ 64
    → (b : Buffer) × (request_pack heap (asking m ctx) ≡ (
      ok,
      record (asking m ctx) { hbuffer = b },
      b ∷ (if has_body m.command then ctx.request.body ∷ [] else []),
    ))
      × IsValid b
      × (contents b ≡ render m)
request_pack-render heap m ctx granted k v room =
    let r = request_of m ctx.request in
    let (valid, empty, alloc) = cleanup-IsValid v in
    let (b1, run1, v1, bytes1, le1) =
      put_pieces-bytes heap 0 (before_version r) (buffer.cleanup ctx.hbuffer) granted valid
        (omega (arith, alloc)) in
    let (b2, run2, v2, bytes2, le2) =
      put_pieces-bytes heap (length (before_version r)) (from_version r) b1 granted v1
        (omega (arith, alloc, le1)) in
    (
      b2,
      pack_steps heap (asking m ctx) r b1 b2
          (ap (λ c. with_command c r) (chosen_command_self m.command k.method)) run1
          (chosen_version_self m ctx.request k.version) run2,
      v2,
      bytes2 ∙ rw (bytes1, empty) (request-bytes m ctx.request k),
    )
