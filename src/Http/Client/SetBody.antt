-- ===== src/Http/Client/SetBody.antt =====
-- The body that a client sets, and the request that it packs.
use erishttp.Common.{
  ℕ, ◌+◌, ◌^◌, ◌<◌, ◌≡◌, refl, ◌∙◌, ap, some, List, [], ◌∷◌, ◌++◌, length, arith, true, inl, inr,
  if◌then◌else◌, Errno, ok,
}
use erishttp.Buffer.{Buffer, contents}
use erishttp.Buffer.Inv.{IsValid, cleanup-IsValid}
use erishttp.Buffer.Append.{Outcome, append-Outcome}
use erishttp.Http.Types.{Http}
use erishttp.Http.Body.{has_body}
use erishttp.Http.Header.{Heap, grants}
use erishttp.Http.Header.Render.{Message, render}
use erishttp.Http.Client.{with_response_body, set_body, set_body_append}
use erishttp.Http.Pack.{request_pack}
use erishttp.Http.Pack.Render.{asking, IsPackable, room_for, request_pack-render}

module _ (heap : Heap) (m : Message) (ctx : Http) where
  -- The call returned 0 and left the bytes `kept` in the body of the answer. The pack of its context
  -- gives the callback the header of `m` and the body that the request had before the call.
  abbrev pub IsSent : List ℕ → Errno × Http → Type 0
  IsSent kept (rc, ctx') =
      (rc ≡ ok)
      × (contents ctx'.response.body ≡ kept)
      × ((request_pack heap ctx').0 ≡ ok)
      × (b : Buffer) × ((request_pack heap ctx').2
          ≡ b ∷ (if has_body m.command then ctx.request.body ∷ [] else []))
      × (contents b ≡ render m)

  append-IsSent :
      (junk : ℕ) (old : Buffer) (xs : List ℕ) {kept : List ℕ} (r : Errno × Buffer)
      → contents old ++ xs ≡ kept
      → ((n : ℕ) → grants (heap n) ≡ true)
      → IsPackable m
      → IsValid ctx.hbuffer
      → ctx.hbuffer.alloc + room_for m ctx.request < 2 ^ 64
      → Outcome (some junk) old xs r
      → IsSent kept (with_response_body (asking m ctx) r)
  append-IsSent junk old xs (rc, b') e granted k v room (inr (bad, same, refused, tight)) = cc
  append-IsSent junk old xs (rc, b') e granted k v room (inl (fine, a)) =
      let ctx' : Http = (with_response_body ctx (ok, b')).1 in
      let (b, run, valid, bytes) = request_pack-render heap m ctx' granted k v room in
      (fine, a.bytes ∙ e, ap (λ r. r.0) run, b, ap (λ r. r.2) run, bytes)

-- `eris_http_request_set_body` and `eris_http_request_set_body_append` with some bytes, on a request
-- that can be packed, with memory: they return 0, and the bytes stand in the body of the answer, alone
-- or behind the old ones. `eris_http_request_pack` of the context then returns 0 and gives its
-- callback the header of the request and, if the method has a body, the body that the request had
-- before: the bytes that the client set are not sent. The conditions of the pack are those without a
-- body set, and the growth of the buffer of the answer must not overflow.
pub request_pack-set_body :
    (heap : Heap) (m : Message) (ctx : Http) (junk x : ℕ) (xs : List ℕ)
    → ((n : ℕ) → grants (heap n) ≡ true)
    → IsPackable m
    → IsValid ctx.hbuffer
    → ctx.hbuffer.alloc + room_for m ctx.request < 2 ^ 64
    → IsValid ctx.response.body
    → ctx.response.body.alloc + length (x ∷ xs) + 4 < 2 ^ 64
    → IsSent heap m ctx (x ∷ xs) (set_body (some junk) (some (x ∷ xs)) (asking m ctx))
      × IsSent heap m ctx
          (contents ctx.response.body ++ (x ∷ xs))
          (set_body_append (some junk) (some (x ∷ xs)) (asking m ctx))
unfolding set_body set_body_append
request_pack-set_body heap m ctx junk x xs granted k v room w small =
    let (valid, empty, alloc) = cleanup-IsValid w in
    (
      append-IsSent heap m ctx junk _ (x ∷ xs) _ (ap (λ (t : List ℕ). t ++ (x ∷ xs)) empty) granted
          k v room (append-Outcome (some junk) x xs valid (omega (arith, alloc))),
      append-IsSent heap m ctx junk _ (x ∷ xs) _ refl granted k v room
          (append-Outcome (some junk) x xs w small),
    )
