-- ===== src/Http/Chunk/Answer.antt =====
-- How a call of the chunk parser for a request can end.
use erishttp.Common.{
  ℕ, ◌+◌, ◌≤◌, ◌≡◌, ◌⊎◌, inl, inr, refl, ◌∙◌, ap, Bool, true, false, not, ◌||◌, none, List, [], ◌∷◌,
  arith, if◌then◌else◌, Bool-cases, ok, bad_data, is_ok, is_ok-ok,
}
use erishttp.Buffer.{Buffer, contents}
use erishttp.Http.Types.{Http, ChunkState}
use erishttp.Http.Fail.{refuse, answer}
use erishttp.Http.Header.{Heap}
use erishttp.Http.Chunk.{request, Chunk, fail, step, is_too_large, parse_bytes, finish, chunk_parse}
use erishttp.Http.Chunk.Branches.{Follows, step-Follows}

record Settled (ctx : Http) (k : Chunk) : Type 0 where
  answers :
      ((k.rc ≡ ok) × (k.context.response ≡ ctx.response))
      ⊎ ((is_ok k.rc ≡ false) × (400 ≤ k.context.response.status))
  small : k.context.request.body.size ≤ ctx.attrs.body_max_size + 1
  limits : k.context.attrs ≡ ctx.attrs

module _ (ctx : Http) where
  if-Settled :
      (b : Bool) {k r : Chunk}
      → (b ≡ true → Settled ctx k)
      → (b ≡ false → Settled ctx r)
      → Settled ctx (if b then k else r)
  if-Settled true f g = f refl
  if-Settled false f g = g refl

  unchanged : (k : Chunk) → k.rc ≡ ok → Settled ctx k → k.context.response ≡ ctx.response
  unchanged k e s = elim s.answers [
    | inl (_, same) ↦ same
    | inr (bad, _) ↦ absurd (ground (arith, ap is_ok e))
  ]

  too_large-Settled : (k : Chunk) → Settled ctx k → Settled ctx (fail request bad_data 413 k)
  unfolding refuse answer
  too_large-Settled k s = record {
    answers = inr (refl, omega arith);
    small = s.small;
    limits = s.limits;
  }

  Follows-Settled :
      (k r : Chunk)
      → k.rc ≡ ok
      → is_too_large request k ≡ false
      → Settled ctx k
      → Follows k r
      → Settled ctx r
  Follows-Settled k r e fits s f = record {
    answers = elim f.answers [
      | inl (fine, same) ↦ inl (fine, same ∙ unchanged k e s)
      | inr bad ↦ inr bad
    ];
    small = ground (arith, f.grown, ap (λ a. a.body_max_size) s.limits);
    limits = f.limits ∙ s.limits;
  }

  parse_bytes-Settled :
      (heap : Heap) (i : ℕ) (cs : List ℕ) (k : Chunk)
      → k.rc ≡ ok
      → Settled ctx k
      → Settled ctx (parse_bytes heap request i cs k)
  unfolding parse_bytes
  parse_bytes-Settled heap i [] k e s = s
  parse_bytes-Settled heap i (c ∷ cs) k e s =
      let r : Chunk = step request (heap i) c k.context.chunk_state k in
      if-Settled (is_too_large request k) (λ over. too_large-Settled k s)
        (λ fits.
          let t : Settled ctx r =
            Follows-Settled k r e fits s
              (step-Follows {k = k} e (heap i) c k.context.chunk_state) in
          if-Settled (not (is_ok r.rc) || r.context.chunked_end) (λ stop. t)
            (λ on. parse_bytes-Settled heap (i + 1) cs r (is_ok-ok r.rc (ground arith)) t))

-- A call of `eris_http_chunk_parse` for a request, whatever the input and the state of the automaton:
-- either it returns 0 and the answer is as before, or it returns an error and the answer has a status
-- of at least 400; a body that exceeds its limit by at most one byte still does so; and after an error,
-- or when the last chunk was read, the automaton is in its first state with no chunk begun.
pub chunk_parse-answer :
    (heap : Heap) (b : Buffer) (ctx : Http)
    → ctx.request.body.size ≤ ctx.attrs.body_max_size + 1
    → let (rc, ctx') = chunk_parse heap request b ctx in
      (((rc ≡ ok) × (ctx'.response ≡ ctx.response))
        ⊎ ((is_ok rc ≡ false) × (400 ≤ ctx'.response.status)))
      × (ctx'.request.body.size ≤ ctx.attrs.body_max_size + 1)
      × ((not (is_ok rc) || ctx'.chunked_end) ≡ true
          → (ctx'.chunk_state ≡ ChunkState.chunked)
            × (ctx'.chunk_size ≡ 0)
            × (ctx'.tmp_chunk_size ≡ 0))
unfolding chunk_parse
chunk_parse-answer heap b ctx small =
    let start : Chunk = record { context = ctx; size_s = none; rc = ok } in
    let s : Settled ctx (parse_bytes heap request 0 (contents b) start) =
      parse_bytes-Settled ctx heap 0 (contents b) start refl
        (record { answers = inl (refl, refl); small = small; limits = refl }) in
    closed (parse_bytes heap request 0 (contents b) start) s
  where
    closed :
        (k : Chunk)
        → Settled ctx k
        → let (rc, ctx') = finish k in
          (((rc ≡ ok) × (ctx'.response ≡ ctx.response))
            ⊎ ((is_ok rc ≡ false) × (400 ≤ ctx'.response.status)))
          × (ctx'.request.body.size ≤ ctx.attrs.body_max_size + 1)
          × ((not (is_ok rc) || ctx'.chunked_end) ≡ true
              → (ctx'.chunk_state ≡ ChunkState.chunked)
                × (ctx'.chunk_size ≡ 0)
                × (ctx'.tmp_chunk_size ≡ 0))
    closed k s = elim (Bool-cases (not (is_ok k.rc) || k.context.chunked_end)) [
      | inl stop ↦ rw stop (s.answers, s.small, λ h. (refl, refl, refl))
      | inr on ↦ rw on (s.answers, s.small, λ h. absurd (ground arith))
    ]
