-- ===== src/Http/Header/RoundTrip.antt =====
-- The header parser on a request that a client wrote.
use erishttp.Common.{
  ℕ, suc, ◌+◌, ◌≤◌, ◌<◌, ◌≡◌, refl, sym, ◌∙◌, ap, subst, true, false, none, some, List, [], ◌∷◌,
  ◌++◌, arith, length, drop, get_or, All, append_assoc, length-append, ltb, inl, inr, Errno, ok,
}
use erishttp.EString.{free}
use erishttp.Buffer.{Buffer, contents, copy_at}
use erishttp.Buffer.Block.{Grant}
use erishttp.Buffer.Inv.{IsValid, cleanup-IsValid}
use erishttp.Buffer.Append.{length-contents}
use erishttp.Buffer.Copy.{copy_at_lem}
use erishttp.Http.Types.{Http}
use erishttp.Http.Header.Parser.{Sreq, Parser, Heap, grants, lf}
use erishttp.Http.Header.Fields.{on_header_cr2, kept_body}
use erishttp.Http.Header.Loop.{
  parse_bytes, parse_reads, parse_header, reset, cleanup_request, clean_hbuffer, Read,
}
use erishttp.Http.Header.Feed.{at, asking, keeping, holding, Trace}
use erishttp.Http.Header.Reads.{
  joined, reads_of, Trace-split, Trace-Live, Trace-run, parse_reads-read, parse_reads-Trace,
}
use erishttp.Http.Header.Open.{asked, open_end, open-Feeds}
use erishttp.Http.Header.Render.{Message, IsPlain, render_open, render}

drop-append : (xs ys : List ℕ) (c : ℕ) → drop (length xs + 1) (xs ++ (c ∷ ys)) ≡ ys
drop-append [] ys c = refl
drop-append (x ∷ xs) ys c =
    let k : suc (length xs) + 1 ≡ suc (length xs + 1) = omega arith in rw k (drop-append xs ys c)

not_refused : (g : Grant) → grants g ≡ true → ¬ (g ≡ none)
not_refused none h e = cc
not_refused (some junk) h e = cc

kept_body-ok :
    (r : Errno × Buffer) (p : Parser)
    → r.0 ≡ ok
    → kept_body r p ≡ record p { context = record (p.context) { bbuffer = r.1 } }
kept_body-ok (ok, b) p h = refl
kept_body-ok (_, b) p h = cc

-- A header that ended well, with what stands behind it.
abbrev Ended : Http → List ℕ → Parser → Type 0
Ended ctx body p =
    (p.rc ≡ ok)
    × (p.header_finish_flag ≡ true)
    × (p.context.request ≡ ctx.request)
    × (p.context.response ≡ ctx.response)
    × (contents p.context.bbuffer ≡ body)

-- the parser after the last character of the header
abbrev finished : Http → ℕ → Parser
finished ctx n = record (at ctx Sreq.header_lf2 (some []) (some []) (some []) (n + 1)) {
  header_finish_flag = true;
}

last-Ended :
    (heap : Heap) (granted : (n : ℕ) → grants (heap n) ≡ true) (ctx : Http) (xs body : List ℕ)
    (n : ℕ)
    → IsValid ctx.hbuffer
    → IsValid ctx.bbuffer
    → contents ctx.bbuffer ≡ []
    → contents ctx.hbuffer ≡ xs ++ (lf ∷ body)
    → n + 2 ≤ ctx.attrs.header_max_size
    → Ended ctx body (
        parse_bytes heap
          (length xs)
          (lf ∷ body)
          (at ctx Sreq.header_cr2 (some []) (some []) (some []) n))
unfolding parse_bytes on_header_cr2
last-Ended heap granted ctx xs body n vh vb clean held room = split body held
  where
    small : ltb ctx.attrs.header_max_size (n + 1) ≡ false
    small = ground arith

    small' : ltb ctx.attrs.header_max_size (n + 1 + 1) ≡ false
    small' = ground arith

    split :
        (cs : List ℕ)
        → contents ctx.hbuffer ≡ xs ++ (lf ∷ cs)
        → Ended ctx cs (
            parse_bytes heap
              (length xs)
              (lf ∷ cs)
              (at ctx Sreq.header_cr2 (some []) (some []) (some []) n))
    split [] e =
        let s : ctx.hbuffer.size ≡ length xs + 1 =
          sym (length-contents vh) ∙ ap length e ∙ length-append xs (lf ∷ []) in
        let none_left : ltb (length xs + 1) ctx.hbuffer.size ≡ false = ground arith in
        rw (small, none_left) (refl, refl, refl, refl, clean)
    split (c ∷ cs) e =
        let s : ctx.hbuffer.size ≡ length xs + suc (suc (length cs)) =
          sym (length-contents vh) ∙ ap length e ∙ length-append xs (lf ∷ c ∷ cs) in
        let some_left : ltb (length xs + 1) ctx.hbuffer.size ≡ true = ground arith in
        elim (copy_at_lem (heap (n + 1)) (length xs + 1) vb vh (omega arith)) [
          | inr (bad, same, refused, tight) ↦
              absurd (not_refused (heap (n + 1)) (granted (n + 1)) refused)
          | inl (fine, holds) ↦
              rw
                (
                  small,
                  some_left,
                  kept_body-ok (copy_at (heap (n + 1)) ctx.bbuffer ctx.hbuffer (length xs + 1))
                      (finished ctx n) fine,
                  small',
                )
                (
                  refl,
                  refl,
                  refl,
                  refl,
                  holds.bytes ∙ ap (drop (length xs + 1)) e ∙ drop-append xs (c ∷ cs) lf,
                )
        ]

-- Two ways to cut a text: the rest of the longer first part.
cut :
    (xs ys us vs : List ℕ)
    → xs ++ ys ≡ us ++ vs
    → length xs ≤ length us
    → (zs : List ℕ) × (xs ++ zs ≡ us) × (ys ≡ zs ++ vs)
cut [] ys us vs e h = (us, refl, e)
cut (x ∷ xs) ys [] vs e h = absurd (omega arith)
cut (x ∷ xs) ys (u ∷ us) vs e h =
    let (zs, a, b) = cut xs ys us vs (ap (drop 1) e) (omega arith) in
    let same : x ≡ u = ap (λ ws. get_or ws 0 0) e in (zs, rw (same, a) refl, b)

-- A finished parser reads no more.
finished-parse_reads :
    (heap : Heap) (reads : List Read) (p : Parser)
    → p.header_finish_flag ≡ true
    → parse_reads heap reads p ≡ clean_hbuffer p
unfolding parse_reads
finished-parse_reads heap [] p h = rw h refl
finished-parse_reads heap (read ∷ reads) p h = rw h refl

-- `eris_http_request_parse` on a request that a client wrote, however it comes in reads: reads that
-- are not empty, of which the last brings the end of the header and the bytes `body`. The header part
-- succeeds; the context's request has the method, the target, the version and all header lines of
-- the message, its answer is unchanged, and the body buffer holds the bytes behind the header. The
-- parameters and the fragment stand behind those that were left from an earlier request. The
-- allocator must grant what is asked, the path with its slash must fit in the URL limit, the header
-- and one byte in the header limit, and the buffers must be valid.
pub parse_header-render :
    (heap : Heap) (m : Message) (bs : List Buffer) {b : Buffer} (body : List ℕ) (more : List Read)
    (ctx : Http)
    → ((n : ℕ) → grants (heap n) ≡ true)
    → IsPlain m
    → IsValid b
    → IsValid ctx.bbuffer
    → All (λ r. 0 < r.size) bs
    → joined bs ++ contents b ≡ render m ++ body
    → length (joined bs) < length (render m)
    → 1 + length m.path ≤ ctx.attrs.url_max_size
    → length (render m) + 1 ≤ ctx.attrs.header_max_size
    → let p = parse_header heap (reads_of bs ++ ((ok, b) ∷ more)) ctx in
      (p.rc ≡ ok)
      × (p.header_finish_flag ≡ true)
      × (p.context.request ≡ asked m (cleanup_request ctx).request)
      × (p.context.response ≡ ctx.response)
      × (contents p.context.bbuffer ≡ body)
unfolding parse_header render reset cleanup_request free
parse_header-render heap m bs {b} body more ctx granted plain vb vbody full held before short room =
    let (zs, front, back) =
      cut (joined bs) (contents b) (render_open m) (lf ∷ body)
        (held ∙ append_assoc (render_open m) (lf ∷ []) body)
        (omega (arith, length-append (render_open m) (lf ∷ []))) in
    let start : Parser = at (reset ctx) Sreq.start (some []) (some []) (some []) 0 in
    let o : Parser =
      at (asking (reset ctx) (asked m (reset ctx).request)) Sreq.header_cr2 (some []) (some [])
        (some []) (open_end m) in
    let long : length (render_open m) + 1 ≡ length (render m) =
      omega (arith, length-append (render_open m) (lf ∷ [])) in
    let whole : Trace heap start (render_open m) o =
      (open-Feeds heap granted (reset ctx) m plain (omega arith) (omega (arith, long))).trace in
    let (q, s, u) =
      Trace-split heap start o (joined bs) zs
        (subst (λ xs. Trace heap start xs o) (sym front) whole) in
    let b_full : 0 < b.size =
      omega (arith, length-contents vb, ap length back, length-append zs (lf ∷ body)) in
    let (vbody', clean, al) = cleanup-IsValid vbody in
    let ended =
      last-Ended heap granted (keeping b (asking (reset ctx) (asked m (reset ctx).request))) zs body
        (open_end m) vb vbody' clean back (omega (arith, long)) in
    let r : Parser = parse_bytes heap (length zs) (lf ∷ body) (holding b o) in
    let run : parse_bytes heap 0 (contents b) (holding b q) ≡ r =
      ap (λ xs. parse_bytes heap 0 xs (holding b q)) back
      ∙ Trace-run heap q o zs b 0 (lf ∷ body) u
      ∙ ap (λ i. parse_bytes heap i (lf ∷ body) (holding b o)) (omega arith) in
    let all_reads : parse_reads heap (reads_of bs ++ ((ok, b) ∷ more)) start
        ≡ clean_hbuffer (clean_hbuffer r) =
      parse_reads-Trace heap bs start q (reset ctx).hbuffer b b more full b_full refl s
      ∙ parse_reads-read heap q b b more (Trace-Live heap start q (joined bs) refl s) b_full
      ∙ ap (λ z. parse_reads heap more (clean_hbuffer z)) run
      ∙ finished-parse_reads heap more (clean_hbuffer r) ended.1 in
    rw (granted 0)
      (subst (Ended (asking (reset ctx) (asked m (reset ctx).request)) body) (sym all_reads) ended)
