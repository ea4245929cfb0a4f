-- ===== src/Http/Body/Collect.antt =====
-- The loop that collects a body of a known length.
use erishttp.Common.{
  ℕ, zero, suc, ◌+◌, ◌^◌, ◌≤◌, ◌<◌, ◌≡◌, ◌⊎◌, inl, inr, refl, sym, ◌∙◌, ap, subst, false, some,
  none, List, [], ◌∷◌, ◌++◌, take, append_assoc, append-nil, arith, length, length-append, All, ltb,
  Bool-cases, Errno, ok, client_4xx, is_ok, Option,
}
use erishttp.Buffer
use erishttp.Buffer.{Buffer, contents}
use erishttp.Buffer.Block.{Grant}
use erishttp.Buffer.Inv.{IsValid}
use erishttp.Buffer.Append.{append_es-Outcome, length-contents}
use erishttp.Http.Types.{Http}
use erishttp.Http.Fail.{refuse, answer}
use erishttp.Http.Header.{Read}
use erishttp.Http.Header.Reads.{joined}
use erishttp.Http.Body.{collect, appended, with_body}

-- what came in good reads, the allocator granting memory
abbrev pub arrived : ℕ → List Buffer → List (Grant × Read)
arrived junk [] = []
arrived junk (b ∷ bs) = (some junk, (ok, b)) ∷ arrived junk bs

-- what one read does to a body
record Grown (junk : ℕ) (body b : Buffer) : Type 0 where
  fine : (Buffer.append_es (some junk) body b).0 ≡ ok
  valid : IsValid (Buffer.append_es (some junk) body b).1
  bytes : contents (Buffer.append_es (some junk) body b).1 ≡ contents body ++ contents b
  room : (Buffer.append_es (some junk) body b).1.alloc ≤ body.alloc + b.size + 4
  longer : (Buffer.append_es (some junk) body b).1.size ≡ body.size + length (contents b)

append_es-alloc :
    (g : Grant) (body b : Buffer)
    → body.alloc + b.size + 4 < 2 ^ 64
    → (Buffer.append_es g body b).1.alloc ≤ body.alloc + b.size + 4
unfolding Buffer.append_es
append_es-alloc none body b h = ground arith
append_es-alloc (some junk) body b h = ground arith

append_es-empty :
    (g : Grant) (body b : Buffer) → ltb 0 b.size ≡ false → Buffer.append_es g body b ≡ (ok, body)
unfolding Buffer.append_es
append_es-empty g body b h = rw h refl

no_bytes : (b : Buffer) → IsValid b → ltb 0 b.size ≡ false → contents b ≡ []
no_bytes b v h = length-zero (contents b) (ground (arith, length-contents v))
  where
    length-zero : (xs : List ℕ) → length xs ≡ 0 → xs ≡ []
    length-zero [] e = refl
    length-zero (x ∷ xs) e = absurd (omega arith)

grows :
    (junk : ℕ) (body b : Buffer)
    → IsValid body
    → IsValid b
    → body.alloc + b.size + 4 < 2 ^ 64
    → Grown junk body b
grows junk body b v w h = elim (Bool-cases (ltb 0 b.size)) [
  | inr none_new ↦
      let e = append_es-empty (some junk) body b none_new in
      let nil = no_bytes b w none_new in
      record {
        fine = ap (λ r. r.0) e;
        valid = subst IsValid (sym (ap (λ r. r.1) e)) v;
        bytes =
            ap (λ r. contents r.1) e
            ∙ sym (append-nil (contents body))
            ∙ ap (λ t. contents body ++ t) (sym nil);
        room = append_es-alloc (some junk) body b h;
        longer = omega (arith, ap (λ r. r.1.size) e, ap length nil);
      }
  | inl some_new ↦ elim (append_es-Outcome (some junk) v w (ground arith) h) [
    | inr (bad, same, refused, tight) ↦ cc
    | inl (fine, a) ↦ record {
      fine = fine;
      valid = a.valid;
      bytes = a.bytes;
      room = append_es-alloc (some junk) body b h;
      longer =
          sym (length-contents a.valid)
          ∙ ap length a.bytes
          ∙ length-append (contents body) (contents b)
          ∙ ap (λ (n : ℕ). n + length (contents b)) (length-contents v);
    }
  ]
]

-- what the reads may cost in allocation
abbrev pub cost : List Buffer → ℕ
cost [] = 0
cost (b ∷ bs) = b.size + 4 + cost bs

appended-ok :
    (r : Errno × Buffer) (ctx : Http) (rest : Http → Option (Errno × Http))
    → r.0 ≡ ok
    → appended r ctx rest ≡ rest (with_body r.1 ctx)
appended-ok (ok, b) ctx rest h = refl
appended-ok (_, b) ctx rest h = cc

-- what comes behind the good reads: nothing yet, or a call that fails
abbrev pub IsEnd : List (Grant × Read) → Type 0
IsEnd [] = Unit
IsEnd ((g, (rc, b)) ∷ more) = is_ok rc ≡ false

-- With too little the loop goes on behind the reads, or ends with the failure.
abbrev pub IsShort : List (Grant × Read) → Option (Errno × Http) → Type 0
IsShort [] r = r ≡ none
IsShort (failure ∷ more) r =
    (ctx : Http) × (r ≡ some (client_4xx, ctx)) × (ctx.response.status ≡ 408)

-- The body has got the bytes of the first `k` reads, and no fewer were enough.
pub record Full (n : ℕ) (body : Buffer) (bs : List Buffer) (ctx : Http) : Type 0 where
  pub enough : n ≤ ctx.request.body.size
  pub valid : IsValid ctx.request.body
  pub k : ℕ
  pub bytes : contents ctx.request.body ≡ contents body ++ joined (take k bs)
  pub needed : (j : ℕ) → j < k → body.size + length (joined (take j bs)) < n

abbrev pub Collected :
    ℕ → Buffer → List Buffer → List (Grant × Read) → Option (Errno × Http) → Type 0
Collected n body bs end r =
    ((ctx : Http) × (r ≡ some (ok, ctx)) × Full n body bs ctx)
    ⊎ ((body.size + length (joined bs) < n) × IsShort end r)

no_read :
    (n : ℕ) (ctx : Http) (bs : List Buffer)
    → IsValid ctx.request.body
    → ltb ctx.request.body.size n ≡ false
    → Full n ctx.request.body bs ctx
no_read n ctx bs v h = record {
  enough = ground arith;
  valid = v;
  k = 0;
  bytes = sym (append-nil (contents ctx.request.body));
  needed = λ j less. absurd (omega (arith, less));
}

one_more_read :
    (n : ℕ) (x : Buffer) (xs : List Buffer) (old new : Buffer) (end : List (Grant × Read))
    (r : Option (Errno × Http))
    → old.size < n
    → contents new ≡ contents old ++ contents x
    → new.size ≡ old.size + length (contents x)
    → Collected n new xs end r
    → Collected n old (x ∷ xs) end r
one_more_read n x xs old new end r short bytes longer (inr (few, s)) =
    inr (omega (arith, longer, few, length-append (contents x) (joined xs)), s)
one_more_read n x xs old new end r short bytes longer (inl (ctx, e, f)) = inl (
  ctx,
  e,
  record {
    enough = f.enough;
    valid = f.valid;
    k = suc f.k;
    bytes =
        f.bytes
        ∙ ap (λ t. t ++ joined (take f.k xs)) bytes
        ∙ append_assoc (contents old) (contents x) (joined (take f.k xs));
    needed = few;
  },
)
  where
    few : (j : ℕ) → j < suc f.k → old.size + length (joined (take j (x ∷ xs))) < n
    few zero less = omega arith
    few (suc j) less =
        omega
          (arith, longer, f.needed j (omega arith), length-append (contents x) (joined (take j xs)))

-- The loop of `eris_http_request_parse` over a body with a Content-Length `n`, on valid reads that do
-- not fail, with an allocator that grants and sizes that do not overflow; behind the reads no call has
-- returned yet, or a call fails. Either the loop ends with 0, and the body is valid, has at least `n`
-- bytes, and these are the old bytes followed by those of the first reads, whole, of which no fewer
-- would be enough. Or all reads together, which may be without a byte, leave the body short of `n`:
-- then the loop goes on behind them, and a failing call ends it with EERIS_4XX and status 408.
pub collect-Collected :
    (n junk : ℕ) (bs : List Buffer) (end : List (Grant × Read)) (ctx : Http)
    → IsEnd end
    → IsValid ctx.request.body
    → All IsValid bs
    → ctx.request.body.alloc + cost bs < 2 ^ 64
    → Collected n ctx.request.body bs end (collect n (arrived junk bs ++ end) ctx)
unfolding collect refuse answer
collect-Collected n junk [] [] ctx ends v all room =
    elim (Bool-cases (ltb ctx.request.body.size n)) [
      | inl short ↦ rw short (inr (ground arith, refl))
      | inr full ↦ rw full (inl (ctx, refl, no_read n ctx [] v full))
    ]
collect-Collected n junk [] ((g, (rc, b)) ∷ more) ctx ends v all room =
    elim (Bool-cases (ltb ctx.request.body.size n)) [
      | inl short ↦
          rw (short, ends)
            (inr (ground arith, (refuse (record ctx { bbuffer = b }) 408, refl, refl)))
      | inr full ↦ rw full (inl (ctx, refl, no_read n ctx [] v full))
    ]
collect-Collected n junk (b ∷ bs) end ctx ends v (w, all) room =
    elim (Bool-cases (ltb ctx.request.body.size n)) [
      | inr full ↦ rw full (inl (ctx, refl, no_read n ctx (b ∷ bs) v full))
      | inl short ↦
          let g = grows junk ctx.request.body b v w (omega arith) in
          let got : Http = record ctx { bbuffer = b } in
          let body : Buffer = (Buffer.append_es (some junk) ctx.request.body b).1 in
          rw short (
            subst (Collected n ctx.request.body (b ∷ bs) end)
              (sym (
                appended-ok (Buffer.append_es (some junk) ctx.request.body b) got
                  (collect n (arrived junk bs ++ end)) g.fine))
              (one_more_read n b bs ctx.request.body body end
                (collect n (arrived junk bs ++ end) (with_body body got)) (ground arith) g.bytes
                g.longer
                (collect-Collected n junk bs end (with_body body got) ends g.valid all
                  (omega (arith, g.room)))))
    ]
