-- ===== src/Http/Chunk/Feed.antt =====
-- Runs of the chunk automaton for a request, with an allocator that grants.
use erishttp.Common.{
  ℕ, suc, ◌+◌, ◌*◌, ◌%◌, ◌^◌, ◌≤◌, ◌<◌, ◌≡◌, inl, inr, refl, sym, ◌∙◌, ap, true, false, not, ◌||◌,
  none, some, List, [], ◌∷◌, ◌++◌, append_assoc, append-nil, arith, length, length-append, All, ltb,
  ◌==◌, Errno, ok, is_ok,
}
use erishttp.EString.{EString}
use erishttp.Buffer
use erishttp.Buffer.{Buffer, contents}
use erishttp.Buffer.Block.{Grant}
use erishttp.Buffer.Inv.{IsValid}
use erishttp.Buffer.Append.{append_c-Outcome, alloc-append_c, length-contents}
use erishttp.UrlEncode.{is_hex}
use erishttp.Http.Types.{Http, ChunkState}
use erishttp.Http.Header.{Heap, grants, cr}
use erishttp.Http.Header.Feed.{grow, extend, append_c-grow}
use erishttp.Http.Chunk.{
  request, Chunk, put_body, counted, push_body, on_chunk_size, on_chunk_data, step, is_too_large,
  parse_bytes,
}

-- a state that has not stopped, with its state, size text, body, chunk size and count
abbrev pub at : Http → ChunkState → EString → Buffer → ℕ → ℕ → Chunk
at ctx st es b n m = record {
  context = record ctx {
    request = record (ctx.request) { body = b };
    chunk_state = st;
    chunked_end = false;
    chunk_size = n;
    tmp_chunk_size = m;
  };
  size_s = es;
  rc = ok;
}

-- the body after the bytes of some data
abbrev pub filled : Heap → ℕ → List ℕ → Buffer → Buffer
filled heap i [] b = b
filled heap i (c ∷ cs) b = filled heap (i + 1) cs (Buffer.append_c (heap i) b c).1

module _ (heap : Heap) (granted : (n : ℕ) → grants (heap n) ≡ true) where
  -- what one byte of the body needs and leaves
  pub record Put (i : ℕ) (b : Buffer) (c : ℕ) : Type 0 where
    pub fine : (Buffer.append_c (heap i) b c).0 ≡ ok
    pub valid : IsValid (Buffer.append_c (heap i) b c).1
    pub bytes : contents (Buffer.append_c (heap i) b c).1 ≡ contents b ++ (c ∷ [])
    pub room : (Buffer.append_c (heap i) b c).1.alloc ≤ b.alloc + 4
    pub longer : (Buffer.append_c (heap i) b c).1.size ≡ b.size + 1

  pub put : (i : ℕ) (b : Buffer) (c : ℕ) → IsValid b → b.alloc + 4 < 2 ^ 64 → Put i b c
  put i b c v h = elim (append_c-Outcome (heap i) c v h) [
    | inr (bad, same, refused, tight) ↦ absurd (not_refused (heap i) (granted i) refused)
    | inl (fine, a) ↦ record {
      fine = fine;
      valid = a.valid;
      bytes = a.bytes;
      room = alloc-append_c (heap i) b c h;
      longer =
          sym (length-contents a.valid)
          ∙ ap length a.bytes
          ∙ length-append (contents b) (c ∷ [])
          ∙ ap (λ (n : ℕ). n + 1) (length-contents v);
    }
  ]
    where
      not_refused : (g : Grant) → grants g ≡ true → ¬ (g ≡ none)
      not_refused none e f = cc
      not_refused (some junk) e f = cc

  pub filled_lem :
      (i : ℕ) (cs : List ℕ) (b : Buffer)
      → IsValid b
      → b.alloc + 4 * length cs < 2 ^ 64
      → IsValid (filled heap i cs b)
        × (contents (filled heap i cs b) ≡ contents b ++ cs)
        × ((filled heap i cs b).alloc ≤ b.alloc + 4 * length cs)
        × ((filled heap i cs b).size ≡ b.size + length cs)
  filled_lem i [] b v h = (v, sym (append-nil (contents b)), omega arith, omega arith)
  filled_lem i (c ∷ cs) b v h =
      let p = put i b c v (omega arith) in
      let b' : Buffer = (Buffer.append_c (heap i) b c).1 in
      let (w, bytes, room, longer) = filled_lem (i + 1) cs b' p.valid (omega (arith, p.room)) in
      (
        w,
        bytes ∙ ap (λ t. t ++ cs) p.bytes ∙ append_assoc (contents b) (c ∷ []) cs,
        omega (arith, p.room, room),
        omega (arith, p.longer, longer),
      )

  pub one_byte :
      (i c : ℕ) (rest : List ℕ) (k : Chunk) {r : Chunk}
      → is_too_large request k ≡ false
      → step request (heap i) c k.context.chunk_state k ≡ r
      → (not (is_ok r.rc) || r.context.chunked_end) ≡ false
      → parse_bytes heap request i (c ∷ rest) k ≡ parse_bytes heap request (i + 1) rest r
  unfolding parse_bytes
  one_byte i c rest k fits e on = rw (fits, e, on) refl

  put_body-ok :
      (r : Errno × Buffer) (k : Chunk)
      → r.0 ≡ ok
      → put_body request r k ≡ record k {
        context = record (k.context) { request = record (k.context.request) { body = r.1 } };
      }
  put_body-ok (ok, b) k h = refl
  put_body-ok (_, b) k h = cc

  -- a byte of data, stored and counted
  pub push_body-at :
      (ctx : Http) (st : ChunkState) (es : EString) (b : Buffer) (n m i c : ℕ)
      → IsValid b
      → b.alloc + 4 < 2 ^ 64
      → m + 1 < 2 ^ 64
      → push_body request (heap i) c (at ctx st es b n m)
        ≡ at ctx st es (Buffer.append_c (heap i) b c).1 n (m + 1)
  push_body-at ctx st es b n m i c v h small =
      let p = put i b c v h in
      let e : (m + 1) % 2 ^ 64 ≡ m + 1 = omega arith in
      ap counted (put_body-ok (Buffer.append_c (heap i) b c) (at ctx st es b n m) p.fine)
      ∙ ap (λ (t : ℕ). at ctx st es (Buffer.append_c (heap i) b c).1 n t) e

  -- the digits of a size behind the first
  pub digits-run :
      (ctx : Http) (b : Buffer) (n m : ℕ) (ds rest : List ℕ) (es : EString) (i : ℕ)
      → All (λ d. is_hex d ≡ true) ds
      → b.size ≤ ctx.attrs.body_max_size
      → parse_bytes heap request i (ds ++ rest) (at ctx ChunkState.chunk_size es b n m)
        ≡ parse_bytes heap request
            (i + length ds)
            rest
            (at ctx ChunkState.chunk_size (extend es ds) b n m)
  unfolding on_chunk_size
  digits-run ctx b n m [] rest es i all fits = let e : i + 0 ≡ i = omega arith in rw e refl
  digits-run ctx b n m (d ∷ ds) rest es i (hex, all) fits =
      let e : i + suc (length ds) ≡ i + 1 + length ds = omega arith in
      rw e (
        one_byte i d (ds ++ rest) (at ctx ChunkState.chunk_size es b n m) (ground arith)
          (rw (hex, granted i, append_c-grow es d (ground arith)) refl) refl
        ∙ digits-run ctx b n m ds rest (grow es d) (i + 1) all fits)

  -- the data of a chunk behind its first byte
  pub data-run :
      (ctx : Http) (es : EString) (n : ℕ) (cs rest : List ℕ) (b : Buffer) (m i : ℕ)
      → All (λ c. (c == cr) ≡ false) cs
      → IsValid b
      → b.alloc + 4 * length cs < 2 ^ 64
      → n < 2 ^ 64
      → m + length cs ≤ n
      → b.size + length cs ≤ ctx.attrs.body_max_size
      → parse_bytes heap request i (cs ++ rest) (at ctx ChunkState.chunk_data es b n m)
        ≡ parse_bytes heap request
            (i + length cs)
            rest
            (at ctx ChunkState.chunk_data es (filled heap i cs b) n (m + length cs))
  unfolding on_chunk_data
  data-run ctx es n [] rest b m i all v room small short fits =
      let e : i + 0 ≡ i = omega arith in let f : m + 0 ≡ m = omega arith in rw (e, f) refl
  data-run ctx es n (c ∷ cs) rest b m i (plain, all) v room small short fits =
      let e : i + suc (length cs) ≡ i + 1 + length cs = omega arith in
      let f : m + suc (length cs) ≡ m + 1 + length cs = omega arith in
      let p = put i b c v (omega arith) in
      let below : ltb m n ≡ true = ground arith in
      rw (e, f)
        (one_byte i c (cs ++ rest) (at ctx ChunkState.chunk_data es b n m) (ground arith)
            (rw (plain, below)
              (push_body-at ctx ChunkState.chunk_data es b n m i c v (omega arith) (omega arith)))
            refl
          ∙ data-run ctx es n cs rest (Buffer.append_c (heap i) b c).1 (m + 1) (i + 1) all p.valid
              (omega (arith, p.room)) small (omega arith) (omega (arith, p.longer)))
