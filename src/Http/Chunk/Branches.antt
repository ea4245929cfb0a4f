-- ===== src/Http/Chunk/Branches.antt =====
-- Every branch of the chunk automaton for a request, from a state that has not failed.
use erishttp.Common.{
  ℕ, ◌+◌, ◌≤◌, ◌≡◌, ◌⊎◌, inl, inr, refl, Bool, true, false, none, some, arith, ltb, ◌==◌,
  if◌then◌else◌, Errno, ok, error, bad_data, is_ok,
}
use erishttp.EString.{EString, append_c}
use erishttp.Buffer
use erishttp.Buffer.{Buffer, contents}
use erishttp.Buffer.Block.{Grant}
use erishttp.UrlEncode.{is_hex}
use erishttp.Http.Types.{ChunkState}
use erishttp.Http.Fail.{refuse, answer}
use erishttp.Http.Header.{grants, cr, lf}
use erishttp.Http.Chunk.{
  request, Chunk, goto, fail, invalid_chunk, sized, put_body, push_body, is_word, on_chunked,
  on_chunk_size, on_chunk_ext_name, on_chunk_ext_value, on_chunk_cr1, on_chunk_lf1, on_chunk_cr2,
  on_chunk_trailer_name, on_chunk_trailer_value, on_chunk_data, on_chunk_data_cr, on_chunk_data_lf,
  forget_sizes, step,
}

-- After `k`, which had not failed, `r` has not failed and has the same answer, or it has failed and
-- answers with the status of an error. The body is longer by one byte at most.
pub record Follows (k r : Chunk) : Type 0 where
  pub answers :
      ((r.rc ≡ ok) × (r.context.response ≡ k.context.response))
      ⊎ ((is_ok r.rc ≡ false) × (400 ≤ r.context.response.status))
  pub grown : r.context.request.body.size ≤ k.context.request.body.size + 1
  pub limits : r.context.attrs ≡ k.context.attrs

size-append_c : (g : Grant) (b : Buffer) (c : ℕ) → (Buffer.append_c g b c).1.size ≤ b.size + 1
unfolding Buffer.append_c
size-append_c none b c = ground arith
size-append_c (some junk) b c = ground arith

module _ {k : Chunk} (h : k.rc ≡ ok) where
  still :
      {r : Chunk}
      → r.rc ≡ ok
      → r.context.response ≡ k.context.response
      → r.context.request.body.size ≡ k.context.request.body.size
      → r.context.attrs ≡ k.context.attrs
      → Follows k r
  still e s n a = record { answers = inl (e, s); grown = omega arith; limits = a }

  failed :
      (rc : Errno) (status : ℕ) (r : Chunk)
      → is_ok rc ≡ false
      → 400 ≤ status
      → r.context.request.body.size ≤ k.context.request.body.size + 1
      → r.context.attrs ≡ k.context.attrs
      → Follows k (fail request rc status r)
  unfolding refuse answer
  failed rc status r bad s n a = record { answers = inr (bad, s); grown = n; limits = a }

  invalid : Follows k (invalid_chunk request k)
  invalid = failed bad_data 400 k refl (omega arith) (omega arith) refl

  if-Follows : (b : Bool) {q r : Chunk} → Follows k q → Follows k r → Follows k (if b then q else r)
  if-Follows true f g = f
  if-Follows false f g = g

  sized-Follows : (r : Errno × EString) → Follows k (sized request r (goto ChunkState.chunk_size k))
  sized-Follows (ok, es) = still h refl refl refl
  sized-Follows (_, es) = failed error 500 _ refl (omega arith) (omega arith) refl

  put_body-Follows :
      (r : Errno × Buffer)
      → r.1.size ≤ k.context.request.body.size + 1
      → Follows k (put_body request r k)
  put_body-Follows (ok, b) n = record { answers = inl (h, refl); grown = n; limits = refl }
  put_body-Follows (_, b) n = failed error 500 _ refl (omega arith) n refl

  push_body-Follows : (g : Grant) (c : ℕ) → Follows k (push_body request g c k)
  push_body-Follows g c =
      let f = put_body-Follows (Buffer.append_c g k.context.request.body c) (size-append_c g _ c) in
      record { answers = f.answers; grown = f.grown; limits = f.limits }

  on_chunked-Follows : (g : Grant) (c : ℕ) → Follows k (on_chunked request g c k)
  unfolding on_chunked
  on_chunked-Follows g c =
      if-Follows (is_hex c) (sized-Follows (append_c (grants g) k.size_s c)) invalid

  on_chunk_size-Follows : (g : Grant) (c : ℕ) → Follows k (on_chunk_size request g c k)
  unfolding on_chunk_size
  on_chunk_size-Follows g c =
      if-Follows (is_hex c) (sized-Follows (append_c (grants g) k.size_s c)) (
        if-Follows (c == b';') (still h refl refl refl)
          (if-Follows (c == cr) (still h refl refl refl) invalid))

  on_chunk_ext_name-Follows : (c : ℕ) → Follows k (on_chunk_ext_name request c k)
  unfolding on_chunk_ext_name
  on_chunk_ext_name-Follows c =
      if-Follows (c == b'=') (still h refl refl refl)
        (if-Follows (is_word c) (still h refl refl refl) invalid)

  on_chunk_ext_value-Follows : (c : ℕ) → Follows k (on_chunk_ext_value request c k)
  unfolding on_chunk_ext_value
  on_chunk_ext_value-Follows c = if-Follows (c == b';') (still h refl refl refl) (
      if-Follows (c == cr) (still h refl refl refl)
        (if-Follows (is_word c) (still h refl refl refl) invalid))

  on_chunk_cr1-Follows : (c : ℕ) → Follows k (on_chunk_cr1 request c k)
  unfolding on_chunk_cr1
  on_chunk_cr1-Follows c = if-Follows (c == lf) (still h refl refl refl) invalid

  on_chunk_lf1-Follows : (g : Grant) (c : ℕ) → Follows k (on_chunk_lf1 request g c k)
  unfolding on_chunk_lf1
  on_chunk_lf1-Follows g c =
      let f = push_body-Follows g c in
      if-Follows (c == cr) (still h refl refl refl) (
        if-Follows (k.context.chunk_size == 0) (still h refl refl refl)
          (record { answers = f.answers; grown = f.grown; limits = f.limits }))

  on_chunk_cr2-Follows : (c : ℕ) → Follows k (on_chunk_cr2 request c k)
  unfolding on_chunk_cr2
  on_chunk_cr2-Follows c = if-Follows (c == lf) (still h refl refl refl) invalid

  on_chunk_trailer_name-Follows : (c : ℕ) → Follows k (on_chunk_trailer_name request c k)
  unfolding on_chunk_trailer_name
  on_chunk_trailer_name-Follows c =
      if-Follows (c == b':') (still h refl refl refl)
        (if-Follows (is_word c) (still h refl refl refl) invalid)

  on_chunk_trailer_value-Follows : (c : ℕ) → Follows k (on_chunk_trailer_value request c k)
  unfolding on_chunk_trailer_value
  on_chunk_trailer_value-Follows c =
      if-Follows (c == cr) (still h refl refl refl)
        (if-Follows (is_word c) (still h refl refl refl) invalid)

  forget-Follows : {r : Chunk} → Follows k r → Follows k (forget_sizes r)
  forget-Follows f = record { answers = f.answers; grown = f.grown; limits = f.limits }

  on_chunk_data-Follows : (g : Grant) (c : ℕ) → Follows k (on_chunk_data request g c k)
  unfolding on_chunk_data
  on_chunk_data-Follows g c =
      if-Follows (c == cr)
        (forget-Follows (
          if-Follows (k.context.tmp_chunk_size == k.context.chunk_size) (still h refl refl refl) (
            failed bad_data 400 (goto ChunkState.chunk_data_cr k) refl (omega arith) (omega arith)
              refl)))
        (if-Follows (ltb k.context.tmp_chunk_size k.context.chunk_size) (push_body-Follows g c)
          invalid)

  on_chunk_data_cr-Follows : (c : ℕ) → Follows k (on_chunk_data_cr request c k)
  unfolding on_chunk_data_cr
  on_chunk_data_cr-Follows c = if-Follows (c == lf) (still h refl refl refl) invalid

  on_chunk_data_lf-Follows : (g : Grant) (c : ℕ) → Follows k (on_chunk_data_lf request g c k)
  unfolding on_chunk_data_lf
  on_chunk_data_lf-Follows g c =
      if-Follows (c == cr) (still h refl refl refl)
        (if-Follows (is_hex c) (sized-Follows (append_c (grants g) k.size_s c)) invalid)

  pub step-Follows : (g : Grant) (c : ℕ) (s : ChunkState) → Follows k (step request g c s k)
  step-Follows g c ChunkState.chunked = on_chunked-Follows g c
  step-Follows g c ChunkState.chunk_size = on_chunk_size-Follows g c
  step-Follows g c ChunkState.chunk_ext_name = on_chunk_ext_name-Follows c
  step-Follows g c ChunkState.chunk_ext_value = on_chunk_ext_value-Follows c
  step-Follows g c ChunkState.chunk_cr1 = on_chunk_cr1-Follows c
  step-Follows g c ChunkState.chunk_lf1 = on_chunk_lf1-Follows g c
  step-Follows g c ChunkState.chunk_cr2 = on_chunk_cr2-Follows c
  step-Follows g c ChunkState.chunk_lf2 = still h refl refl refl
  step-Follows g c ChunkState.chunk_trailer_name = on_chunk_trailer_name-Follows c
  step-Follows g c ChunkState.chunk_trailer_value = on_chunk_trailer_value-Follows c
  step-Follows g c ChunkState.chunk_data = on_chunk_data-Follows g c
  step-Follows g c ChunkState.chunk_data_cr = on_chunk_data_cr-Follows c
  step-Follows g c ChunkState.chunk_data_lf = on_chunk_data_lf-Follows g c
  step-Follows g c ChunkState.chunked_finish = still h refl refl refl
