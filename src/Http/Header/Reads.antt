-- ===== src/Http/Header/Reads.antt =====
-- Runs of the header automaton over several reads.
use erishttp.Common.{
  ℕ, suc, ◌+◌, ◌<◌, ◌≡◌, refl, sym, ◌∙◌, ap, subst, true, not, ◌&&◌, List, [], ◌∷◌, ◌++◌, arith,
  length, append-nil, ltb, All, ok, is_ok, is_ok-ok,
}
use erishttp.Buffer
use erishttp.Buffer.{Buffer, contents}
use erishttp.Http.Header.Parser.{Parser, Heap}
use erishttp.Http.Header.Loop.{parse_bytes, parse_reads, Read, received, clean_hbuffer}
use erishttp.Http.Header.Feed.{holding, Live, Trace}

pub Trace-split :
    (heap : Heap) (p q : Parser) (xs ys : List ℕ)
    → Trace heap p (xs ++ ys) q
    → (r : Parser) × Trace heap p xs r × Trace heap r ys q
Trace-split heap p q [] ys t = (p, refl, t)
Trace-split heap p q (x ∷ xs) ys (m, (live, go), t) =
    let (r, s, u) = Trace-split heap m q xs ys t in (r, (m, (live, go), s), u)

pub Trace-Live : (heap : Heap) (p q : Parser) (xs : List ℕ) → Live p → Trace heap p xs q → Live q
Trace-Live heap p q [] l t = subst Live t l
Trace-Live heap p q (x ∷ xs) l (m, (live, go), t) = Trace-Live heap m q xs live t

pub Trace-run :
    (heap : Heap) (p q : Parser) (xs : List ℕ) (b : Buffer) (i : ℕ) (rest : List ℕ)
    → Trace heap p xs q
    → parse_bytes heap i (xs ++ rest) (holding b p)
      ≡ parse_bytes heap (i + length xs) rest (holding b q)
Trace-run heap p q [] b i rest t =
    let e : i + 0 ≡ i = omega arith in rw e (ap (λ z. parse_bytes heap i rest (holding b z)) t)
Trace-run heap p q (x ∷ xs) b i rest (m, (live, go), t) =
    let e : i + suc (length xs) ≡ i + 1 + length xs = omega arith in
    rw e (go b i (xs ++ rest) ∙ Trace-run heap m q xs b (i + 1) rest t)

-- the bytes of several reads
abbrev pub joined : List Buffer → List ℕ
joined [] = []
joined (b ∷ bs) = contents b ++ joined bs

abbrev pub reads_of : List Buffer → List Read
reads_of [] = []
reads_of (b ∷ bs) = (ok, b) ∷ reads_of bs

received-holding :
    (p : Parser) (b b' : Buffer) → Live p → received (ok, b') (holding b p) ≡ holding b' p
received-holding p b b' l =
    ap (λ rc. record (holding b' p) { rc = rc }) (sym (is_ok-ok p.rc (ground arith)))

-- A parser that has not stopped takes a read that is not empty.
pub parse_reads-read :
    (heap : Heap) (p : Parser) (b b' : Buffer) (reads : List Read)
    → Live p
    → 0 < b'.size
    → parse_reads heap ((ok, b') ∷ reads) (holding b p)
      ≡ parse_reads heap reads (clean_hbuffer (parse_bytes heap 0 (contents b') (holding b' p)))
unfolding parse_reads
parse_reads-read heap p b b' reads l full =
    let go : (not p.header_finish_flag && is_ok p.rc) ≡ true = ground arith in
    let some_read : ltb 0 b'.size ≡ true = ground arith in
    rw (go, some_read)
      (ap (λ z. parse_reads heap reads (clean_hbuffer (parse_bytes heap 0 (contents b') z)))
        (received-holding p b b' l))

parse_bytes-nil : (heap : Heap) (i : ℕ) (p : Parser) → parse_bytes heap i [] p ≡ p
unfolding parse_bytes
parse_bytes-nil heap i p = refl

-- The first read overwrites the header buffer.
parse_reads-holding :
    (heap : Heap) (p : Parser) (b b' c : Buffer) (reads : List Read)
    → Live p
    → 0 < c.size
    → parse_reads heap ((ok, c) ∷ reads) (holding b p)
      ≡ parse_reads heap ((ok, c) ∷ reads) (holding b' p)
parse_reads-holding heap p b b' c reads l full =
    parse_reads-read heap p b c reads l full ∙ sym (parse_reads-read heap p b' c reads l full)

-- Reads that are not empty and together bring the bytes of a run lead to the end of that run.
pub parse_reads-Trace :
    (heap : Heap) (bs : List Buffer) (p q : Parser) (b b' c : Buffer) (more : List Read)
    → All (λ r. 0 < r.size) bs
    → 0 < c.size
    → Live p
    → Trace heap p (joined bs) q
    → parse_reads heap (reads_of bs ++ ((ok, c) ∷ more)) (holding b p)
      ≡ parse_reads heap ((ok, c) ∷ more) (holding b' q)
parse_reads-Trace heap [] p q b b' c more all full live t =
    parse_reads-holding heap p b b' c more live full
    ∙ ap (λ z. parse_reads heap ((ok, c) ∷ more) (holding b' z)) t
parse_reads-Trace heap (x ∷ bs) p q b b' c more (one, all) full live t =
    let (r, s, u) = Trace-split heap p q (contents x) (joined bs) t in
    let run : parse_bytes heap 0 (contents x) (holding x p) ≡ holding x r =
      ap (λ xs. parse_bytes heap 0 xs (holding x p)) (sym (append-nil (contents x)))
      ∙ Trace-run heap p r (contents x) x 0 [] s
      ∙ parse_bytes-nil heap (0 + length (contents x)) (holding x r) in
    parse_reads-read heap p b x (reads_of bs ++ ((ok, c) ∷ more)) live one
    ∙ ap (λ z. parse_reads heap (reads_of bs ++ ((ok, c) ∷ more)) (clean_hbuffer z)) run
    ∙ parse_reads-Trace heap bs r q (Buffer.cleanup x) b' c more all full
        (Trace-Live heap p r (contents x) live s) u
