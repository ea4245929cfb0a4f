-- ===== src/Http/Header/Feed.antt =====
-- Runs of the header automaton that neither stop nor fail, with an allocator that grants.
use erishttp.Common.{
  ℕ, suc, ◌+◌, ◌≤◌, ◌≡◌, ◌&&◌, not, subst, sym, refl, ◌∙◌, ap, true, false, none, some, List, [],
  ◌∷◌, ◌++◌, append_assoc, append-nil, length-append, arith, length, ◌==◌, ltb, All, ok, is_ok,
}
use erishttp.Buffer.{Buffer}
use erishttp.EString.{EString, text, append_c}
use erishttp.Http.Types.{Request, Http}
use erishttp.Http.Header.Parser.{Sreq, Parser, Heap}
use erishttp.Http.Header.Loop.{step, parse_bytes}

-- a string after one more byte, and after a text
abbrev pub grow : EString → ℕ → EString
grow none c = some (c ∷ [])
grow (some xs) c = some (xs ++ (c ∷ []))

abbrev pub extend : EString → List ℕ → EString
extend es [] = es
extend es (c ∷ cs) = extend (grow es c) cs

pub extend-some : (xs ys : List ℕ) → extend (some xs) ys ≡ some (xs ++ ys)
extend-some xs [] = rw append-nil refl
extend-some xs (c ∷ cs) = extend-some (xs ++ (c ∷ [])) cs ∙ ap some (append_assoc xs (c ∷ []) cs)

pub length-grow : (es : EString) (c : ℕ) → length (text (grow es c)) ≡ length (text es) + 1
length-grow none c = refl
length-grow (some xs) c = length-append xs (c ∷ [])

pub length-extend :
    (es : EString) (w : List ℕ) → length (text (extend es w)) ≡ length (text es) + length w
length-extend es [] = omega arith
length-extend es (c ∷ cs) = omega (arith, length-extend (grow es c) cs, length-grow es c)

pub append_c-grow : (es : EString) (c : ℕ) → (c == 0) ≡ false → append_c true es c ≡ (ok, grow es c)
unfolding append_c
append_c-grow none c h = rw h refl
append_c-grow (some xs) c h = rw h refl

-- a parser that has not stopped, with its locals
abbrev pub at : Http → Sreq → EString → EString → EString → ℕ → Parser
at ctx st tmp name value n = record {
  context = ctx;
  state = st;
  tmp_s = tmp;
  hname = name;
  hvalue = value;
  header_size = n;
  header_finish_flag = false;
  rc = ok;
}

abbrev pub asking : Http → Request → Http
asking ctx r = record ctx { request = r }

abbrev pub keeping : Buffer → Http → Http
keeping b ctx = record ctx { hbuffer = b }

-- with another header buffer, which the branches up to the last character do not read
abbrev pub holding : Buffer → Parser → Parser
holding b p = record p { context = keeping b p.context }

-- Neither stopped nor failed.
abbrev pub Live : Parser → Type 0
Live p = (is_ok p.rc && not p.header_finish_flag) ≡ true

-- Given the byte `c` the automaton goes from `p` to `q` and reads on, at any place of any buffer.
abbrev pub Goes : Heap → Parser → ℕ → Parser → Type 0
Goes heap p c q =
    Live q
    × ((b : Buffer) (i : ℕ) (rest : List ℕ)
        → parse_bytes heap i (c ∷ rest) (holding b p) ≡ parse_bytes heap (i + 1) rest (holding b q))

abbrev pub Trace : Heap → Parser → List ℕ → Parser → Type 0
Trace heap p [] q = p ≡ q
Trace heap p (c ∷ cs) q = (r : Parser) × Goes heap p c r × Trace heap r cs q

Trace-append :
    (heap : Heap) (p q r : Parser) (xs ys : List ℕ)
    → Trace heap p xs q
    → Trace heap q ys r
    → Trace heap p (xs ++ ys) r
Trace-append heap p q r [] ys s t = subst (λ z. Trace heap z ys r) (sym s) t
Trace-append heap p q r (x ∷ xs) ys (m, g, s) t = (m, g, Trace-append heap m q r xs ys s t)

-- Given the bytes `xs` the automaton goes from `p` to `q`, byte by byte.
pub record Feeds (heap : Heap) (p : Parser) (xs : List ℕ) (q : Parser) : Type 0 where
  pub trace : Trace heap p xs q

module _ {heap : Heap} where
  pub Feeds-nil : (p : Parser) → Feeds heap p [] p
  Feeds-nil p = record { trace = refl }

  pub Feeds-append :
      {p q r : Parser} (xs ys : List ℕ)
      → Feeds heap p xs q
      → Feeds heap q ys r
      → Feeds heap p (xs ++ ys) r
  Feeds-append {p} {q} {r} xs ys f g = record {
    trace = Trace-append heap p q r xs ys f.trace g.trace;
  }

  -- one byte, by its branch of the automaton
  pub Feeds-byte :
      (ctx : Http) (st : Sreq) (tmp name value : EString) (n c : ℕ) {q : Parser}
      → n + 1 ≤ ctx.attrs.header_max_size
      → ((b : Buffer) (i : ℕ)
          → step (heap (n + 1)) i c st (holding b (at ctx st tmp name value (n + 1))) ≡ holding b q)
      → Live q
      → Feeds heap (at ctx st tmp name value n) (c ∷ []) q
  unfolding parse_bytes
  Feeds-byte ctx st tmp name value n c {q} room e live = record {
    trace = (q, (live, λ b i rest. rw (small, e b i, fine) refl), refl);
  }
    where
      small : ltb ctx.attrs.header_max_size (n + 1) ≡ false
      small = ground arith

      fine : is_ok q.rc ≡ true
      fine = ground arith

  -- a text, one string growing by each of its bytes
  pub Feeds-text :
      (P : EString → ℕ → Parser) (Fits : ℕ → Type 0) (limit cap : ℕ)
      → ((es : EString) (n c : ℕ)
          → Fits c
          → n + 1 ≤ limit
          → length (text es) + 1 ≤ cap
          → Feeds heap (P es n) (c ∷ []) (P (grow es c) (n + 1)))
      → (w : List ℕ) (es : EString) (n : ℕ) → All Fits w
      → n + length w ≤ limit
      → length (text es) + length w ≤ cap
      → Feeds heap (P es n) w (P (extend es w) (n + length w))
  Feeds-text P Fits limit cap one [] es n all room fits =
      let e : n + 0 ≡ n = omega arith in rw e (Feeds-nil (P es n))
  Feeds-text P Fits limit cap one (c ∷ cs) es n all room fits =
      let e : n + suc (length cs) ≡ n + 1 + length cs = omega arith in
      rw e (
        Feeds-append (c ∷ []) cs (one es n c all.0 (omega arith) (omega arith)) (
          Feeds-text P Fits limit cap one cs (grow es c) (n + 1) all.1 (omega arith)
            (omega (arith, length-grow es c))))
