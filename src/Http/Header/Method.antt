-- ===== src/Http/Header/Method.antt =====
-- The automaton over the method and over the version.
use erishttp.Common.{
  ℕ, suc, ◌+◌, ◌≤◌, ◌<◌, ◌≡◌, ◌≢◌, refl, subst, Bool, true, false, some, List, [], ◌∷◌, ◌++◌, arith,
  length, ◌==◌, All, not, ◌&&◌,
}
use erishttp.Buffer.{Buffer}
use erishttp.EString.{EString, is_equal, cleanup}
use erishttp.Buffer.Block.{Grant}
use erishttp.Http.Types.{
  Http, Command, unknow, get, head, post, put, delete, options, trace, patch, move, copy, link,
  unlink, purge, lock, unlock, propfind, view,
}
use erishttp.Http.Header.Parser.{Sreq, Heap, grants}
use erishttp.Http.Header.Line.{find_command, command_names, on_start, on_command}
use erishttp.Http.Header.Loop.{step}
use erishttp.Http.Header.Feed.{
  grow, extend-some, append_c-grow, at, asking, keeping, Feeds, Feeds-append, Feeds-byte,
  Feeds-text,
}
use erishttp.Http.Header.Render.{method_name}

abbrev IsMethodChar : ℕ → Type 0
IsMethodChar c = (not (c == 0) && not (c == b' ')) ≡ true

find_command-method_name :
    (c : Command) → c ≢ unknow → find_command (some (method_name c)) command_names ≡ some c
unfolding find_command is_equal
find_command-method_name unknow h = absurd (h refl)
find_command-method_name get h = refl
find_command-method_name head h = refl
find_command-method_name post h = refl
find_command-method_name put h = refl
find_command-method_name delete h = refl
find_command-method_name options h = refl
find_command-method_name trace h = refl
find_command-method_name patch h = refl
find_command-method_name move h = refl
find_command-method_name copy h = refl
find_command-method_name link h = refl
find_command-method_name unlink h = refl
find_command-method_name purge h = refl
find_command-method_name lock h = refl
find_command-method_name unlock h = refl
find_command-method_name propfind h = refl
find_command-method_name view h = refl

are_method_chars : List ℕ → Bool
are_method_chars [] = true
are_method_chars (c ∷ cs) = (not (c == 0) && not (c == b' ')) && are_method_chars cs

are_method_chars_sound : (w : List ℕ) → are_method_chars w ≡ true → All IsMethodChar w
unfolding are_method_chars
are_method_chars_sound [] h = tt
are_method_chars_sound (c ∷ cs) h = ((ground arith), are_method_chars_sound cs (ground arith))

method_name-IsMethodChar :
    (c : Command) → c ≢ unknow → (0 < length (method_name c)) × All IsMethodChar (method_name c)
unfolding are_method_chars
method_name-IsMethodChar unknow h = absurd (h refl)
method_name-IsMethodChar get h = (omega arith, are_method_chars_sound (method_name get) refl)
method_name-IsMethodChar head h = (omega arith, are_method_chars_sound (method_name head) refl)
method_name-IsMethodChar post h = (omega arith, are_method_chars_sound (method_name post) refl)
method_name-IsMethodChar put h = (omega arith, are_method_chars_sound (method_name put) refl)
method_name-IsMethodChar delete h = (omega arith, are_method_chars_sound (method_name delete) refl)
method_name-IsMethodChar options h =
    (omega arith, are_method_chars_sound (method_name options) refl)
method_name-IsMethodChar trace h = (omega arith, are_method_chars_sound (method_name trace) refl)
method_name-IsMethodChar patch h = (omega arith, are_method_chars_sound (method_name patch) refl)
method_name-IsMethodChar move h = (omega arith, are_method_chars_sound (method_name move) refl)
method_name-IsMethodChar copy h = (omega arith, are_method_chars_sound (method_name copy) refl)
method_name-IsMethodChar link h = (omega arith, are_method_chars_sound (method_name link) refl)
method_name-IsMethodChar unlink h = (omega arith, are_method_chars_sound (method_name unlink) refl)
method_name-IsMethodChar purge h = (omega arith, are_method_chars_sound (method_name purge) refl)
method_name-IsMethodChar lock h = (omega arith, are_method_chars_sound (method_name lock) refl)
method_name-IsMethodChar unlock h = (omega arith, are_method_chars_sound (method_name unlock) refl)
method_name-IsMethodChar propfind h =
    (omega arith, are_method_chars_sound (method_name propfind) refl)
method_name-IsMethodChar view h = (omega arith, are_method_chars_sound (method_name view) refl)

module _ (heap : Heap) (granted : (n : ℕ) → grants (heap n) ≡ true) (ctx : Http)
    (name value : EString) where
  start-byte :
      (n c : ℕ)
      → IsMethodChar c
      → n + 1 ≤ ctx.attrs.header_max_size
      → Feeds heap
          (at ctx Sreq.start (some []) name value n)
          (c ∷ [])
          (at ctx Sreq.command (some (c ∷ [])) name value (n + 1))
  unfolding on_start
  start-byte n c fits room =
      Feeds-byte ctx Sreq.start (some []) name value n c room
        (λ b i. rw (granted (n + 1), append_c-grow (some []) c (ground arith)) refl) refl

  command-byte :
      (es : EString) (n c : ℕ)
      → IsMethodChar c
      → n + 1 ≤ ctx.attrs.header_max_size
      → Feeds heap
          (at ctx Sreq.command es name value n)
          (c ∷ [])
          (at ctx Sreq.command (grow es c) name value (n + 1))
  unfolding on_command
  command-byte es n c fits room =
      let blank : (c == b' ') ≡ false = ground arith in
      Feeds-byte ctx Sreq.command es name value n c room
        (λ b i. rw (blank, granted (n + 1), append_c-grow es c (ground arith)) refl) refl

  -- a method name of at least one character, up to the blank
  word :
      (c : ℕ) (cs : List ℕ) (n : ℕ)
      → All IsMethodChar (c ∷ cs)
      → n + length (c ∷ cs) ≤ ctx.attrs.header_max_size
      → Feeds heap
          (at ctx Sreq.start (some []) name value n)
          (c ∷ cs)
          (at ctx Sreq.command (some (c ∷ cs)) name value (n + length (c ∷ cs)))
  word c cs n all room =
      let e : n + suc (length cs) ≡ n + 1 + length cs = omega arith in
      rw (e, ← extend-some (c ∷ []) cs)
        (Feeds-append (c ∷ []) cs (start-byte n c all.0 (omega arith)) (
          Feeds-text (λ es k. at ctx Sreq.command es name value k) IsMethodChar
            ctx.attrs.header_max_size (1 + length cs)
            (λ es k x fits r _. command-byte es k x fits r) cs (some (c ∷ [])) (n + 1) all.1
            (omega arith) (omega arith)))

  command-end :
      (c : Command) (n : ℕ)
      → c ≢ unknow
      → n + 1 ≤ ctx.attrs.header_max_size
      → Feeds heap (at ctx Sreq.command (some (method_name c)) name value n) (b' ' ∷ []) (
          at
            (asking ctx (record (ctx.request) { command = c }))
            Sreq.url_start
            (some [])
            name
            value
            (n + 1))
  unfolding on_command cleanup
  command-end c n known room =
      Feeds-byte ctx Sreq.command (some (method_name c)) name value n b' ' room
        (λ b i. rw (find_command-method_name c known) refl) refl

  -- The method and the blank behind it.
  pub method-Feeds :
      (c : Command)
      → c ≢ unknow
      → length (method_name c) + 1 ≤ ctx.attrs.header_max_size
      → Feeds heap (at ctx Sreq.start (some []) name value 0) (method_name c ++ (b' ' ∷ [])) (
          at
            (asking ctx (record (ctx.request) { command = c }))
            Sreq.url_start
            (some [])
            name
            value
            (length (method_name c) + 1))
  method-Feeds c known room =
      Feeds-append (method_name c) (b' ' ∷ [])
        (spelled (method_name c) (method_name-IsMethodChar c known).0
          (method_name-IsMethodChar c known).1 (omega arith))
        (command-end c (length (method_name c)) known room)
    where
      spelled :
          (w : List ℕ)
          → 0 < length w
          → All IsMethodChar w
          → length w ≤ ctx.attrs.header_max_size
          → Feeds heap
              (at ctx Sreq.start (some []) name value 0)
              w
              (at ctx Sreq.command (some w) name value (length w))
      spelled [] h all r = absurd (omega arith)
      spelled (x ∷ xs) h all r =
          let e : 0 + length (x ∷ xs) ≡ length (x ∷ xs) = omega arith in
          subst
            (λ k.
              Feeds heap (at ctx Sreq.start (some []) name value 0) (x ∷ xs)
                (at ctx Sreq.command (some (x ∷ xs)) name value k))
            e (word x xs 0 all (omega arith))

  -- one byte of the version, kept in the working string
  pub tmp-byte :
      (st st' : Sreq) (u u' : List ℕ) (n c : ℕ)
      → n + 1 ≤ ctx.attrs.header_max_size
      → ((b : Buffer) (g : Grant) (i : ℕ)
          → grants g ≡ true
          → step g i c st (at (keeping b ctx) st (some u) name value (n + 1))
            ≡ at (keeping b ctx) st' (some u') name value (n + 1))
      → Feeds heap
          (at ctx st (some u) name value n)
          (c ∷ [])
          (at ctx st' (some u') name value (n + 1))
  tmp-byte st st' u u' n c room e =
      Feeds-byte ctx st (some u) name value n c room (λ b i. e b (heap (n + 1)) i (granted (n + 1)))
        refl
