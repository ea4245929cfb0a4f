-- ===== src/UrlEncode/Decoder.antt =====
-- The decoding automaton against the description of `Spec`.
use mathlib.Core.Path.{fun_ext}
use erishttp.Common.{
  ℕ, ◌+◌, ◌*◌, ◌<◌, ◌≡◌, refl, sym, ◌∙◌, ap, ◌&&◌, ◌||◌, not, Bool, true, false, List, [], ◌∷◌,
  ◌==◌, if◌then◌else◌, Bool-cases, inl, inr, arith, every_below, every_below-at, Errno, ok, error,
  ==_iff,
}
use erishttp.UrlEncode.{
  State, start, alnum, sign, percent, hex1, hex2, Mode, is_hex, high_half, join_half, on_literal,
  on_percent, on_hex1, dispatch, decode_loop, next,
}
use erishttp.UrlEncode.Spec.{digit, onto, literal, decoded, feed, finish}

high_half_table : every_below 103 (λ c. not (is_hex c) || (high_half c == digit c * 16)) ≡ true
unfolding every_below high_half
high_half_table = refl

join_half_table :
    every_below 16
      (λ a. every_below 103 (λ c. not (is_hex c) || (join_half (a * 16) c == a * 16 + digit c)))
    ≡ true
unfolding every_below join_half
join_half_table = refl

is_hex-lt : (c : ℕ) → is_hex c ≡ true → (c < 103) × (digit c < 16)
is_hex-lt c h = ground arith

high_half_lem : (c : ℕ) → is_hex c ≡ true → high_half c ≡ digit c * 16
high_half_lem c h =
    let row = every_below-at 103 _ (is_hex-lt c h).0 high_half_table in (==_iff _ _).0 (rw h at row)

join_half_lem : (a c : ℕ) → a < 16 → is_hex c ≡ true → join_half (a * 16) c ≡ a * 16 + digit c
join_half_lem a c lt h =
    let row = every_below-at 103 _ (is_hex-lt c h).0 (every_below-at 16 _ lt join_half_table) in
    (==_iff _ _).0 (rw h at row)

-- between two escapes
abbrev pub is_ready : State → Bool
is_ready percent = false
is_ready hex1 = false
is_ready _ = true

module _ {S : Type 0} where
  next_assoc :
      (r : Errno × S) (f g : S → Errno × S) → next (next r f) g ≡ next r (λ s. next (f s) g)
  next_assoc (ok, s) f g = refl
  next_assoc (_, s) f g = refl

module _ {S : Type 0} (put : S → ℕ → Errno × S) where
  finish-feed :
      (well : Bool) (s : S) (x : ℕ) (xs : List ℕ)
      → next (put s x) (λ s'. finish (feed put s' xs) well) ≡ finish (feed put s (x ∷ xs)) well
  unfolding feed
  finish-feed true s x xs = refl
  finish-feed false s x xs = sym (next_assoc (put s x) (λ s'. feed put s' xs) (λ t. (error, t)))

  -- what the text stands for, stored
  abbrev pub store : S → List ℕ × Bool → Errno × S
  store s (xs, well) = finish (feed put s xs) well

  dispatch-ready : (st : State) → is_ready st ≡ true → dispatch put st ≡ on_literal put
  dispatch-ready start h = refl
  dispatch-ready alnum h = refl
  dispatch-ready sign h = refl
  dispatch-ready hex2 h = refl
  dispatch-ready percent h = cc
  dispatch-ready hex1 h = cc

  abbrev pub mode : State → ℕ → Mode
  mode st b = record { state = st; b64_2_c = b }

  abbrev after : ℕ → State
  after c = if c == b'+' then sign else alnum

  after-ready : (c : ℕ) → is_ready (after c) ≡ true
  after-ready c = ground arith

  loop-literal :
      (st : State) (b : ℕ) (s : S) (c : ℕ) (cs : List ℕ)
      → is_ready st ≡ true
      → (c == b'%') ≡ false
      → decode_loop put (mode st b) s (c ∷ cs)
        ≡ next (put s (literal c)) (λ s'. decode_loop put (mode (after c) b) s' cs)
  unfolding decode_loop on_literal
  loop-literal st b s c cs ready plain =
      rw (dispatch-ready st ready, plain)
        (elim (Bool-cases (c == b'+')) [ inl y ↦ rw y refl | inr n ↦ rw n refl ])

  loop-percent :
      (st : State) (b : ℕ) (s : S) (c : ℕ) (cs : List ℕ)
      → is_ready st ≡ true
      → (c == b'%') ≡ true
      → decode_loop put (mode st b) s (c ∷ cs) ≡ decode_loop put (mode percent b) s cs
  unfolding decode_loop on_literal
  loop-percent st b s c cs ready esc = rw (dispatch-ready st ready, esc) refl

  loop-high :
      (b : ℕ) (s : S) (h : ℕ) (cs : List ℕ)
      → is_hex h ≡ true
      → decode_loop put (mode percent b) s (h ∷ cs)
        ≡ decode_loop put (mode hex1 (digit h * 16)) s cs
  unfolding decode_loop on_percent
  loop-high b s h cs hex = rw (hex, high_half_lem h hex) refl

  loop-high_bad :
      (b : ℕ) (s : S) (h : ℕ) (cs : List ℕ)
      → is_hex h ≡ false
      → decode_loop put (mode percent b) s (h ∷ cs) ≡ (error, s)
  unfolding decode_loop on_percent
  loop-high_bad b s h cs bad = rw bad refl

  loop-low :
      (a : ℕ) (s : S) (l : ℕ) (cs : List ℕ)
      → a < 16
      → is_hex l ≡ true
      → decode_loop put (mode hex1 (a * 16)) s (l ∷ cs)
        ≡ next (put s (a * 16 + digit l)) (λ s'. decode_loop put (mode hex2 0) s' cs)
  unfolding decode_loop on_hex1
  loop-low a s l cs lt hex = rw (hex, join_half_lem a l lt hex) refl

  loop-low_bad :
      (b : ℕ) (s : S) (l : ℕ) (cs : List ℕ)
      → is_hex l ≡ false
      → decode_loop put (mode hex1 b) s (l ∷ cs) ≡ (error, s)
  unfolding decode_loop on_hex1
  loop-low_bad b s l cs bad = rw bad refl

  -- the first byte stored, the rest by a fact about all stores
  then_feed :
      {rest : S → Errno × S} (s : S) (x : ℕ) (d : List ℕ × Bool)
      → ((s' : S) → rest s' ≡ store s' d)
      → next (put s x) rest ≡ store s (onto x d)
  then_feed s x (xs, well) h = ap (next (put s x)) (fun_ext h) ∙ finish-feed well s x xs

  -- The automaton between two escapes stores what the text stands for: the decoded bytes up to the
  -- first failure of `put` or the first bad escape, with 0 when there is neither, else EERIS_ERROR.
  pub decode_loop-decoded :
      (st : State) (b : ℕ) (s : S) (cs : List ℕ)
      → is_ready st ≡ true
      → decode_loop put (mode st b) s cs ≡ store s (decoded cs)
  unfolding decode_loop decoded feed
  decode_loop-decoded st b s [] r = refl
  decode_loop-decoded st b s (c ∷ []) r = elim (Bool-cases (c == b'%')) [
    | inl y ↦ rw y (loop-percent st b s c [] r y)
    | inr n ↦ rw n (loop-literal st b s c [] r n ∙ then_feed s (literal c) ([], true) (λ s'. refl))
  ]
  decode_loop-decoded st b s (c ∷ h ∷ []) r = elim (Bool-cases (c == b'%')) [
    | inl y ↦ rw y (loop-percent st b s c (h ∷ []) r y ∙ cut)
    | inr n ↦ rw n (
        loop-literal st b s c (h ∷ []) r n
        ∙ then_feed s (literal c) (decoded (h ∷ []))
            (λ s'. decode_loop-decoded (after c) b s' (h ∷ []) (after-ready c)))
  ]
    where
      cut : decode_loop put (mode percent b) s (h ∷ []) ≡ store s ([], is_hex h)
      cut = elim (Bool-cases (is_hex h)) [
        | inl hex ↦ rw hex (loop-high b s h [] hex)
        | inr bad ↦ rw bad (loop-high_bad b s h [] bad)
      ]
  decode_loop-decoded st b s (c ∷ h ∷ l ∷ cs) r = elim (Bool-cases (c == b'%')) [
    | inl y ↦ rw y (
        loop-percent st b s c (h ∷ l ∷ cs) r y
        ∙ escape (λ s'. decode_loop-decoded hex2 0 s' cs refl))
    | inr n ↦ rw n (
        loop-literal st b s c (h ∷ l ∷ cs) r n
        ∙ then_feed s (literal c) (decoded (h ∷ l ∷ cs))
            (λ s'. decode_loop-decoded (after c) b s' (h ∷ l ∷ cs) (after-ready c)))
  ]
    where
      escape :
          ((s' : S) → decode_loop put (mode hex2 0) s' cs ≡ store s' (decoded cs))
          → decode_loop put (mode percent b) s (h ∷ l ∷ cs)
            ≡ store s (
                if is_hex h && is_hex l
                then onto (digit h * 16 + digit l) (decoded cs)
                else ([], false))
      escape ih = elim (Bool-cases (is_hex h)) [
        | inr bad ↦ rw bad (loop-high_bad b s h (l ∷ cs) bad)
        | inl hex ↦ rw hex (
            loop-high b s h (l ∷ cs) hex ∙ elim (Bool-cases (is_hex l)) [
              | inr bad ↦ rw bad (loop-low_bad (digit h * 16) s l cs bad)
              | inl hex' ↦ rw hex' (
                  loop-low (digit h) s l cs (is_hex-lt h hex).1 hex'
                  ∙ then_feed s (digit h * 16 + digit l) (decoded cs) ih)
            ])
      ]
