-- ===== src/PeTree/Runs.antt =====
-- The path parser on the keys and the indices of a path.
use erishttp.Common.{
  ℕ, suc, ◌+◌, ◌≤◌, ◌<◌, ◌≡◌, refl, ◌∙◌, ◌⊎◌, Bool, true, false, none, List, [], ◌∷◌, ◌++◌,
  append-nil, append_assoc, negsuc, inl, inr, length, arith, length-append, ok, ltb,
}
use erishttp.PeTree.{integer, string, PeTree, push}
use erishttp.PeTree.Parser.{
  Parser, PeState, start, key, dot, bracket_l, bracket_r, parse_bytes, on_start, on_key, on_dot,
  on_bracket_l, atoi, is_key_char,
}
use erishttp.PeTree.Proper.{AreKeyChars, IsKey}
use erishttp.EString.Decimal.{AreDecimal}

-- the parser where nothing went wrong
abbrev pub at : PeState → List ℕ → List ℕ → PeTree → ℕ → Parser
at s k i t a = record {
  rc = ok;
  errno = none;
  state = s;
  back_flag = false;
  index_star_flag = false;
  key = k;
  index = i;
  tree = t;
  allocs = a;
}

module _ (g : ℕ → Bool) (granted : (n : ℕ) → g n ≡ true) where
  run_key :
      (k ks rest : List ℕ) (t : PeTree) (a : ℕ)
      → AreKeyChars ks
      → length k + length ks ≤ 255
      → parse_bytes g (at key k [] t a) (ks ++ rest) ≡ parse_bytes g (at key (k ++ ks) [] t a) rest
  unfolding parse_bytes
  run_key k [] rest t a all short = rw (append-nil k) refl
  run_key k (c ∷ ks) rest t a (first, all) short =
      let step : on_key g (at key k [] t a) c ≡ at key (k ++ (c ∷ [])) [] t a =
        unfold on_key in ground arith in
      let n = length-append k (c ∷ []) in
      rw step (
        run_key (k ++ (c ∷ [])) ks rest t a all (omega (arith, n))
        ∙ rw (append_assoc k (c ∷ []) ks) refl)

  first_char :
      (s : PeState) (c : ℕ) (rest : List ℕ) (t : PeTree) (a : ℕ)
      → (s ≡ start) ⊎ (s ≡ dot)
      → is_key_char c ≡ true
      → parse_bytes g (at s [] [] t a) (c ∷ rest) ≡ parse_bytes g (at key (c ∷ []) [] t a) rest
  unfolding parse_bytes on_start on_dot
  first_char s c rest t a (inl e) h =
      let step : on_start (at start [] [] t a) c ≡ at key (c ∷ []) [] t a = ground arith in
      rw (e, step) refl
  first_char s c rest t a (inr e) h =
      let step : on_dot (at dot [] [] t a) c ≡ at key (c ∷ []) [] t a = ground arith in
      rw (e, step) refl

  pub whole_key :
      (s : PeState) (k rest : List ℕ) (t : PeTree) (a : ℕ)
      → (s ≡ start) ⊎ (s ≡ dot)
      → IsKey k
      → parse_bytes g (at s [] [] t a) (k ++ rest) ≡ parse_bytes g (at key k [] t a) rest
  whole_key s [] rest t a e (all, some_char, short) = absurd (omega arith)
  whole_key s (c ∷ ks) rest t a e ((first, all), some_char, short) =
      first_char s c (ks ++ rest) t a e first ∙ run_key (c ∷ []) ks rest t a all (omega arith)

  pub key_dot :
      (k rest : List ℕ) (t : PeTree) (a : ℕ)
      → 0 < length k
      → parse_bytes g (at key k [] t a) (b'.' ∷ rest)
        ≡ parse_bytes g (at dot [] [] (push (string k) t) (suc a)) rest
  unfolding parse_bytes on_key
  key_dot k rest t a h =
      let some_char : ltb 0 (length k) ≡ true = ground arith in rw (some_char, granted a) refl

  pub key_bracket :
      (k rest : List ℕ) (t : PeTree) (a : ℕ)
      → 0 < length k
      → parse_bytes g (at key k [] t a) (b'[' ∷ rest)
        ≡ parse_bytes g (at bracket_l [] [] (push (string k) t) (suc a)) rest
  unfolding parse_bytes on_key
  key_bracket k rest t a h =
      let some_char : ltb 0 (length k) ≡ true = ground arith in rw (some_char, granted a) refl

  pub run_index :
      (i ds rest : List ℕ) (t : PeTree) (a : ℕ)
      → AreDecimal ds
      → length i + length ds ≤ 31
      → parse_bytes g (at bracket_l [] i t a) (ds ++ rest)
        ≡ parse_bytes g (at bracket_l [] (i ++ ds) t a) rest
  unfolding parse_bytes
  run_index i [] rest t a all short = rw (append-nil i) refl
  run_index i (c ∷ ds) rest t a (first, all) short =
      let step : on_bracket_l g (at bracket_l [] i t a) c ≡ at bracket_l [] (i ++ (c ∷ [])) t a =
        unfold on_bracket_l in ground arith in
      let n = length-append i (c ∷ []) in
      rw step (
        run_index (i ++ (c ∷ [])) ds rest t a all (omega (arith, n))
        ∙ rw (append_assoc i (c ∷ []) ds) refl)

  pub close_index :
      (i rest : List ℕ) (t : PeTree) (a : ℕ)
      → parse_bytes g (at bracket_l [] i t a) (b']' ∷ rest)
        ≡ parse_bytes g (at bracket_r [] [] (push (integer (atoi i)) t) (suc a)) rest
  unfolding parse_bytes on_bracket_l
  close_index i rest t a = rw (granted a) refl

  pub close_star :
      (rest : List ℕ) (t : PeTree) (a : ℕ)
      → parse_bytes g (at bracket_l [] [] t a) (b'*' ∷ b']' ∷ rest)
        ≡ parse_bytes g (at bracket_r [] [] (push (integer (negsuc 0)) t) (suc a)) rest
  unfolding parse_bytes on_bracket_l
  close_star rest t a = rw (granted a) refl
