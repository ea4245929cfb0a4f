-- ===== src/PeTree/RoundTrip.antt =====
-- The path parser on what the path printer wrote.
use erishttp.Common.{
  ℕ, suc, ◌<◌, ◌≡◌, refl, ◌∙◌, Bool, true, none, List, [], ◌∷◌, ◌++◌, append_assoc, ℤ, pos, negsuc,
  inl, inr, length, arith, ok, ltb,
}
use erishttp.PeTree.{
  Element, integer, string, PeTree, push, dump, dump_loop, dot_before, index_text, cleanup,
}
use erishttp.PeTree.Parser.{
  Parser, start, key, dot, bracket_l, bracket_r, parse_bytes, on_bracket_r, on_start, parser,
  last_key, ended,
}
use erishttp.PeTree.Proper.{
  IsKey, IsIndex, BeginsWithKey, AreProper, IsCounted, chain, push_all, push_all-chain,
}
use erishttp.PeTree.Runs.{at, whole_key, key_dot, key_bracket, run_index, close_index, close_star}
use erishttp.PeTree.Index.{atoi-digits, length-index}
use erishttp.EString.Number.{digits, digits-AreDecimal}
use erishttp.EString.Reverse.{reversed}

-- the end of the parser with this tree and no error
abbrev Ends : (ℕ → Bool) → Parser → PeTree → Type 0
Ends g p t = ended (last_key g p) ≡ (ok, (none, t))

module _ (g printed : ℕ → Bool) (granted : (n : ℕ) → g n ≡ true)
    (all_printed : (n : ℕ) → printed n ≡ true) where
  index_run :
      (n : ℤ) (i : ℕ) (rest : List ℕ) (p : Parser) (t : PeTree) (a : ℕ)
      → IsIndex n
      → ((cs : List ℕ) → parse_bytes g p (b'[' ∷ cs) ≡ parse_bytes g (at bracket_l [] [] t a) cs)
      → parse_bytes g p (index_text (printed i) n ++ rest)
        ≡ parse_bytes g (at bracket_r [] [] (push (integer n) t) (suc a)) rest
  index_run (pos n) i rest p t a h open_bracket =
      let ds = reversed (digits 20 n) in
      let split : (ds ++ (b']' ∷ [])) ++ rest ≡ ds ++ (b']' ∷ rest) =
        append_assoc ds (b']' ∷ []) rest in
      rw (all_printed i) (
        open_bracket ((ds ++ (b']' ∷ [])) ++ rest)
        ∙ rw split (
            run_index g granted [] ds (b']' ∷ rest) t a (digits-AreDecimal 20 n)
              (omega (arith, length-index n))
            ∙ close_index g granted ds rest t a
            ∙ rw (atoi-digits n h) refl))
  index_run (negsuc n) i rest p t a h open_bracket =
      rw h (open_bracket (b'*' ∷ b']' ∷ rest) ∙ close_star g granted rest t a)

  bracket_dot :
      (rest : List ℕ) (t : PeTree) (a : ℕ)
      → parse_bytes g (at bracket_r [] [] t a) (b'.' ∷ rest) ≡ parse_bytes g (at dot [] [] t a) rest
  unfolding parse_bytes on_bracket_r
  bracket_dot rest t a = refl

  start_bracket :
      (rest : List ℕ) (t : PeTree) (a : ℕ)
      → parse_bytes g (at start [] [] t a) (b'[' ∷ rest)
        ≡ parse_bytes g (at bracket_l [] [] t a) rest
  unfolding parse_bytes on_start
  start_bracket rest t a = refl

  last_closed :
      (k : List ℕ) (t : PeTree) (a : ℕ)
      → 0 < length k
      → Ends g (at key k [] t a) (push (string k) t)
  last_closed k t a h =
      let some_char : ltb 0 (length k) ≡ true = ground arith in rw (some_char, granted a) refl

  parse_nil : (p : Parser) → parse_bytes g p [] ≡ p
  unfolding parse_bytes
  parse_nil p = refl

  same_end : (p q : Parser) (t : PeTree) → p ≡ q → Ends g q t → Ends g p t
  same_end p q t e h = rw e h

  -- `i` is the number of the next element to be printed.
  mutual
    unfolding dump_loop

    after_key :
        (k : List ℕ) (es : List Element) (i : ℕ) (t : PeTree) (a : ℕ)
        → IsKey k
        → AreProper es
        → Ends g
            (parse_bytes g (at key k [] t a) (dot_before es ++ dump_loop printed i es))
            (push_all t (string k ∷ es))
    after_key k [] i t a h all =
        same_end _ _ _ (parse_nil (at key k [] t a)) (last_closed k t a h.1)
    after_key k (string k' ∷ es) i t a h (h', all) =
        let rest = dot_before es ++ dump_loop printed (suc i) es in
        let t' = push (string k) t in
        same_end _ _ _
          (key_dot g granted k (k' ++ rest) t a h.1
            ∙ whole_key g granted dot k' rest t' (suc a) (inr refl) h')
          (after_key k' es (suc i) t' (suc a) h' all)
    after_key k (integer n ∷ es) i t a h (h', first, all) =
        let rest = dot_before es ++ dump_loop printed (suc i) es in
        let t' = push (string k) t in
        same_end _ _ _
          (index_run n i rest (at key k [] t a) t' (suc a) h'
            (λ cs. key_bracket g granted k cs t a h.1))
          (after_index es (suc i) (push (integer n) t') (suc (suc a)) first all)

    after_index :
        (es : List Element) (i : ℕ) (t : PeTree) (a : ℕ)
        → BeginsWithKey es
        → AreProper es
        → Ends g
            (parse_bytes g (at bracket_r [] [] t a) (dot_before es ++ dump_loop printed i es))
            (push_all t es)
    after_index [] i t a first all = same_end _ _ _ (parse_nil (at bracket_r [] [] t a)) refl
    after_index (integer n ∷ es) i t a first all = absurd first
    after_index (string k ∷ es) i t a first (h, all) =
        let rest = dot_before es ++ dump_loop printed (suc i) es in
        same_end _ _ _
          (bracket_dot (k ++ rest) t a ∙ whole_key g granted dot k rest t a (inr refl) h)
          (after_key k es (suc i) t a h all)

  from_start :
      (es : List Element)
      → AreProper es
      → Ends g
          (parse_bytes g (at start [] [] (chain []) 0) (dump_loop printed 0 es))
          (push_all (chain []) es)
  unfolding dump_loop
  from_start [] all = same_end _ _ _ (parse_nil (at start [] [] (chain []) 0)) refl
  from_start (string k ∷ es) (h, all) =
      let rest = dot_before es ++ dump_loop printed 1 es in
      same_end _ _ _ (whole_key g granted start k rest (chain []) 0 (inl refl) h)
        (after_key k es 1 (chain []) 0 h all)
  from_start (integer n ∷ es) (h, first, all) =
      let rest = dot_before es ++ dump_loop printed 1 es in
      same_end _ _ _
        (index_run n 0 rest (at start [] [] (chain []) 0) (chain []) 0 h
          (λ cs. start_bracket cs (chain []) 0))
        (after_index es 1 (push (integer n) (chain [])) 1 first all)

-- With enough memory `eris_petree_parser` reads what `eris_petree_dump` writes back to the same
-- tree, whatever was in the tree that it fills, and reports no error: for a tree whose counts are
-- those of its elements, whose keys are 1 to 255 letters, digits, `_` and `-`, whose indices are
-- at least 0 or -1, for `*`, and which has no index directly behind another.
pub parser-dump :
    (g printed : ℕ → Bool) (t old : PeTree)
    → ((n : ℕ) → g n ≡ true)
    → ((n : ℕ) → printed n ≡ true)
    → IsCounted t
    → AreProper t.head
    → parser g old (dump true printed t).1.1 ≡ (ok, (none, t))
unfolding parser dump cleanup
parser-dump g printed t old granted all_printed c all =
    let same : chain t.head ≡ t = ground (arith, c.counted, c.levelled) in
    from_start g printed granted all_printed t.head all ∙ rw (push_all-chain t.head, same) refl
