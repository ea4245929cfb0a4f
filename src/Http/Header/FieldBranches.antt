-- ===== src/Http/Header/FieldBranches.antt =====
-- Every branch for the header lines, from a parser that has not failed.
use erishttp.Common.{
  ℕ, ◌+◌, ◌≡◌, inl, inr, refl, Bool, true, false, none, some, ◌==◌, ◌||◌, ltb, Errno, ok, is_ok,
}
use erishttp.EString.{EString, clone_eris}
use erishttp.Buffer.{Buffer, copy_at}
use erishttp.Buffer.Block.{Grant}
use erishttp.UrlEncode.{is_alnum}
use erishttp.Http.Header.Parser.{Parser, grants, cr, lf}
use erishttp.Http.Header.Fields.{
  on_header_name, on_header_colon, on_header_value, on_header_cr1, on_header_lf1, on_header_cr2,
  on_finish, link_header, next_line, kept_body,
}
use erishttp.Http.Header.Refusal.{Follows, still, if-Follows, stored-Follows, bad, internal}

module _ {p : Parser} (h : p.rc ≡ ok) where
  link_header-Follows :
      (granted : Bool) (name value : EString) (q : Parser)
      → Follows p q
      → q.rc ≡ ok
      → Follows p (link_header granted name value q)
  link_header-Follows true (some name) (some value) q f e = record {
    answer = f.answer;
    counter = f.counter;
    limits = f.limits;
  }
  link_header-Follows true (some name) none q f e = internal q f.counter f.limits
  link_header-Follows true none value q f e = internal q f.counter f.limits
  link_header-Follows false name value q f e = internal q f.counter f.limits

  next_line-Follows : (g : Grant) (c : ℕ) {q : Parser} → Follows p q → Follows p (next_line g c q)
  next_line-Follows g c {q} f = elim f.answer [
    | inl (e, r) ↦
        if-Follows (is_ok q.rc)
          (if-Follows (c == cr) (still e r f.counter f.limits)
            (stored-Follows _ _ _ (λ es. still e r f.counter f.limits) f.counter f.limits))
          f
    | inr (failed, s) ↦ rw failed f
  ]

  kept_body-Follows : (r : Errno × Buffer) (q : Parser) → Follows p q → Follows p (kept_body r q)
  kept_body-Follows (ok, b) q f = record {
    answer = f.answer;
    counter = f.counter;
    limits = f.limits;
  }
  kept_body-Follows (_, b) q f = internal _ f.counter f.limits

  pub on_header_name-Follows : (g : Grant) (c : ℕ) → Follows p (on_header_name g c p)
  unfolding on_header_name
  on_header_name-Follows g c = if-Follows (c == b':') (still h refl refl refl) (
      if-Follows (is_alnum c || (c == b'-' || c == b'_'))
        (stored-Follows _ _ _ (λ es. still h refl refl refl) refl refl) (bad _ refl refl))

  pub on_header_colon-Follows : (c : ℕ) → Follows p (on_header_colon c p)
  unfolding on_header_colon
  on_header_colon-Follows c = if-Follows (c == b' ') (still h refl refl refl) (bad _ refl refl)

  pub on_header_value-Follows : (g : Grant) (c : ℕ) → Follows p (on_header_value g c p)
  unfolding on_header_value
  on_header_value-Follows g c =
      if-Follows (c == cr) (still h refl refl refl)
        (stored-Follows _ _ _ (λ es. still h refl refl refl) refl refl)

  pub on_header_cr1-Follows : (c : ℕ) → Follows p (on_header_cr1 c p)
  unfolding on_header_cr1
  on_header_cr1-Follows c = if-Follows (c == lf) (still h refl refl refl) (bad _ refl refl)

  pub on_header_lf1-Follows : (g : Grant) (c : ℕ) → Follows p (on_header_lf1 g c p)
  unfolding on_header_lf1
  on_header_lf1-Follows g c =
      let f =
        link_header-Follows (grants g) (clone_eris (grants g) p.hname)
          (clone_eris (grants g) p.hvalue) _ (still h refl refl refl) h in
      if-Follows (c == b' ') (still h refl refl refl) (
        next_line-Follows g c
          (record { answer = f.answer; counter = f.counter; limits = f.limits }))

  pub on_header_cr2-Follows : (g : Grant) (i c : ℕ) → Follows p (on_header_cr2 g i c p)
  unfolding on_header_cr2
  on_header_cr2-Follows g i c =
      if-Follows (c == lf)
        (if-Follows (ltb (i + 1) p.context.hbuffer.size)
          (kept_body-Follows (copy_at g p.context.bbuffer p.context.hbuffer (i + 1)) _
            (still h refl refl refl))
          (still h refl refl refl))
        (bad _ refl refl)

  pub on_finish-Follows : Follows p (on_finish p)
  unfolding on_finish
  on_finish-Follows = still h refl refl refl
