-- ===== src/Http/Header/LineBranches.antt =====
-- Every branch for the request line, from a parser that has not failed.
use erishttp.Common.{ℕ, ◌≡◌, refl, Option, none, some, arith, ◌==◌, ltb, Errno, ok, is_ok}
use erishttp.EString.{EString, append_c, size}
use erishttp.Buffer.Block.{Grant}
use erishttp.Http.Types.{Version, Command}
use erishttp.Http.Header.Parser.{Parser, grants, is_digit, cr, lf}
use erishttp.Http.Header.Line.{
  on_start, on_command, on_url_start, on_url, on_parameters, on_query, on_fragment, on_h, on_ht,
  on_htt, on_http, on_slash, on_major, on_dot, on_minor, on_title_cr, on_title_lf, find_command,
  command_names, set_command, kept_command, end_line, check_url, set_version, versioned,
  find_version, is_get,
}
use erishttp.Http.Header.Refusal.{
  Follows, still, fail-Follows, if-Follows, stored-Follows, bad, internal,
}

module _ {p : Parser} (h : p.rc ≡ ok) where
  set_command-Follows :
      (o : Option Command) (q : Parser) → Follows p q → q.rc ≡ ok → Follows p (set_command o q)
  set_command-Follows (some c) q f e = record {
    answer = f.answer;
    counter = f.counter;
    limits = f.limits;
  }
  set_command-Follows none q f e = fail-Follows _ _ _ _ q refl (omega arith) f.counter f.limits

  retmp : {q : Parser} (es : EString) → Follows p q → Follows p (record q { tmp_s = es })
  retmp es f = record { answer = f.answer; counter = f.counter; limits = f.limits }

  kept_command-Follows : (r : Errno × EString) → Follows p (kept_command r p)
  kept_command-Follows (ok, es) = still h refl refl refl
  kept_command-Follows (_, es) = fail-Follows _ _ _ _ p refl (omega arith) refl refl

  check_url-Follows : (limit : ℕ) {q : Parser} → Follows p q → Follows p (check_url limit q)
  check_url-Follows limit {q} f =
      if-Follows (is_ok q.rc)
        (if-Follows (ltb limit (size q.context.request.url))
          (fail-Follows _ _ _ _ q refl (omega arith) f.counter f.limits) f)
        f

  end_line-Follows : (v : Version) → Follows p (end_line v p)
  end_line-Follows v =
      if-Follows (is_get p.context.request.command) (still h refl refl refl)
        (fail-Follows _ _ _ _ p refl (omega arith) refl refl)

  set_version-Follows :
      (o : Option Version) (q : Parser) → Follows p q → Follows p (set_version o q)
  set_version-Follows (some v) q f = record {
    answer = f.answer;
    counter = f.counter;
    limits = f.limits;
  }
  set_version-Follows none q f = fail-Follows _ _ _ _ _ refl (omega arith) f.counter f.limits

  versioned-Follows : (r : Errno × EString) → Follows p (versioned r p)
  unfolding find_version
  versioned-Follows (ok, es) = set_version-Follows (find_version es) _ (still h refl refl refl)
  versioned-Follows (_, es) = internal p refl refl

  pub on_start-Follows : (g : Grant) (c : ℕ) → Follows p (on_start g c p)
  unfolding on_start
  on_start-Follows g c = stored-Follows _ _ _ (λ es. still h refl refl refl) refl refl

  pub on_url_start-Follows : (g : Grant) (c : ℕ) → Follows p (on_url_start g c p)
  unfolding on_url_start
  on_url_start-Follows g c =
      if-Follows (c == b'/') (stored-Follows _ _ _ (λ es. still h refl refl refl) refl refl)
        (bad _ refl refl)

  pub on_url-Follows : (g : Grant) (c : ℕ) → Follows p (on_url g c p)
  unfolding on_url
  on_url-Follows g c = check_url-Follows _ (
      if-Follows (c == b' ') (still h refl refl refl) (
        if-Follows (c == b';') (still h refl refl refl) (
          if-Follows (c == b'?') (still h refl refl refl) (
            if-Follows (c == b'#') (still h refl refl refl) (
              if-Follows (c == cr) (end_line-Follows _)
                (stored-Follows _ _ _ (λ es. still h refl refl refl) refl refl))))))

  pub on_parameters-Follows : (g : Grant) (c : ℕ) → Follows p (on_parameters g c p)
  unfolding on_parameters
  on_parameters-Follows g c = if-Follows (c == b' ') (still h refl refl refl) (
      if-Follows (c == b'?') (still h refl refl refl) (
        if-Follows (c == b'#') (still h refl refl refl) (
          if-Follows (c == cr) (end_line-Follows _)
            (stored-Follows _ _ _ (λ es. still h refl refl refl) refl refl))))

  pub on_query-Follows : (g : Grant) (c : ℕ) → Follows p (on_query g c p)
  unfolding on_query
  on_query-Follows g c = if-Follows (c == b' ') (still h refl refl refl) (
      if-Follows (c == b';') (still h refl refl refl) (
        if-Follows (c == b'#') (still h refl refl refl) (
          if-Follows (c == cr) (end_line-Follows _)
            (stored-Follows _ _ _ (λ es. still h refl refl refl) refl refl))))

  pub on_fragment-Follows : (g : Grant) (c : ℕ) → Follows p (on_fragment g c p)
  unfolding on_fragment
  on_fragment-Follows g c = if-Follows (c == b' ') (still h refl refl refl) (
      if-Follows (c == cr) (end_line-Follows _)
        (stored-Follows _ _ _ (λ es. still h refl refl refl) refl refl))

  pub on_h-Follows : (g : Grant) (c : ℕ) → Follows p (on_h g c p)
  unfolding on_h
  on_h-Follows g c =
      if-Follows (c == b'H') (stored-Follows _ _ _ (λ es. still h refl refl refl) refl refl)
        (bad _ refl refl)

  pub on_ht-Follows : (g : Grant) (c : ℕ) → Follows p (on_ht g c p)
  unfolding on_ht
  on_ht-Follows g c =
      if-Follows (c == b'T') (stored-Follows _ _ _ (λ es. still h refl refl refl) refl refl)
        (bad _ refl refl)

  pub on_htt-Follows : (g : Grant) (c : ℕ) → Follows p (on_htt g c p)
  unfolding on_htt
  on_htt-Follows g c =
      if-Follows (c == b'T') (stored-Follows _ _ _ (λ es. still h refl refl refl) refl refl)
        (bad _ refl refl)

  pub on_http-Follows : (g : Grant) (c : ℕ) → Follows p (on_http g c p)
  unfolding on_http
  on_http-Follows g c =
      if-Follows (c == b'P') (stored-Follows _ _ _ (λ es. still h refl refl refl) refl refl)
        (bad _ refl refl)

  pub on_slash-Follows : (g : Grant) (c : ℕ) → Follows p (on_slash g c p)
  unfolding on_slash
  on_slash-Follows g c =
      if-Follows (c == b'/') (stored-Follows _ _ _ (λ es. still h refl refl refl) refl refl)
        (bad _ refl refl)

  pub on_major-Follows : (g : Grant) (c : ℕ) → Follows p (on_major g c p)
  unfolding on_major
  on_major-Follows g c =
      if-Follows (is_digit c) (stored-Follows _ _ _ (λ es. still h refl refl refl) refl refl)
        (bad _ refl refl)

  pub on_dot-Follows : (g : Grant) (c : ℕ) → Follows p (on_dot g c p)
  unfolding on_dot
  on_dot-Follows g c =
      if-Follows (c == b'.') (stored-Follows _ _ _ (λ es. still h refl refl refl) refl refl)
        (bad _ refl refl)

  pub on_command-Follows : (g : Grant) (c : ℕ) → Follows p (on_command g c p)
  unfolding on_command find_command
  on_command-Follows g c =
      if-Follows (c == b' ')
        (retmp _
          (set_command-Follows (find_command p.tmp_s command_names) _ (still h refl refl refl) h))
        (kept_command-Follows _)

  pub on_minor-Follows : (g : Grant) (c : ℕ) → Follows p (on_minor g c p)
  unfolding on_minor find_version
  on_minor-Follows g c =
      if-Follows (is_digit c) (retmp _ (versioned-Follows (append_c (grants g) p.tmp_s c)))
        (bad _ refl refl)

  pub on_title_cr-Follows : (c : ℕ) → Follows p (on_title_cr c p)
  unfolding on_title_cr
  on_title_cr-Follows c = if-Follows (c == cr) (still h refl refl refl) (bad _ refl refl)

  pub on_title_lf-Follows : (c : ℕ) → Follows p (on_title_lf c p)
  unfolding on_title_lf
  on_title_lf-Follows c = if-Follows (c == lf) (still h refl refl refl) (bad _ refl refl)
