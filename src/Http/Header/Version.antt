-- ===== src/Http/Header/Version.antt =====
-- The automaton over the version and the end of the request line.
use erishttp.Common.{
  ℕ, ◌+◌, ◌≤◌, ◌≡◌, ◌≢◌, refl, true, false, some, List, [], ◌∷◌, ◌++◌, arith, ◌==◌, codes,
}
use erishttp.EString.{EString, cleanup, is_equal}
use erishttp.EString.Append.{append_c-some}
use erishttp.Http.Types.{Http, Version, v00, v09, v10, v11}
use erishttp.Http.Header.Parser.{Sreq, Heap, grants, is_digit, cr, lf}
use erishttp.Http.Header.Line.{
  find_version, on_h, on_ht, on_htt, on_http, on_slash, on_major, on_dot, on_minor, on_title_cr,
  on_title_lf,
}
use erishttp.Http.Header.Feed.{at, asking, Feeds, Feeds-append, Feeds-byte}
use erishttp.Http.Header.Method.{tmp-byte}
use erishttp.Http.Header.Render.{version_name, line_end}

module _ (heap : Heap) (granted : (n : ℕ) → grants (heap n) ≡ true) (ctx : Http)
    (name value : EString) where
  slash-Feeds :
      (t : List ℕ) (n : ℕ)
      → n + 5 ≤ ctx.attrs.header_max_size
      → Feeds heap
          (at ctx Sreq.h (some t) name value n)
          (codes "HTTP/")
          (at ctx Sreq.major (some (codes "HTTP/")) name value (n + 5))
  unfolding on_h on_ht on_htt on_http on_slash cleanup
  slash-Feeds t n room =
      let e : n + 1 + 1 + 1 + 1 + 1 ≡ n + 5 = omega arith in
      rw (← e) (
        Feeds-append (codes "H") (codes "TTP/")
          (tmp-byte heap granted ctx name value Sreq.h Sreq.ht t (codes "H") n b'H' (omega arith)
            (λ b g i h. rw append_c-some refl))
          (Feeds-append (codes "T") (codes "TP/")
            (tmp-byte heap granted ctx name value Sreq.ht Sreq.htt (codes "H") (codes "HT") (n + 1)
              b'T' (omega arith) (λ b g i h. rw append_c-some refl))
            (Feeds-append (codes "T") (codes "P/")
              (tmp-byte heap granted ctx name value Sreq.htt Sreq.http (codes "HT") (codes "HTT")
                (n + 1 + 1) b'T' (omega arith) (λ b g i h. rw append_c-some refl))
              (Feeds-append (codes "P") (codes "/")
                (tmp-byte heap granted ctx name value Sreq.http Sreq.slash (codes "HTT")
                  (codes "HTTP") (n + 1 + 1 + 1) b'P' (omega arith)
                  (λ b g i h. rw append_c-some refl))
                (tmp-byte heap granted ctx name value Sreq.slash Sreq.major (codes "HTTP")
                  (codes "HTTP/") (n + 1 + 1 + 1 + 1) b'/' (omega arith)
                  (λ b g i h. rw append_c-some refl))))))

  -- the two digits and the line end, for a version that is known
  digits-Feeds :
      (d e : ℕ) (v : Version) (n : ℕ)
      → (d == 0) ≡ false
      → (e == 0) ≡ false
      → is_digit d ≡ true
      → is_digit e ≡ true
      → find_version (some (codes "HTTP/" ++ (d ∷ b'.' ∷ e ∷ []))) ≡ some v
      → n + 5 ≤ ctx.attrs.header_max_size
      → Feeds heap
          (at ctx Sreq.major (some (codes "HTTP/")) name value n)
          (d ∷ b'.' ∷ e ∷ line_end)
          (at
            (asking ctx (record (ctx.request) { version = v }))
            Sreq.header_name
            (some [])
            (cleanup name)
            (cleanup value)
            (n + 5))
  unfolding on_major on_dot on_minor on_title_cr on_title_lf cleanup
  digits-Feeds d e v n d_set e_set dd de found room =
      let k : n + 1 + 1 + 1 + 1 + 1 ≡ n + 5 = omega arith in
      rw (← k) (
        Feeds-append (d ∷ []) (b'.' ∷ e ∷ line_end)
          (tmp-byte heap granted ctx name value Sreq.major Sreq.dot (codes "HTTP/")
            (codes "HTTP/" ++ (d ∷ [])) n d (omega arith)
            (λ b g i h. rw (dd, append_c-some, d_set) refl))
          (Feeds-append (b'.' ∷ []) (e ∷ line_end)
            (tmp-byte heap granted ctx name value Sreq.dot Sreq.minor (codes "HTTP/" ++ (d ∷ []))
              (codes "HTTP/" ++ (d ∷ b'.' ∷ [])) (n + 1) b'.' (omega arith)
              (λ b g i h. rw append_c-some refl))
            (Feeds-append (e ∷ []) line_end
              (Feeds-byte ctx Sreq.minor (some (codes "HTTP/" ++ (d ∷ b'.' ∷ []))) name value
                (n + 1 + 1) e (omega arith) (λ b i. rw (de, append_c-some, e_set, found) refl) refl)
              (Feeds-append (cr ∷ []) (lf ∷ [])
                (Feeds-byte (asking ctx (record (ctx.request) { version = v })) Sreq.title_cr
                  (some []) name value (n + 1 + 1 + 1) cr (omega arith) (λ b i. refl) refl)
                (Feeds-byte (asking ctx (record (ctx.request) { version = v })) Sreq.title_lf
                  (some []) name value (n + 1 + 1 + 1 + 1) lf (omega arith) (λ b i. refl) refl)))))

  joined :
      (d e : ℕ) (v : Version) (t : List ℕ) (n : ℕ)
      → (d == 0) ≡ false
      → (e == 0) ≡ false
      → is_digit d ≡ true
      → is_digit e ≡ true
      → find_version (some (codes "HTTP/" ++ (d ∷ b'.' ∷ e ∷ []))) ≡ some v
      → n + 10 ≤ ctx.attrs.header_max_size
      → Feeds heap
          (at ctx Sreq.h (some t) name value n)
          (codes "HTTP/" ++ (d ∷ b'.' ∷ e ∷ line_end))
          (at
            (asking ctx (record (ctx.request) { version = v }))
            Sreq.header_name
            (some [])
            (cleanup name)
            (cleanup value)
            (n + 10))
  joined d e v t n d_set e_set dd de found room =
      let k : n + 5 + 5 ≡ n + 10 = omega arith in
      rw (← k) (
        Feeds-append (codes "HTTP/") (d ∷ b'.' ∷ e ∷ line_end) (slash-Feeds t n (omega arith))
          (digits-Feeds d e v (n + 5) d_set e_set dd de found (omega arith)))

  -- The version and the line end behind it.
  pub version-Feeds :
      (v : Version) (t : List ℕ) (n : ℕ)
      → v ≢ v00
      → n + 10 ≤ ctx.attrs.header_max_size
      → Feeds heap (at ctx Sreq.h (some t) name value n) (version_name v ++ line_end) (
          at
            (asking ctx (record (ctx.request) { version = v }))
            Sreq.header_name
            (some [])
            (cleanup name)
            (cleanup value)
            (n + 10))
  unfolding find_version is_equal
  version-Feeds v00 t n known room = absurd (known refl)
  version-Feeds v09 t n known room = joined b'0' b'9' v09 t n refl refl refl refl refl room
  version-Feeds v10 t n known room = joined b'1' b'0' v10 t n refl refl refl refl refl room
  version-Feeds v11 t n known room = joined b'1' b'1' v11 t n refl refl refl refl refl room
