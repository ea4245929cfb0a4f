-- ===== src/Http/Header/Answer.antt =====
-- How the header part can end.
use erishttp.Common.{
  ℕ, ◌+◌, ◌≤◌, ◌≡◌, ◌⊎◌, inl, inr, refl, ◌∙◌, ap, Bool, true, false, not, ◌&&◌, ◌||◌, List, [], ◌∷◌,
  arith, ltb, if◌then◌else◌, Bool-cases, All, ok, error, is_ok, is_ok-ok,
}
use erishttp.Buffer.{Buffer, contents}
use erishttp.Http.Types.{Http}
use erishttp.Http.Fail.{refuse, answer}
use erishttp.Http.Header.Parser.{Parser, Heap}
use erishttp.Http.Header.Loop.{
  step, too_large, parse_bytes, parse_reads, parse_header, Read, received, clean_hbuffer, timed_out,
  begin, reset, cleanup_request,
}
use erishttp.Http.Header.Refusal.{Follows}
use erishttp.Http.Header.Branches.{step-Follows}

-- No failure, the answer untouched and the counter within the limit; or a failure, with the status
-- of an error in the answer.
pub record Settled (ctx : Http) (p : Parser) : Type 0 where
  pub cases :
      ((p.rc ≡ ok)
        × (p.context.response ≡ ctx.response)
        × (p.header_size ≤ ctx.attrs.header_max_size))
      ⊎ ((is_ok p.rc ≡ false) × (400 ≤ p.context.response.status))
  pub limits : p.context.attrs ≡ ctx.attrs

-- what a call of the input callback may return
abbrev pub IsAnswer : Read → Type 0
IsAnswer r = (r.0 ≡ error) ⊎ (r.0 ≡ ok)

-- Some call returns 0 and brings no byte, as when the peer has closed the connection.
abbrev pub any_empty : List Read → Bool
any_empty [] = false
any_empty ((rc, b) ∷ reads) = (is_ok rc && not (ltb 0 b.size)) || any_empty reads

module _ (ctx : Http) where
  too_large-Settled : (p : Parser) → p.context.attrs ≡ ctx.attrs → Settled ctx (too_large p)
  unfolding answer refuse
  too_large-Settled p l = record { cases = inr (refl, omega arith); limits = l }

  Follows-Settled :
      (p q : Parser)
      → p.context.response ≡ ctx.response
      → p.header_size ≤ ctx.attrs.header_max_size
      → p.context.attrs ≡ ctx.attrs
      → Follows p q
      → Settled ctx q
  Follows-Settled p q r n l f = record {
    cases = elim f.answer [
      | inl (e, same) ↦ inl (e, same ∙ r, omega (arith, f.counter))
      | inr bad ↦ inr bad
    ];
    limits = f.limits ∙ l;
  }

  if-Settled :
      (b : Bool) {p q : Parser}
      → (b ≡ true → Settled ctx p)
      → (b ≡ false → Settled ctx q)
      → Settled ctx (if b then p else q)
  if-Settled true f g = f refl
  if-Settled false f g = g refl

  unchanged : (p : Parser) → p.rc ≡ ok → Settled ctx p → p.context.response ≡ ctx.response
  unchanged p e s = elim s.cases [
    | inl (_, same, n) ↦ same
    | inr (bad, _) ↦ absurd (ground (arith, ap is_ok e))
  ]

  parse_bytes-Settled :
      (heap : Heap) (i : ℕ) (cs : List ℕ) (p : Parser)
      → p.rc ≡ ok
      → Settled ctx p
      → Settled ctx (parse_bytes heap i cs p)
  unfolding parse_bytes
  parse_bytes-Settled heap i [] p e s = s
  parse_bytes-Settled heap i (c ∷ cs) p e s =
      let q : Parser = record p { header_size = p.header_size + 1 } in
      let r : Parser = step (heap q.header_size) i c q.state q in
      let same : p.context.response ≡ ctx.response = unchanged p e s in
      if-Settled (ltb p.context.attrs.header_max_size q.header_size)
        (λ over. too_large-Settled q s.limits)
        (λ within.
          let m : q.header_size ≤ ctx.attrs.header_max_size =
            ground (arith, ap (λ a. a.header_max_size) s.limits) in
          let t : Settled ctx r =
            Follows-Settled q r same m s.limits
              (step-Follows {p = q} e (heap q.header_size) i c q.state) in
          if-Settled p.header_finish_flag
            (λ done. record { cases = inl (e, same, m); limits = s.limits })
            (λ on.
              if-Settled (is_ok r.rc)
                (λ fine. parse_bytes-Settled heap (i + 1) cs r (is_ok-ok r.rc fine) t) (λ bad. t)))

  -- at the end no failure means that the whole header was read, or that a read was empty
  record Closed (empty : Bool) (p : Parser) : Type 0 where
    pub settled : Settled ctx p
    pub whole : p.rc ≡ ok → (p.header_finish_flag ≡ true) ⊎ (empty ≡ true)

  timed_out-Closed :
      (empty : Bool) (p : Parser)
      → p.context.attrs ≡ ctx.attrs
      → Closed empty (clean_hbuffer (timed_out p))
  unfolding answer refuse
  timed_out-Closed empty p l = record {
    settled = record { cases = inr (refl, omega arith); limits = l };
    whole = λ e. ground (arith, e);
  }

  cleaned : (p : Parser) → Settled ctx p → Settled ctx (clean_hbuffer p)
  cleaned p s = record { cases = s.cases; limits = s.limits }

  reading :
      (p : Parser) (b : Buffer)
      → is_ok p.rc ≡ true
      → Settled ctx p
      → Settled ctx (received (ok, b) p)
  reading p b fine s = record {
    cases = elim s.cases [
      | inl (_, same, n) ↦ inl (refl, same, n)
      | inr (bad, _) ↦ absurd (ground arith)
    ];
    limits = s.limits;
  }

  stopped-Closed :
      (empty : Bool) (p : Parser)
      → (not p.header_finish_flag && is_ok p.rc) ≡ false
      → Settled ctx p
      → Closed empty (clean_hbuffer p)
  stopped-Closed empty p stop s = record {
    settled = cleaned p s;
    whole = λ e. inl (ground (arith, ap is_ok e));
  }

  parse_reads-Closed :
      (heap : Heap) (reads : List Read) (p : Parser)
      → All IsAnswer reads
      → Settled ctx p
      → Closed (any_empty reads) (parse_reads heap reads p)
  unfolding parse_reads
  parse_reads-Closed heap [] p all s = elim (Bool-cases (not p.header_finish_flag && is_ok p.rc)) [
    | inl on ↦ rw on (timed_out-Closed false p s.limits)
    | inr stop ↦ rw stop (stopped-Closed false p stop s)
  ]
  parse_reads-Closed heap ((rc, b) ∷ reads) p (one, all) s =
      let empty : Bool = any_empty ((rc, b) ∷ reads) in
      elim (Bool-cases (not p.header_finish_flag && is_ok p.rc)) [
        | inr stop ↦ rw stop (stopped-Closed empty p stop s)
        | inl on ↦ elim one [
          | inl bad ↦
              rw (on, bad) (timed_out-Closed (any_empty reads) (received (error, b) p) s.limits)
          | inr fine ↦
              let t : Settled ctx (received (ok, b) p) = reading p b (ground arith) s in
              elim (Bool-cases (ltb 0 b.size)) [
                | inl full ↦
                    rw (on, fine, full)
                      (parse_reads-Closed heap reads
                        (clean_hbuffer (parse_bytes heap 0 (contents b) (received (ok, b) p))) all
                        (cleaned _
                          (parse_bytes-Settled heap 0 (contents b) (received (ok, b) p) refl t)))
                | inr none_came ↦
                    rw (on, fine, none_came)
                      (record { settled = cleaned _ t; whole = λ e. inr refl })
              ]
        ]
      ]

-- Whatever bytes the input callback brings, if it returns 0 or EERIS_ERROR, the header part of
-- `eris_http_request_parse` ends in one of two ways. Either it returns 0, no more bytes than the header
-- limit were counted, the answer is as before, and the whole header was read or a call of the
-- callback returned 0 without a byte; or it returns an error, and the answer has a status of at least 400. So
-- only a read without a byte can make it return 0 with an unfinished header. The attributes stay as
-- they are.
pub parse_header-answer :
    (heap : Heap) (reads : List Read) (ctx : Http)
    → All IsAnswer reads
    → let p = parse_header heap reads ctx in
      (((p.rc ≡ ok)
          × ((p.header_finish_flag ≡ true) ⊎ (any_empty reads ≡ true))
          × (p.header_size ≤ ctx.attrs.header_max_size)
          × (p.context.response ≡ ctx.response))
        ⊎ ((is_ok p.rc ≡ false) × (400 ≤ p.context.response.status)))
      × (p.context.attrs ≡ ctx.attrs)
unfolding parse_header reset cleanup_request
parse_header-answer heap reads ctx all =
    let start : Settled ctx (begin (heap 0) (reset ctx)) = record {
      cases = inl (refl, refl, omega arith);
      limits = refl;
    } in
    let end = parse_reads-Closed ctx heap reads (begin (heap 0) (reset ctx)) all start in
    (
      elim end.settled.cases [
        | inl (e, same, n) ↦ inl (e, end.whole e, n, same)
        | inr bad ↦ inr bad
      ],
      end.settled.limits,
    )
