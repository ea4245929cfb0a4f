-- ===== src/Http/Header/Refusal.antt =====
-- What every byte of the header part does to the return code, the answer and the limits.
use erishttp.Common.{
  ℕ, ◌≤◌, ◌≡◌, ◌⊎◌, inl, inr, refl, Bool, true, false, arith, if◌then◌else◌, Errno, ok, is_ok,
}
use erishttp.EString.{EString}
use erishttp.Http.Types.{Version}
use erishttp.Http.Fail.{answer}
use erishttp.Http.Header.Parser.{Parser, fail, stored, bad_request, server_error}

-- After `p`, which had not failed, `q` has not failed and has the same answer, or it has failed and
-- answers with the status of an error. The counter and the limits are as they were.
pub record Follows (p q : Parser) : Type 0 where
  pub answer :
      ((q.rc ≡ ok) × (q.context.response ≡ p.context.response))
      ⊎ ((is_ok q.rc ≡ false) × (400 ≤ q.context.response.status))
  pub counter : q.header_size ≡ p.header_size
  pub limits : q.context.attrs ≡ p.context.attrs

module _ {p : Parser} where
  pub still :
      {q : Parser}
      → q.rc ≡ ok
      → q.context.response ≡ p.context.response
      → q.header_size ≡ p.header_size
      → q.context.attrs ≡ p.context.attrs
      → Follows p q
  still h r n a = record { answer = inl (h, r); counter = n; limits = a }

  pub fail-Follows :
      (rc : Errno) (status : ℕ) (v : Version) (reason : ℕ) (q : Parser)
      → is_ok rc ≡ false
      → 400 ≤ status
      → q.header_size ≡ p.header_size
      → q.context.attrs ≡ p.context.attrs
      → Follows p (fail rc status v reason q)
  unfolding answer
  fail-Follows rc status v reason q bad s n a = record {
    answer = inr (bad, s);
    counter = n;
    limits = a;
  }

  pub if-Follows :
      (b : Bool) {q r : Parser} → Follows p q → Follows p r → Follows p (if b then q else r)
  if-Follows true f g = f
  if-Follows false f g = g

  pub stored-Follows :
      (r : Errno × EString) (done : EString → Parser) (q : Parser)
      → ((es : EString) → Follows p (done es))
      → q.header_size ≡ p.header_size
      → q.context.attrs ≡ p.context.attrs
      → Follows p (stored r done q)
  stored-Follows (ok, es) done q f n a = f es
  stored-Follows (_, es) done q f n a = fail-Follows _ _ _ _ q refl (omega arith) n a

  pub bad :
      (q : Parser)
      → q.header_size ≡ p.header_size
      → q.context.attrs ≡ p.context.attrs
      → Follows p (bad_request q)
  bad q n a = fail-Follows _ _ _ _ q refl (omega arith) n a

  pub internal :
      (q : Parser)
      → q.header_size ≡ p.header_size
      → q.context.attrs ≡ p.context.attrs
      → Follows p (server_error q)
  internal q n a = fail-Follows _ _ _ _ q refl (omega arith) n a
