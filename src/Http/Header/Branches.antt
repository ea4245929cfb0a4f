-- ===== src/Http/Header/Branches.antt =====
-- Every branch of the automaton, from a parser that has not failed.
use erishttp.Common.{ℕ, ◌≡◌, ok}
use erishttp.Buffer.Block.{Grant}
use erishttp.Http.Header.Parser.{Sreq, Parser}
use erishttp.Http.Header.Loop.{step}
use erishttp.Http.Header.Refusal.{Follows}
use erishttp.Http.Header.LineBranches.{
  on_command-Follows, on_dot-Follows, on_fragment-Follows, on_h-Follows, on_ht-Follows,
  on_htt-Follows, on_http-Follows, on_major-Follows, on_minor-Follows, on_parameters-Follows,
  on_query-Follows, on_slash-Follows, on_start-Follows, on_title_cr-Follows, on_title_lf-Follows,
  on_url-Follows, on_url_start-Follows,
}
use erishttp.Http.Header.FieldBranches.{
  on_finish-Follows, on_header_colon-Follows, on_header_cr1-Follows, on_header_cr2-Follows,
  on_header_lf1-Follows, on_header_name-Follows, on_header_value-Follows,
}

module _ {p : Parser} (h : p.rc ≡ ok) where
  -- One step of the automaton from a parser that has not failed.
  pub step-Follows : (g : Grant) (i c : ℕ) (s : Sreq) → Follows p (step g i c s p)
  step-Follows g i c Sreq.start = on_start-Follows h g c
  step-Follows g i c Sreq.command = on_command-Follows h g c
  step-Follows g i c Sreq.url_start = on_url_start-Follows h g c
  step-Follows g i c Sreq.url = on_url-Follows h g c
  step-Follows g i c Sreq.parameters = on_parameters-Follows h g c
  step-Follows g i c Sreq.query = on_query-Follows h g c
  step-Follows g i c Sreq.fragment = on_fragment-Follows h g c
  step-Follows g i c Sreq.h = on_h-Follows h g c
  step-Follows g i c Sreq.ht = on_ht-Follows h g c
  step-Follows g i c Sreq.htt = on_htt-Follows h g c
  step-Follows g i c Sreq.http = on_http-Follows h g c
  step-Follows g i c Sreq.slash = on_slash-Follows h g c
  step-Follows g i c Sreq.major = on_major-Follows h g c
  step-Follows g i c Sreq.dot = on_dot-Follows h g c
  step-Follows g i c Sreq.minor = on_minor-Follows h g c
  step-Follows g i c Sreq.title_cr = on_title_cr-Follows h c
  step-Follows g i c Sreq.title_lf = on_title_lf-Follows h c
  step-Follows g i c Sreq.header_name = on_header_name-Follows h g c
  step-Follows g i c Sreq.header_colon = on_header_colon-Follows h c
  step-Follows g i c Sreq.header_value = on_header_value-Follows h g c
  step-Follows g i c Sreq.header_cr1 = on_header_cr1-Follows h c
  step-Follows g i c Sreq.header_lf1 = on_header_lf1-Follows h g c
  step-Follows g i c Sreq.header_cr2 = on_header_cr2-Follows h g i c
  step-Follows g i c Sreq.header_lf2 = on_finish-Follows h
  step-Follows g i c Sreq.finish = on_finish-Follows h
