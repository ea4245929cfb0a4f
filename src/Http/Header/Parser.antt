-- ===== src/Http/Header/Parser.antt =====
-- The locals of the parse, and what its branches have in common.
use erishttp.Common.{ℕ, Bool, true, false, none, some, ◌&&◌, leb, Errno, ok, error, client_4xx}
use erishttp.EString.{EString, append_c}
use erishttp.Buffer.Block.{Grant}
use erishttp.Http.Types.{Version, v10, Request, Http}
use erishttp.Http.Fail.{answer, with_response}

-- the states ERIS_HTTP_SREQ_*
pub data Sreq : Type 0 where
  start command url_start url parameters query fragment : Sreq
  h ht htt http slash major dot minor title_cr title_lf : Sreq
  header_name header_colon header_value header_cr1 header_lf1 header_cr2 header_lf2 : Sreq
  finish : Sreq

-- the context, `eris_http_sreq_v`, the three working strings, `header_size`, `header_finish_flag`
-- and `rc`
pub record Parser : Type 0 where
  pub context : Http
  pub state : Sreq
  pub tmp_s : EString
  pub hname : EString
  pub hvalue : EString
  pub header_size : ℕ
  pub header_finish_flag : Bool
  pub rc : Errno

-- Whether the allocator grants the requests that are made at the n-th byte of the header, and what
-- the new memory holds.
abbrev pub Heap : Type 0
Heap = ℕ → Grant

abbrev pub grants : Grant → Bool
grants none = false
grants (some junk) = true

abbrev pub goto : Sreq → Parser → Parser
goto s p = record p { state = s }

-- A branch that ends the parse with an error: code, status, version, and reason phrase.
abbrev pub fail : Errno → ℕ → Version → ℕ → Parser → Parser
unfolding answer
fail rc status version reason p = record p {
  rc = rc;
  state = finish;
  context = with_response p.context (answer status version reason p.context.response);
}

abbrev pub bad_request : Parser → Parser
bad_request = fail client_4xx 400 v10 400

abbrev pub server_error : Parser → Parser
server_error = fail error 500 v10 500

-- the effect of one stored byte, or the internal error
abbrev pub stored : Errno × EString → (EString → Parser) → Parser → Parser
stored (ok, es) done p = done es
stored (rc, es) done p = server_error p

abbrev pub with_request : Request → Parser → Parser
with_request r p = record p { context = record (p.context) { request = r } }

abbrev pub push_tmp : Grant → ℕ → Parser → Parser
push_tmp g c p = stored (append_c (grants g) p.tmp_s c) (λ es. record p { tmp_s = es }) p

abbrev pub push_name : Grant → ℕ → Parser → Parser
push_name g c p = stored (append_c (grants g) p.hname c) (λ es. record p { hname = es }) p

abbrev pub push_value : Grant → ℕ → Parser → Parser
push_value g c p = stored (append_c (grants g) p.hvalue c) (λ es. record p { hvalue = es }) p

abbrev pub push_url : Grant → ℕ → Parser → Parser
push_url g c p =
    stored (append_c (grants g) p.context.request.url c)
      (λ es. with_request (record (p.context.request) { url = es }) p) p

abbrev pub push_parameters : Grant → ℕ → Parser → Parser
push_parameters g c p =
    stored (append_c (grants g) p.context.request.parameters c)
      (λ es. with_request (record (p.context.request) { parameters = es }) p) p

abbrev pub push_query : Grant → ℕ → Parser → Parser
push_query g c p =
    stored (append_c (grants g) p.context.request.query c)
      (λ es. with_request (record (p.context.request) { query = es }) p) p

abbrev pub push_fragment : Grant → ℕ → Parser → Parser
push_fragment g c p =
    stored (append_c (grants g) p.context.request.fragment c)
      (λ es. with_request (record (p.context.request) { fragment = es }) p) p

abbrev pub is_digit : ℕ → Bool
is_digit c = leb b'0' c && leb c b'9'

abbrev pub cr : ℕ
cr = 13

abbrev pub lf : ℕ
lf = 10
