-- ===== src/Http/Fail.antt =====
-- How the parsers refuse a message: they set the status line of the answer.
use erishttp.Common.{ℕ}
use erishttp.Http.Types.{Version, v10, Response, Http}

-- `response.status`, `response.version` and `response.reason`
unfoldable pub answer : ℕ → Version → ℕ → Response → Response
answer status version reason r = record r { status = status; version = version; reason = reason }

abbrev pub with_response : Http → Response → Http
with_response h r = record h { response = r }

-- the usual answer, as HTTP/1.0
unfoldable pub refuse : Http → ℕ → Http
unfolding answer
refuse h status = with_response h (answer status v10 status h.response)
