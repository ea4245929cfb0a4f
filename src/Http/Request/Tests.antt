-- ===== src/Http/Request/Tests.antt =====
-- The request parser at a concrete request.
use erishttp.Common.{◌≡◌, refl, some, [], ◌∷◌, codes, arith, ok}
use erishttp.Http.Types.{Http}
use erishttp.Http.Header.{cleanup_request}
use erishttp.Http.Header.Open.{asked}
use erishttp.Http.Header.Render.{render}
use erishttp.Http.Header.Sample.{context, heap, message, message-IsPlain, first_read, second_read}
use erishttp.Http.Request.{request_parse}
use erishttp.Http.Request.Plain.{request_parse-render}

request_parse-render_example :
    (ctx' : Http) × (request_parse heap
        ((ok, first_read) ∷ (ok, second_read) ∷ [])
        heap
        []
        []
        context
      ≡ some (ok, ctx'))
    × (ctx'.request ≡ asked message (cleanup_request context).request)
    × (ctx'.response ≡ context.response)
unfolding render
request_parse-render_example =
    request_parse-render heap heap message (first_read ∷ []) {b = second_read} (codes "BODY") [] []
      [] context (λ n. refl) message-IsPlain (λ h. ground arith) (λ h. ground arith)
      (λ h. ground arith) (omega arith) (omega arith) (omega arith, tt) refl (omega arith)
      (omega arith) (omega arith)
