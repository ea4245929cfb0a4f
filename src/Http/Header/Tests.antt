-- ===== src/Http/Header/Tests.antt =====
-- Runs of the header automaton, and the theorems at concrete requests.
use erishttp.Common.{
  ◌≡◌, ◌≤◌, refl, true, List, [], ◌∷◌, ◌++◌, codes, arith, ok, error, is_ok, ◌⊎◌, inl, inr, false,
}
use erishttp.EString.{append_c, is_equal, cleanup, size}
use erishttp.Buffer.{empty, contents}
use erishttp.Http.Header.Parser.{Parser}
use erishttp.Http.Header.Line.{
  on_start, on_command, on_url_start, on_url, on_h, on_ht, on_htt, on_http, on_slash, on_major,
  on_dot, on_minor, on_title_cr, on_title_lf,
}
use erishttp.Http.Header.Fields.{on_header_name}
use erishttp.Http.Header.Loop.{parse_header, Read, cleanup_request}
use erishttp.Http.Header.Open.{asked}
use erishttp.Http.Header.Render.{render, line_end}
use erishttp.Http.Header.Answer.{any_empty, parse_header-answer}
use erishttp.Http.Header.RoundTrip.{parse_header-render}
use erishttp.Http.Header.Sample.{
  attrs, context, heap, holding, message, first_read, second_read, message-IsPlain,
}

abbrev two_reads : Parser
two_reads = parse_header heap ((ok, first_read) ∷ (ok, second_read) ∷ []) context

parse_header-render_example :
    (two_reads.rc ≡ ok)
    × (two_reads.header_finish_flag ≡ true)
    × (two_reads.context.request ≡ asked message (cleanup_request context).request)
    × (two_reads.context.response ≡ context.response)
    × (contents two_reads.context.bbuffer ≡ codes "BODY")
unfolding render
parse_header-render_example =
    parse_header-render heap message (first_read ∷ []) {b = second_read} (codes "BODY") [] context
      (λ n. refl) message-IsPlain (omega arith) (omega arith) (omega arith, tt) refl (omega arith)
      (omega arith) (omega arith)

-- a request line without a slash
abbrev bad_reads : List Read
bad_reads = (ok, holding (codes "GET x")) ∷ (error, empty) ∷ []

abbrev refused : Parser
refused = parse_header heap bad_reads context

parse_header-answer_example :
    (((refused.rc ≡ ok)
        × ((refused.header_finish_flag ≡ true) ⊎ (any_empty bad_reads ≡ true))
        × (refused.header_size ≤ 4096)
        × (refused.context.response ≡ context.response))
      ⊎ ((is_ok refused.rc ≡ false) × (400 ≤ refused.context.response.status)))
    × (refused.context.attrs ≡ attrs)
parse_header-answer_example = parse_header-answer heap bad_reads context (inr refl, (inl refl, tt))

refused_runs : refused.context.response.status ≡ 400
unfolding parse_header on_start append_c on_command is_equal on_url_start
refused_runs = refl

-- With no header line the carriage return behind the request line is taken for a header name.
bare_refused :
    (parse_header heap
      ((ok, holding (codes "GET / HTTP/1.1" ++ (line_end ++ line_end))) ∷ [])
      context).context.response.status
    ≡ 400
unfolding parse_header on_start append_c on_command is_equal cleanup on_url_start on_url size on_h
    on_ht on_htt on_http on_slash on_major on_dot on_minor on_title_cr on_title_lf on_header_name
bare_refused = refl

-- An empty read ends the loop without an error and without the rest of the header.
abbrev cut_off : Parser
cut_off = parse_header heap ((ok, holding (codes "GET /")) ∷ (ok, empty) ∷ []) context

empty_read : (cut_off.rc ≡ ok) × (cut_off.header_finish_flag ≡ false)
unfolding parse_header on_start append_c on_command is_equal on_url_start
empty_read = (refl, refl)
