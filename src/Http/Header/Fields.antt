-- ===== src/Http/Header/Fields.antt =====
-- The branches for the header lines.
use erishttp.Common.{
  ℕ, ◌+◌, Bool, true, false, none, some, ◌∷◌, ◌||◌, ◌==◌, ltb, if◌then◌else◌, Errno, ok, is_ok,
}
use erishttp.EString.{EString, cleanup, clone_eris}
use erishttp.Buffer
use erishttp.Buffer.{Buffer}
use erishttp.Buffer.Block.{Grant}
use erishttp.UrlEncode.{is_alnum}
use erishttp.Http.Header.Parser.{
  header_name, header_colon, header_value, header_cr1, header_lf1, header_cr2, header_lf2, Parser,
  goto, bad_request, server_error, with_request, grants, push_name, push_value, cr, lf,
}

-- case ERIS_HTTP_SREQ_HEADER_NAME
unfoldable pub on_header_name : Grant → ℕ → Parser → Parser
on_header_name g c p =
    if c == b':'
    then goto header_colon p
    else if is_alnum c || (c == b'-' || c == b'_')
    then push_name g c p
    else bad_request p

-- case ERIS_HTTP_SREQ_HEADER_COLON
unfoldable pub on_header_colon : ℕ → Parser → Parser
on_header_colon c p = if c == b' ' then goto header_value p else bad_request p

-- case ERIS_HTTP_SREQ_HEADER_VALUE
unfoldable pub on_header_value : Grant → ℕ → Parser → Parser
on_header_value g c p = if c == cr then goto header_cr1 p else push_value g c p

-- case ERIS_HTTP_SREQ_HEADER_CR1
unfoldable pub on_header_cr1 : ℕ → Parser → Parser
on_header_cr1 c p = if c == lf then goto header_lf1 p else bad_request p

-- The new node at the head of the list; without memory, or without a name or a value, none.
abbrev pub link_header : Bool → EString → EString → Parser → Parser
link_header true (some name) (some value) p =
    with_request
      (record (p.context.request) { headers = (some name, some value) ∷ p.context.request.headers })
      p
link_header true (some name) none p = server_error p
link_header true none value p = server_error p
link_header false name value p = server_error p

-- The end of a header line. What is not a continuation line begins the next name, whatever
-- character it is, or is the end of the header.
abbrev pub next_line : Grant → ℕ → Parser → Parser
next_line g c p =
    if is_ok p.rc
    then if c == cr then goto header_cr2 p else push_name g c (goto header_name p)
    else p

-- case ERIS_HTTP_SREQ_HEADER_LF1
unfoldable pub on_header_lf1 : Grant → ℕ → Parser → Parser
on_header_lf1 g c p =
    if c == b' '
    then goto header_value p
    else let q =
        link_header (grants g) (clone_eris (grants g) p.hname) (clone_eris (grants g) p.hvalue)
          (goto header_cr2 p) in
      next_line g c (record q { hname = cleanup q.hname; hvalue = cleanup q.hvalue })

abbrev pub kept_body : Errno × Buffer → Parser → Parser
kept_body (ok, b) p = record p { context = record (p.context) { bbuffer = b } }
kept_body (rc, b) p = server_error (record p { context = record (p.context) { bbuffer = b } })

-- the bytes behind the header, from place `i` of the header buffer on
abbrev pub keep_rest : Grant → ℕ → Parser → Parser
keep_rest g i p =
    if ltb i p.context.hbuffer.size
    then kept_body (Buffer.copy_at g p.context.bbuffer p.context.hbuffer i) p
    else p

-- case ERIS_HTTP_SREQ_HEADER_CR2, at place `i` of the header buffer: what stands behind the header
-- is the beginning of the body.
unfoldable pub on_header_cr2 : Grant → ℕ → ℕ → Parser → Parser
on_header_cr2 g i c p =
    if c == lf
    then keep_rest g (i + 1) (record p { header_finish_flag = true; state = header_lf2 })
    else bad_request (record p { header_finish_flag = true })

-- cases ERIS_HTTP_SREQ_HEADER_LF2 and ERIS_HTTP_SREQ_FINISH
unfoldable pub on_finish : Parser → Parser
on_finish p = record p { header_finish_flag = true }
