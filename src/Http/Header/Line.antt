-- ===== src/Http/Header/Line.antt =====
-- The branches for the request line.
use erishttp.Common.{
  ℕ, Bool, true, false, Option, none, some, List, [], ◌∷◌, ◌==◌, ltb, if◌then◌else◌, codes, Errno,
  ok, error, client_4xx, server_5xx, bad_data, is_ok,
}
use erishttp.EString.{EString, append_c, cleanup, is_equal, size}
use erishttp.Buffer.Block.{Grant}
use erishttp.Http.Types.{
  Command, get, head, post, put, delete, options, trace, patch, move, copy, link, unlink, purge,
  lock, unlock, propfind, view, Version, v00, v09, v10, v11,
}
use erishttp.Http.Header.Parser.{
  command, url_start, url, parameters, query, fragment, h, ht, htt, http, slash, major, dot, minor,
  title_cr, title_lf, header_name, Parser, goto, fail, bad_request, server_error, with_request,
  grants, push_tmp, push_url, push_parameters, push_query, push_fragment, is_digit, cr, lf,
}

-- case ERIS_HTTP_SREQ_START
unfoldable pub on_start : Grant → ℕ → Parser → Parser
on_start g c p = push_tmp g c (goto command p)

-- the methods in the order of the comparisons
abbrev pub command_names : List (List ℕ × Command)
command_names =
    (codes "GET", get)
    ∷ (codes "HEAD", head)
    ∷ (codes "POST", post)
    ∷ (codes "PUT", put)
    ∷ (codes "DELETE", delete)
    ∷ (codes "OPTIONS", options)
    ∷ (codes "TRACE", trace)
    ∷ (codes "PATCH", patch)
    ∷ (codes "MOVE", move)
    ∷ (codes "COPY", copy)
    ∷ (codes "LINK", link)
    ∷ (codes "UNLINK", unlink)
    ∷ (codes "PURGE", purge)
    ∷ (codes "LOCK", lock)
    ∷ (codes "UNLOCK", unlock)
    ∷ (codes "PROPFIND", propfind)
    ∷ (codes "VIEW", view)
    ∷ []

-- the chain of comparisons, without regard to case
unfoldable pub find_command : EString → List (List ℕ × Command) → Option Command
find_command es [] = none
find_command es ((name, c) ∷ names) =
    let rest = find_command es names in if is_equal true es (some name) then some c else rest

abbrev pub set_command : Option Command → Parser → Parser
set_command (some c) p = with_request (record (p.context.request) { command = c }) p
set_command none p = fail bad_data 405 v10 405 p

-- the method is complete: looked up, and the working string cleaned
abbrev pub end_command : Parser → Parser
unfolding find_command
end_command p =
    let q = set_command (find_command p.tmp_s command_names) (goto url_start p) in
    record q { tmp_s = cleanup q.tmp_s }

-- a refused allocation leaves the reason phrase as it was
abbrev pub kept_command : Errno × EString → Parser → Parser
kept_command (ok, es) p = record p { tmp_s = es }
kept_command (rc, es) p = fail error 500 v10 p.context.response.reason p

-- case ERIS_HTTP_SREQ_COMMAND
unfoldable pub on_command : Grant → ℕ → Parser → Parser
unfolding end_command
on_command g c p =
    if c == b' ' then end_command p else kept_command (append_c (grants g) p.tmp_s c) p

-- case ERIS_HTTP_SREQ_URL_START
unfoldable pub on_url_start : Grant → ℕ → Parser → Parser
on_url_start g c p = if c == b'/' then push_url g c (goto url p) else bad_request p

abbrev pub is_get : Command → Bool
is_get get = true
is_get _ = false

-- A carriage return in the target: HTTP/0.9, for GET only.
abbrev pub end_line : Version → Parser → Parser
end_line v p =
    if is_get p.context.request.command
    then with_request (record (p.context.request) { version = v }) (goto title_cr p)
    else fail client_4xx 405 v09 405 p

abbrev pub check_url : ℕ → Parser → Parser
check_url url_max_size p =
    if is_ok p.rc
    then if ltb url_max_size (size p.context.request.url) then fail client_4xx 414 v10 414 p else p
    else p

-- case ERIS_HTTP_SREQ_URL
unfoldable pub on_url : Grant → ℕ → Parser → Parser
on_url g c p = check_url p.context.attrs.url_max_size (
    if c == b' '
    then goto h p
    else if c == b';'
    then goto parameters p
    else if c == b'?'
    then goto query p
    else if c == b'#'
    then goto fragment p
    else if c == cr
    then end_line v09 p
    else push_url g c p)

-- case ERIS_HTTP_SREQ_PARAMETERS; the version stays.
unfoldable pub on_parameters : Grant → ℕ → Parser → Parser
on_parameters g c p =
    if c == b' '
    then goto h p
    else if c == b'?'
    then goto query p
    else if c == b'#'
    then goto fragment p
    else if c == cr
    then end_line p.context.request.version p
    else push_parameters g c p

-- case ERIS_HTTP_SREQ_QUERY
unfoldable pub on_query : Grant → ℕ → Parser → Parser
on_query g c p =
    if c == b' '
    then goto h p
    else if c == b';'
    then goto parameters p
    else if c == b'#'
    then goto fragment p
    else if c == cr
    then end_line p.context.request.version p
    else push_query g c p

-- case ERIS_HTTP_SREQ_FRAGMENT
unfoldable pub on_fragment : Grant → ℕ → Parser → Parser
on_fragment g c p =
    if c == b' '
    then goto h p
    else if c == cr
    then end_line p.context.request.version p
    else push_fragment g c p

-- case ERIS_HTTP_SREQ_H
unfoldable pub on_h : Grant → ℕ → Parser → Parser
on_h g c p =
    if c == b'H'
    then push_tmp g c (record p { state = ht; tmp_s = cleanup p.tmp_s })
    else bad_request p

-- case ERIS_HTTP_SREQ_HT
unfoldable pub on_ht : Grant → ℕ → Parser → Parser
on_ht g c p = if c == b'T' then push_tmp g c (goto htt p) else bad_request p

-- case ERIS_HTTP_SREQ_HTT
unfoldable pub on_htt : Grant → ℕ → Parser → Parser
on_htt g c p = if c == b'T' then push_tmp g c (goto http p) else bad_request p

-- case ERIS_HTTP_SREQ_HTTP
unfoldable pub on_http : Grant → ℕ → Parser → Parser
on_http g c p = if c == b'P' then push_tmp g c (goto slash p) else bad_request p

-- case ERIS_HTTP_SREQ_SLASH
unfoldable pub on_slash : Grant → ℕ → Parser → Parser
on_slash g c p = if c == b'/' then push_tmp g c (goto major p) else bad_request p

-- case ERIS_HTTP_SREQ_MAJOR
unfoldable pub on_major : Grant → ℕ → Parser → Parser
on_major g c p = if is_digit c then push_tmp g c (goto dot p) else bad_request p

-- case ERIS_HTTP_SREQ_DOT
unfoldable pub on_dot : Grant → ℕ → Parser → Parser
on_dot g c p = if c == b'.' then push_tmp g c (goto minor p) else bad_request p

-- the version strings, compared with regard to case
unfoldable pub find_version : EString → Option Version
find_version es =
    if is_equal false es (some (codes "HTTP/0.9"))
    then some v09
    else if is_equal false es (some (codes "HTTP/1.0"))
    then some v10
    else if is_equal false es (some (codes "HTTP/1.1"))
    then some v11
    else none

abbrev pub set_version : Option Version → Parser → Parser
set_version (some v) p = with_request (record (p.context.request) { version = v }) p
set_version none p =
    fail server_5xx 505 v10 505 (with_request (record (p.context.request) { version = v00 }) p)

abbrev pub versioned : Errno × EString → Parser → Parser
unfolding find_version
versioned (ok, es) p = set_version (find_version es) (record p { state = title_cr; tmp_s = es })
versioned (rc, es) p = server_error p

-- the version is complete: looked up, and the working string cleaned
abbrev pub end_version : Errno × EString → Parser → Parser
unfolding versioned
end_version r p = let q = versioned r p in record q { tmp_s = cleanup q.tmp_s }

-- case ERIS_HTTP_SREQ_MINOR
unfoldable pub on_minor : Grant → ℕ → Parser → Parser
unfolding end_version
on_minor g c p = if is_digit c then end_version (append_c (grants g) p.tmp_s c) p else bad_request p

-- case ERIS_HTTP_SREQ_TITLE_CR
unfoldable pub on_title_cr : ℕ → Parser → Parser
on_title_cr c p = if c == cr then goto title_lf p else bad_request p

-- case ERIS_HTTP_SREQ_TITLE_LF
unfoldable pub on_title_lf : ℕ → Parser → Parser
on_title_lf c p =
    if c == lf
    then record p { state = header_name; hname = cleanup p.hname; hvalue = cleanup p.hvalue }
    else bad_request p
