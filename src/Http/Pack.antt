-- ===== src/Http/Pack.antt =====
-- `eris_http_request_pack` of src/core/eris.http.c. The output callback is the list of the buffers
-- that it gets; its return code is ignored by the code.
mod Pieces
pub mod Bytes
pub mod Render
pub mod RoundTrip
mod Tests
pub use Pieces.*
use erishttp.Common.{
  ℕ, suc, ◌||◌, Bool, true, false, Option, none, some, List, [], ◌∷◌, ◌++◌, leb, ltb, ◌==◌,
  if◌then◌else◌, get_or, length, codes, Errno, ok, is_ok,
}
use erishttp.Buffer as buffer
use erishttp.Buffer.{Buffer}
use erishttp.Buffer.Block.{Grant}
use erishttp.EString.{EString, text, size}
use erishttp.Http.Types.{
  Command, unknow, get, head, post, put, delete, options, trace, patch, move, copy, link, unlink,
  purge, lock, unlock, propfind, view, Version, v00, v09, v10, v11, Hnode, Request, Http,
}
use erishttp.Http.Header.Parser.{Heap}
use erishttp.Http.Body.{has_body}

-- the numbers of the commands; there is no 16
abbrev pub command_v : Command → ℕ
command_v unknow = 0
command_v get = 1
command_v head = 2
command_v post = 3
command_v put = 4
command_v delete = 5
command_v options = 6
command_v trace = 7
command_v patch = 8
command_v move = 9
command_v copy = 10
command_v link = 11
command_v unlink = 12
command_v purge = 13
command_v lock = 14
command_v unlock = 15
command_v propfind = 17
command_v view = 18

-- `eris_http_command_arrs`, by place; ERIS_HTTP_CMAX, which is 19, is taken for its size
abbrev pub command_arrs : List (List ℕ)
command_arrs =
    codes "UNKNOW"
    ∷ codes "GET"
    ∷ codes "HEAD"
    ∷ codes "POST"
    ∷ codes "PUT"
    ∷ codes "DELETE"
    ∷ codes "OPTIONS"
    ∷ codes "TRACE"
    ∷ codes "PATCH"
    ∷ codes "MOVE"
    ∷ codes "COPY"
    ∷ codes "LINK"
    ∷ codes "UNLINK"
    ∷ codes "PURGE"
    ∷ codes "LOCK"
    ∷ codes "UNLOCK"
    ∷ codes "PROPFIND"
    ∷ codes "VIEW"
    ∷ codes "CMAX"
    ∷ []

abbrev pub chosen_command : Command → Command
chosen_command c = if leb (command_v c) 0 || leb 19 (command_v c) then get else c

-- `eris_http_version_tos` of the version, and the version that is kept
abbrev pub version_tos : Version → List ℕ
version_tos v11 = codes "HTTP/1.1"
version_tos v09 = codes "HTTP/0.9"
version_tos _ = codes "HTTP/1.0"

abbrev pub chosen_version : Version → Version
chosen_version v11 = v11
chosen_version v09 = v09
chosen_version _ = v10

abbrev pub crlf : List ℕ
crlf = 13 ∷ 10 ∷ []

-- the parameters, the query or the fragment behind its mark, if it is not empty
unfoldable pub marked : ℕ → EString → List Piece
unfolding size
marked mark es = if ltb 0 (size es) then char mark ∷ bytes (text es) ∷ [] else []

abbrev pub before_version : Request → List Piece
before_version r =
    bytes (get_or command_arrs (command_v r.command) [])
    ∷ char b' '
    ∷ bytes (text r.url)
    ∷ (marked b';' r.parameters
        ++ (marked b'?' r.query ++ (marked b'#' r.fragment ++ (char b' ' ∷ []))))

abbrev pub header_pieces : List Hnode → List Piece
header_pieces [] = []
header_pieces ((name, value) ∷ hs) =
    bytes (text name) ∷ bytes (codes ": ") ∷ bytes (text value) ∷ bytes crlf ∷ header_pieces hs

abbrev pub from_version : Request → List Piece
from_version r =
    bytes (version_tos r.version) ∷ bytes crlf ∷ (header_pieces r.headers ++ (bytes crlf ∷ []))

abbrev pub with_command : Command → Request → Request
with_command c r = record r { command = c }

-- a version that is not known is set when it is to be written
abbrev pub with_version : Errno → Request → Request
with_version rc r = if is_ok rc then record r { version = chosen_version r.version } else r

abbrev pub written : Http → Errno × Buffer → Errno × Http × List Buffer
written ctx (rc, b) = (
  rc,
  record ctx { hbuffer = b },
  if is_ok rc then b ∷ (if has_body ctx.request.command then ctx.request.body ∷ [] else []) else [],
)

-- the second half, behind the pieces before the version, whose result is `title`
abbrev pub pack_rest : Heap → Http → Request → Errno × Buffer → Errno × Http × List Buffer
pack_rest heap ctx r title =
    let r' = with_version title.0 r in
    written (record ctx { request = r' })
      (put_pieces heap (length (before_version r)) (from_version r') title)

abbrev pub pack_from : Heap → Http → Request → Errno × Http × List Buffer
pack_from heap ctx r =
    pack_rest heap ctx r (put_pieces heap 0 (before_version r) (ok, buffer.cleanup ctx.hbuffer))

-- `heap` has the answers of the allocator by the number of the append.
unfoldable pub request_pack : Heap → Http → Errno × Http × List Buffer
request_pack heap ctx =
    pack_from heap ctx (with_command (chosen_command ctx.request.command) ctx.request)
