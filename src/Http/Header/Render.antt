-- ===== src/Http/Header/Render.antt =====
-- Requests as a client writes them: the text that the header automaton is to read.
use erishttp.Common.{
  ℕ, ◌≡◌, ◌≢◌, true, Option, none, some, List, [], ◌∷◌, ◌++◌, ◌&&◌, ◌||◌, not, ◌==◌, codes, All,
}
use erishttp.UrlEncode.{is_alnum}
use erishttp.Http.Types.{
  Command, unknow, get, head, post, put, delete, options, trace, patch, move, copy, link, unlink,
  purge, lock, unlock, propfind, view, Version, v00, v09, v10, v11,
}
use erishttp.Http.Header.Parser.{cr, lf}

abbrev pub method_name : Command → List ℕ
method_name unknow = []
method_name get = codes "GET"
method_name head = codes "HEAD"
method_name post = codes "POST"
method_name put = codes "PUT"
method_name delete = codes "DELETE"
method_name options = codes "OPTIONS"
method_name trace = codes "TRACE"
method_name patch = codes "PATCH"
method_name move = codes "MOVE"
method_name copy = codes "COPY"
method_name link = codes "LINK"
method_name unlink = codes "UNLINK"
method_name purge = codes "PURGE"
method_name lock = codes "LOCK"
method_name unlock = codes "UNLOCK"
method_name propfind = codes "PROPFIND"
method_name view = codes "VIEW"

abbrev pub version_name : Version → List ℕ
version_name v00 = []
version_name v09 = codes "HTTP/0.9"
version_name v10 = codes "HTTP/1.0"
version_name v11 = codes "HTTP/1.1"

-- A header line, the name in two parts since it must not be empty.
pub record Field : Type 0 where
  pub initial : ℕ
  pub more : List ℕ
  pub value : List ℕ

-- The path stands without its slash; the parameters begin with `;`, the query with `?`, the fragment
-- with `#`. At least one header line follows the request line.
pub record Message : Type 0 where
  pub command : Command
  pub path : List ℕ
  pub parameters : Option (List ℕ)
  pub query : Option (List ℕ)
  pub fragment : Option (List ℕ)
  pub version : Version
  pub field : Field
  pub fields : List Field

abbrev pub line_end : List ℕ
line_end = cr ∷ lf ∷ []

abbrev pub part : ℕ → Option (List ℕ) → List ℕ
part mark none = []
part mark (some w) = mark ∷ w

abbrev pub name_of : Field → List ℕ
name_of f = f.initial ∷ f.more

abbrev pub render_field : Field → List ℕ
render_field f = name_of f ++ (b':' ∷ b' ' ∷ (f.value ++ line_end))

abbrev pub field_texts : List Field → List ℕ
field_texts [] = []
field_texts (f ∷ fs) = render_field f ++ field_texts fs

abbrev pub render_target : Message → List ℕ
render_target m =
    b'/' ∷ (m.path ++ (part b';' m.parameters ++ (part b'?' m.query ++ part b'#' m.fragment)))

abbrev pub render_title : Message → List ℕ
render_title m =
    (method_name m.command ++ (b' ' ∷ []))
    ++ ((render_target m ++ (b' ' ∷ [])) ++ (version_name m.version ++ line_end))

-- All but the last character, which is a line feed.
abbrev pub render_open : Message → List ℕ
render_open m = render_title m ++ (field_texts (m.field ∷ m.fields) ++ (cr ∷ []))

unfoldable pub render : Message → List ℕ
render m = render_open m ++ (lf ∷ [])

-- what may stand in a path, in parameters, in a query and in a fragment
abbrev pub IsPathChar : ℕ → Type 0
IsPathChar c =
    (not (c == 0)
      && (not (c == b' ')
          && (not (c == b';') && (not (c == b'?') && (not (c == b'#') && not (c == cr))))))
    ≡ true

abbrev pub IsParameterChar : ℕ → Type 0
IsParameterChar c =
    (not (c == 0) && (not (c == b' ') && (not (c == b'?') && (not (c == b'#') && not (c == cr)))))
    ≡ true

abbrev pub IsQueryChar : ℕ → Type 0
IsQueryChar c =
    (not (c == 0) && (not (c == b' ') && (not (c == b';') && (not (c == b'#') && not (c == cr)))))
    ≡ true

abbrev pub IsFragmentChar : ℕ → Type 0
IsFragmentChar c = (not (c == 0) && (not (c == b' ') && not (c == cr))) ≡ true

-- in a header's name and in its value
abbrev pub IsNameChar : ℕ → Type 0
IsNameChar c = (is_alnum c || (c == b'-' || c == b'_')) ≡ true

abbrev pub IsValueChar : ℕ → Type 0
IsValueChar c = (not (c == 0) && not (c == cr)) ≡ true

abbrev pub AllIn : (ℕ → Type 0) → Option (List ℕ) → Type 0
AllIn P none = Unit {0}
AllIn P (some w) = All P w

abbrev pub IsField : Field → Type 0
IsField f = IsNameChar f.initial × All IsNameChar f.more × All IsValueChar f.value

pub record IsPlain (m : Message) : Type 0 where
  pub method : m.command ≢ unknow
  pub version : m.version ≢ v00
  pub path : All IsPathChar m.path
  pub parameters : AllIn IsParameterChar m.parameters
  pub query : AllIn IsQueryChar m.query
  pub fragment : AllIn IsFragmentChar m.fragment
  pub field : IsField m.field
  pub fields : All IsField m.fields
