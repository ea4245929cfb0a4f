-- ===== src/Http/Client.antt =====
-- What a client sets in a request, and the tests of its headers: `eris_http_request_set_command` to
-- `eris_http_request_set_body_append`, `eris_http_request_keep_alive`,
-- `eris_http_request_is_x_www_form_urlencoded` and `eris_http_request_is_json` of
-- src/core/eris.http.c.
pub mod SetHeader
pub mod SetBody
mod Tests
use mathlib.Core.Option.{map as option_map}
use erishttp.Common.{
  ℕ, Bool, true, false, Option, none, some, List, [], ◌∷◌, ◌&&◌, if◌then◌else◌, codes, Errno, ok,
  error, is_ok,
}
use erishttp.EString.{EString, is_equal, set_string}
use erishttp.EString.Find.{Found, find}
use erishttp.EString.Split.{Outcome}
use erishttp.Buffer
use erishttp.Buffer.{Buffer}
use erishttp.Buffer.Block.{Grant}
use erishttp.Http.Types.{Command, Version, Hnode, Request, Http}
use erishttp.Http.Body.{get_header}

abbrev pub with_request : Http → Request → Http
with_request ctx r = record ctx { request = r }

abbrev pub set_command : Command → Http → Errno × Http
set_command c ctx = (ok, with_request ctx (record (ctx.request) { command = c }))

abbrev pub set_version : Version → Http → Errno × Http
set_version v ctx = (ok, with_request ctx (record (ctx.request) { version = v }))

-- A C string is set, if there is one; `granted` is the allocator's answer.
module _ (granted : Bool) where
  abbrev pub changed : (EString → Request) → Http → Errno × EString → Errno × Http
  changed put ctx (rc, es) = (rc, with_request ctx (put es))

  unfoldable pub set_url : Option (List ℕ) → Http → Errno × Http
  unfolding set_string
  set_url none ctx = (error, ctx)
  set_url (some s) ctx =
      changed (λ es. record (ctx.request) { url = es }) ctx (set_string granted ctx.request.url s)

  unfoldable pub set_parameters : Option (List ℕ) → Http → Errno × Http
  unfolding set_string
  set_parameters none ctx = (error, ctx)
  set_parameters (some s) ctx =
      changed (λ es. record (ctx.request) { parameters = es }) ctx
        (set_string granted ctx.request.parameters s)

  unfoldable pub set_query : Option (List ℕ) → Http → Errno × Http
  unfolding set_string
  set_query none ctx = (error, ctx)
  set_query (some s) ctx =
      changed (λ es. record (ctx.request) { query = es }) ctx
        (set_string granted ctx.request.query s)

  unfoldable pub set_fragment : Option (List ℕ) → Http → Errno × Http
  unfolding set_string
  set_fragment none ctx = (error, ctx)
  set_fragment (some s) ctx =
      changed (λ es. record (ctx.request) { fragment = es }) ctx
        (set_string granted ctx.request.fragment s)

  abbrev pub with_value : Hnode → Errno × EString → Errno × Hnode
  with_value (n, v) (rc, es) = (rc, (n, es))

  -- the walk: the first node of the name gets the value; `none` if there is none
  unfoldable pub set_existed : List ℕ → List ℕ → List Hnode → Option (Errno × List Hnode)
  unfolding set_string is_equal
  set_existed name value [] = none
  set_existed name value ((n, v) ∷ hs) =
      let rest =
        option_map (λ (r : Errno × List Hnode). (r.0, (n, v) ∷ r.1)) (set_existed name value hs) in
      let (rc, node) = with_value (n, v) (set_string granted v value) in
      if is_equal true n (some name) then some (rc, node ∷ hs) else rest

-- a new node, in front, unless a string is refused
abbrev pub linked : List Hnode → Errno × EString → Errno × EString → Errno × List Hnode
linked hs (rc, n) (rc', v) =
    if is_ok rc then if is_ok rc' then (ok, (n, v) ∷ hs) else (rc', hs) else (rc, hs)

-- `node`, `name_granted` and `value_granted` are the allocator's answers.
abbrev pub new_header :
    (node name_granted value_granted : Bool) → List ℕ → List ℕ → List Hnode → Errno × List Hnode
new_header node name_granted value_granted name value hs =
    if node
    then linked hs (set_string name_granted none name) (set_string value_granted none value)
    else (error, hs)

abbrev pub or_new : Option (Errno × List Hnode) → Errno × List Hnode → Errno × List Hnode
or_new (some r) new = r
or_new none new = new

abbrev pub with_headers : Http → Errno × List Hnode → Errno × Http
with_headers ctx (rc, hs) = (rc, with_request ctx (record (ctx.request) { headers = hs }))

unfoldable pub set_header :
    (node name_granted value_granted : Bool)
    → Option (List ℕ)
    → Option (List ℕ)
    → Http
    → Errno × Http
unfolding set_existed set_string
set_header node name_granted value_granted (some name) (some value) ctx = with_headers ctx (
    or_new (set_existed value_granted name value ctx.request.headers)
      (new_header node name_granted value_granted name value ctx.request.headers))
set_header node name_granted value_granted name value ctx = (error, ctx)

abbrev pub with_response_body : Http → Errno × Buffer → Errno × Http
with_response_body ctx (rc, b) = (rc, record ctx { response = record (ctx.response) { body = b } })

-- The code takes the body of the response.
unfoldable pub set_body : Grant → Option (List ℕ) → Http → Errno × Http
unfolding Buffer.append Buffer.cleanup
set_body g none ctx = (error, ctx)
set_body g (some []) ctx = (error, ctx)
set_body g (some (x ∷ xs)) ctx =
    with_response_body ctx (Buffer.append g (Buffer.cleanup ctx.response.body) (x ∷ xs))

unfoldable pub set_body_append : Grant → Option (List ℕ) → Http → Errno × Http
unfolding Buffer.append
set_body_append g none ctx = (error, ctx)
set_body_append g (some []) ctx = (error, ctx)
set_body_append g (some (x ∷ xs)) ctx =
    with_response_body ctx (Buffer.append g ctx.response.body (x ∷ xs))

abbrev pub says_keep_alive : EString → Bool
says_keep_alive es = is_equal true es (some (codes "keep-alive"))

-- `Proxy-Connection` is asked first; only where it is missing, `Connection`.
abbrev pub keep_alive_by : EString → EString → Bool
keep_alive_by (some proxy) connection = says_keep_alive (some proxy)
keep_alive_by none (some connection) = says_keep_alive (some connection)
keep_alive_by none none = false

unfoldable pub keep_alive : Http → Bool
unfolding is_equal
keep_alive ctx =
    keep_alive_by (get_header (codes "Proxy-Connection") ctx) (get_header (codes "Connection") ctx)

abbrev pub is_found : Found → Outcome Bool
is_found (Found.index i) = Outcome.value true
is_found Found.npos = Outcome.value false
is_found Found.overrun = Outcome.overrun
is_found Found.no_rounds = Outcome.no_rounds

abbrev pub holds : List ℕ → EString → List ℕ → Outcome Bool
holds spare none media_type = Outcome.value false
holds spare (some xs) media_type = is_found (find spare (some xs) (some media_type))

-- `spare` is behind the value of the header in its block.
unfoldable pub is_x_www_form_urlencoded : List ℕ → Http → Outcome Bool
unfolding find
is_x_www_form_urlencoded spare ctx =
    holds spare (get_header (codes "Content-Type") ctx) (codes "application/x-www-form-urlencoded")

unfoldable pub is_json : List ℕ → Http → Outcome Bool
unfolding find
is_json spare ctx = holds spare (get_header (codes "Content-Type") ctx) (codes "application/json")
