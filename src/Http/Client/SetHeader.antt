-- ===== src/Http/Client/SetHeader.antt =====
-- Setting a header and reading it back.
use erishttp.Common.{
  ℕ, suc, ◌<◌, ◌≡◌, ◌≢◌, refl, ap, ◌∙◌, Bool, true, false, ◌||◌, if◌then◌else◌, Option, none, some,
  List, [], ◌∷◌, arith, Bool-cases, inl, inr, ok, Errno, map, length,
}
use erishttp.EString.{EString, to_lower, is_equal, set_string, append, cleanup}
use erishttp.EString.Compare.{is_equal_iff, is_equal_other}
use erishttp.Http.Types.{Hnode, Http}
use erishttp.Http.Body.{find_header, get_header}
use erishttp.Http.Client.{set_existed, set_header, new_header, or_new, with_headers}

abbrev pub lower : List ℕ → List ℕ
lower xs = map to_lower xs

-- the value that is kept: with no byte, an old string becomes empty and NULL stays NULL
abbrev pub stored : EString → List ℕ → EString
stored none [] = none
stored (some xs) [] = some []
stored old (x ∷ s) = some (x ∷ s)

-- a node of this name is linked, whatever its value
abbrev pub has_name : List ℕ → List Hnode → Bool
has_name name [] = false
has_name name ((n, v) ∷ hs) = is_equal true n (some name) || has_name name hs

abbrev pub count_after : Bool → ℕ → ℕ
count_after existed n = if existed then n else suc n

-- the name `other` is as before
abbrev pub IsKept : List Hnode → List Hnode → List ℕ → Type 0
IsKept hs after other =
    (find_header other after ≡ find_header other hs) × (has_name other after ≡ has_name other hs)

-- `after` has the value, one node more if the name is new, and is like `hs` for the other names
pub record IsWritten (name s : List ℕ) (hs after : List Hnode) : Type 0 where
  pub got : find_header name after ≡ stored (find_header name hs) s
  pub linked : has_name name after ≡ true
  pub nodes : length after ≡ count_after (has_name name hs) (length hs)
  pub others : (other : List ℕ) → lower other ≢ lower name → IsKept hs after other

data Walked (name s : List ℕ) (hs : List Hnode) (r : Option (Errno × List Hnode)) : Type 0 where
  existed :
      (after : List Hnode)
      → r ≡ some (ok, after)
      → has_name name hs ≡ true
      → IsWritten name s hs after
      → Walked name s hs r
  missing : r ≡ none → has_name name hs ≡ false → find_header name hs ≡ none → Walked name s hs r

set_string-stored : (es : EString) (s : List ℕ) → set_string true es s ≡ (ok, stored es s)
unfolding set_string append cleanup
set_string-stored none [] = refl
set_string-stored (some xs) [] = refl
set_string-stored none (x ∷ s) = refl
set_string-stored (some xs) (x ∷ s) = refl

set_existed-Walked :
    (name s : List ℕ) (hs : List Hnode) → Walked name s hs (set_existed true name s hs)
unfolding set_existed find_header
set_existed-Walked name s [] = missing refl refl refl
set_existed-Walked name s ((n, v) ∷ hs) = elim (Bool-cases (is_equal true n (some name))) [
  | inl y ↦
      rw (y, set_string-stored v s)
        (existed ((n, stored v s) ∷ hs) refl (rw y refl) (record {
          got = rw y refl;
          linked = rw y refl;
          nodes = rw y refl;
          others = λ other ne. rw (is_equal_other true n name other y ne) (refl, refl);
        }))
  | inr no_match ↦ rw no_match (elim (set_existed-Walked name s hs) [
    | missing e absent null ↦ missing (rw e refl) (rw no_match absent) (rw no_match null)
    | existed after e found set ↦ existed ((n, v) ∷ after) (rw e refl) (rw no_match found) (record {
      got = rw no_match set.got;
      linked = rw no_match set.linked;
      nodes = rw no_match (one_more (has_name name hs) (length hs) found set.nodes);
      others = λ other ne. elim (Bool-cases (is_equal true n (some other))) [
        | inl a ↦ rw a (refl, refl)
        | inr b ↦ rw b (set.others other ne)
      ];
    })
  ])
]
  where
    one_more :
        (b : Bool) {k : ℕ} (n : ℕ) → b ≡ true → k ≡ count_after b n → suc k ≡ count_after b (suc n)
    one_more true n h e = ap suc e
    one_more false n h e = cc

new_header-IsWritten :
    (name s : List ℕ) (hs : List Hnode)
    → 0 < length name
    → has_name name hs ≡ false
    → find_header name hs ≡ none
    → (after : List Hnode) × (new_header true true true name s hs ≡ (ok, after))
      × IsWritten name s hs after
unfolding find_header
new_header-IsWritten [] s hs h absent null = absurd (omega arith)
new_header-IsWritten (x ∷ name) s hs h absent null =
    let self = (is_equal_iff true (x ∷ name) (x ∷ name)).1 refl in
    (
      (some (x ∷ name), stored none s) ∷ hs,
      rw (set_string-stored none (x ∷ name), set_string-stored none s) refl,
      record {
        got = rw (self, null) refl;
        linked = rw self refl;
        nodes = rw absent refl;
        others = λ other ne.
            rw (is_equal_other true (some (x ∷ name)) (x ∷ name) other self ne) (refl, refl);
      },
    )

-- `eris_http_request_set_header` with a name that is not empty, if there is memory: it returns 0, and a
-- node of the name is linked, a new one exactly if there was none. Then
-- `eris_http_request_get_header` of the name gives the value; for a value without bytes it gives an
-- empty string if the old value was a string, and NULL otherwise. For every name that differs by
-- more than its case, get_header gives the same as before, and a node is linked or not as before.
pub get_header-set_header :
    (name s : List ℕ) (ctx : Http)
    → 0 < length name
    → (ctx' : Http) × (set_header true true true (some name) (some s) ctx ≡ (ok, ctx'))
      × (get_header name ctx' ≡ stored (get_header name ctx) s)
      × (has_name name ctx'.request.headers ≡ true)
      × (length ctx'.request.headers
          ≡ count_after (has_name name ctx.request.headers) (length ctx.request.headers))
      × ((other : List ℕ)
          → lower other ≢ lower name
          → (get_header other ctx' ≡ get_header other ctx)
            × (has_name other ctx'.request.headers ≡ has_name other ctx.request.headers))
unfolding set_header find_header
get_header-set_header name s ctx h =
    let hs = ctx.request.headers in
    let new = new_header true true true name s hs in
    elim (set_existed-Walked name s hs) [
      | existed after e found set ↦ (
        (with_headers ctx (ok, after)).1,
        ap (λ r. with_headers ctx (or_new r new)) e,
        set.got,
        set.linked,
        set.nodes,
        set.others,
      )
      | missing e absent null ↦
          let (after, run, set) = new_header-IsWritten name s hs h absent null in
          (
            (with_headers ctx (ok, after)).1,
            ap (λ r. with_headers ctx (or_new r new)) e ∙ ap (with_headers ctx) run,
            set.got,
            set.linked,
            set.nodes,
            set.others,
          )
    ]
