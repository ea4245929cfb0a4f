-- ===== src/XForm/Short.antt =====
-- A form with a value that is too short for the split.
use erishttp.Common.{
  ℕ, suc, ◌≤◌, ◌<◌, ◌≡◌, refl, ap, ◌∙◌, true, false, none, some, List, [], ◌∷◌, ◌++◌, map, All,
  arith, length, Bool-cases, inl, inr, length-append, ltb, is_ok,
}
use erishttp.EString.{EString}
use erishttp.EString.Split.{value}
use erishttp.EString.Split.Cut.{fields, kept}
use erishttp.EString.Split.Fields.{array_of}
use erishttp.UrlEncode.{decode_eris}
use erishttp.UrlEncode.Encoder.{encoded}
use erishttp.XForm.{
  XForm, Memory, parse_elem, parse_loop, parse, new_elem, on_parts, followed, finished, on_array,
}
use erishttp.XForm.Form.{
  Pair, encoded_pair, form_text, IsSendable, fields-whole, fields-append, encoded-ne, named-encoded,
  encoded_pair-ne, form_text-ne, fields-form_text, kept_pairs, not_nul, not_equals,
}
use erishttp.XForm.RoundTrip.{IsGranted, elem_of, split_granted, parse_elem-encoded}
use erishttp.XForm.Form.{IsNamed}
use erishttp.XForm.{failure}

-- without a value there is no element, whatever the allocator answers
new_elem-none : (mem : Memory) (i : ℕ) (key_es : EString) → new_elem mem i key_es none ≡ inl failure
unfolding decode_eris
new_elem-none mem i key_es = elim (Bool-cases (mem.elem i)) [
  | inr n ↦ rw n refl
  | inl y ↦ rw y (elim (Bool-cases (is_ok (decode_eris (mem.key i) none key_es).0)) [
    | inl fine ↦ rw fine refl
    | inr bad ↦ rw bad refl
  ])
]

parse_elem-short :
    (mem : Memory) (i : ℕ) (p : Pair)
    → IsGranted mem
    → IsNamed p
    → length (encoded p.1) ≤ 1
    → parse_elem mem i (some (encoded_pair p)) ≡ value (inl failure)
unfolding parse_elem
parse_elem-short mem i (k, v) m s short =
    ap (on_parts mem i) (
      split_granted (mem.parts i) [] (encoded_pair (k, v)) b'=' (m.parts i)
        (encoded_pair-ne 0 (k, v) not_nul (λ e. omega (arith, e)))
      ∙ ap (λ ws. value (array_of ws)) only_key)
    ∙ ap value (new_elem-none mem i (some (encoded k)))
  where
    only_key : kept (fields b'=' (encoded_pair (k, v))) ≡ encoded k ∷ []
    only_key =
        let p : ltb 0 (length (encoded k)) ≡ true = ground (arith, named-encoded k s) in
        let q : ltb 1 (length (encoded v)) ≡ false = ground (arith, short) in
        ap kept (
          fields-append b'=' (encoded k) (encoded v) (encoded-ne b'=' k not_equals)
          ∙ ap (λ ws. encoded k ∷ ws)
              (fields-whole b'=' (encoded v) (encoded-ne b'=' v not_equals)))
        ∙ rw (p, q) refl

parse_loop-short :
    (mem : Memory) (i : ℕ) (ps : List Pair) (q : Pair) (rs : List Pair) (xform : XForm)
    → IsGranted mem
    → All IsSendable ps
    → IsNamed q
    → length (encoded q.1) ≤ 1
    → parse_loop mem i (map some (map encoded_pair (ps ++ (q ∷ rs)))) xform ≡ value (inl failure)
unfolding parse_loop
parse_loop-short mem i [] q rs xform m h named short =
    ap (followed (parse_loop mem (suc i) (map some (map encoded_pair rs))) xform)
      (parse_elem-short mem i q m named short)
parse_loop-short mem i (p ∷ ps) q rs xform m (s, h) named short =
    ap (followed (parse_loop mem (suc i) (map some (map encoded_pair (ps ++ (q ∷ rs))))) xform)
      (parse_elem-encoded mem i p m s)
    ∙ parse_loop-short mem (suc i) ps q rs (xform ++ (elem_of p ∷ [])) m h named short

on_pairs :
    (mem : Memory) (ps : List Pair)
    → 0 < length ps
    → on_array mem (value (array_of (map encoded_pair ps)))
      ≡ finished (parse_loop mem 0 (map some (map encoded_pair ps)) [])
on_pairs mem [] h = absurd (omega arith)
on_pairs mem (p ∷ ps) h = refl

fields-pairs : (ps : List Pair) → 0 < length ps → fields b'&' (form_text ps) ≡ map encoded_pair ps
fields-pairs [] h = absurd (omega arith)
fields-pairs (p ∷ ps) h = fields-form_text p ps

All-pairs :
    (ps : List Pair) (q : Pair) (rs : List Pair)
    → All IsSendable ps
    → IsNamed q
    → All IsNamed rs
    → All IsNamed (ps ++ (q ∷ rs))
All-pairs [] q rs h n k = (n, k)
All-pairs (p ∷ ps) q rs (s, h) n k = (s.named, All-pairs ps q rs h n k)

-- `eris_xform_parse` of the text of a form with a value whose encoding has one character or none,
-- behind pairs that can be sent and before pairs with names: it returns EERIS_ERROR, and no element
-- is left, although there is memory for all of it.
pub parse-short :
    (mem : Memory) (spare : List ℕ) (old : XForm) (ps : List Pair) (q : Pair) (rs : List Pair)
    → IsGranted mem
    → All IsSendable ps
    → IsNamed q
    → length (encoded q.1) ≤ 1
    → All IsNamed rs
    → parse mem spare old (some (form_text (ps ++ (q ∷ rs)))) ≡ value (failure, [])
unfolding parse
parse-short mem spare old ps q rs m h named short rest =
    let all = ps ++ (q ∷ rs) in
    let some_pair : 0 < length all = omega (arith, length-append ps (q ∷ rs)) in
    ap (on_array mem) (
      split_granted mem.query spare (form_text all) b'&' m.query (form_text-ne all)
      ∙ ap (λ ws. value (array_of ws))
          (ap kept (fields-pairs all some_pair) ∙ kept_pairs all (All-pairs ps q rs h named rest)))
    ∙ on_pairs mem all some_pair
    ∙ ap finished (parse_loop-short mem 0 ps q rs [] m h named short)
