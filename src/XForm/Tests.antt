-- ===== src/XForm/Tests.antt =====
-- Concrete forms.
use erishttp.Common.{◌≡◌, refl, true, some, [], ◌∷◌, codes, arith}
use erishttp.EString.Split.{value}
use erishttp.UrlEncode.{encode_tmp}
use erishttp.UrlEncode.Encoder.{encoded}
use erishttp.XForm.{XForm, success, failure, Answers, Memory, parse}
use erishttp.XForm.Form.{Pair, form_text, IsSendable}
use erishttp.XForm.RoundTrip.{AreGranted, IsGranted, elem_of, parse-form_text}
use erishttp.XForm.Short.{parse-short}

abbrev answers : Answers
answers = record { ranges = λ i. true; room = true; pieces = λ i. true }

abbrev memory : Memory
memory = record {
  query = answers;
  parts = λ i. answers;
  elem = λ i. true;
  key = λ i. true;
  value = λ i. true;
  node = λ i. true;
}

answers-AreGranted : AreGranted answers
answers-AreGranted = record { ranges = λ i. refl; room = refl; pieces = λ i. refl }

memory-IsGranted : IsGranted memory
memory-IsGranted = record {
  query = answers-AreGranted;
  parts = λ i. answers-AreGranted;
  elem = λ i. refl;
  key = λ i. refl;
  value = λ i. refl;
  node = λ i. refl;
}

abbrev name : Pair
name = (codes "q", codes "a&b")

abbrev size : Pair
size = (codes "n", codes "1")

name-IsSendable : IsSendable name
unfolding encoded encode_tmp
name-IsSendable = record {
  name_bytes = (omega arith, tt);
  value_bytes = (omega arith, (omega arith, (omega arith, tt)));
  name_text = ((λ h. omega arith), tt);
  value_text = ((λ h. omega arith), ((λ h. omega arith), ((λ h. omega arith), tt)));
  named = omega arith;
  long = omega arith;
}

form_text_runs : form_text (name ∷ size ∷ []) ≡ codes "q=a%26b&n=1"
unfolding form_text encoded encode_tmp
form_text_runs = refl

parse-form_text_example :
    parse memory [] [] (some (form_text (name ∷ []))) ≡ value (success, elem_of name ∷ [])
parse-form_text_example =
    parse-form_text memory [] [] name [] memory-IsGranted (name-IsSendable, tt)

parse-short_example : parse memory [] [] (some (form_text (name ∷ size ∷ []))) ≡ value (failure, [])
unfolding encoded
parse-short_example =
    parse-short memory [] [] (name ∷ []) size [] memory-IsGranted (name-IsSendable, tt)
      (omega arith) (omega arith) tt
