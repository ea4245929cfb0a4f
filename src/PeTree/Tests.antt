-- ===== src/PeTree/Tests.antt =====
-- The theorems on paths at concrete texts.
use erishttp.Common.{◌≡◌, refl, ◌⊎◌, true, none, some, [], ◌∷◌, pos, negsuc, codes, ok, arith}
use erishttp.PeTree.{integer, string, PeTree, init, cleanup, dump}
use erishttp.PeTree.Parser
use erishttp.PeTree.Parser.{parser}
use erishttp.PeTree.Proper.{IsCounted, chain}
use erishttp.PeTree.Sound.{AreOrdered, parser-AreOrdered}
use erishttp.PeTree.RoundTrip.{parser-dump}

abbrev service : PeTree
service = chain (
    string (codes "http")
    ∷ string (codes "service")
    ∷ integer (pos 1)
    ∷ string (codes "name")
    ∷ integer (negsuc 0)
    ∷ [])

parser_runs :
    parser (λ i. true) init (some (codes "http.service[1].name[*]")) ≡ (ok, (none, service))
unfolding parser Parser.parse_bytes cleanup Parser.on_start Parser.on_key Parser.on_dot
    Parser.on_bracket_l Parser.on_bracket_r Parser.atoi
parser_runs = refl

service-IsCounted : IsCounted service
service-IsCounted = record { counted = refl; levelled = refl }

parser-dump_example :
    parser (λ i. true) init (dump true (λ i. true) service).1.1 ≡ (ok, (none, service))
parser-dump_example =
    parser-dump (λ i. true) (λ i. true) service init (λ n. refl) (λ n. refl) service-IsCounted
      (ground arith)

parser-AreOrdered_example :
    IsCounted (parser (λ i. true) init (some (codes "a[1].b"))).1.1
    × AreOrdered (parser (λ i. true) init (some (codes "a[1].b"))).1.1.head
    × (((parser (λ i. true) init (some (codes "a[1].b"))).0 ≡ ok)
        ⊎ ((parser (λ i. true) init (some (codes "a[1].b"))).1.1.head ≡ []))
parser-AreOrdered_example = parser-AreOrdered (λ i. true) (λ n. refl) init (some (codes "a[1].b"))
