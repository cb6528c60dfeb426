-- ===== src/PrVerifier/Examples.antt =====
-- The verifier on a pull request that is there, and on pages that are none.
use cliff.Common.{String, ◌≡◌, refl, Option, none, some, ◌∷◌, ◌++◌}
use cliff.Common.Int.{pos}
use cliff.Common.Text.{codes, strip}
use cliff.Json.{int, str, obj, field, end, get}
use cliff.PrVerifier.{
  ParsedPrUrl, span, expect, name_part, number_from, number_part, match_url, parse_pr_url, Response,
  status, equals_number, echoed, check_body, check_response, verify_parsed, verify_pr_url,
}
use cliff.PrVerifier.Verified.{match_url-canonical, Confirmed, verify_pr_url-Confirmed}

parser : Unit {0}
unfolding span expect name_part number_from number_part match_url parse_pr_url strip get
    equals_number echoed check_body check_response verify_parsed verify_pr_url
parser = tt

abbrev pull : ParsedPrUrl
pull = record { owner = codes "cliff-security"; repo = codes "cliff.py"; number = 120 }

parses :
    (parse_pr_url (some " https://github.com/cliff-security/cliff.py/pull/120/ ") ≡ some pull)
    × (parse_pr_url (some "https://github.com/cliff-security/cliff.py/pull/new/fix") ≡ none)
    × (parse_pr_url (some "https://github.com/cliff-security/cliff.py/pull/120?x") ≡ none)
    × (parse_pr_url (some "https://github.com/cliff-security/cliff.py/pull/012") ≡ none)
unfolding parser
parses = (refl, refl, refl, refl)

match_url-canonical_example :
    match_url (
      codes "https://github.com/"
      ++ (codes "cliff-security"
          ++ 47 ∷ (codes "cliff.py" ++ 47 ∷ (codes "pull/" ++ (codes "120" ++ codes "/")))))
    ≡ some pull
unfolding parser
match_url-canonical_example =
    match_url-canonical (codes "cliff-security") (codes "cliff.py") (codes "120") (codes "/") refl
      refl refl refl refl refl refl refl

abbrev url : Option String
url = some "https://github.com/cliff-security/cliff.py/pull/120"

abbrev fetch : ParsedPrUrl → Response
fetch p =
    status 200
      (some (obj (field "number" (int (pos 120)) (field "html_url" (str "https://pr") end))))

verify_pr_url-Confirmed_example : Confirmed (λ u. "url") fetch url (some "https://pr")
unfolding parser
verify_pr_url-Confirmed_example = verify_pr_url-Confirmed (λ u. "url") fetch url refl
