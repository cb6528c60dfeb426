-- ===== src/PrVerifier.antt =====
-- backend/cliff/services/pr_verifier.py: whether the pull request that an agent names is real. The
-- HTTP call is an argument: what GitHub answers for a parsed URL.
pub mod Verified
mod Examples
use cliff.Common.{
  ℕ, zero, suc, ◌+◌, ◌-◌, ◌*◌, String, Bool, true, false, ◌&&◌, ◌||◌, Option, none, some, List, [],
  ◌∷◌, leb, eqb, all, if◌then◌else◌,
}
use cliff.Common.Int.{pos}
use cliff.Common.Options.{◌>>=◌}
use cliff.Common.Text.{Text, codes, strip, show, format}
use cliff.Json.{Value, null, bool, int, float, str, obj, Fields, get, truthy}

pub record ParsedPrUrl : Type 0 where
  pub owner : Text
  pub repo : Text
  pub number : ℕ

pub record PrVerification : Type 0 where
  pub ok : Bool
  pub reason : String
  pub pr_state : Value
  pub html_url : Option String

abbrev pub is_digit : ℕ → Bool
is_digit c = leb 48 c && leb c 57

abbrev pub is_alphanumeric : ℕ → Bool
is_alphanumeric c = is_digit c || leb 65 c && leb c 90 || leb 97 c && leb c 122

-- `[A-Za-z0-9._-]`
abbrev pub is_name_char : ℕ → Bool
is_name_char c = is_alphanumeric c || eqb c 46 || eqb c 95 || eqb c 45

-- the longest start whose characters all pass, and the rest
unfoldable pub span : (ℕ → Bool) → Text → Text × Text
span p [] = ([], [])
span p (c ∷ s) = let (front, back) = span p s in if p c then (c ∷ front, back) else ([], c ∷ s)

-- the rest after a text that has to come first
unfoldable pub expect : Text → Text → Option Text
expect [] s = some s
expect (a ∷ k) [] = none
expect (a ∷ k) (c ∷ s) = let rest = expect k s in if eqb a c then rest else none

abbrev pub starts : (ℕ → Bool) → Text → Bool
starts p [] = false
starts p (c ∷ s) = p c

-- `[A-Za-z0-9][A-Za-z0-9._-]*` and a slash
unfoldable pub name_part : Text → Option (Text × Text)
unfolding span expect
name_part s =
    let (name, back) = span is_name_char s in
    if starts is_alphanumeric name
    then (expect (codes "/") back >>= λ rest. some (name, rest))
    else none

-- int(digits), with the value of the digits before
unfoldable pub number_from : ℕ → Text → ℕ
number_from n [] = n
number_from n (c ∷ s) = number_from (n * 10 + (c - 48)) s

-- an optional slash and the end
abbrev pub is_end : Text → Bool
is_end [] = true
is_end (c ∷ []) = eqb c 47
is_end (c ∷ d ∷ s) = false

-- `[1-9][0-9]*/?$` with the `int` of the digits, of which Python takes at most 4300
unfoldable pub number_part : Text → Option ℕ
unfolding span number_from
number_part s =
    let (digits, back) = span is_digit s in
    if starts (λ c. leb 49 c) digits && is_end back then some (number_from 0 digits) else none

abbrev pub with_number : Text → Text → ℕ → Option ParsedPrUrl
with_number owner repo number = some (record { owner = owner; repo = repo; number = number })

abbrev pub with_pull : Text → Text → Text → Option ParsedPrUrl
with_pull owner repo path = number_part path >>= with_number owner repo

abbrev pub with_repo : Text → Text × Text → Option ParsedPrUrl
with_repo owner (repo, path) = expect (codes "pull/") path >>= with_pull owner repo

abbrev pub with_owner : Text × Text → Option ParsedPrUrl
with_owner (owner, path) = name_part path >>= with_repo owner

abbrev pub with_host : Text → Option ParsedPrUrl
with_host path = name_part path >>= with_owner

-- _PR_URL_RE.match
unfoldable pub match_url : Text → Option ParsedPrUrl
match_url s = expect (codes "https://github.com/") s >>= with_host

unfoldable pub parse_pr_url : Option String → Option ParsedPrUrl
unfolding match_url
parse_pr_url none = none
parse_pr_url (some url) = match_url (strip (codes url))

-- what the request gives: an error of the network with its words, or a status with the JSON of the
-- body, where there is one
pub data Response : Type 0 where
  network : String → Response
  status : ℕ → Option Value → Response

abbrev pow10 : ℕ → ℕ
pow10 zero = 1
pow10 (suc e) = 10 * pow10 e

-- v == n, where `True` is 1
unfoldable pub equals_number : Value → ℕ → Bool
equals_number (int (pos m)) n = eqb m n
equals_number (float (pos m) e) n = eqb m (n * pow10 e)
equals_number (bool true) n = eqb n 1
equals_number (bool false) n = eqb n 0
equals_number _ n = false

abbrev refused : String → PrVerification
refused reason = record { ok = false; reason = reason; pr_state = null; html_url = none }

abbrev verified : Fields → String → PrVerification
verified d url = record {
  ok = true;
  reason = "verified";
  pr_state = if truthy (get d "merged") then str "merged" else get d "state";
  html_url = some url;
}

unfoldable pub echoed : Fields → ℕ → Value → PrVerification
unfolding equals_number
echoed d n (str url) =
    if equals_number (get d "number") n then verified d url else refused "http_200_but_pr_mismatch"
echoed d n _ = refused "http_200_but_pr_mismatch"

-- a response with the status 200
unfoldable pub check_body : ℕ → Option Value → PrVerification
unfolding echoed
check_body n none = refused "http_200_but_unparseable_body"
check_body n (some (obj d)) = echoed d n (get d "html_url")
check_body n (some _) = refused "http_200_but_pr_mismatch"

abbrev other_status : ℕ → PrVerification
other_status code =
    if eqb code 404
    then refused "not_found: GitHub returned 404 for this pull request"
    else if eqb code 401 || eqb code 403
    then refused (
        format (
          "http_"
          ∷ show code
          ∷ ": GitHub rejected the token (no access to this repo's pull requests)"
          ∷ []))
    else if eqb code 301
    then refused "http_301: repository moved — agent emitted a stale URL"
    else refused (format ("http_" ∷ show code ∷ ": unexpected GitHub response" ∷ []))

unfoldable pub check_response : ℕ → Response → PrVerification
unfolding check_body
check_response n (network words) = refused (format ("network: " ∷ words ∷ []))
check_response n (status code body) = if eqb code 200 then check_body n body else other_status code

-- `repr` prints the URL as Python does.
module _ (repr : Option String → String) (fetch : ParsedPrUrl → Response) where
  unfoldable pub verify_parsed : Option String → Option ParsedPrUrl → PrVerification
  unfolding check_response
  verify_parsed url none = refused (
      format (
        "not_a_pull_url: "
        ∷ repr url
        ∷ " is not a canonical https://github.com/<owner>/<repo>/pull/<n> URL"
        ∷ []))
  verify_parsed url (some p) = check_response p.number (fetch p)

  unfoldable pub verify_pr_url : Option String → PrVerification
  unfolding parse_pr_url
  verify_pr_url url = verify_parsed url (parse_pr_url url)
