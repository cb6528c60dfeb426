-- ===== src/PrVerifier/Verified.antt =====
-- What the verifier reads from a canonical URL, and what a verified pull request is.
use cliff.Common.{
  ℕ, String, Bool, ◌≡◌, refl, ◌∙◌, true, false, Option, none, some, [], ◌∷◌, ◌++◌, all, eqb, leb,
  if◌then◌else◌, ◌||◌, arith, inl, inr, Bool-cases,
}
use cliff.Common.Options.{>>=-some}
use cliff.Common.Text.{Text, codes}
use cliff.Json.{Value, null, bool, int, float, str, obj, arr, Fields, get}
use cliff.PrVerifier.{
  ParsedPrUrl, PrVerification, is_digit, is_alphanumeric, is_name_char, span, expect, starts,
  name_part, number_from, is_end, number_part, match_url, with_host, with_owner, with_repo,
  with_pull, with_number, parse_pr_url, Response, network, status, equals_number, echoed,
  check_body, check_response, verify_parsed, verify_pr_url, verified, refused, other_status,
}

span-append :
    (p : ℕ → Bool) (f b : Text) → all p f ≡ true → starts p b ≡ false → span p (f ++ b) ≡ (f, b)
unfolding span
span-append p [] [] h n = refl
span-append p [] (c ∷ b) h n = rw n refl
span-append p (c ∷ f) b h n = elim (Bool-cases (p c)) [
  | inl y ↦ rw (y, span-append p f b (rw y at h) n) refl
  | inr x ↦ absurd (ground arith)
]

expect-append : (k s : Text) → expect k (k ++ s) ≡ some s
unfolding expect
expect-append [] s = refl
expect-append (a ∷ k) s = ground (arith, expect-append k s)

name_part-append :
    (name rest : Text)
    → starts is_alphanumeric name ≡ true
    → all is_name_char name ≡ true
    → name_part (name ++ 47 ∷ rest) ≡ some (name, rest)
unfolding name_part expect
name_part-append name rest a h = rw (span-append is_name_char name (47 ∷ rest) h refl, a) refl

number_part-append :
    (digits slash : Text)
    → starts (λ c. leb 49 c) digits ≡ true
    → all is_digit digits ≡ true
    → starts is_digit slash ≡ false
    → is_end slash ≡ true
    → number_part (digits ++ slash) ≡ some (number_from 0 digits)
unfolding number_part
number_part-append digits slash a h n e = rw (span-append is_digit digits slash h n, a, e) refl

-- The URL of a pull request is read back: the owner and the repo are names with the characters that
-- GitHub allows, the number's digits do not start with 0, and a slash may follow.
pub match_url-canonical :
    (owner repo digits slash : Text)
    → starts is_alphanumeric owner ≡ true
    → all is_name_char owner ≡ true
    → starts is_alphanumeric repo ≡ true
    → all is_name_char repo ≡ true
    → starts (λ c. leb 49 c) digits ≡ true
    → all is_digit digits ≡ true
    → starts is_digit slash ≡ false
    → is_end slash ≡ true
    → match_url (
        codes "https://github.com/"
        ++ (owner ++ 47 ∷ (repo ++ 47 ∷ (codes "pull/" ++ (digits ++ slash)))))
      ≡ some (record { owner = owner; repo = repo; number = number_from 0 digits })
unfolding match_url
match_url-canonical owner repo digits slash a b c d e f g h =
    let tail : Text = codes "pull/" ++ (digits ++ slash) in
    let whole : Text = owner ++ 47 ∷ (repo ++ 47 ∷ tail) in
    let p₁ : match_url (codes "https://github.com/" ++ whole) ≡ with_host whole =
      >>=-some (expect-append (codes "https://github.com/") whole) with_host in
    let p₂ : with_host whole ≡ with_owner (owner, repo ++ 47 ∷ tail) =
      >>=-some (name_part-append owner (repo ++ 47 ∷ tail) a b) with_owner in
    let p₃ : with_owner (owner, repo ++ 47 ∷ tail) ≡ with_repo owner (repo, tail) =
      >>=-some (name_part-append repo tail c d) (with_repo owner) in
    let p₄ : with_repo owner (repo, tail) ≡ with_pull owner repo (digits ++ slash) =
      >>=-some (expect-append (codes "pull/") (digits ++ slash)) (with_pull owner repo) in
    let p₅ : with_pull owner repo (digits ++ slash)
        ≡ with_number owner repo (number_from 0 digits) =
      >>=-some (number_part-append digits slash e f g h) (with_number owner repo) in
    p₁ ∙ p₂ ∙ p₃ ∙ p₄ ∙ p₅

refused_unless :
    (b : Bool) (v : PrVerification) (reason : String)
    → v.ok ≡ false
    → (if b then refused reason else v).ok ≡ false
refused_unless true v reason h = refl
refused_unless false v reason h = h

other_status-refused : (code : ℕ) → (other_status code).ok ≡ false
other_status-refused code =
    refused_unless (eqb code 404) _ _
      (refused_unless (eqb code 401 || eqb code 403) _ _ (refused_unless (eqb code 301) _ _ refl))

-- a response whose body is the pull request that was asked for
pub record Matches (n : ℕ) (response : Response) (link : Option String) : Type 0 where
  pub body : Fields
  pub page : String
  pub answered : response ≡ status 200 (some (obj body))
  pub numbered : equals_number (get body "number") n ≡ true
  pub linked : get body "html_url" ≡ str page
  pub shown : link ≡ some page

by_number :
    (b : Bool) (d : Fields) (page : String)
    → (if b then verified d page else refused "http_200_but_pr_mismatch").ok ≡ true
    → (b ≡ true)
      × ((if b then verified d page else refused "http_200_but_pr_mismatch").html_url ≡ some page)
by_number true d page h = (refl, refl)
by_number false d page h = absurd (cc)

echoed-page :
    (d : Fields) (n : ℕ) (v : Value)
    → (echoed d n v).ok ≡ true
    → (page : String) × (v ≡ str page)
      × (equals_number (get d "number") n ≡ true)
      × ((echoed d n v).html_url ≡ some page)
unfolding echoed
echoed-page d n (str page) h =
    let (y, shown) = by_number (equals_number (get d "number") n) d page h in (page, refl, y, shown)
echoed-page d n null h = absurd (cc)
echoed-page d n (bool _) h = absurd (cc)
echoed-page d n (int _) h = absurd (cc)
echoed-page d n (float _ _) h = absurd (cc)
echoed-page d n (obj _) h = absurd (cc)
echoed-page d n (arr _) h = absurd (cc)

check_body-Matches :
    (n : ℕ) (code : ℕ) (body : Option Value)
    → code ≡ 200
    → (check_body n body).ok ≡ true
    → Matches n (status code body) (check_body n body).html_url
unfolding check_body
check_body-Matches n code (some (obj d)) e h =
    let (page, linked, numbered, shown) = echoed-page d n (get d "html_url") h in
    record {
      body = d;
      page = page;
      answered = rw e refl;
      numbered = numbered;
      linked = linked;
      shown = shown;
    }
check_body-Matches n code none e h = absurd (cc)
check_body-Matches n code (some null) e h = absurd (cc)
check_body-Matches n code (some (bool _)) e h = absurd (cc)
check_body-Matches n code (some (int _)) e h = absurd (cc)
check_body-Matches n code (some (float _ _)) e h = absurd (cc)
check_body-Matches n code (some (str _)) e h = absurd (cc)
check_body-Matches n code (some (arr _)) e h = absurd (cc)

by_status :
    (b : Bool) (n code : ℕ) (body : Option Value)
    → (b ≡ true → code ≡ 200)
    → (if b then check_body n body else other_status code).ok ≡ true
    → Matches n (status code body) (if b then check_body n body else other_status code).html_url
by_status true n code body e h = check_body-Matches n code body (e refl) h
by_status false n code body e h = let z = other_status-refused code in absurd (cc)

check_response-Matches :
    (n : ℕ) (r : Response)
    → (check_response n r).ok ≡ true
    → Matches n r (check_response n r).html_url
unfolding check_response
check_response-Matches n (network words) h = absurd (cc)
check_response-Matches n (status code body) h =
    by_status (eqb code 200) n code body (λ y. ground arith) h

module _ (repr : Option String → String) (fetch : ParsedPrUrl → Response) where
  -- What stands behind a verified URL.
  pub record Confirmed (url link : Option String) : Type 0 where
    pub parsed : ParsedPrUrl
    pub canonical : parse_pr_url url ≡ some parsed
    pub answer : Matches parsed.number (fetch parsed) link

  verify_parsed-Confirmed :
      (url : Option String) (o : Option ParsedPrUrl)
      → parse_pr_url url ≡ o
      → (verify_parsed repr fetch url o).ok ≡ true
      → Confirmed url (verify_parsed repr fetch url o).html_url
  unfolding verify_parsed
  verify_parsed-Confirmed url none e h = absurd (cc)
  verify_parsed-Confirmed url (some p) e h = record {
    parsed = p;
    canonical = e;
    answer = check_response-Matches p.number (fetch p) h;
  }

  -- A URL that is verified is the URL of a pull request, GitHub answered with the status 200 and a
  -- JSON object with that number and a text as the page, and the page is what the verification shows.
  pub verify_pr_url-Confirmed :
      (url : Option String)
      → (verify_pr_url repr fetch url).ok ≡ true
      → Confirmed url (verify_pr_url repr fetch url).html_url
  unfolding verify_pr_url
  verify_pr_url-Confirmed url h = verify_parsed-Confirmed url (parse_pr_url url) refl h
