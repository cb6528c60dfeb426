-- ===== src/Executor/Finalize/Persist.antt =====
-- A finding becomes remediated only by a pull request that GitHub confirmed.
use cliff.Common.{
  ℕ, String, Bool, ◌≡◌, refl, sym, ap, ◌∙◌, true, false, ◌&&◌, Option, some, [], ◌∷◌, ◌++◌, ◌==◌,
  eq_iff, inl, inr, ◌⊎◌, Bool-cases,
}
use mathlib.Core.Path.{subst}
use cliff.Common.Options.{some_injective}
use cliff.Json.{Fields, get, is_str}
use cliff.Issue.{FindingStatus, remediated}
use cliff.PrVerifier.{verify_pr_url}
use cliff.Executor.Call.{Tried, done, raised}
use cliff.Executor.Call.Attempts.{done_injective}
use cliff.Executor.Advance.{FindingRow, advance_finding_status}
use cliff.Executor.Advance.Forward.{Reason, opened, fixed, planned, advance_finding_status-Moved}
use cliff.Executor.Finalize.{
  ParseResult, World, Services, output_of, persists, has_output, claim, judge, claims_pr, verify,
  with_pr, with_evidence, with_references, store, after_advance, persist, finish, conclude,
  finalize_run, cleanup, update_run,
}
use cliff.Sidebar.{map_and_upsert}

opened-parts :
    (agent : String) (out : Fields) (t : FindingStatus)
    → Reason agent out t
    → t ≡ remediated
    → (agent ≡ "remediation_executor") × (is_str (get out "status") "pr_created" ≡ true)
opened-parts agent out _ (opened a b) e = (a, b)
opened-parts agent out _ (fixed a b) e = absurd (cc)
opened-parts agent out _ (planned a) e = absurd (cc)

and_parts : (a b : Bool) → (a && b) ≡ true → (a ≡ true) × (b ≡ true)
and_parts true b h = (refl, h)
and_parts false b h = absurd (cc)

module _ (services : Services) where
  -- GitHub confirmed the pull request that the output names.
  pub record Verified (p : ParseResult) : Type 0 where
    pub url : Option String
    pub claimed : claim services (get (output_of p) "pr_url") ≡ done url
    pub confirmed : (verify_pr_url services.repr services.fetch url).ok ≡ true

  judge-Verified :
      (p q : ParseResult) (wrong : Option String) (url : Option String)
      → claim services (get (output_of p) "pr_url") ≡ done url
      → judge services p (verify_pr_url services.repr services.fetch url) ≡ (q, wrong)
      → q.success ≡ true
      → Verified p
  judge-Verified p q wrong url c e s =
      elim (Bool-cases (verify_pr_url services.repr services.fetch url).ok) [
        | inl y ↦ record { url = url; claimed = c; confirmed = y }
        | inr n ↦
            let lost : false ≡ q.success =
              ap (λ (x : ParseResult × Option String). x.0.success) (rw n at e) in
            absurd (cc)
      ]

  verify-Verified :
      (p q : ParseResult) (wrong : Option String) (c : Tried (Option String))
      → claim services (get (output_of p) "pr_url") ≡ c
      → verify services p c ≡ done (q, wrong)
      → q.success ≡ true
      → Verified p
  unfolding verify
  verify-Verified p q wrong (raised e) g h s = absurd (cc)
  verify-Verified p q wrong (done url) g h s = judge-Verified p q wrong url g (done_injective h) s

  with_pr-Verified :
      (agent : String) (p q : ParseResult) (wrong : Option String)
      → with_pr services agent p ≡ done (q, wrong)
      → q.success ≡ true
      → claims_pr services agent q ≡ true
      → Verified p
  unfolding with_pr
  with_pr-Verified agent p q wrong h s c = elim (Bool-cases (claims_pr services agent p)) [
    | inl y ↦
        verify-Verified p q wrong (claim services (get (output_of p) "pr_url")) refl (rw y at h) s
    | inr n ↦
        let same : p ≡ q =
          ap (λ (x : ParseResult × Option String). x.0) (done_injective (rw n at h)) in
        let no_claim = subst (λ x. claims_pr services agent x ≡ false) same n in absurd (cc)
  ]

  -- the first two safeguards are for other agents
  unguarded :
      (agent : String) (finding : Fields) (p : ParseResult)
      → agent ≡ "remediation_executor"
      → with_evidence services agent finding (with_references services agent p) ≡ p
  unfolding with_evidence with_references
  unguarded agent finding p e =
      rw e (elim (Bool-cases (persists p)) [ inl y ↦ rw (y, y) refl | inr n ↦ rw (n, n) refl ])

  -- what storing does to the finding
  Kept : String → Fields → World → World → Type 0
  Kept agent out w w' =
      (w'.finding ≡ w.finding) ⊎ (advance_finding_status agent out w.finding ≡ done w'.finding)

  advance-Kept :
      (agent : String) (out : Fields) (w w₁ : World) (v : ℕ) (r : Tried (Option FindingRow))
      → w₁.finding ≡ w.finding
      → advance_finding_status agent out w.finding ≡ r
      → Kept agent out w (after_advance services w₁ v r).0
  unfolding Kept
  advance-Kept agent out w w₁ v (raised e) same h = inl same
  advance-Kept agent out w w₁ v (done f) same h = inr h

  store-Kept :
      (agent : String) (out : Fields) (w : World) (v : Tried ℕ)
      → Kept agent out w (store services agent out w v).0
  unfolding store Kept
  store-Kept agent out w (raised e) = inl refl
  store-Kept agent out w (done v) =
      let w₁ : World = record w {
        context = w.context ++ (agent, out) ∷ [];
        sidebar = some (map_and_upsert agent out w.sidebar);
      } in
      advance-Kept agent out w w₁ v (advance_finding_status agent out w.finding) refl refl

  -- the finding after a run, by what was stored of it
  Stored : String → ParseResult → World → World → Type 0
  Stored agent p w w' =
      (w'.finding ≡ w.finding)
      ⊎ ((p.success ≡ true)
          × (advance_finding_status agent (output_of p) w.finding ≡ done w'.finding))

  persist-Stored :
      (agent : String) (p : ParseResult) (w : World)
      → Stored agent p w (persist services agent p w).0
  unfolding persist Stored Kept
  persist-Stored agent p w = elim (Bool-cases (persists p)) [
    | inr n ↦ rw n (inl refl)
    | inl y ↦
        let v = services.update_context (w.context ++ (agent, output_of p) ∷ []) in
        let success : p.success ≡ true = (and_parts p.success (has_output p) y).0 in
        rw y (elim (store-Kept agent (output_of p) w v) [
          | inl same ↦ inl same
          | inr moved ↦ inr (success, moved)
        ])
  ]

  finish-finding :
      (now : ℕ) (ws : String) (id : ℕ) (agent : String) (p : ParseResult) (wrong : Option String)
      (s : World × Tried (Option ℕ × Bool))
      → (finish services now ws id agent p wrong s).0.finding ≡ s.0.finding
  unfolding finish cleanup update_run
  finish-finding now ws id agent p wrong (w, raised e) = refl
  finish-finding now ws id agent p wrong (w, done (version, updated)) = refl

  moved-Verified :
      (agent : String) (p q : ParseResult) (wrong : Option String) (before after : FindingRow)
      → with_pr services agent p ≡ done (q, wrong)
      → q.success ≡ true
      → advance_finding_status agent (output_of q) (some before) ≡ done (some after)
      → after.status ≡ remediated
      → (after ≡ before) ⊎ ((agent ≡ "remediation_executor") × Verified p)
  moved-Verified agent p q wrong before after h s a t =
      elim (advance_finding_status-Moved agent (output_of q) before after a) [
        | inl same ↦ inl same
        | inr m ↦
            let (tool, created) = opened-parts agent (output_of q) after.status m.reason t in
            let named : (agent == "remediation_executor") ≡ true =
              (eq_iff agent "remediation_executor").1 tool in
            inr (tool, with_pr-Verified agent p q wrong h s (rw (s, named) created))
      ]

  conclude-Verified :
      (now : ℕ) (ws : String) (id : ℕ) (agent : String) (w : World) (p : ParseResult)
      (v : Tried (ParseResult × Option String)) (before after : FindingRow)
      → with_pr services agent p ≡ v
      → w.finding ≡ some before
      → (conclude services now ws id agent w v).0.finding ≡ some after
      → after.status ≡ remediated
      → (after ≡ before) ⊎ ((agent ≡ "remediation_executor") × Verified p)
  unfolding conclude Stored
  conclude-Verified now ws id agent w p (raised e) before after h b a t =
      inl (some_injective (sym a ∙ b))
  conclude-Verified now ws id agent w p (done (q, wrong)) before after h b a t =
      let stored = persist services agent q w in
      let last = sym (finish-finding now ws id agent q wrong stored) ∙ a in
      elim (persist-Stored agent q w) [
        | inl same ↦ inl (some_injective (sym last ∙ same ∙ b))
        | inr (success, moved) ↦
            moved-Verified agent p q wrong before after h success (rw b at (moved ∙ ap done last)) t
      ]

  -- Where a finding is remediated after an agent's result was stored, the finding is as it was before,
  -- or the agent is the executor and GitHub confirmed the pull request that its result names.
  pub finalize_run-Verified :
      (now : ℕ) (ws : String) (id : ℕ) (agent : String) (p : ParseResult) (finding : Fields)
      (w : World) (before after : FindingRow)
      → w.finding ≡ some before
      → (finalize_run services now ws id agent p finding w).0.finding ≡ some after
      → after.status ≡ remediated
      → (after ≡ before) ⊎ ((agent ≡ "remediation_executor") × Verified p)
  unfolding finalize_run
  finalize_run-Verified now ws id agent p finding w before after b a t =
      let p' = with_evidence services agent finding (with_references services agent p) in
      elim (conclude-Verified now ws id agent w p' (with_pr services agent p') before after refl b a
        t) [
          | inl same ↦ inl same
          | inr (tool, v) ↦ inr (tool, subst Verified (unguarded agent finding p tool) v)
        ]
