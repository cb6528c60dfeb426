-- ===== src/Executor/Resume/Wakes.antt =====
-- How a run ends, or waits again, after the user's decision.
use cliff.Common.{ℕ, String, Bool, ◌≡◌, refl, false, none, some, [], ◌∷◌}
use cliff.Common.Text.{format}
use cliff.Json.{Fields}
use cliff.Issue.{RunStatus}
use cliff.Executor.Runs.{Row, no_update, set_fields}
use cliff.Executor.Call.{
  Failure, timeout, rate_limit, process, other, assertion, Tried, done, raised,
}
use cliff.Executor.Advance.{humanize_process_error}
use cliff.Executor.Finalize.{World, ResultStatus, ExecutionResult, Services, update_run}
use cliff.Executor.Agents.{Agents, Outcome}
use cliff.Executor.Execute.Leaves.{
  failed, rate_limited, Live, Running, Left, threw, Ended, EndsIn, update-status, settle-Left,
  end_run-Ended, caught-Ended,
}
use cliff.Executor.Resume.{
  pending_marker, handle_resume, replay, conclude_resume, clear_marker, resume_run, by_marker,
  resume_executor,
}

module _ (agents : Agents) (services : Services) (now : ℕ) (ws : String) where
  handle_resume-EndsIn :
      (asked : Outcome → Type 0) (id : ℕ) (agent : String) (e : Failure) (w : World)
      → Live id ws w
      → EndsIn agents services now ws asked id (handle_resume agents services now ws id agent e w)
  unfolding handle_resume EndsIn
  handle_resume-EndsIn asked id agent (timeout words) w l =
      end_run-Ended agents services now ws asked id agent RunStatus.failed ResultStatus.failed
        (humanize_process_error words) words words w failed l
  handle_resume-EndsIn asked id agent (rate_limit words) w l =
      end_run-Ended agents services now ws asked id agent RunStatus.rate_limited
        ResultStatus.rate_limited (humanize_process_error words) words words w rate_limited l
  handle_resume-EndsIn asked id agent (process words) w l =
      end_run-Ended agents services now ws asked id agent RunStatus.failed ResultStatus.failed
        (humanize_process_error words) words words w failed l
  handle_resume-EndsIn asked id agent (other words) w l =
      end_run-Ended agents services now ws asked id agent RunStatus.failed ResultStatus.failed
        (humanize_process_error words) (format ("Resume failed: " ∷ words ∷ [])) words w failed l
  handle_resume-EndsIn asked id agent assertion w l =
      end_run-Ended agents services now ws asked id agent RunStatus.failed ResultStatus.failed
        (humanize_process_error "") (format ("Resume failed: " ∷ "" ∷ [])) "" w failed l

  clear_marker-Live :
      (id : ℕ) (w : World) → Running id ws w → Live id ws (clear_marker agents services now ws id w)
  unfolding clear_marker update_run set_fields
  clear_marker-Live id w l =
      let u = record no_update {
        permission_pending = some false;
        permission_request = some none;
        pa_message_history = some none;
      } in
      record {
        row = set_fields now u l.row;
        found = update-status now id u w.runs l.row l.found;
        running = l.running;
        unasked = refl;
        unmarked = refl;
        active = l.active;
      }

  -- what the agent gave after the decision on the marker of the row
  Answers : Row → Fields → Bool → Outcome → Type 0
  Answers r marker approved o =
      (f : Fields) × (replay agents services now ws r.agent_type marker r.pa_message_history
          approved
        ≡ done (f, o))

  conclude_resume-Left :
      (id : ℕ) (r : Row) (marker : Fields) (approved : Bool) (w : World)
      (t : Tried (Fields × Outcome))
      → replay agents services now ws r.agent_type marker r.pa_message_history approved ≡ t
      → Live id ws w
      → Left agents services now ws
          (Answers r marker approved)
          id
          (conclude_resume agents services now ws id r.agent_type w t)
  unfolding Answers
  conclude_resume-Left id r marker approved w (raised e) a l = threw l
  conclude_resume-Left id r marker approved w (done (finding, o)) a l =
      settle-Left agents services now ws (Answers r marker approved) id r.agent_type finding w o
        (finding, a) l

  resume_run-EndsIn :
      (id : ℕ) (r : Row) (marker : Fields) (approved : Bool) (w : World)
      → Running id ws w
      → EndsIn agents services now ws
          (Answers r marker approved)
          id
          (resume_run agents services now ws id r marker approved w)
  unfolding resume_run
  resume_run-EndsIn id r marker approved w l =
      let w' = clear_marker agents services now ws id w in
      let t = replay agents services now ws r.agent_type marker r.pa_message_history approved in
      let asked = Answers r marker approved in
      caught-Ended agents services now ws asked id
        (handle_resume agents services now ws id r.agent_type)
        (conclude_resume agents services now ws id r.agent_type w' t)
        (handle_resume-EndsIn asked id r.agent_type)
        (conclude_resume-Left id r marker approved w' t refl (clear_marker-Live id w l))

  -- A run that is on and waits for a permission is never stuck after the user's decision, approved or
  -- not, and whatever the agents, the stored history and the files give. It is over, its row has no
  -- marker left, so that the decision cannot be used again, and the workspace is free; or it waits for
  -- another permission, with the marker and the history of the request that the agent made after the
  -- decision.
  pub resume_executor-Ended :
      (id : ℕ) (approved : Bool) (marker : Fields) (w : World) (l : Running id ws w)
      → pending_marker (some l.row) ≡ some marker
      → (r : ExecutionResult) × ((resume_executor agents services now ws id approved w).1 ≡ some r)
        × Ended
            (λ o.
              (f : Fields) × (replay agents services now ws l.row.agent_type marker
                  l.row.pa_message_history approved
                ≡ done (f, o)))
            id
            ws
            (resume_executor agents services now ws id approved w).0
            r.status
  unfolding resume_executor by_marker EndsIn Answers
  resume_executor-Ended id approved marker w l m =
      let e = resume_run-EndsIn id l.row marker approved w l in
      (
        (resume_run agents services now ws id l.row marker approved w).1,
        rw (l.found, m) refl,
        rw (l.found, m) e,
      )
