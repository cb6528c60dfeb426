-- ===== src/Triage/Escalation/Examples.antt =====
-- The escalation on concrete findings.
use cliff.Common.{String, ◌≡◌, refl, true, false}
use cliff.Common.Int.{pos}
use cliff.Common.Text.{lower, same}
use cliff.Json.{Fields, field, end, str, get, truthy, is_true}
use cliff.Triage.Output.{real, needs_review}
use cliff.Triage.Escalation.{is_high_stakes, decide_escalation}

abbrev finding : Fields
finding = field "raw_severity" (str "HIGH") end

escalates :
    ((decide_escalation real finding (pos 1) "scanner").escalate ≡ true)
    × ((decide_escalation real finding (pos 0) "scanner").escalate ≡ false)
    × ((decide_escalation real end (pos 1) "scanner").escalate ≡ false)
    × ((decide_escalation needs_review end (pos 0) "scanner").escalate ≡ true)
unfolding decide_escalation is_high_stakes get truthy is_true lower same
escalates = (refl, refl, refl, refl)

abbrev scanner : String
scanner = "scanner"
