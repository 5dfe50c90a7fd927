-- ===== src/State/Sticky.antt =====
-- src/state.rs: reports in sequence.
use awtrix_controller.Prelude.{◌≡◌, refl, Bool, true, some, List, [], ◌∷◌, arith}
use awtrix_controller.State.{StateError, Failures, new, report, error, failed}

-- Reports in the order in which the senders get the channel.
pub report_all : Failures → List StateError → Failures
report_all f [] = f
report_all f (e ∷ es) = report_all (report f e) es

report_all_from :
    (f : Failures) (e : StateError) (es : List StateError)
    → f.first ≡ some e
    → f.cancelled ≡ true
    → ((report_all f es).first ≡ some e) × ((report_all f es).cancelled ≡ true)
unfolding report_all report
report_all_from f e [] h c = (h, c)
report_all_from f e (x ∷ es) h c = report_all_from (report f x) e es (ground arith) (ground arith)

-- After any non-empty sequence of reports to fresh `Failures`, `error` and `failed` give the first
-- one reported, and the scheduling token is cancelled, whether or not it was before.
pub report_all-first :
    (cancelled : Bool) (e : StateError) (es : List StateError)
    → let f = report_all (new cancelled) (e ∷ es) in
      (error f ≡ some e) × (failed f ≡ some e) × (f.cancelled ≡ true)
unfolding report_all report new error failed
report_all-first cancelled e es =
    let (h, c) = report_all_from (report (new cancelled) e) e es refl refl in (h, h, c)
