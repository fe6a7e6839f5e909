-- ===== src/Incident/Workload.antt =====
-- What the actions of an incident do to the staff objects: the task counters and the penalties.
use campusops.Common.{
  ℕ, ◌+◌, ◌≡◌, ◌≢◌, Bool, true, false, ◌&&◌, String, Option, none, some, List, [], ◌∷◌, arith, leb,
  ◌==◌, if◌then◌else◌,
}
use campusops.Common.Int.{ℤ, pos, incr, decr, clamp_zero, ◌≤ℤ◌}
use campusops.Common.Text.{Text}
use campusops.User.{under_review}
use campusops.Incident.{in_progress_state, resolved_state, StaffRef, Note, World}
use campusops.Incident.States.{is_poor}
use campusops.Incident.Calls.{
  Call, assign_call, resolve_call, escalate_call, feedback_call, perform, succeeds, after, outcome,
  perform_all,
}

-- `r` is the staff member that the incident is assigned to.
abbrev holds : Option StaffRef → StaffRef → Bool
holds none r = false
holds (some q) r = r == q

-- The counter after a call: one more for the staff member that an accepted assignment takes, one
-- less, but not below 0, for the one that an accepted resolution releases.
abbrev pub count_after : Call → World → StaffRef → ℤ
count_after (assign_call now q) w r =
    if r == q then incr (w.staff r).active_task_count else (w.staff r).active_task_count
count_after (resolve_call now n p) w r =
    if holds w.incident.assigned_to r
    then clamp_zero (decr (w.staff r).active_task_count)
    else (w.staff r).active_task_count
count_after c w r = (w.staff r).active_task_count

-- An accepted assignment adds one to the task counter of the staff member who gets the incident, and
-- an accepted resolution takes one, but not below 0, from the one who has it. No other call, and
-- none that throws, changes a counter.
pub perform-task_counts :
    (c : Call) (w : World) (r : StaffRef)
    → ((after c w).staff r).active_task_count
      ≡ (if succeeds (outcome c w) then count_after c w r else (w.staff r).active_task_count)
unfolding perform
perform-task_counts (assign_call now q) w r = ground arith
perform-task_counts _ w r = ground arith

-- The penalty rule of the feedback loop.
abbrev pub penalised : Call → World → StaffRef → Bool
penalised (feedback_call now rating) w r =
    if is_poor rating.score then holds w.incident.assigned_to r else false
penalised c w r = false

-- Only an accepted rating of two points or less penalises, and only the staff member assigned: by
-- one, and into review from the third penalty on. No call changes another staff state or penalty.
pub perform-penalties :
    (c : Call) (w : World) (r : StaffRef)
    → let hit = succeeds (outcome c w) && penalised c w r in
      (((after c w).staff r).penalty_count
        ≡ (if hit then (w.staff r).penalty_count + 1 else (w.staff r).penalty_count))
      × (((after c w).staff r).staff_state ≡ (
          if hit && leb 2 (w.staff r).penalty_count then under_review else (w.staff r).staff_state))
unfolding perform
perform-penalties (feedback_call now rating) w r = (ground arith, ground arith)
perform-penalties _ w r = (ground arith, ground arith)

-- An incident that is assigned and then resolved leaves every counter that was not negative as it
-- was.
pub assign_resolve_balanced :
    (now later : ℕ) (q r : StaffRef) (text : Option Text) (photo : Option String) (w : World)
    → succeeds (outcome (assign_call now q) w) ≡ true
    → succeeds (outcome (resolve_call later text photo) (after (assign_call now q) w)) ≡ true
    → pos 0 ≤ℤ (w.staff r).active_task_count
    → ((after (resolve_call later text photo) (after (assign_call now q) w)).staff
        r).active_task_count
      ≡ (w.staff r).active_task_count
unfolding perform incr decr clamp_zero
assign_resolve_balanced now later q r text photo w assigned resolved h = ground arith

abbrev pub handover : ℕ → ℕ → ℕ → Note → StaffRef → Option Text → Option String → List Call
handover t₁ t₂ t₃ reason q text photo =
    escalate_call t₁ reason ∷ assign_call t₂ q ∷ resolve_call t₃ text photo ∷ []

-- An escalation releases nobody: when an incident in progress is escalated, assigned to another
-- staff member and resolved, the first one keeps a task that is over.
pub escalation_leaks_task :
    (t₁ t₂ t₃ : ℕ) (reason : Note) (q : StaffRef) (text : Option Text) (photo : Option String)
    → (w : World) (first : StaffRef) → w.incident.state ≡ in_progress_state
    → w.incident.assigned_to ≡ some first
    → first ≢ q
    → (perform_all (handover t₁ t₂ t₃ reason q text photo) w).incident.state ≡ resolved_state
    → ((perform_all (handover t₁ t₂ t₃ reason q text photo) w).staff first).active_task_count
      ≡ (w.staff first).active_task_count
unfolding perform perform_all
escalation_leaks_task t₁ t₂ t₃ reason q text photo w first s a ne h = ground arith
