-- ===== src/Tests/Witnesses.antt =====
-- The theorems at concrete data.
use git_change_operator.Base.{
  ℕ, ◌+◌, ◌*◌, ◌==◌, Bool-cases, ◌<◌, ◌≡◌, refl, ◌↔◌, inl, inr, text, true, false, arith,
}
use git_change_operator.Base.{Option, none, some, [], ◌∷◌, length, All}
use git_change_operator.Base.Words.{minute}
use git_change_operator.Effects.{ok}
use git_change_operator.Effects.Rules.{Post}
use git_change_operator.Api.Commit.{GitCommit, committed, failed}
use git_change_operator.Cel.{process_response}
use git_change_operator.Cel.Laws.{IsGuarded, process_response-IsGuarded}
use git_change_operator.Commit.Content.{build_file_content}
use git_change_operator.Commit.Content.Laws.{Qualifies, Some, build_file_content-eq-nil}
use git_change_operator.Commit.Ttl.{check_ttl_expired}
use git_change_operator.Commit.Ttl.Laws.{check_ttl_expired_iff}
use git_change_operator.Commit.Status.{update_status, record_execution}
use git_change_operator.Commit.Status.Reports.{
  IsReported, IsRecorded, update_status-reports, record_execution-records,
}
use git_change_operator.Commit.Status.Blind.{with_statuses, unless_ok, record_execution-IsBlind}
use git_change_operator.Commit.RestCheck.{check_rest_api_conditions}
use git_change_operator.RestCall.Laws.{IsCounted}
use git_change_operator.Commit.RestCheck.All.{check_rest_api_conditions-IsCounted}
use git_change_operator.Commit.Resources.{process_resource_ref}
use git_change_operator.Commit.Writing.Laws.{IsReplacing, process_resource_ref-IsReplacing}
use git_change_operator.Commit.Schedule.{should_execute, handle_scheduled}
use git_change_operator.Platform.Frames.{IsStatusFrame}
use git_change_operator.Commit.Schedule.{wait_for_next, finish_execution}
use git_change_operator.Commit.Schedule.Waits.{Waits, Finishes, Waits-IsLong}
use git_change_operator.Commit.Schedule.Laws.{handle_scheduled-Within}
use git_change_operator.Tests.Memory.{Computer, update_stored, memory, memory-IsApiServer}
use git_change_operator.Tests.Commits.{
  readme, config_map, rest_status, commit, hourly, at_time, holding,
}

check_rest_api_conditions-IsCounted_example :
    let t = (check_rest_api_conditions memory (holding commit)).1.object in
    All IsCounted t.status.rest_api_statuses × (length t.status.rest_api_statuses ≡ 1)
check_rest_api_conditions-IsCounted_example =
    check_rest_api_conditions-IsCounted memory (holding commit) ((omega arith, omega arith), tt)

update_status-reports_example :
    Post
      (λ u t. IsReported commit t.object failed (text "no"))
      (λ e t. t.object ≡ commit)
      (update_status memory failed (text "no") (holding commit))
update_status-reports_example =
    update_status-reports memory memory-IsApiServer failed (text "no") (holding commit)

record_execution-records_example :
    Post
      (λ u t. IsRecorded commit t.object (text "abc") committed (text "done") (some 5))
      (λ e t. t.object ≡ commit)
      (record_execution memory (text "abc") committed (text "done") (some 5) (holding commit))
record_execution-records_example =
    record_execution-records memory memory-IsApiServer (text "abc") committed (text "done") (some 5)
      (holding commit)

record_execution-IsBlind_example :
    record_execution memory
      (text "abc")
      committed
      (text "done")
      none
      (with_statuses memory [] (holding commit))
    ≡ unless_ok memory []
        (record_execution memory (text "abc") committed (text "done") none (holding commit))
record_execution-IsBlind_example =
    record_execution-IsBlind memory (text "abc") committed (text "done") none [] (holding commit)

abbrev Unpushed : Computer → Type 0
Unpushed w = w.pushed ≡ 0

Unpushed-IsStatusFrame : IsStatusFrame memory Unpushed
Unpushed-IsStatusFrame = record {
  now = λ w h. h;
  sleep = λ d w h. h;
  get_commit = λ namespace name w h. h;
  update = λ o w h. updated o w w.commit h;
}
  where
    updated :
        (o : GitCommit) (w : Computer) (c : Option GitCommit)
        → Unpushed w
        → Unpushed (update_stored o c w).1
    updated o w none h = h
    updated o w (some old) h = elim (Bool-cases (o.resource_version == old.resource_version)) [
      | inl e ↦ rw e h
      | inr e ↦ rw e h
    ]

not_due : should_execute (some 0) (some 7200000000000) 1000 ≡ false
unfolding should_execute
not_due = refl

handle_scheduled-Within_example : (handle_scheduled memory (holding hourly)).1.world.pushed ≡ 0
handle_scheduled-Within_example =
    handle_scheduled-Within memory Unpushed Unpushed-IsStatusFrame (holding hourly) refl
      (λ cron s p. not_due)

process_resource_ref-IsReplacing_example :
    Post
      (λ files u. All (IsReplacing memory) files)
      (λ e u. Unit {0})
      (process_resource_ref memory config_map (text "default") (at_time 0 commit))
process_resource_ref-IsReplacing_example =
    process_resource_ref-IsReplacing memory config_map (text "default") (at_time 0 commit)

build_file_content-eq-nil_example :
    (build_file_content readme (rest_status ∷ []) ≡ [])
    ↔ (¬ Some (Qualifies readme) (rest_status ∷ []))
build_file_content-eq-nil_example = build_file_content-eq-nil readme (rest_status ∷ [])

check_ttl_expired_iff_example :
    ((check_ttl_expired memory commit (at_time 100000000000 commit)).0 ≡ ok true) ↔ (
      (n : ℕ) × (commit.spec.ttl_minutes ≡ some n)
      × (commit.creation_timestamp + n * minute < 100000000000))
check_ttl_expired_iff_example =
    check_ttl_expired_iff memory commit (at_time 100000000000 commit) (λ n e. ground arith)

process_response-IsGuarded_example :
    Post
      (λ r u.
        IsGuarded
          (record {
            condition = text "x";
            data_expression = [];
            output_format = [];
            response_data = [];
          })
          r)
      (λ e u. Unit {0})
      (process_response memory tt
        (record {
          condition = text "x";
          data_expression = [];
          output_format = [];
          response_data = [];
        })
        (at_time 0 commit))
process_response-IsGuarded_example =
    process_response-IsGuarded memory tt
      (record {
        condition = text "x";
        data_expression = [];
        output_format = [];
        response_data = [];
      })
      (at_time 0 commit)

Waits-IsLong_example :
    Waits memory 3600000000000 1000
      (holding hourly)
      (wait_for_next memory 3600000000000 1000 (holding hourly))
    × Finishes memory 3600000000000 1000
        (text "abc")
        (holding hourly)
        (finish_execution memory 3600000000000 1000 (text "abc") (holding hourly))
Waits-IsLong_example = Waits-IsLong memory 3600000000000 1000 (text "abc") (holding hourly)
