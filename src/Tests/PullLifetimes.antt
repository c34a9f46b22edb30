-- ===== src/Tests/PullLifetimes.antt =====
-- The theorems about many attempts and many reconciles of a PullRequest, in memory.
use mathlib.Core.Path.{subst}
use git_change_operator.Base.{
  ℕ, zero, suc, ◌+◌, ◌≡◌, ◌≢◌, refl, sym, Text, text, Option, none, some, [], inl, arith, true,
}
use git_change_operator.Base.Words.{Time}
use git_change_operator.Effects.{is_conflict, Held, ok}
use git_change_operator.Effects.Rules.{Post}
use git_change_operator.Effects.Steps.{Reach, here, next}
use git_change_operator.Api.Pull.{PullRequest, PullRequestPhase, created}
use git_change_operator.Platform.{Platform}
use git_change_operator.Platform.Frames.{IsPullRunFrame}
use git_change_operator.Pull.Status.{
  record_pr_execution, update_schedule_status, update_next_scheduled_time,
}
use git_change_operator.Pull.Status.Retries.{IsYielding, Returns, pull_writers-return}
use git_change_operator.Pull.Reconcile.{reconcile}
use git_change_operator.Pull.Reconcile.Scheduled.{pull_reconcile-scheduled}
use git_change_operator.Pull.Lifetime.{
  IsFinished, Step, reconciled, elsewhere, IsSettling, pull_settled-forever,
}
use git_change_operator.Tests.Memory.{Computer, memory, found}
use git_change_operator.Tests.Pulls.{pull, hourly_pull, pull_at}
use git_change_operator.Tests.Frames.{Counted, probe_frame, work_frame}
use git_change_operator.Tests.PullFrames.{status_frame}
use git_change_operator.Tests.Lifetimes.{refuse, Passing}

-- A server that refuses as many updates as `refusals` counts, and then stores what it is sent.
abbrev contended : Platform
contended = record memory {
  get_pull = λ namespace name w. (ok pull, w);
  update_pull_status = λ o w. refuse w.refusals o w;
}

abbrev Yields : ℕ → Computer → Type 0
Yields n w = w.refusals ≡ n

refuse-Yields :
    (n k : ℕ) (o : PullRequest) (w : Computer)
    → k ≡ n
    → Post
        (λ o' w'. Unit {0})
        (λ e w'. (is_conflict e ≡ true) × (m : ℕ) × (n ≡ suc m) × Yields m w')
        (refuse k o w)
refuse-Yields n zero o w h = tt
refuse-Yields n (suc k) o w h = (refl, k, sym h, refl)

contended-IsYielding : IsYielding contended Yields
contended-IsYielding = record {
  now = λ n w h. h;
  sleep = λ n d w h. h;
  read = λ n namespace name w h. h;
  update = λ n o w h. refuse-Yields n w.refusals o w h;
}

abbrev busy : Held Computer PullRequest
busy = record { world = record (pull_at 1000 pull) { refusals = 2 }; object = pull }

pull_writers-return_example :
    ((number : ℕ) (url : Text) (phase : PullRequestPhase) (message : Text)
      → Returns contended Yields contended-IsYielding
          (record_pr_execution contended number url phase message busy))
    × ((phase : PullRequestPhase) (message : Text)
        → Returns contended Yields contended-IsYielding
            (update_schedule_status contended phase message busy))
    × ((next : Time)
        → Returns contended Yields contended-IsYielding
            (update_next_scheduled_time contended next busy))
pull_writers-return_example =
    pull_writers-return contended Yields contended-IsYielding 2 busy (omega arith) refl

abbrev IsOver : Option PullRequest → Type 0
IsOver none = Unit
IsOver (some o) = IsFinished o

-- The pull request is finished or gone, after one request to GitHub.
abbrev Settled : Computer → Type 0
Settled w = IsOver w.pull × (w.created ≡ 1)

found-Settled :
    (c : Option PullRequest) (w : Computer)
    → IsOver c
    → Settled w
    → Post (λ o w'. IsFinished o × Settled w') (λ e w'. Settled w') (found c, w)
found-Settled none w over h = h
found-Settled (some o) w over h = (over, h)

memory-IsSettling : IsSettling memory Passing (text "default") (text "pull") Settled
memory-IsSettling = record {
  read = λ w h. found-Settled w.pull w h.0 h;
  clock = λ w h. h;
  deletion = λ o w h. (tt, h.1);
  rest = λ w w' (d, e) h. subst Settled (sym e) h;
}

abbrev finished_pull : PullRequest
finished_pull = record pull { status = record pull.status { phase = created } }

abbrev created_once : Computer
created_once = record (pull_at 1000 finished_pull) { created = 1 }

abbrev a_day_later : Computer
a_day_later = record created_once { time = 86400000000000 + created_once.time }

two_steps :
    Reach
      (Step memory Passing (text "default") (text "pull"))
      created_once
      (reconcile memory (text "default") (text "pull") a_day_later).1
two_steps = next (next here (elsewhere (86400000000000, refl))) (reconciled refl)

pull_settled-forever_example :
    Settled (reconcile memory (text "default") (text "pull") a_day_later).1
pull_settled-forever_example =
    pull_settled-forever memory Passing (text "default") (text "pull") Settled memory-IsSettling
      ((refl, inl refl), refl) two_steps

abbrev Undeleted : ℕ → ℕ → ℕ → Type 0
Undeleted pushes requests deletions = deletions ≡ 0

run_frame : IsPullRunFrame memory (Counted Undeleted) (Counted Undeleted) (Counted Undeleted)
run_frame = record {
  before = status_frame Undeleted;
  after = status_frame Undeleted;
  probe = probe_frame Undeleted;
  work = work_frame Undeleted;
  weaken = λ w h. h;
  pushed = λ repo auth. record { at = λ w h. h };
  unasked = λ w h. h;
  created = λ token owner name request. record { at = λ w h. h };
  removed = λ path w h. h;
}

-- The time to live has passed long ago.
abbrev overdue : PullRequest
overdue = record hourly_pull { spec = record hourly_pull.spec { ttl_minutes = some 1 } }

abbrev overdue_computer : Computer
overdue_computer = pull_at 86400000000000 overdue

pull_reconcile-scheduled_example :
    (reconcile memory (text "default") (text "pull") overdue_computer).1.deleted ≡ 0
unfolding text
pull_reconcile-scheduled_example =
    pull_reconcile-scheduled memory (Counted Undeleted) run_frame (text "default") (text "pull")
      overdue_computer overdue_computer overdue refl hourly-ne refl
  where
    hourly-ne : overdue.spec.schedule ≢ []
    hourly-ne h = cc
