-- ===== src/Tests/Lifetimes.antt =====
-- The theorems about many attempts and many reconciles, in memory.
use mathlib.Core.Path.{subst}
use git_change_operator.Base.{
  true, ℕ, zero, suc, ◌+◌, ◌≡◌, ◌≤◌, ◌≢◌, refl, sym, Text, text, Option, none, some, [], inl, arith,
}
use git_change_operator.Base.Words.{Time}
use git_change_operator.Effects.{conflict, is_conflict, Result, ok, err, Held}
use git_change_operator.Effects.Rules.{Post}
use git_change_operator.Effects.Steps.{Reach, here, next}
use git_change_operator.Api.Commit.{GitCommit, GitCommitPhase}
use git_change_operator.Platform.{Platform}
use git_change_operator.Commit.Status.{
  update_status, record_execution, update_schedule_status, update_next_scheduled_time,
}
use git_change_operator.Commit.Status.Attempts.{IsBudget, Spends, writers-Spends}
use git_change_operator.Commit.Status.Retries.{IsYielding, Returns, writers-return}
use git_change_operator.Commit.Reconcile.{reconcile}
use git_change_operator.Commit.Reconcile.Scheduled.{reconcile-scheduled}
use git_change_operator.Commit.Lifetime.{
  IsFinished, Step, reconciled, elsewhere, IsSettling, settled-forever,
}
use git_change_operator.Platform.Frames.{IsRunFrame}
use git_change_operator.Tests.Frames.{Counted, status_frame, probe_frame, work_frame}
use git_change_operator.Tests.Memory.{Computer, memory, found}
use git_change_operator.Tests.Commits.{commit, hourly, at_time}

-- A server that refuses as many updates as `refusals` counts, and then stores what it is sent.
abbrev pub refuse : {A : Type 0} → ℕ → A → Computer → Result A × Computer
refuse zero o w = (ok o, w)
refuse (suc n) o w = (err (conflict (text "modified")), record w { refusals = n })

abbrev contended : Platform
contended = record memory {
  get_commit = λ namespace name w. (ok commit, w);
  update_commit_status = λ o w. refuse w.refusals o w;
}

abbrev Yields : ℕ → Computer → Type 0
Yields n w = w.refusals ≡ n

refuse-Yields :
    (n k : ℕ) (o : GitCommit) (w : Computer)
    → k ≡ n
    → Post
        (λ o' w'. Unit {0})
        (λ e w'. (is_conflict e ≡ true) × (m : ℕ) × (n ≡ suc m) × Yields m w')
        (refuse k o w)
refuse-Yields n zero o w h = tt
refuse-Yields n (suc k) o w h = (refl, k, sym h, refl)

contended-IsYielding : IsYielding contended Yields
contended-IsYielding = record {
  now = λ n w h. h;
  sleep = λ n d w h. h;
  read = λ n namespace name w h. h;
  update = λ n o w h. refuse-Yields n w.refusals o w h;
}

abbrev busy : Held Computer GitCommit
busy = record { world = record (at_time 1000 commit) { refusals = 2 }; object = commit }

writers-return_example :
    ((phase : GitCommitPhase) (message : Text)
      → Returns contended Yields contended-IsYielding (update_status contended phase message busy))
    × ((sha : Text) (phase : GitCommitPhase) (message : Text) (next : Option Time)
        → Returns contended Yields contended-IsYielding
            (record_execution contended sha phase message next busy))
    × ((phase : GitCommitPhase) (message : Text)
        → Returns contended Yields contended-IsYielding
            (update_schedule_status contended phase message busy))
    × ((next : Time)
        → Returns contended Yields contended-IsYielding
            (update_next_scheduled_time contended next busy))
writers-return_example =
    writers-return contended Yields contended-IsYielding 2 busy (omega arith) refl

-- The refusals that are left beyond seven are the updates that may still be made.
abbrev Budget : ℕ → Computer → Type 0
Budget n w = n + 7 ≤ w.refusals

refuse-Budget : (n k : ℕ) (o : GitCommit) (w : Computer) → suc n + 7 ≤ k → Budget n (refuse k o w).1
refuse-Budget n zero o w h = absurd (omega (arith, h))
refuse-Budget n (suc k) o w h = omega (arith, h)

contended-IsBudget : IsBudget contended Budget
contended-IsBudget = record {
  now = λ n w h. h;
  sleep = λ n d w h. h;
  read = λ n namespace name w h. h;
  update = λ n o w h. refuse-Budget n w.refusals o w h;
  less = λ n w h. omega (arith, h);
}

writers-Spends_example :
    ((phase : GitCommitPhase) (message : Text)
      → Spends contended Budget contended-IsBudget 3 (update_status contended phase message))
    × ((sha : Text) (phase : GitCommitPhase) (message : Text) (next : Option Time)
        → Spends contended Budget contended-IsBudget 3
            (record_execution contended sha phase message next))
    × ((phase : GitCommitPhase) (message : Text)
        → Spends contended Budget contended-IsBudget 3
            (update_schedule_status contended phase message))
    × ((next : Time)
        → Spends contended Budget contended-IsBudget 3 (update_next_scheduled_time contended next))
writers-Spends_example = writers-Spends contended Budget contended-IsBudget

-- The time passes.
abbrev pub Passing : Computer → Computer → Type 0
Passing w w' = (d : ℕ) × (w' ≡ record w { time = d + w.time })

abbrev IsOver : Option GitCommit → Type 0
IsOver none = Unit
IsOver (some o) = IsFinished o

-- The commit is finished or gone, after one push.
abbrev Settled : Computer → Type 0
Settled w = IsOver w.commit × (w.pushed ≡ 1)

found-Settled :
    (c : Option GitCommit) (w : Computer)
    → IsOver c
    → Settled w
    → Post (λ o w'. IsFinished o × Settled w') (λ e w'. Settled w') (found c, w)
found-Settled none w over h = h
found-Settled (some o) w over h = (over, h)

memory-IsSettling : IsSettling memory Passing (text "default") (text "commit") Settled
memory-IsSettling = record {
  read = λ w h. found-Settled w.commit w h.0 h;
  clock = λ w h. h;
  deletion = λ o w h. (tt, h.1);
  rest = λ w w' (d, e) h. subst Settled (sym e) h;
}

abbrev pushed_once : Computer
pushed_once = record (at_time 1000 commit) { pushed = 1 }

abbrev a_day_later : Computer
a_day_later = record pushed_once { time = 86400000000000 + pushed_once.time }

two_steps :
    Reach
      (Step memory Passing (text "default") (text "commit"))
      pushed_once
      (reconcile memory (text "default") (text "commit") a_day_later).1
two_steps = next (next here (elsewhere (86400000000000, refl))) (reconciled refl)

settled-forever_example : Settled (reconcile memory (text "default") (text "commit") a_day_later).1
settled-forever_example =
    settled-forever memory Passing (text "default") (text "commit") Settled memory-IsSettling
      ((refl, inl refl), refl) two_steps

abbrev Undeleted : ℕ → ℕ → ℕ → Type 0
Undeleted pushes requests deletions = deletions ≡ 0

run_frame : IsRunFrame memory (Counted Undeleted) (Counted Undeleted)
run_frame = record {
  before = status_frame Undeleted;
  after = status_frame Undeleted;
  probe = probe_frame Undeleted;
  work = work_frame Undeleted;
  weaken = λ w h. h;
  pushed = λ repo auth. record { at = λ w h. h };
  removed = λ path w h. h;
}

-- The time to live has passed long ago.
abbrev overdue : GitCommit
overdue = record hourly { spec = record hourly.spec { ttl_minutes = some 1 } }

abbrev overdue_computer : Computer
overdue_computer = at_time 86400000000000 overdue

reconcile-scheduled_example :
    (reconcile memory (text "default") (text "commit") overdue_computer).1.deleted ≡ 0
unfolding text
reconcile-scheduled_example =
    reconcile-scheduled memory (Counted Undeleted) run_frame (text "default") (text "commit")
      overdue_computer overdue_computer overdue refl hourly-ne refl
  where
    hourly-ne : ◌≢◌ {A = Text} (text "0 * * * *") []
    hourly-ne h = cc
