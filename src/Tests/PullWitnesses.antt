-- ===== src/Tests/PullWitnesses.antt =====
-- The theorems about PullRequests at concrete data.
use git_change_operator.Base.{◌≡◌, refl, ◌<◌, ◌↔◌, text, Text, ◌++◌, inl, length}
use git_change_operator.Base.Paths.Laws.{IsElement}
use git_change_operator.Effects.{panic, ok, err}
use git_change_operator.Effects.Rules.{Post}
use git_change_operator.Api.Pull.{created}
use git_change_operator.Pull.Status.{record_pr_execution}
use git_change_operator.Pull.Status.Reports.{IsRecorded, record_pr_execution-records}
use git_change_operator.Pull.Repository.{github, dot_git, parse_repository}
use git_change_operator.Pull.Repository.Laws.{
  path_of, parse_repository-path_of, parse_repository_panics_iff,
}
use git_change_operator.Tests.Memory.{memory, memory-IsPullServer}
use git_change_operator.Tests.Pulls.{pull, holding_pull}

record_pr_execution-records_example :
    Post
      (λ u t. IsRecorded pull t.object 7 (text "url") created (text "done"))
      (λ e t. t.object ≡ pull)
      (record_pr_execution memory 7 (text "url") created (text "done") (holding_pull pull))
record_pr_execution-records_example =
    record_pr_execution-records memory 7 (text "url") created (text "done") memory-IsPullServer
      (holding_pull pull)

abbrev owner : Text
owner = text "k8s"

owner-IsElement : IsElement owner
unfolding text
owner-IsElement = record {
  plain = (refl, (refl, (refl, tt)));
  some_text = λ e. cc;
  not_dot = λ e. cc;
  not_dots = λ e. cc;
}

parse_repository-path_of_example :
    parse_repository (github ++ (path_of owner (text "a") ++ dot_git)) ≡ ok (owner, text "a")
unfolding text
parse_repository-path_of_example =
    parse_repository-path_of owner (text "a") dot_git owner-IsElement (refl, tt) (λ e. cc)
      (inl refl)

parse_repository_panics_iff_example :
    ((m : Text) × (parse_repository (text "https://github.com/a/b") ≡ err (panic m)))
    ↔ ((path : Text) × (text "https://github.com/a/b" ≡ github ++ path) × (length path < 4))
parse_repository_panics_iff_example = parse_repository_panics_iff (text "https://github.com/a/b")
