-- ===== src/Commit/RestCheck/Frames.antt =====
-- What a check of the REST APIs touches of the world.
use git_change_operator.Base.{Text, text}
use git_change_operator.Effects.{Held}
use git_change_operator.Effects.Moves.{Moves, keeps_rules}
use git_change_operator.Api.Rest.{RestApi}
use git_change_operator.Api.Commit.{GitCommit}
use git_change_operator.Platform.{Platform}
use git_change_operator.Platform.Frames.{IsProbeFrame}
use git_change_operator.RestCall.Frames.{
  Within, get-Within, modify-Within, ask_api-Within, check_all-Within,
}
use git_change_operator.Commit.RestCheck.{probe_api, check_single, check_rest_api_conditions}

module _ (P : Platform) (I : P.World → Type 0) (F : IsProbeFrame P I) where
  abbrev collector : Text
  collector = text "gitcommit"

  probe_api-Within :
      (namespace : Text) (api : RestApi)
      → Moves (Within P collector I F) (Within P collector I F) (probe_api P namespace api)
  unfolding probe_api
  probe_api-Within namespace api =
      search
        (
          keeps_rules,
          get-Within P collector I F,
          modify-Within P collector I F,
          ask_api-Within P collector I F,
        )
        depth 20

  check_single-Within :
      (namespace : Text) (api : RestApi)
      → Moves (Within P collector I F) (Within P collector I F) (check_single P namespace api)
  unfolding check_single
  check_single-Within namespace api = probe_api-Within namespace api

  pub check_rest_api_conditions-Within :
      Moves {S = Held P.World GitCommit}
        (λ s. I s.world)
        (λ s. I s.world)
        (check_rest_api_conditions P)
  unfolding check_rest_api_conditions
  check_rest_api_conditions-Within = record {
    at = λ s h.
        check_all-Within P I (check_single P s.object.namespace)
          (check_single-Within s.object.namespace) _ _ s.world h;
  }
