-- ===== src/Cel/Frames.antt =====
-- What `ProcessResponse` touches of the world.
use git_change_operator.Base.{Text, Bool, true, false, List, [], ◌∷◌}
use git_change_operator.Effects.Moves.{Moves, Moves-pure, keeps_rules}
use git_change_operator.Platform.{Platform}
use git_change_operator.Platform.Frames.{IsProbeFrame}
use git_change_operator.Cel.{
  unix_now, run_expression, evaluate_condition, evaluate_data_expression, evaluate_output_format,
  plain_output, ProcessRequest, extract_and_format, process_response,
}

module _ (P : Platform) (I : P.World → Type 0) (F : IsProbeFrame P I) where
  unix_now-Moves : Moves I I (unix_now P)
  unfolding unix_now
  unix_now-Moves = record { at = λ w h. F.now w h }

  eval-Moves : (p : P.Program) (vs : List (Text × P.Json)) → Moves I I (P.eval p vs)
  eval-Moves p vs = record { at = λ w h. F.eval p vs w h }

  run_expression-Moves :
      (env : P.CelEnv) (expression : Text) (variables : List (Text × P.Json))
      → Moves I I (run_expression P env expression variables)
  unfolding run_expression
  run_expression-Moves env expression variables =
      search (keeps_rules, unix_now-Moves, eval-Moves) depth 20

  evaluate_condition-Moves :
      (env : P.CelEnv) (condition response : Text)
      → Moves I I (evaluate_condition P env condition response)
  unfolding evaluate_condition
  evaluate_condition-Moves env [] response = Moves-pure true
  evaluate_condition-Moves env (c ∷ condition) response =
      search (keeps_rules, run_expression-Moves) depth 20

  evaluate_data_expression-Moves :
      (env : P.CelEnv) (expression response : Text)
      → Moves I I (evaluate_data_expression P env expression response)
  unfolding evaluate_data_expression
  evaluate_data_expression-Moves env [] response = Moves-pure []
  evaluate_data_expression-Moves env (c ∷ expression) response =
      search (keeps_rules, run_expression-Moves) depth 20

  plain_output-Moves : (extracted : Text) (b : Bool) → Moves I I (plain_output P extracted b)
  unfolding plain_output
  plain_output-Moves extracted false = record { at = λ w h. h }
  plain_output-Moves extracted true = record { at = λ w h. F.now w h }

  evaluate_output_format-Moves :
      (env : P.CelEnv) (expression extracted : Text) (b : Bool)
      → Moves I I (evaluate_output_format P env expression extracted b)
  unfolding evaluate_output_format
  evaluate_output_format-Moves env [] extracted b = plain_output-Moves extracted b
  evaluate_output_format-Moves env (c ∷ expression) extracted b =
      search (keeps_rules, run_expression-Moves) depth 20

  extract_and_format-Moves :
      (env : P.CelEnv) (req : ProcessRequest) → Moves I I (extract_and_format P env req)
  unfolding extract_and_format
  extract_and_format-Moves env req =
      search (keeps_rules, evaluate_data_expression-Moves, evaluate_output_format-Moves) depth 20

  pub process_response-Moves :
      (env : P.CelEnv) (req : ProcessRequest) → Moves I I (process_response P env req)
  unfolding process_response
  process_response-Moves env req =
      search (keeps_rules, evaluate_condition-Moves, extract_and_format-Moves) depth 20
