-- ===== src/Cel.antt =====
-- pkg/cel/evaluator.go: the condition, the extraction and the formatting of a JSON response.
pub mod Laws
pub mod Frames
use git_change_operator.Base.{
  ℕ, Text, text, Bool, true, false, not, Option, none, some, List, [], ◌∷◌,
}
use git_change_operator.Base.{◌++◌, ◌/◌, if◌then◌else◌, is_nil}
use git_change_operator.Base.Words.{second}
use git_change_operator.Effects.{Error, other, Result, ok, err, wrap_error, Exec, lift, wrapped}
use git_change_operator.Effects.{◌>>=◌, ◌>>◌, raise, pure}
use git_change_operator.Api.CelValue.{
  CelValue, string, int, double, bool, null, complex, GoValue, text_value, int_value, double_value,
  bool_value, nil_value, map_value, slice_value, cel_value, other_value, Entries, no_entries, entry,
  Items, no_items, item,
}
use git_change_operator.Platform.{Platform}

-- `convertCELValue`. Inside a map or a slice only the `ref.Val`s are converted.
module _ {Other : Type 0} where
  unfoldable mutual
    pub convert_cel_value : CelValue Other → GoValue Other
    convert_cel_value (string s) = text_value s
    convert_cel_value (int n) = int_value n
    convert_cel_value (double d) = double_value d
    convert_cel_value (bool b) = bool_value b
    convert_cel_value null = nil_value
    convert_cel_value (complex v) = convert_native v

    convert_native : GoValue Other → GoValue Other
    convert_native (map_value es) = map_value (convert_entries es)
    convert_native (slice_value is) = slice_value (convert_items is)
    convert_native (cel_value c) = cel_value c
    convert_native (text_value s) = text_value s
    convert_native (int_value n) = int_value n
    convert_native (double_value d) = double_value d
    convert_native (bool_value b) = bool_value b
    convert_native nil_value = nil_value
    convert_native (other_value o) = other_value o

    convert_element : GoValue Other → GoValue Other
    convert_element (cel_value c) = convert_cel_value c
    convert_element (map_value es) = map_value es
    convert_element (slice_value is) = slice_value is
    convert_element (text_value s) = text_value s
    convert_element (int_value n) = int_value n
    convert_element (double_value d) = double_value d
    convert_element (bool_value b) = bool_value b
    convert_element nil_value = nil_value
    convert_element (other_value o) = other_value o

    convert_entries : Entries Other → Entries Other
    convert_entries no_entries = no_entries
    convert_entries (entry k v es) = entry k (convert_element v) (convert_entries es)

    convert_items : Items Other → Items Other
    convert_items no_items = no_items
    convert_items (item v is) = item (convert_element v) (convert_items is)

  -- `result.Value().(bool)`
  as_bool : CelValue Other → Option Bool
  as_bool (bool b) = some b
  as_bool (complex (bool_value b)) = some b
  as_bool _ = none

  -- `resultValue.(string)`
  as_text : GoValue Other → Option Text
  as_text (text_value s) = some s
  as_text _ = none

module _ (P : Platform) where
  open P use {World, now, rfc3339, Json, CelEnv, Other, unmarshal, json_text, json_null, json_int}
  open P use {marshal, show_go, type_name, compile, program, eval, new_cel_env}

  -- `time.Now().Unix()`, with the zero time for the epoch.
  unix_now : Exec World ℕ
  unix_now w = let (t, w') = now w in (ok (t / second), w')

  unfoldable pub new_evaluator : Result CelEnv
  new_evaluator = wrap_error (text "failed to create CEL environment: ") new_cel_env

  -- The steps that the three evaluations share: compile, make the program, evaluate with `now`.
  run_expression : CelEnv → Text → List (Text × Json) → Exec World (CelValue Other)
  unfolding unix_now
  run_expression env expression variables = do
    ast ← wrapped (text "CEL compilation error: ") (lift (compile env expression))
    prg ← wrapped (text "CEL program creation error: ") (lift (program env ast))
    n ← unix_now
    wrapped (text "CEL evaluation error: ") (eval prg (variables ++ (text "now", json_int n) ∷ []))

  boolean_result : CelValue Other → Result Bool
  unfolding as_bool
  boolean_result v = elim (as_bool v) [
    | some b ↦ ok b
    | none ↦ err (other (text "condition expression must return boolean, got " ++ type_name v))
  ]

  unfoldable pub evaluate_condition : CelEnv → Text → Text → Exec World Bool
  unfolding run_expression boolean_result
  evaluate_condition env [] response_data = pure true
  evaluate_condition env (c ∷ condition) response_data = do
    response ← wrapped (text "failed to parse JSON response: ") (lift (unmarshal response_data))
    result ← run_expression env (c ∷ condition) ((text "response", response) ∷ [])
    lift (boolean_result result)

  data_text : GoValue Other → Result Text
  unfolding as_text
  data_text v = elim (as_text v) [
    | some s ↦ ok s
    | none ↦ wrap_error (text "failed to marshal result to JSON: ") (marshal v)
  ]

  unfoldable pub evaluate_data_expression : CelEnv → Text → Text → Exec World Text
  unfolding run_expression data_text
  evaluate_data_expression env [] response_data = pure []
  evaluate_data_expression env (c ∷ expression) response_data = do
    response ← wrapped (text "failed to parse JSON response: ") (lift (unmarshal response_data))
    result ← run_expression env (c ∷ expression) ((text "response", response) ∷ [])
    lift (data_text (convert_cel_value result))

  -- Extracted data that is no JSON is taken as a string; none at all is nil.
  parse_data : Text → Json
  parse_data [] = json_null
  parse_data (b ∷ s) = elim (unmarshal (b ∷ s)) [ ok j ↦ j | err e ↦ json_text (b ∷ s) ]

  output_text : GoValue Other → Text
  unfolding as_text
  output_text v = elim (as_text v) [ some s ↦ s | none ↦ show_go v ]

  -- What is written where no output format is given.
  plain_output : Text → Bool → Exec World Text
  plain_output data_out false w = (ok data_out, w)
  plain_output data_out true w =
      let (t, w') = now w in
      (ok (if is_nil data_out then rfc3339 t else rfc3339 t ++ (text "," ++ data_out)), w')

  unfoldable pub evaluate_output_format : CelEnv → Text → Text → Bool → Exec World Text
  unfolding run_expression parse_data output_text plain_output
  evaluate_output_format env [] extracted include_timestamp =
      plain_output extracted include_timestamp
  evaluate_output_format env (c ∷ expression) extracted include_timestamp = do
    result ← run_expression env (c ∷ expression) ((text "data", parse_data extracted) ∷ [])
    pure (output_text (convert_cel_value result))

pub record ProcessRequest : Type 0 where
  pub condition : Text
  pub data_expression : Text
  pub output_format : Text
  pub response_data : Text

pub record ProcessResult : Type 0 where
  pub condition_met : Bool
  pub extracted_data : Text
  pub formatted_output : Text

abbrev condition_failed : ProcessResult
condition_failed = record { condition_met = false; extracted_data = []; formatted_output = [] }

module _ (P : Platform) where
  open P use {World, CelEnv}

  -- The second and third step, which are taken only if the condition holds.
  extract_and_format : CelEnv → ProcessRequest → Exec World ProcessResult
  extract_and_format env req = do
    extracted ←
        wrapped (text "data extraction failed: ")
          (evaluate_data_expression P env req.data_expression req.response_data)
    formatted ←
        wrapped (text "output formatting failed: ")
          (evaluate_output_format P env req.output_format extracted false)
    pure (record { condition_met = true; extracted_data = extracted; formatted_output = formatted })

  unfoldable pub process_response : CelEnv → ProcessRequest → Exec World ProcessResult
  unfolding extract_and_format
  process_response env req = do
    met ←
        wrapped (text "condition evaluation failed: ")
          (evaluate_condition P env req.condition req.response_data)
    if met then extract_and_format env req else pure condition_failed
