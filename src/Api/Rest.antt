-- ===== src/Api/Rest.antt =====
-- api/v1/gitcommit_types.go: the REST APIs of a resource and what was last seen of each.
-- Numbers that the CRD schema bounds from below by 1 are natural numbers.
use git_change_operator.Base.{ℕ, Text, Bool, false, Option, none, List, []}
use git_change_operator.Base.Words.{Time}

pub record ResponseParsing : Type 0 where
  pub condition : Text
  pub data_expression : Text
  pub output_format : Text

pub record RestApi : Type 0 where
  pub name : Text
  pub url : Text
  pub method : Text
  -- `map[string]string`, in the order in which the loop meets its keys.
  pub headers : List (Text × Text)
  pub body : Text
  pub auth_secret_ref : Text
  pub auth_secret_key : Text
  pub expected_status_codes : List ℕ
  pub max_status_code : ℕ
  pub timeout_seconds : ℕ
  pub response_parsing : Option ResponseParsing

pub record RestApiStatus : Type 0 where
  pub name : Text
  pub last_call_time : Option Time
  pub last_status_code : ℕ
  pub last_response : Text
  pub last_error : Text
  -- The counts are `int64` patterns.
  pub call_count : ℕ
  pub success_count : ℕ
  pub condition_met : Bool
  pub extracted_data : Text
  pub formatted_output : Text

-- The zero value.
abbrev pub new_status : RestApiStatus
new_status = record {
  name = [];
  last_call_time = none;
  last_status_code = 0;
  last_response = [];
  last_error = [];
  call_count = 0;
  success_count = 0;
  condition_met = false;
  extracted_data = [];
  formatted_output = [];
}
