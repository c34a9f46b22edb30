-- ===== src/Cel/Laws.antt =====
-- What `ProcessResponse` returns.
use git_change_operator.Base.{
  ◌⊎◌, ◌≢◌, inl, inr, Text, ◌≡◌, refl, Bool, true, false, [], ◌∷◌, text, if◌then◌else◌,
}
use git_change_operator.Effects.{ok, wrapped}
use git_change_operator.Effects.Rules.{Post, any-bind}
use git_change_operator.Platform.{Platform}
use git_change_operator.Cel.{
  evaluate_condition, evaluate_data_expression, evaluate_output_format, ProcessRequest,
  ProcessResult, condition_failed, extract_and_format, process_response,
}

-- No condition holds always, no data expression extracts nothing, and nothing is extracted or formatted
-- unless the condition holds.
pub record IsGuarded (req : ProcessRequest) (r : ProcessResult) : Type 0 where
  pub met : (req.condition ≢ []) ⊎ (r.condition_met ≡ true)
  pub no_data : (req.data_expression ≢ []) ⊎ (r.extracted_data ≡ [])
  pub blank : (r.condition_met ≡ true) ⊎ (r.extracted_data ≡ []) × (r.formatted_output ≡ [])

module _ (P : Platform) (env : P.CelEnv) where
  no_condition :
      (condition response : Text) (w w' : P.World) (b : Bool)
      → wrapped
          (text "condition evaluation failed: ")
          (evaluate_condition P env condition response)
          w
        ≡ (ok b, w')
      → (condition ≢ []) ⊎ (b ≡ true)
  unfolding evaluate_condition
  no_condition [] response w w' b h = inr cc
  no_condition (c ∷ condition) response w w' b h = inl (λ e. cc)

  no_expression :
      (expression response : Text) (w w' : P.World) (extracted : Text)
      → wrapped
          (text "data extraction failed: ")
          (evaluate_data_expression P env expression response)
          w
        ≡ (ok extracted, w')
      → (expression ≢ []) ⊎ (extracted ≡ [])
  unfolding evaluate_data_expression
  no_expression [] response w w' x h = inr cc
  no_expression (c ∷ expression) response w w' x h = inl (λ e. cc)

  extract_and_format-IsGuarded :
      (req : ProcessRequest) (w : P.World)
      → Post (λ r u. IsGuarded req r) (λ e u. Unit {0}) (extract_and_format P env req w)
  unfolding extract_and_format
  extract_and_format-IsGuarded req w =
      any-bind
        (wrapped (text "data extraction failed: ")
          (evaluate_data_expression P env req.data_expression req.response_data))
        _ w _ _ (λ e t. tt)
        (λ x t h.
          any-bind
            (wrapped (text "output formatting failed: ")
              (evaluate_output_format P env req.output_format x false))
            _ t _ _ (λ e t. tt)
            (λ y t' h'. record {
              met = inr refl;
              no_data = no_expression req.data_expression req.response_data w t x h;
              blank = inl refl;
            }))

  conditional :
      (req : ProcessRequest) (w w' : P.World) (b : Bool)
      → wrapped
          (text "condition evaluation failed: ")
          (evaluate_condition P env req.condition req.response_data)
          w
        ≡ (ok b, w')
      → Post
          (λ r u. IsGuarded req r)
          (λ e u. Unit {0})
          ((if b then extract_and_format P env req else λ w. (ok condition_failed, w)) w')
  conditional req w w' true h = extract_and_format-IsGuarded req w'
  conditional req w w' false h = record {
    met = no_condition req.condition req.response_data w w' false h;
    no_data = inr refl;
    blank = inr (refl, refl);
  }

  -- What `ProcessResponse` returns, where it returns no error: the condition counts as met if the request
  -- gives none; the extracted data is empty if the request gives no data expression; and where the
  -- condition was not met, both the extracted data and the output are empty.
  pub process_response-IsGuarded :
      (req : ProcessRequest) (w : P.World)
      → Post (λ r u. IsGuarded req r) (λ e u. Unit {0}) (process_response P env req w)
  unfolding process_response
  process_response-IsGuarded req w =
      any-bind
        (wrapped (text "condition evaluation failed: ")
          (evaluate_condition P env req.condition req.response_data))
        _ w _ _ (λ e t. tt) (λ b t h. conditional req w t b h)
