-- ===== src/Commit/Content/Laws.antt =====
-- Which results a file is made of.
use git_change_operator.Base.{Text, ◌≡◌, refl, sym, ◌∙◌, ◌≢◌, true, List, [], ◌∷◌, arith}
use git_change_operator.Base.{
  All, Nil-cases, is_nil-ne, is_nil, text_eq_iff, join, ◌↔◌, ◌⊎◌, inl, inr,
}
use git_change_operator.Api.Rest.{RestApiStatus}
use git_change_operator.Api.Files.{File}
use git_change_operator.Commit.Content.{
  named_results, all_results, select_results, delimiter_of, build_file_content,
}

-- A status whose output the file takes: one of the name that the file gives or, where it gives none,
-- one whose condition was met; in both cases with an output.
abbrev pub Qualifies : File → RestApiStatus → Type 0
Qualifies file s =
    (s.formatted_output ≢ [])
    × ((file.rest_api_name ≢ []) × (s.name ≡ file.rest_api_name)
        ⊎ (file.rest_api_name ≡ []) × (s.condition_met ≡ true))

abbrev pub Some : (RestApiStatus → Type 0) → List RestApiStatus → Type 0
Some P [] = ⊥
Some P (s ∷ ss) = P s ⊎ Some P ss

named_results-eq-nil :
    (file : File) (ss : List RestApiStatus)
    → file.rest_api_name ≢ []
    → (named_results file.rest_api_name ss ≡ []) ↔ (¬ Some (Qualifies file) ss)
unfolding named_results
named_results-eq-nil file [] h = (λ e. λ x. x, λ n. refl)
named_results-eq-nil file (s ∷ ss) h =
    ground (arith, text_eq_iff s.name file.rest_api_name, named_results-eq-nil file ss h)

all_results-eq-nil :
    (file : File) (ss : List RestApiStatus)
    → file.rest_api_name ≡ []
    → (all_results ss ≡ []) ↔ (¬ Some (Qualifies file) ss)
unfolding all_results
all_results-eq-nil file [] h = (λ e. λ x. x, λ n. refl)
all_results-eq-nil file (s ∷ ss) h = ground (arith, all_results-eq-nil file ss h)

join-eq-nil : (r : Text) (rs : List Text) (sep : Text) → r ≢ [] → join (r ∷ rs) sep ≢ []
unfolding join
join-eq-nil [] rs sep h = absurd (h refl)
join-eq-nil (b ∷ r) [] sep h = λ e. cc
join-eq-nil (b ∷ r) (t ∷ rs) sep h = λ e. cc

-- No selected result is empty.
named_results-IsFull :
    (name : Text) (ss : List RestApiStatus) → All (λ r. r ≢ []) (named_results name ss)
unfolding named_results
named_results-IsFull name [] = tt
named_results-IsFull name (s ∷ ss) = ground (arith, named_results-IsFull name ss)

all_results-IsFull : (ss : List RestApiStatus) → All (λ r. r ≢ []) (all_results ss)
unfolding all_results
all_results-IsFull [] = tt
all_results-IsFull (s ∷ ss) = ground (arith, all_results-IsFull ss)

select_results-IsFull :
    (file : File) (ss : List RestApiStatus) → All (λ r. r ≢ []) (select_results file ss)
unfolding select_results
select_results-IsFull file ss =
    ground (arith, all_results-IsFull ss, named_results-IsFull file.rest_api_name ss)

select_unnamed :
    (file : File) (ss : List RestApiStatus)
    → file.rest_api_name ≡ []
    → all_results ss ≡ select_results file ss
unfolding select_results
select_unnamed file ss e = rw (e, is_nil)

select_results-eq-nil :
    (file : File) (ss : List RestApiStatus)
    → (select_results file ss ≡ []) ↔ (¬ Some (Qualifies file) ss)
unfolding select_results
select_results-eq-nil file ss = elim (Nil-cases file.rest_api_name) [
  | inl e ↦ (
    λ h. (all_results-eq-nil file ss e).0 (select_unnamed file ss e ∙ h),
    λ n. sym (select_unnamed file ss e) ∙ (all_results-eq-nil file ss e).1 n,
  )
  | inr n ↦ rw (is_nil-ne file.rest_api_name n) (named_results-eq-nil file ss n)
]

join-eq-nil_iff :
    (rs : List Text) (sep : Text) → All (λ r. r ≢ []) rs → (join rs sep ≡ []) ↔ (rs ≡ [])
unfolding join
join-eq-nil_iff [] sep h = (λ e. refl, λ e. refl)
join-eq-nil_iff (r ∷ rs) sep h = (λ e. absurd (join-eq-nil r rs sep h.0 e), λ e. cc)

-- The content that a file takes from the REST APIs is empty, which the caller reports as an error,
-- exactly when no status qualifies: none of the file's API name with an output or, without a name, none
-- with an output and a condition that was met.
pub build_file_content-eq-nil :
    (file : File) (ss : List RestApiStatus)
    → (build_file_content file ss ≡ []) ↔ (¬ Some (Qualifies file) ss)
unfolding build_file_content
build_file_content-eq-nil file ss =
    let j =
      join-eq-nil_iff (select_results file ss) (delimiter_of file)
        (select_results-IsFull file ss) in
    let k = select_results-eq-nil file ss in (λ e. k.0 (j.0 e), λ n. j.1 (k.1 n))
