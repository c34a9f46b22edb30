-- ===== src/Tests/Meters.antt =====
-- A Prometheus in memory that refuses recordings, and the theorem about the recordings at it.
use mathlib.Core.List.{Memᴰ}
use mathlib.Core.List.Memᴰ
use git_change_operator.Base.{
  ℕ, suc, ◌≡◌, refl, ap, sym, inl, inr, ==_iff, Text, text, text_eq, text_eq_refl, Bool, true,
  false, ◌&&◌, ◌||◌, List, [], ◌∷◌, map, length, ◌==◌, if◌then◌else◌,
}
use git_change_operator.Effects.Moves.{Moves}
use git_change_operator.Platform.{Platform}
use git_change_operator.Metrics.{
  VectorKind, counter, histogram, Vector, registered, seconds, record_api_request,
  record_condition_check, record_json_parsing_error,
}
use git_change_operator.Metrics.Laws.{IsMetricFrame, IsDistinct, recordings-IsAccepted}
use git_change_operator.Tests.Memory.{Computer, memory}
use git_change_operator.Tests.Commits.{commit, at_time}

abbrev is_counter : VectorKind → Bool
is_counter counter = true
is_counter (histogram b) = false

abbrev is_histogram : VectorKind → Bool
is_histogram counter = false
is_histogram (histogram b) = true

-- Some vector of the kind has the name and as many labels as there are values.
accepts : (VectorKind → Bool) → Text → List Text → List Vector → Bool
accepts of_kind name values [] = false
accepts of_kind name values (v ∷ vs) =
    (of_kind v.kind && (text_eq v.name name && (length values == length v.labels)))
    || accepts of_kind name values vs

-- What is not accepted is counted.
abbrev recorded : Bool → Computer → Computer
recorded accepted w = if accepted then w else record w { misfits = suc w.misfits }

abbrev meter : Platform
meter = record memory {
  inc = λ name values w. recorded (accepts is_counter name values registered) w;
  observe = λ name values n w. recorded (accepts is_histogram name values registered) w;
}

or_true : (b : Bool) → b || true ≡ true
or_true true = refl
or_true false = refl

accepts-IsFitting :
    (of_kind : VectorKind → Bool) (v : Vector) (values : List Text) (vs : List Vector)
    → of_kind v.kind ≡ true
    → length values ≡ length v.labels
    → Memᴰ v vs
    → accepts of_kind v.name values vs ≡ true
unfolding accepts
accepts-IsFitting of_kind v values [] k l m = absurd (Memᴰ.not-nil m)
accepts-IsFitting of_kind v values (x ∷ vs) k l m = elim (Memᴰ.cases_cons m) [
  | inl e ↦
      rw
        (
          sym (ap (λ u. u.name) e),
          sym (ap (λ u. u.kind) e),
          sym (ap (λ u. u.labels) e),
          k,
          l,
          text_eq_refl v.name,
          (==_iff (length v.labels) (length v.labels)).1 refl,
        )
        refl
  | inr h ↦ rw (accepts-IsFitting of_kind v values vs k l h) (or_true _)
]

abbrev Clean : Computer → Type 0
Clean w = w.misfits ≡ 0

meter_frame : IsMetricFrame meter Clean
meter_frame = record {
  inc = λ v values w k f h.
      rw
        (accepts-IsFitting is_counter v values registered (ap is_counter k) f.one_each
          f.registered_before)
        h;
  observe = λ v values n b w k f h.
      rw
        (accepts-IsFitting is_histogram v values registered (ap is_histogram k) f.one_each
          f.registered_before)
        h;
}

-- A histogram has no counter, and a value for each label is asked for.
meter-refuses :
    ((meter.inc
        (text "gitchange_rest_api_response_size_bytes")
        (text "a" ∷ text "b" ∷ [])
        (at_time 0 commit)).misfits
      ≡ 1)
    × ((meter.inc
          (text "gitchange_rest_api_condition_checks_total")
          (text "a" ∷ [])
          (at_time 0 commit)).misfits
        ≡ 1)
unfolding accepts text text_eq
meter-refuses = (refl, refl)

-- A second and a half.
one_and_a_half : seconds memory 1500000000 ≡ (1500000000, 1000000000)
unfolding seconds
one_and_a_half = refl

recordings-IsAccepted_example :
    IsDistinct (map (λ v. v.name) registered)
    × ((url method status_code : Text) (duration response_size : ℕ)
        → Moves Clean Clean (
            record_api_request meter
              (text "gitcommit")
              url
              method
              status_code
              duration
              response_size))
    × ((result : Text) → Moves Clean Clean (record_condition_check meter (text "gitcommit") result))
    × ((kind : Text) → Moves Clean Clean (record_json_parsing_error meter (text "gitcommit") kind))
recordings-IsAccepted_example = recordings-IsAccepted meter Clean meter_frame (text "gitcommit")
