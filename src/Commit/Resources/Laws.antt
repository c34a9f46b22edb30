-- ===== src/Commit/Resources/Laws.antt =====
-- What the files of a resource look like.
use git_change_operator.Base.{Text, ◌≡◌, refl, List, [], ◌∷◌, Option, none, some}
use git_change_operator.Base.{All, lookup, text, Option-cases, inl, inr}
use git_change_operator.Effects.{lift, wrapped}
use git_change_operator.Effects.Rules.{Post, any-bind}
use git_change_operator.Api.Files.{
  File, FieldRef, ResourceRef, OutputStrategy, OutputType, dump, fields, single_field, other_type,
  other_mode,
}
use git_change_operator.Platform.{Platform}
use git_change_operator.Commit.Resources.{
  field_files, files_of, single_file, dump_files, data_of, process_resource_ref, fetch_resource,
}

-- No write mode.
abbrev pub IsPlain : File → Type 0
IsPlain f = f.write_mode ≡ other_mode []

module _ (P : Platform) where
  field_files-IsPlain :
      (path : Text) (entries : List (Text × P.Value)) → All IsPlain (field_files P path entries)
  unfolding field_files
  field_files-IsPlain path [] = tt
  field_files-IsPlain path ((k, v) ∷ entries) = (refl, field_files-IsPlain path entries)

  single_file-IsPlain :
      (strategy : OutputStrategy) (ref : FieldRef) (entries : List (Text × P.Value)) (w : P.World)
      → Post
          (λ files u. All IsPlain files)
          (λ e u. Unit {0})
          (single_file P strategy ref entries, w)
  unfolding single_file
  single_file-IsPlain strategy ref entries w = elim (Option-cases (lookup ref.key entries)) [
    | inl e ↦ rw (e, single_file) tt
    | inr (v, e) ↦ rw (e, single_file) (refl, tt)
  ]

  single_field-IsPlain :
      (strategy : OutputStrategy) (field_ref : Option FieldRef) (obj : P.Object) (w : P.World)
      → strategy.field_ref ≡ field_ref
      → Post
          (λ files u. All IsPlain files)
          (λ e u. Unit {0})
          (files_of P single_field strategy obj w)
  unfolding files_of
  single_field-IsPlain strategy none obj w e = rw e tt
  single_field-IsPlain strategy (some ref) obj w e = rw e (
      any-bind (lift (data_of P (text "resource does not have data fields: ") obj)) _ w _ _
        (λ e' t. tt) (λ entries t h. single_file-IsPlain strategy ref entries t))

  files_of-IsPlain :
      (t : OutputType) (strategy : OutputStrategy) (obj : P.Object) (w : P.World)
      → Post (λ files u. All IsPlain files) (λ e u. Unit {0}) (files_of P t strategy obj w)
  unfolding files_of dump_files
  files_of-IsPlain dump strategy obj w =
      any-bind (wrapped (text "failed to marshal resource to YAML: ") (lift (P.marshal_yaml obj))) _
        w _ _ (λ e t. tt) (λ content t h. (refl, tt))
  files_of-IsPlain fields strategy obj w =
      any-bind
        (lift (data_of P (text "resource does not have data fields or failed to extract: ") obj)) _
        w _ _ (λ e t. tt) (λ entries t h. field_files-IsPlain strategy.path entries)
  files_of-IsPlain single_field strategy obj w = single_field-IsPlain strategy _ obj w refl
  files_of-IsPlain (other_type t) strategy obj w = tt

  -- Whatever its strategy, a resource gives files without a write mode.
  pub process_resource_ref-IsPlain :
      (ref : ResourceRef) (namespace : Text) (w : P.World)
      → Post
          (λ files u. All IsPlain files)
          (λ e u. Unit {0})
          (process_resource_ref P ref namespace w)
  unfolding process_resource_ref
  process_resource_ref-IsPlain ref namespace w =
      any-bind (fetch_resource P ref namespace) _ w _ _ (λ e t. tt)
        (λ obj u h. files_of-IsPlain ref.strategy.kind ref.strategy obj u)
