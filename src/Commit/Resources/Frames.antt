-- ===== src/Commit/Resources/Frames.antt =====
-- What the files of a resource touch of the world.
use git_change_operator.Base.{Text, Option-cases, inl, inr}
use git_change_operator.Effects.Moves.{Moves, Moves-raise, keeps_rules}
use git_change_operator.Api.Files.{
  ResourceRef, OutputStrategy, OutputType, dump, fields, single_field, other_type,
}
use git_change_operator.Platform.{Platform}
use git_change_operator.Platform.Frames.{IsWorkFrame}
use git_change_operator.Commit.Resources.{
  fetch_resource, dump_files, files_of, process_resource_ref,
}

module _ (P : Platform) (I : P.World → Type 0) (F : IsWorkFrame P I) where
  fetch_resource-Moves :
      (ref : ResourceRef) (namespace : Text) → Moves I I (fetch_resource P ref namespace)
  unfolding fetch_resource
  fetch_resource-Moves ref namespace = search (keeps_rules, F.get_object) depth 20

  files_of-Moves :
      (t : OutputType) (strategy : OutputStrategy) (obj : P.Object)
      → Moves I I (files_of P t strategy obj)
  unfolding files_of dump_files
  files_of-Moves dump strategy obj = search keeps_rules depth 20
  files_of-Moves fields strategy obj = search keeps_rules depth 20
  files_of-Moves single_field strategy obj = elim (Option-cases strategy.field_ref) [
    | inl e ↦ rw e (Moves-raise _)
    | inr (ref, e) ↦ rw e (search keeps_rules depth 20)
  ]
  files_of-Moves (other_type t) strategy obj = Moves-raise _

  pub process_resource_ref-Moves :
      (ref : ResourceRef) (namespace : Text) → Moves I I (process_resource_ref P ref namespace)
  unfolding process_resource_ref
  process_resource_ref-Moves ref namespace =
      search (keeps_rules, fetch_resource-Moves, files_of-Moves) depth 20
