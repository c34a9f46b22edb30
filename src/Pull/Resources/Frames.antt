-- ===== src/Pull/Resources/Frames.antt =====
-- What the files of a resource touch of the world.
use git_change_operator.Base.{Text}
use git_change_operator.Effects.Moves.{Moves, keeps_rules}
use git_change_operator.Api.Files.{ResourceRef}
use git_change_operator.Platform.{Platform}
use git_change_operator.Platform.Frames.{IsWorkFrame}
use git_change_operator.Pull.Resources.{fetch_resource, process_resource_ref}

module _ (P : Platform) (I : P.World → Type 0) (F : IsWorkFrame P I) where
  fetch_resource-Moves :
      (ref : ResourceRef) (namespace : Text) → Moves I I (fetch_resource P ref namespace)
  unfolding fetch_resource
  fetch_resource-Moves ref namespace = search (keeps_rules, F.get_object) depth 20

  pub process_resource_ref-Moves :
      (ref : ResourceRef) (namespace : Text) → Moves I I (process_resource_ref P ref namespace)
  unfolding process_resource_ref
  process_resource_ref-Moves ref namespace = search (keeps_rules, fetch_resource-Moves) depth 20
