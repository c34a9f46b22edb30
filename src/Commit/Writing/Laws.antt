-- ===== src/Commit/Writing/Laws.antt =====
-- What is written for a referenced resource.
use git_change_operator.Base.{Text, ◌≡◌, refl, List, [], ◌∷◌, All}
use git_change_operator.Effects.{ok}
use git_change_operator.Effects.Rules.{Post, Post-map}
use git_change_operator.Api.Files.{File, ResourceRef}
use git_change_operator.Platform.{Platform}
use git_change_operator.Commit.Resources.{process_resource_ref}
use git_change_operator.Commit.Resources.Laws.{IsPlain, process_resource_ref-IsPlain}
use git_change_operator.Commit.Writing.{resource_content}

All-map :
    {A : Type 0} {B C : A → Type 0} (xs : List A) → ((a : A) → B a → C a) → All B xs → All C xs
All-map [] f h = tt
All-map (x ∷ xs) f h = (f x h.0, All-map xs f h.1)

module _ (P : Platform) where
  -- The new content takes the place of the old, which is not read.
  abbrev pub IsReplacing : File → Type 0
  IsReplacing f = (root : Text) (w : P.World) → resource_content P root f w ≡ (ok f.content, w)

  plain-IsReplacing : (f : File) → IsPlain f → IsReplacing f
  unfolding resource_content
  plain-IsReplacing f e root w = rw e refl

  -- Whatever write mode its strategy asks for, `append` included: each file that a resource reference
  -- gives is written with its new content alone, in whatever directory and world, and what stands at its
  -- path is not read.
  pub process_resource_ref-IsReplacing :
      (ref : ResourceRef) (namespace : Text) (w : P.World)
      → Post
          (λ files u. All IsReplacing files)
          (λ e u. Unit {0})
          (process_resource_ref P ref namespace w)
  process_resource_ref-IsReplacing ref namespace w =
      Post-map (process_resource_ref P ref namespace w) (λ files u. All IsPlain files) _ _
        (λ files u h. All-map files plain-IsReplacing h)
        (process_resource_ref-IsPlain P ref namespace w)
