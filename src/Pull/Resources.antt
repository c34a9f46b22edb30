-- ===== src/Pull/Resources.antt =====
-- `fetchResource` and `processResourceRef` of the PullRequest controller: the files that a referenced
-- resource gives, as a map from paths to contents. Go meets the entries of a map in any order; here it
-- is the order in which the paths were first set.
pub mod Frames
use git_change_operator.Base.{Text, text, Option, none, some, List, [], ◌∷◌, ◌++◌}
use git_change_operator.Base.{if◌then◌else◌, is_nil, lookup, insert, to_lower}
use git_change_operator.Base.Paths.{join_path, dir}
use git_change_operator.Effects.{Error, other, Result, ok, err, Exec, lift, pure, raise, ◌>>=◌}
use git_change_operator.Api.Files.{ResourceRef, OutputStrategy, FieldRef, OutputType}
use git_change_operator.Api.Files.{dump, fields, single_field, other_type}
use git_change_operator.Platform.{Platform, GroupVersionKind}

-- The strategy's path, or one made of the kind and the name.
unfoldable pub base_path : OutputStrategy → ResourceRef → Text
base_path strategy ref =
    if is_nil strategy.path then to_lower ref.kind ++ (b'-' ∷ ref.name) else strategy.path

-- Where the value of one field goes: a file name takes the place of the last element of the path.
unfoldable pub single_field_path : Text → FieldRef → Text
single_field_path path ref =
    if is_nil ref.file_name then path else join_path (dir path) ref.file_name

module _ (P : Platform) where
  open P use {World, Object, Value, get_object, marshal_yaml}
  open P use {parse_group_version, object_field, as_map, as_string, marshal_value}

  unfoldable pub fetch_resource : ResourceRef → Text → Exec World Object
  fetch_resource ref namespace = do
    (group, version) ← lift (parse_group_version ref.api_version)
    get_object (record { group = group; version = version; kind = ref.kind })
        (if is_nil ref.namespace then namespace else ref.namespace) ref.name

  -- A string as it is, any other value in YAML.
  value_content : Value → Result Text
  value_content v = elim (as_string v) [ some s ↦ ok s | none ↦ marshal_value v ]

  -- `resource.Object["data"].(map[string]interface{})`
  data_of : Object → Option (List (Text × Value))
  data_of obj = elim (object_field obj (text "data")) [ some v ↦ as_map v | none ↦ none ]

  -- The loop over the data, which sets one path after another.
  field_files : Text → List (Text × Value) → List (Text × Text) → Result (List (Text × Text))
  field_files path [] files = ok files
  field_files path ((key, v) ∷ entries) files = elim (value_content v) [
    | err e ↦ err e
    | ok content ↦ field_files path entries (insert (join_path path key) content files)
  ]

  -- The field of the data where there is any, of the object itself where not.
  field_value : Object → Text → Option Value
  field_value obj key = elim (data_of obj) [
    | some entries ↦ lookup key entries
    | none ↦ object_field obj key
  ]

  single_file : Text → FieldRef → Option Value → Result (List (Text × Text))
  single_file path ref none =
      err (other (text "field " ++ (ref.key ++ text " not found in resource")))
  single_file path ref (some v) = elim (value_content v) [
    | err e ↦ err e
    | ok content ↦ ok ((single_field_path path ref, content) ∷ [])
  ]

  dump_file : Text → Object → Result (List (Text × Text))
  dump_file path obj = elim (marshal_yaml obj) [
    | err e ↦ err e
    | ok content ↦ ok ((path ++ text ".yaml", content) ∷ [])
  ]

  all_fields : Text → Option (List (Text × Value)) → Result (List (Text × Text))
  unfolding field_files
  all_fields path none =
      err (other (text "resource does not have a 'data' field suitable for fields extraction"))
  all_fields path (some entries) = field_files path entries []

  one_field : Text → Option FieldRef → Object → Result (List (Text × Text))
  one_field path none obj = err (other (text "fieldRef is required for single-field output type"))
  one_field path (some ref) obj = single_file path ref (field_value obj ref.key)

  -- The switch on the strategy's type.
  files_of : OutputType → Text → Option FieldRef → Object → Result (List (Text × Text))
  files_of dump path ref obj = dump_file path obj
  files_of fields path ref obj = all_fields path (data_of obj)
  files_of single_field path ref obj = one_field path ref obj
  files_of (other_type t) path ref obj = err (other (text "unsupported output type: " ++ t))

  unfoldable pub process_resource_ref : ResourceRef → Text → Exec World (List (Text × Text))
  unfolding files_of dump_file all_fields one_field single_file field_value data_of value_content
      field_files
  process_resource_ref ref namespace = do
    obj ← fetch_resource ref namespace
    lift (files_of ref.strategy.kind (base_path ref.strategy ref) ref.strategy.field_ref obj)
