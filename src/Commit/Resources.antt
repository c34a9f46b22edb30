-- ===== src/Commit/Resources.antt =====
-- `fetchResource` and `processResourceRef`: the files that a referenced resource gives.
pub mod Laws
pub mod Frames
use git_change_operator.Base.{Text, text, false, Option, none, some, List, [], ◌∷◌, ◌++◌, map}
use git_change_operator.Base.{if◌then◌else◌, is_nil, lookup, cut, trim_suffix}
use git_change_operator.Base.Paths.{slash}
use git_change_operator.Effects.{
  Error, other, Result, ok, err, Exec, lift, wrapped, pure, raise, ◌>>=◌,
}
use git_change_operator.Effects.{error_text}
use git_change_operator.Api.Files.{
  File, ResourceRef, OutputStrategy, FieldRef, WriteMode, other_mode,
}
use git_change_operator.Api.Files.{
  append, overwrite, dump, fields, single_field, other_type, OutputType,
}
use git_change_operator.Platform.{Platform, GroupVersionKind}

-- `group/version`, or a version alone, whose group is empty.
unfoldable pub parse_api_version : Text → Text → GroupVersionKind
parse_api_version api_version kind = elim (cut slash api_version) [
  | some (group, version) ↦ record { group = group; version = version; kind = kind }
  | none ↦ record { group = []; version = api_version; kind = kind }
]

-- A file of the zero value but for its path and content: no write mode is set.
abbrev pub new_file : Text → Text → File
new_file path content = record {
  path = path;
  content = content;
  use_rest_api_data = false;
  rest_api_name = [];
  rest_api_delimiter = [];
  write_mode = other_mode [];
}

-- `fmt.Sprintf("%s/%s", strings.TrimSuffix(path, "/"), name)`
abbrev pub under : Text → Text → Text
under path name = trim_suffix path (slash ∷ []) ++ (slash ∷ name)

-- Where the value of one field goes.
unfoldable pub single_field_path : OutputStrategy → FieldRef → WriteMode → Text
single_field_path strategy ref append = strategy.path
single_field_path strategy ref _ =
    under strategy.path (if is_nil ref.file_name then ref.key else ref.file_name)

module _ (P : Platform) where
  open P use {World, Object, Value, get_object, nested_map, marshal_yaml, show_value}

  unfoldable pub fetch_resource : ResourceRef → Text → Exec World Object
  unfolding parse_api_version
  fetch_resource ref namespace =
      wrapped (text "failed to fetch resource " ++ (ref.kind ++ (slash ∷ ref.name ++ text ": "))) (
        get_object (parse_api_version ref.api_version ref.kind)
          (if is_nil ref.namespace then namespace else ref.namespace) ref.name)

  -- `NestedMap(obj.Object, "data")`, an absent map being an error. Where `err` is nil, `%w` prints so.
  data_of : Text → Object → Result (List (Text × Value))
  data_of complaint obj = elim (nested_map obj (text "data")) [
    | ok (some m) ↦ ok m
    | ok none ↦ err (other (complaint ++ text "%!w(<nil>)"))
    | err e ↦ err (other (complaint ++ error_text e))
  ]

  field_files : Text → List (Text × Value) → List File
  field_files path entries =
      map (λ (key, value). new_file (under path key) (show_value value)) entries

  single_file : OutputStrategy → FieldRef → List (Text × Value) → Result (List File)
  single_file strategy ref entries = elim (lookup ref.key entries) [
    | none ↦ err (other (text "field " ++ (ref.key ++ text " not found in resource data")))
    | some v ↦
        ok (new_file (single_field_path strategy ref strategy.write_mode) (show_value v) ∷ [])
  ]

  dump_files : OutputStrategy → Object → Exec World (List File)
  dump_files strategy obj = do
    content ← wrapped (text "failed to marshal resource to YAML: ") (lift (marshal_yaml obj))
    pure (new_file strategy.path content ∷ [])

  -- The switch on the strategy's type.
  files_of : OutputType → OutputStrategy → Object → Exec World (List File)
  unfolding data_of field_files single_file dump_files single_field_path
  files_of dump strategy obj = dump_files strategy obj
  files_of fields strategy obj = do
    entries ← lift (data_of (text "resource does not have data fields or failed to extract: ") obj)
    pure (field_files strategy.path entries)
  files_of single_field strategy obj = elim strategy.field_ref [
    | none ↦ raise (other (text "fieldRef is required for single-field strategy"))
    | some ref ↦ do
      entries ← lift (data_of (text "resource does not have data fields: ") obj)
      lift (single_file strategy ref entries)
  ]
  files_of (other_type t) strategy obj =
      raise (other (text "unsupported output strategy type: " ++ t))

  unfoldable pub process_resource_ref : ResourceRef → Text → Exec World (List File)
  unfolding files_of
  process_resource_ref ref namespace = do
    obj ← fetch_resource ref namespace
    files_of ref.strategy.kind ref.strategy obj
