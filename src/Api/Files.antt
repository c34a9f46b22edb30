-- ===== src/Api/Files.antt =====
-- api/v1/gitcommit_types.go: files, references to resources, and encryption.
use git_change_operator.Base.{Text, Bool, Option, List}

pub data WriteMode : Type 0 where
  overwrite append : WriteMode
  other_mode : Text → WriteMode

pub record File : Type 0 where
  pub path : Text
  pub content : Text
  pub use_rest_api_data : Bool
  pub rest_api_name : Text
  pub rest_api_delimiter : Text
  pub write_mode : WriteMode

pub record FieldRef : Type 0 where
  pub key : Text
  pub file_name : Text

pub data OutputType : Type 0 where
  dump fields single_field : OutputType
  other_type : Text → OutputType

-- The strategy's `Type` is `kind` here.
pub record OutputStrategy : Type 0 where
  pub kind : OutputType
  pub path : Text
  pub write_mode : WriteMode
  pub field_ref : Option FieldRef

pub record ResourceRef : Type 0 where
  pub api_version : Text
  pub kind : Text
  pub name : Text
  pub namespace : Text
  pub strategy : OutputStrategy

pub record SecretRef : Type 0 where
  pub name : Text
  pub key : Text

pub data RecipientType : Type 0 where
  age ssh passphrase yubikey : RecipientType
  other_recipient : Text → RecipientType

-- The recipient's `Type` is `kind` here.
pub record Recipient : Type 0 where
  pub kind : RecipientType
  pub value : Text
  pub secret_ref : Option SecretRef

pub record Encryption : Type 0 where
  pub enabled : Bool
  pub recipients : List Recipient
  pub file_extension : Text
