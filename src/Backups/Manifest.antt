-- ===== src/Backups/Manifest.antt =====
-- internal/features/exports/manifest/manifest.go: what a backup holds of a tree.
use family_tree_app.Prelude.{ℕ, Bool, Option, List, Text}

pub record Schema : Type 0 where
  pub name : Text
  pub version : ℕ

pub record ExportMetadata : Type 0 where
  pub id : ℕ
  pub format : Text
  pub requested_by : ℕ
  pub created_at : ℕ

pub record Tree : Type 0 where
  pub id : ℕ
  pub name : Text
  pub description : Text
  pub owner_user_id : ℕ
  pub root_person_id : Option ℕ
  pub cover_media_id : Option ℕ
  pub privacy : Text
  pub locale : Text
  pub timezone : Text
  pub created_at : ℕ
  pub updated_at : ℕ
  pub deleted_at : Option ℕ
  pub version : ℕ

pub record TreeMember : Type 0 where
  pub user_id : ℕ
  pub role : Text
  pub status : Text
  pub invited_by : Option ℕ
  pub created_at : ℕ
  pub accepted_at : Option ℕ

pub record Person : Type 0 where
  pub id : ℕ
  pub sex : Text
  pub life_status : Text
  pub biography : Text
  pub notes : Text
  pub primary_media_id : Option ℕ
  pub privacy_level : Text
  pub created_by : ℕ
  pub updated_by : ℕ
  pub created_at : ℕ
  pub updated_at : ℕ
  pub deleted_at : Option ℕ
  pub version : ℕ

pub record PersonName : Type 0 where
  pub id : ℕ
  pub person_id : ℕ
  pub name_type : Text
  pub given_name : Text
  pub patronymic : Text
  pub family_name : Text
  pub prefix : Text
  pub suffix : Text
  pub full_text : Text
  pub is_preferred : Bool
  pub language_code : Text
  pub created_at : ℕ
  pub updated_at : ℕ

pub record ParentChildRelation : Type 0 where
  pub id : ℕ
  pub parent_person_id : ℕ
  pub child_person_id : ℕ
  pub relation_type : Text
  pub confidence : Text
  pub note : Text
  pub created_by : ℕ
  pub created_at : ℕ
  pub updated_at : ℕ
  pub deleted_at : Option ℕ
  pub version : ℕ

pub record FamilyUnion : Type 0 where
  pub id : ℕ
  pub union_type : Text
  pub end_reason : Text
  pub note : Text
  pub created_by : ℕ
  pub updated_by : ℕ
  pub created_at : ℕ
  pub updated_at : ℕ
  pub deleted_at : Option ℕ
  pub version : ℕ

pub record UnionMember : Type 0 where
  pub union_id : ℕ
  pub person_id : ℕ
  pub role : Text
  pub created_at : ℕ

pub record MediaAsset : Type 0 where
  pub id : ℕ
  pub kind : Text
  pub status : Text
  pub original_filename : Text
  pub mime_type : Text
  pub size_bytes : ℕ
  pub checksum : Text
  pub width : Option ℕ
  pub height : Option ℕ
  pub caption : Text
  pub description : Text
  pub uploaded_by : ℕ
  pub uploaded_at : Option ℕ
  pub created_at : ℕ
  pub updated_at : ℕ
  pub deleted_at : Option ℕ
  pub processed_at : Option ℕ
  pub version : ℕ
  pub archive_path : Text

pub record MediaVariant : Type 0 where
  pub id : ℕ
  pub media_id : ℕ
  pub kind : Text
  pub mime_type : Text
  pub size_bytes : ℕ
  pub checksum : Text
  pub width : ℕ
  pub height : ℕ
  pub created_at : ℕ
  pub archive_path : Text

pub record PersonMediaAttachment : Type 0 where
  pub person_id : ℕ
  pub media_id : ℕ
  pub role : Text
  pub sort_order : ℕ
  pub created_by : ℕ
  pub created_at : ℕ

pub record SourceFile : Type 0 where
  pub media_id : ℕ
  pub variant_kind : Text
  pub archive_path : Text
  pub object_key : Text
  pub size_bytes : ℕ
  pub checksum : Text

pub record Manifest : Type 0 where
  pub schema : Schema
  pub export_metadata : ExportMetadata
  pub tree : Tree
  pub members : List TreeMember
  pub persons : List Person
  pub person_names : List PersonName
  pub parent_child_relations : List ParentChildRelation
  pub unions : List FamilyUnion
  pub union_members : List UnionMember
  pub media_assets : List MediaAsset
  pub media_variants : List MediaVariant
  pub person_media : List PersonMediaAttachment

pub record Snapshot : Type 0 where
  pub manifest : Manifest
  pub files : List SourceFile
