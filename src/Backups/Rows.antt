-- ===== src/Backups/Rows.antt =====
-- The rows of a backup in the tables, after `insertTree` and `restoreRecords` of internal/features/exports/restore/postgres.go.
use family_tree_app.Prelude.{
  ℕ, ◌≡◌, ◌≢◌, ◌⊎◌, inl, inr, false, none, some, [], ◌∷◌, ◌++◌, Text, codes, text_eq, text_eq-eq,
  or_keep, map, In, Bool-cases,
}
use family_tree_app.Backups.Manifest.{Manifest, MediaAsset, MediaVariant}
use family_tree_app.Backups.Records.{Tables, MediaRow}
use family_tree_app.Jobs.Queue.{Job}
use family_tree_app.Jobs.Enqueue.{stored_key}

-- What becomes of the state of an asset: an upload that was not finished is rejected, and one that was not processed
-- is processed again.
pub record IsStateOf (a : MediaAsset) (now : ℕ) (row : MediaRow) : Type 0 where
  pub pending :
      a.status ≡ codes "pending"
      → (row.asset.status ≡ codes "rejected")
        × (row.asset.processed_at ≡ some now)
        × (row.processing_error ≡ codes "incomplete upload was not restored")
  pub waiting :
      (a.status ≡ codes "processing") ⊎ (a.status ≡ codes "uploaded")
      → (row.asset.status ≡ codes "uploaded")
        × (row.asset.processed_at ≡ none)
        × (row.processing_error ≡ [])
  pub rejected :
      a.status ≡ codes "rejected"
      → (row.asset.status ≡ codes "rejected")
        × (row.asset.processed_at ≡ some (or_keep a.processed_at now))
        × (row.processing_error ≡ codes "rejected media restored without processing details")
  pub other :
      a.status ≢ codes "pending"
      → a.status ≢ codes "processing"
      → a.status ≢ codes "uploaded"
      → a.status ≢ codes "rejected"
      → (row.asset.status ≡ a.status)
        × (row.asset.processed_at ≡ a.processed_at)
        × (row.processing_error ≡ [])

pub text_eq-other : (s t : Text) → s ≢ t → text_eq s t ≡ false
text_eq-other s t h = elim (Bool-cases (text_eq s t)) [
  | inl e ↦ absurd (h (text_eq-eq s t e))
  | inr e ↦ e
]

module _ (uuid_string : ℕ → Text) (canonical_json : Text → Text) (now : ℕ) (m : Manifest) where
  abbrev pub process_payload : MediaAsset → Text
  process_payload a =
      codes "{\"tree_id\":\""
      ++ uuid_string (m.tree).id
      ++ codes "\",\"media_id\":\""
      ++ uuid_string a.id
      ++ codes "\"}"

  -- A job that processes the asset.
  pub record IsProcessing (a : MediaAsset) (j : Job) : Type 0 where
    pub kind : j.kind ≡ codes "media.process"
    pub key : j.deduplication_key ≡ stored_key (uuid_string a.id)
    pub payload : canonical_json j.payload ≡ canonical_json (process_payload a)
    pub attempts : j.max_attempts ≡ 5

  -- The tables after a restoration: each row of the backup stands in them, under the identifier of the tree, beside the rows
  -- that there were.
  pub record IsWritten (before after : Tables) : Type 0 where
    pub trees : after.trees ≡ m.tree ∷ before.trees
    pub members : after.members ≡ before.members ++ map (λ x. ((m.tree).id, x)) m.members
    pub persons : after.persons ≡ before.persons ++ map (λ x. ((m.tree).id, x)) m.persons
    pub person_names :
        after.person_names ≡ before.person_names ++ map (λ x. ((m.tree).id, x)) m.person_names
    pub relations :
        after.relations ≡ before.relations ++ map (λ x. ((m.tree).id, x)) m.parent_child_relations
    pub unions : after.unions ≡ before.unions ++ map (λ x. ((m.tree).id, x)) m.unions
    pub union_members :
        after.union_members ≡ before.union_members ++ map (λ x. ((m.tree).id, x)) m.union_members
    pub old_media : (r : ℕ × MediaRow) → In r before.media_assets → In r after.media_assets
    pub media_assets :
        (a : MediaAsset)
        → In a m.media_assets
        → (row : MediaRow) × In ((m.tree).id, row) after.media_assets
          × (row.object_key
              ≡ codes "trees/"
                ++ (uuid_string (m.tree).id
                    ++ (codes "/media/" ++ (uuid_string a.id ++ codes "/original"))))
          × (record row.asset { status = a.status; processed_at = a.processed_at } ≡ a)
          × IsStateOf a now row
    pub media_variants :
        after.media_variants
        ≡ before.media_variants
          ++ map
              (λ (v : MediaVariant). (
                (m.tree).id,
                record {
                  variant = v;
                  object_key =
                      codes "trees/"
                      ++ (uuid_string (m.tree).id
                          ++ (codes "/media/"
                              ++ (uuid_string v.media_id
                                  ++ (codes "/variants/" ++ (v.kind ++ codes ".jpg")))));
                },
              ))
              m.media_variants
    pub person_media :
        after.person_media ≡ before.person_media ++ map (λ x. ((m.tree).id, x)) m.person_media
    pub old_jobs : (j : Job) → In j before.jobs → In j after.jobs
    pub jobs :
        (a : MediaAsset)
        → In a m.media_assets
        → (a.status ≡ codes "processing") ⊎ (a.status ≡ codes "uploaded")
        → (j : Job) × In j after.jobs × IsProcessing a j
    pub audited : after.restored ≡ ((m.tree).id, (m.export_metadata).id) ∷ before.restored
