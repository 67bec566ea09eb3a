-- ===== src/ExportJobs/Marks.antt =====
-- Every statement of the requests and of the worker on the table of exports is a change of its rows that
-- goes row by row, or a row more.
use family_tree_app.Prelude.{ℕ, ◌≡◌, refl, inl, inr, true, Text, arith}
use family_tree_app.ExportJobs.Domain.{Export, is_expired}
use family_tree_app.ExportJobs.Requests.{expire}
use family_tree_app.ExportJobs.Steps.{
  Completion, is_queued, is_running, start_generation, complete, record_failure, clear_result,
}
use family_tree_app.ExportJobs.Generator.{result_object_key}
use family_tree_app.ExportJobs.Rows.{is_unfinished, RowStep}

-- No row of the worker's has a key that is new, but for the completion.
abbrev pub NoKey : Text → Type 0
NoKey key = ⊥

module _ (uuid_string : ℕ → Text) where
  pub expire-RowStep : (now : ℕ) (e : Export) → RowStep uuid_string NoKey e (expire now e)
  unfolding expire is_unfinished
  expire-RowStep now e = record {
    continues = record {
      same_id = refl;
      same_tree = refl;
      same_format = refl;
      was_queued = λ h. cc;
      was_unfinished = λ h. cc;
      stays_expired = λ h. refl;
    };
    keyed = λ h. h;
    was_completed = λ h. absurd (ground (arith, h));
  }

  pub failure-RowStep :
      (code : Text) (now : ℕ) (e : Export)
      → is_unfinished e ≡ true
      → RowStep uuid_string NoKey e (record_failure code now e)
  unfolding record_failure is_unfinished
  failure-RowStep code now e u = record {
    continues = record {
      same_id = refl;
      same_tree = refl;
      same_format = refl;
      was_queued = λ h. cc;
      was_unfinished = λ h. u;
      stays_expired = λ h. ground arith;
    };
    keyed = λ h. h;
    was_completed = λ h. absurd (ground (arith, h));
  }

  pub start-RowStep :
      (now : ℕ) (e : Export)
      → is_queued e.status ≡ true
      → RowStep uuid_string NoKey e (start_generation now e)
  unfolding start_generation is_unfinished
  start-RowStep now e q = record {
    continues = record {
      same_id = refl;
      same_tree = refl;
      same_format = refl;
      was_queued = λ h. q;
      was_unfinished = λ h. ground arith;
      stays_expired = λ h. ground arith;
    };
    keyed = λ h. h;
    was_completed = λ h. absurd (ground (arith, h));
  }

  pub clear-RowStep :
      (now : ℕ) (e : Export)
      → is_expired e.status ≡ true
      → RowStep uuid_string NoKey e (clear_result now e)
  unfolding clear_result is_unfinished
  clear-RowStep now e q = record {
    continues = record {
      same_id = refl;
      same_tree = refl;
      same_format = refl;
      was_queued = λ h. h;
      was_unfinished = λ h. h;
      stays_expired = λ h. h;
    };
    keyed = λ h. inl refl;
    was_completed = λ h. absurd (ground arith);
  }

  pub complete-RowStep :
      (c : Completion) (now : ℕ) (e : Export)
      → is_running e.status ≡ true
      → c.object_key ≡ result_object_key uuid_string e.tree_id e.id e.format c.checksum
      → RowStep uuid_string (λ key. key ≡ c.object_key) e (complete c now e)
  unfolding complete is_unfinished
  complete-RowStep c now e q k = record {
    continues = record {
      same_id = refl;
      same_tree = refl;
      same_format = refl;
      was_queued = λ h. cc;
      was_unfinished = λ h. cc;
      stays_expired = λ h. ground arith;
    };
    keyed = λ h. inr k;
    was_completed = λ h. inr refl;
  }
