-- ===== src/Exports/Samples.antt =====
-- Payloads, families and generations, runs of the exports on them, and the theorems at these inputs.
use family_tree_app.Prelude.{
  ℕ, ◌≡◌, refl, inl, inr, some, List, [], ◌∷◌, ◌++◌, map, Text, codes, text_functions, select,
  flat_map, any, All, ok, err,
}
use family_tree_app.Exports.Texts.{
  starts_with, replace_crlf, replace_cr, is_control, is_kept, clean_text,
}
use family_tree_app.Exports.Lines.{
  split_lines, escape_line_string, decimal, decimal_from, payload_part, first_line, continuation,
  terminated, line, IsOneLine, line_is_one_structure,
}
use family_tree_app.Exports.Families.{parent_chunks, partner_pairs}
use family_tree_app.Exports.Alignment.{
  Ranks, set_rank, max_rank, raise_member, raise_members, align_unions, lower_child, lower_children,
  align_round, align_from, align_union_ranks, export_source_invalid,
}
use family_tree_app.Exports.Generations.{
  IsAligned, child, align_union_ranks-IsAligned, align_union_ranks_conflict,
}

program : Unit {0}
unfolding starts_with replace_crlf replace_cr is_control is_kept clean_text split_lines
    escape_line_string decimal decimal_from payload_part first_line continuation line select
    flat_map any text_functions
program = tt

-- A note that tries to begin a structure of its own.
abbrev note : Text
note = codes "@born" ++ (13 ∷ 10 ∷ codes "0 TRLR")

line_run :
    line 1 [] (codes "NOTE") note
    ≡ codes "1 NOTE @@born" ++ (13 ∷ 10 ∷ (codes "2 CONT 0 TRLR" ++ (13 ∷ 10 ∷ [])))
unfolding program
line_run = refl

note_tag : IsOneLine (codes "NOTE")
unfolding program
note_tag = refl

no_reference : IsOneLine []
unfolding program
no_reference = refl

line_is_one_structure_example :
    (first : Text) × (rest : List Text) × (line 1 [] (codes "NOTE") note
      ≡ terminated (first_line 1 [] (codes "NOTE") first)
        ++ flat_map terminated (map (continuation 1) rest))
    × IsOneLine (first_line 1 [] (codes "NOTE") first)
    × All IsOneLine (map (continuation 1) rest)
line_is_one_structure_example = line_is_one_structure 1 [] (codes "NOTE") note no_reference note_tag

chunks_run : parent_chunks (1 ∷ 2 ∷ 3 ∷ []) ≡ (1 ∷ 2 ∷ []) ∷ (3 ∷ []) ∷ []
unfolding parent_chunks
chunks_run = refl

pairs_run : partner_pairs (1 ∷ 2 ∷ 3 ∷ []) ≡ some ((1 ∷ 2 ∷ []) ∷ (1 ∷ 3 ∷ []) ∷ [])
unfolding partner_pairs
pairs_run = refl

rank_program : Unit {0}
unfolding set_rank max_rank raise_member raise_members align_unions lower_child lower_children
    align_round align_from align_union_ranks
rank_program = tt

-- 1 is a parent of 2, and 2 and 3 are a couple.
abbrev couple : List (List ℕ)
couple = (2 ∷ 3 ∷ []) ∷ []

abbrev links : List (ℕ × ℕ)
links = (1, 2) ∷ []

abbrev ground_level : Ranks
ground_level _ = 0

abbrev settled : Ranks
unfolding rank_program
settled = set_rank (set_rank ground_level 2 1) 3 1

align_run : align_union_ranks couple links 3 ground_level ≡ ok settled
unfolding rank_program
align_run = refl

align_union_ranks-IsAligned_example : IsAligned couple links settled
align_union_ranks-IsAligned_example =
    align_union_ranks-IsAligned couple links 3 ground_level align_run

-- A parent and a child in one union.
align_union_ranks_conflict_example :
    align_union_ranks ((1 ∷ 2 ∷ []) ∷ []) links 2 ground_level ≡ err export_source_invalid
align_union_ranks_conflict_example =
    align_union_ranks_conflict ((1 ∷ 2 ∷ []) ∷ []) links 2 ground_level (1 ∷ 2 ∷ []) 1 2 (inl refl)
      (inl refl) (inr (inl refl)) (child 2 (inl refl))
