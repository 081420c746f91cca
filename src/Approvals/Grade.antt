-- ===== src/Approvals/Grade.antt =====
-- modules/approvals/grade.ts: the grade ladder.
use booking_system.Base.{
  ℕ, suc, ◌*◌, Bool, true, List, [], ◌∷◌, Text, codes, text_eq, if◌then◌else◌, leb, is_empty,
}

abbrev grades : List Text
grades =
    codes "SO"
    ∷ codes "SSO"
    ∷ codes "ADO"
    ∷ codes "DO"
    ∷ codes "SDO"
    ∷ codes "ADD"
    ∷ codes "DDGFS"
    ∷ codes "DGFS"
    ∷ []

-- `RANK[g] ?? 0`: ten times the place on the ladder, counted from one.
unfoldable pub rank_from : ℕ → List Text → Text → ℕ
rank_from i [] g = 0
rank_from i (x ∷ xs) g = if text_eq x g then i * 10 else rank_from (suc i) xs g

unfoldable pub rank : Text → ℕ
unfolding rank_from text_eq
rank g = rank_from 1 grades g

-- An absent grade is the empty text.
unfoldable pub grade_at_least : Text → Text → Bool
grade_at_least actual required =
    if is_empty required then true else leb (rank required) (rank actual)
