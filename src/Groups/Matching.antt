-- ===== src/Groups/Matching.antt =====
-- Which group `match_group` picks.
use group_assessment_agent.Base.{
  Text, ◌==◌, ◌≡◌, refl, Bool, true, Option, none, some, List, [], ◌∷◌, select, arith, ◌↔◌, ap,
}
use group_assessment_agent.Groups.{GroupSummary, matched, folded, by_name, match_group}

-- A group answers to a hint that is not empty by its name, up to case and outer white space.
pub answers : Option Text → GroupSummary → Bool
answers none g = true
answers (some []) g = true
answers (some (c ∷ cs)) g = folded g.name == folded (c ∷ cs)

select-true : {A : Type 0} (l : List A) → select (λ _. true) l ≡ l
select-true [] = refl
select-true (x ∷ xs) = ap (x ∷◌) (select-true xs)

-- A group is picked exactly when it is the only one of the sender's groups that answers to the hint.
pub matched-iff-only :
    (hint : Option Text) (gs : List GroupSummary) (g : GroupSummary)
    → (match_group hint gs ≡ matched g) ↔ (select (answers hint) gs ≡ g ∷ [])
unfolding match_group answers
matched-iff-only hint [] g = (λ h. absurd (ground arith), λ h. absurd (ground arith))
matched-iff-only none (x ∷ []) g = (λ h. ground arith, λ h. ground arith)
matched-iff-only none (x ∷ y ∷ more) g = (λ h. absurd (ground arith), λ h. absurd (ground (arith)))
matched-iff-only (some []) (x ∷ []) g = (λ h. ground arith, λ h. ground arith)
matched-iff-only (some []) (x ∷ y ∷ more) g =
    (λ h. absurd (ground arith), λ h. absurd (ground arith))
matched-iff-only (some (c ∷ cs)) (x ∷ xs) g =
    go (select (λ h. folded h.name == folded (c ∷ cs)) (x ∷ xs))
  where
    go : (l : List GroupSummary) → (by_name l ≡ matched g) ↔ (l ≡ g ∷ [])
    go [] = (λ h. absurd (ground arith), λ h. absurd (ground arith))
    go (y ∷ []) = (λ h. ground arith, λ h. ground arith)
    go (y ∷ z ∷ more) = (λ h. absurd (ground arith), λ h. absurd (ground arith))
