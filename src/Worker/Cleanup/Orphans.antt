-- ===== src/Worker/Cleanup/Orphans.antt =====
-- Which runs the clean-up of src/backend/worker/beat.py is not for.
use mathlib.Core.List.{Memᴰ}
use mathlib.Core.List.Memᴰ.{head, tail}
use crucible.Base.{
  ℕ, ◌+◌, ◌-◌, ◌≡◌, ◌≢◌, ◌≤◌, ◌⊎◌, refl, sym, ap, ◌∙◌, Bool, true, false, List, [], ◌∷◌, arith,
  filter, All, Bool-cases, inl, inr, count, ◌||◌, ◌==◌, ==_refl,
}
use crucible.Db.Run.{EvaluationRun, RunStatus, is_status}
use crucible.Db.Models.{World}
use crucible.Lifecycle.Unique.{IdsUnique}
use crucible.Api.Evaluation.{has_id}
use crucible.Db.Order.{All-take}
use crucible.Worker.Beat.{is_orphan, orphan_runs}

other_status :
    (s : RunStatus)
    → s ≢ RunStatus.failed
    → s ≢ RunStatus.cancelled
    → (is_status s RunStatus.failed || is_status s RunStatus.cancelled) ≡ false
other_status RunStatus.pending f c = refl
other_status RunStatus.running f c = refl
other_status RunStatus.completed f c = refl
other_status RunStatus.failed f c = absurd (f refl)
other_status RunStatus.cancelled f c = absurd (c refl)

module _ {F : Type 0} where
  -- a run that the clean-up is not for: it did not fail and was not cancelled, or it has a
  -- counted judgment, or it changed less than an hour ago
  unfoldable pub IsKept : (now : ℕ) → EvaluationRun F → Type 0
  IsKept now r =
      ((r.status ≢ RunStatus.failed) × (r.status ≢ RunStatus.cancelled))
      ⊎ ((1 ≤ r.total_scenarios) ⊎ (now ≤ r.updated_at + 3600))

  IsKept-is_orphan :
      (now : ℕ) (r : EvaluationRun F) → IsKept now r → is_orphan (now - 3600) r ≡ false
  unfolding IsKept
  IsKept-is_orphan now r (inl (f, c)) =
      let other = other_status r.status f c in ground (arith, other)
  IsKept-is_orphan now r (inr (inl counted)) = ground arith
  IsKept-is_orphan now r (inr (inr recent)) = ground arith

  none_has_id :
      (i : ℕ) (r : EvaluationRun F) (xs : List (EvaluationRun F))
      → count (has_id i) xs ≡ 0
      → All (λ o. o.id ≡ i → o ≡ r) xs
  none_has_id i r [] h = tt
  none_has_id i r (x ∷ xs) h = (λ e. absurd (ground arith), none_has_id i r xs (ground arith))

  has_id_row :
      (r : EvaluationRun F) (xs : List (EvaluationRun F)) → Memᴰ r xs → 1 ≤ count (has_id r.id) xs
  has_id_row r [] m = elim m [ ]
  has_id_row r (x ∷ xs) (head e) =
      let hit : (x.id == r.id) ≡ true =
        ap (λ (o : EvaluationRun F). o.id == r.id) (sym e) ∙ ==_refl r.id in
      ground (arith, hit)
  has_id_row r (x ∷ xs) (tail m) = ground (arith, has_id_row r xs m)

  only_row :
      (r : EvaluationRun F) (xs : List (EvaluationRun F))
      → count (has_id r.id) xs ≤ 1
      → Memᴰ r xs
      → All (λ o. o.id ≡ r.id → o ≡ r) xs
  only_row r [] h m = elim m [ ]
  only_row r (x ∷ xs) h (head e) =
      let hit : (x.id == r.id) ≡ true =
        ap (λ (o : EvaluationRun F). o.id == r.id) (sym e) ∙ ==_refl r.id in
      (λ _. sym e, none_has_id r.id r xs (ground (arith, hit)))
  only_row r (x ∷ xs) h (tail m) =
      let row = has_id_row r xs m in
      (λ e. absurd (ground (arith, row)), only_row r xs (ground arith) m)

  apart :
      (p : EvaluationRun F → Bool) (r : EvaluationRun F) (xs : List (EvaluationRun F))
      → p r ≡ false
      → All (λ o. o.id ≡ r.id → o ≡ r) xs
      → All (λ o. o.id ≢ r.id) (filter p xs)
  apart p r [] h k = tt
  apart p r (x ∷ xs) h (k, ks) = elim (Bool-cases (p x)) [
    | inl pass ↦
        rw pass (λ e. let same = ap p (k e) in absurd (ground (arith, same)), apart p r xs h ks)
    | inr fail ↦ rw fail (apart p r xs h ks)
  ]

  -- the orphan runs have other identifiers
  pub orphans_apart :
      (now : ℕ) (w : World F) (r : EvaluationRun F)
      → IdsUnique w.runs
      → Memᴰ r w.runs
      → IsKept now r
      → All (λ o. o.id ≢ r.id) (orphan_runs now w)
  unfolding orphan_runs
  orphans_apart now w r unique row kept =
      All-take (λ o. o.id ≢ r.id) 10 _
        (apart (is_orphan (now - 3600)) r w.runs (IsKept-is_orphan now r kept)
          (only_row r w.runs (unique r.id) row))
