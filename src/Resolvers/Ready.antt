-- ===== src/Resolvers/Ready.antt =====
-- When `isReady` of internal/resolvers/common.go answers yes, and what it answers otherwise.
use vedro.Prelude.{ℕ, true, ◌≡◌, ◌≢◌, refl, ◌↔◌, none, List, [], ◌∷◌, arith, eq_iff, All}
use vedro.Conditions.{Condition, condition_true}
use vedro.Resolvers.{is_ready, first_not_ready}

-- The condition holds for the present generation of the resource.
abbrev pub IsCurrent : ℕ → Condition → Type 0
IsCurrent gen c = (c.status ≡ condition_true) × (gen ≡ c.observed_generation)

first_not_ready-All :
    (gen : ℕ) (cs : List Condition) → All (IsCurrent gen) cs → first_not_ready gen cs ≡ (none, true)
unfolding first_not_ready
first_not_ready-All gen [] h = refl
first_not_ready-All gen (c ∷ cs) h =
    ground (arith, eq_iff c.status condition_true, first_not_ready-All gen cs h.1)

All-first_not_ready :
    (gen : ℕ) (cs : List Condition) → (first_not_ready gen cs).1 ≡ true → All (IsCurrent gen) cs
unfolding first_not_ready
All-first_not_ready gen [] h = tt
All-first_not_ready gen (c ∷ cs) h =
    ground (arith, eq_iff c.status condition_true, All-first_not_ready gen cs)

-- A resource is ready exactly when it has a condition and each of its conditions has status True
-- and was observed at the resource's own generation.
pub is_ready_iff :
    (gen : ℕ) (cs : List Condition)
    → ((is_ready gen cs).1 ≡ true) ↔ ((cs ≢ []) × All (IsCurrent gen) cs)
unfolding is_ready
is_ready_iff gen [] = (λ h. cc, λ h. absurd (h.0 refl))
is_ready_iff gen (c ∷ cs) = (
  λ h. (λ e. cc, All-first_not_ready gen (c ∷ cs) h),
  λ h. cc (first_not_ready-All gen (c ∷ cs) h.1),
)
