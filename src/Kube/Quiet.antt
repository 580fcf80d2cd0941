-- ===== src/Kube/Quiet.antt =====
-- Computations that make no call of a given sort, one rule for each way to build a computation.
use vedro.Prelude.{
  ℕ, suc, ◌≡◌, refl, ◌∙◌, Bool, true, false, not, ◌&&◌, Option, [], ◌∷◌, arith, if◌then◌else◌,
}
use vedro.Errors.{Error}
use vedro.Kube.Events.{Event, History, M, ◌>>=◌, pure}
use vedro.Kube.Environment.{Env, Attempts, last, again, RetriesConflicts}

-- How many events of a history are of the sort `p`.
unfoldable pub count : (Event → Bool) → History → ℕ
count p [] = 0
count p (e ∷ h) = if p e then suc (count p h) else count p h

-- `m` adds no event of the sort `p`.
pub record Quiet {A : Type 0} (p : Event → Bool) (m : M A) : Type 0 where
  pub at : (h : History) → count p (m h).1 ≡ count p h

pub count-cons :
    (p : Event → Bool) (e : Event) (h : History) → p e ≡ false → count p (e ∷ h) ≡ count p h
unfolding count
count-cons p e h q = ground arith

module _ {A : Type 0} {p : Event → Bool} where
  pub Quiet-pure : (a : A) → Quiet p (pure a)
  Quiet-pure a = record { at = λ h. refl }

  pub Quiet-if :
      (b : Bool) (m n : M A)
      → (b ≡ true → Quiet p m)
      → (b ≡ false → Quiet p n)
      → Quiet p (if b then m else n)
  Quiet-if true m n qm qn = qm refl
  Quiet-if false m n qm qn = qn refl

module _ {A B : Type 0} {p : Event → Bool} where
  pub Quiet-bind :
      (m : M A) (f : A → M B) → Quiet p m → ((a : A) → Quiet p (f a)) → Quiet p (m >>= f)
  Quiet-bind m f qm qf = record { at = λ h. let (a, h') = m h in (qf a).at h' ∙ qm.at h }

-- A retried computation is quiet if a run of it is.
module _ {p : Event → Bool} (m : M (Option Error)) (q : Quiet p m) where
  Quiet-Attempts :
      (r : Option Error × History) {h : History} → Attempts m r h → count p r.1 ≡ count p h
  Quiet-Attempts r (last {h = h} e) = rw e (q.at h)
  Quiet-Attempts r (again {h = h} e failed c rest) = Quiet-Attempts r rest ∙ q.at h

  pub Quiet-retry : (env : Env) → RetriesConflicts env → Quiet p (env.retry_on_conflict m)
  Quiet-retry env retries = record { at = λ h. Quiet-Attempts _ (retries m h) }

-- The calls that are expected from `h` on when a gate stands open or not.
abbrev pub once_if : (Event → Bool) → Bool → History → ℕ
once_if p open_gate h = if open_gate then suc (count p h) else count p h

-- A gate in front of a computation that makes one call of the sort `p` if the gates behind it stand
-- open.
pub count-gate :
    {A : Type 0} (p : Event → Bool) (b g : Bool) (blocked rest : M A) (h : History)
    → Quiet p blocked
    → count p (rest h).1 ≡ once_if p g h
    → count p ((if not b then blocked else rest) h).1 ≡ once_if p (b && g) h
count-gate p true g blocked rest h q e = e
count-gate p false g blocked rest h q e = q.at h
