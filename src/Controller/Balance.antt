-- ===== src/Controller/Balance.antt =====
-- How many providers are made and cleaned up: the balance that the reconcilers keep.
use vedro.Prelude.{ℕ, ◌+◌, ◌≡◌, Bool, true, false, arith, Option, none, some, ◌∷◌, if◌then◌else◌}
use vedro.Errors.{Result, ok, err}
use vedro.Api.Meta.{ProviderConfigReference}
use vedro.Api.Provider.{ProviderConfig}
use vedro.Kube.{Resolver, resolve_config}
use vedro.Kube.Events.{Event, History, M, ◌>>=◌, pure, Provider, provider_new, provider_cleanup}
use vedro.Kube.Environment.{Env}
use vedro.Kube.Quiet.{count, Quiet}
use vedro.Controller.Finish.{Finish, with_cleanup}
use vedro.Controller.Setup.{
  ProviderSetup, ProviderSetupIssue, provider_made, prepare_resolved, prepare_provider,
}

-- A provider was made; `Cleanup` was called.
abbrev pub made : Event → Bool
made (provider_new c (ok p)) = true
made _ = false

abbrev pub cleans : Event → Bool
cleans (provider_cleanup a) = true
cleans _ = false

-- As many providers were cleaned up as made.
abbrev pub IsBalanced : History → Type 0
IsBalanced h = count made h ≡ count cleans h

-- `m` keeps the balance.
pub record Balances {A : Type 0} (m : M A) : Type 0 where
  pub at : (h : History) → IsBalanced h → IsBalanced (m h).1

module _ {A : Type 0} where
  pub Balances-Quiet : (m : M A) → Quiet made m → Quiet cleans m → Balances m
  Balances-Quiet m q k = record { at = λ h b. omega (arith, q.at h, k.at h) }

module _ {A B : Type 0} where
  pub Balances-bind :
      (m : M A) (f : A → M B) → Balances m → ((a : A) → Balances (f a)) → Balances (m >>= f)
  Balances-bind m f bm bf = record { at = λ h b. let (a, h') = m h in (bf a).at h' (bm.at h b) }

pub Balances-if :
    (b : Bool) (m n : M Finish) → Balances m → Balances n → Balances (if b then m else n)
Balances-if true m n bm bn = bm
Balances-if false m n bm bn = bn

pub Balances-pure : (f : Finish) → Balances (pure f)
Balances-pure f = record { at = λ h b. b }

-- How many cleanups are still to be made.
abbrev owed : Option Provider → ℕ
owed none = 0
owed (some p) = 1

abbrev pub Owes : Option Provider → History → Type 0
Owes provider h = count made h ≡ owed provider + count cleans h

module _ (env : Env) where
  make_provider-Owes :
      (config : Resolver ProviderConfig) (answer : Result Provider) (h : History)
      → IsBalanced h
      → Owes (provider_made config answer).0.provider (provider_new config.object answer ∷ h)
  unfolding count
  make_provider-Owes config (err e) h b = omega (arith, b)
  make_provider-Owes config (ok p) h b = omega (arith, b)

  prepare_resolved-Owes :
      (config : Resolver ProviderConfig) (h : History)
      → IsBalanced h
      → Owes (prepare_resolved env config h).0.0.provider (prepare_resolved env config h).1
  unfolding prepare_resolved
  prepare_resolved-Owes config h b =
      ground (arith, make_provider-Owes config (env.new_provider h config.object) h b)

  pub prepare_provider-Owes :
      (ref : ProviderConfigReference) (h : History)
      → IsBalanced h
      → Owes (prepare_provider env ref h).0.0.provider (prepare_provider env ref h).1
  unfolding prepare_provider count
  prepare_provider-Owes ref h b =
      let (config, h') = resolve_config env (record { name = ref.name; namespace = "" }) h in
      prepare_resolved-Owes config h' b

  pub with_cleanup-IsBalanced :
      (provider : Option Provider) (m : M Finish) (h : History)
      → Quiet made m
      → Quiet cleans m
      → Owes provider h
      → IsBalanced (with_cleanup env provider m h).1
  unfolding with_cleanup count
  with_cleanup-IsBalanced none m h q k o = omega (arith, q.at h, k.at h)
  with_cleanup-IsBalanced (some p) m h q k o = omega (arith, q.at h, k.at h)

  -- A provider is prepared, and the rest settles what is owed.
  pub Balances-prepare :
      (ref : ProviderConfigReference) (f : ProviderSetup × Option ProviderSetupIssue → M Finish)
      → ((x : ProviderSetup × Option ProviderSetupIssue) (h : History)
          → Owes x.0.provider h
          → IsBalanced (f x h).1)
      → Balances (prepare_provider env ref >>= f)
  Balances-prepare ref f settles = record {
    at = λ h b.
        let (x, h') = prepare_provider env ref h in settles x h' (prepare_provider-Owes ref h b);
  }
