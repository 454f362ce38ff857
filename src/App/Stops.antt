-- ===== src/App/Stops.antt =====
-- About src/app/app.cpp: `stop_orderly_` and a second call of it.
use risk_sentinel.Common.{
  ◌≡◌, ◌∙◌, refl, ap, Bool, true, false, if◌then◌else◌, Bool-cases, inl, inr,
}
use risk_sentinel.App.Lifecycle.{Environment, App, stop_all, stop_orderly}

if_true : {A : Type 0} (b : Bool) (x y : A) → b ≡ true → (if b then x else y) ≡ x
if_true true x y h = refl
if_true false x y h = cc

if_false : {A : Type 0} (b : Bool) (x y : A) → b ≡ false → (if b then x else y) ≡ y
if_false true x y h = cc
if_false false x y h = refl

stop_orderly-idle :
    (env : Environment) (app : App) → app.is_stopped ≡ true → stop_orderly env app ≡ app
unfolding stop_orderly
stop_orderly-idle env app h = if_true app.is_stopped app _ h

pub stop_orderly-stop_all :
    (env : Environment) (app : App)
    → app.is_stopped ≡ false
    → stop_orderly env app ≡ stop_all env (record app { is_stopped = true })
unfolding stop_orderly
stop_orderly-stop_all env app h = if_false app.is_stopped app _ h

stop_all-is_stopped :
    (env : Environment) (app : App) → (stop_all env app).is_stopped ≡ app.is_stopped
unfolding stop_all
stop_all-is_stopped env app = refl

-- The second of two calls of `stop_orderly_`, as by the destructor behind `run`, does nothing.
pub stop_orderly-stop_orderly :
    (env : Environment) (app : App) → stop_orderly env (stop_orderly env app) ≡ stop_orderly env app
stop_orderly-stop_orderly env app = elim (Bool-cases app.is_stopped) [
  | inl idle ↦ ap (stop_orderly env) (stop_orderly-idle env app idle)
  | inr running ↦ stop_orderly-idle env (stop_orderly env app) (
      ap (λ (a : App). a.is_stopped) (stop_orderly-stop_all env app running)
      ∙ stop_all-is_stopped env (record app { is_stopped = true }))
]
