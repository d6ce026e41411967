-- ===== src/Network/Action/Leads.antt =====
-- From one condition on the globals to another: one rule for each way to build an action.
use dss_vdc_venta.Prelude.{
  ◌≡◌, some, none, Bool, Option, Option-cases, inl, inr, if◌then◌else◌, true, false, List,
}
use dss_vdc_venta.Network.Action.{Action, ◌>>=◌, pure, gets, check}
use dss_vdc_venta.Types.{Globals, Request}

-- Where it returns, the second condition holds if the first did before.
pub record Leads (P Q : Globals → Type 0) {A : Type 0} (m : Action A) : Type 0 where
  pub kept : (a : A) (g g' : Globals) → P g → m g ≡ some (a, g') → Q g'

-- A condition that the requests so far do not matter for.
abbrev pub IgnoresPosts : (Globals → Type 0) → Type 0
IgnoresPosts P = (g : Globals) (posts : List Request) → P g → P (record g { posts = posts })

module _ {P : Globals → Type 0} {A : Type 0} where
  pub Leads-pure : (a : A) → Leads P P (pure a)
  Leads-pure a = record { kept = λ b g g' o e. let same : g ≡ g' = cc e in rw (← same) o }

  pub Leads-gets : (f : Globals → A) → Leads P P (gets f)
  Leads-gets f = record { kept = λ b g g' o e. let same : g ≡ g' = cc e in rw (← same) o }

  pub Leads-check : (a : Option A) → Leads P P (check a)
  Leads-check none = record { kept = λ b g g' o e. absurd (cc e) }
  Leads-check (some a) = record { kept = λ b g g' o e. let same : g ≡ g' = cc e in rw (← same) o }

module _ {P Q : Globals → Type 0} {A : Type 0} where
  pub Leads-if :
      (b : Bool) (m n : Action A) → Leads P Q m → Leads P Q n → Leads P Q (if b then m else n)
  Leads-if true m n p q = p
  Leads-if false m n p q = q

  pub Leads-bind :
      {R : Globals → Type 0} {B : Type 0} (m : Action B) (f : B → Action A)
      → Leads P R m
      → ((b : B) → Leads R Q (f b))
      → Leads P Q (m >>= f)
  Leads-bind m f p q = record {
    kept = λ a g g' o e. elim (Option-cases (m g)) [
      | inl failed ↦ cc (rw (◌>>=◌, failed) at e)
      | inr ((b, g''), ran) ↦ (q b).kept a g'' g' (p.kept b g g'' o ran) (rw (◌>>=◌, ran) at e)
    ];
  }
