-- ===== src/Network/Action.antt =====
-- A function of the program that reads and writes the globals, and may meet undefined behaviour.
pub mod Leads
use dss_vdc_venta.Prelude.{Option, none, some}
use dss_vdc_venta.Types.{Globals}

abbrev pub Action : Type 0 → Type 0
Action A = Globals → Option (A × Globals)

infixl 5 ◌>>=◌ ◌>>◌
abbrev pub ◌>>=◌ : {A B : Type 0} → Action A → (A → Action B) → Action B
◌>>=◌ m f g = elim (m g) [ none ↦ none | some (a, g') ↦ f a g' ]

abbrev pub ◌>>◌ : {A B : Type 0} → Action A → Action B → Action B
m >> k = m >>= λ _. k

abbrev pub pure : {A : Type 0} → A → Action A
pure a g = some (a, g)

abbrev pub gets : {A : Type 0} → (Globals → A) → Action A
gets f g = some (f g, g)

-- An access that may be undefined behaviour.
abbrev pub check : {A : Type 0} → Option A → Action A
check none g = none
check (some a) g = some (a, g)
