-- ===== src/Network/Safe.antt =====
-- The requests to the humifier, and what actions send and change: one rule for each way to build an
-- action.
use dss_vdc_venta.Prelude.{
  ◌++◌, none, ℤ, List, [], ◌≡◌, Bool, ◌∙◌, some, ℕ, ◌∷◌, sym, append_assoc, ap, if◌then◌else◌, pos,
  append-nil, refl, true, ◌≤◌, ◌⊎◌, All, inl, inr,
}
use dss_vdc_venta.Prelude.{true, false}
use dss_vdc_venta.Network.Action.{Action, ◌>>=◌, pure, gets}
use dss_vdc_venta.Network.Parse.Frame.{without_readings}
use dss_vdc_venta.Network.Http.{Env, visited}
use dss_vdc_venta.Types.{Globals, Request}
use dss_vdc_venta.CString.{Bytes, codes}

abbrev pub url_text : Bytes → Bytes → Bytes
url_text path ip = codes "http://" ++ (ip ++ path)

abbrev pub data_request : Bytes → Request
data_request ip = record { url = url_text (codes "/api/data") ip; body = none }

abbrev pub button_request : Bytes → ℤ → Request
button_request ip btn = record {
  url = url_text (codes "/api/btn") ip;
  body = some ((codes "btn", btn) ∷ []);
}

-- The fan buttons 3 and 4, and the mode buttons 5 and 6.
abbrev pub IsButton : ℤ → Type 0
IsButton btn = (n : ℕ) × (btn ≡ pos n) × (3 ≤ n) × (n ≤ 6)

pub data IsHumifierRequest (ip : Bytes) : Request → Type 0 where
  asks : IsHumifierRequest ip (data_request ip)
  presses : (btn : ℤ) → IsButton btn → IsHumifierRequest ip (button_request ip btn)

pub data AllRequests (ip : Bytes) : List Request → Type 0 where
  done : AllRequests ip []
  one_more :
      {r : Request} {rs : List Request}
      → IsHumifierRequest ip r
      → AllRequests ip rs
      → AllRequests ip (r ∷ rs)

pub AllRequests-append :
    (ip : Bytes) {rs qs : List Request}
    → AllRequests ip rs
    → AllRequests ip qs
    → AllRequests ip (rs ++ qs)
AllRequests-append ip done q = q
AllRequests-append ip (one_more r rs) q = one_more r (AllRequests-append ip rs q)

-- The two URLs of the humifier.
abbrev pub IsHumifierUrl : Bytes → Bytes → Type 0
IsHumifierUrl ip url =
    (url ≡ url_text (codes "/api/data") ip) ⊎ (url ≡ url_text (codes "/api/btn") ip)

-- No answer redirects a request.
abbrev pub NeverRedirects : Env → Type 0
NeverRedirects env = (posts : List Request) → env.redirects posts ≡ []

-- Where no answer redirects, such requests take libcurl to those URLs alone.
pub visited-AllRequests :
    (ip : Bytes) (env : Env) (before : List Request) {rs : List Request}
    → NeverRedirects env
    → AllRequests ip rs
    → All (IsHumifierUrl ip) (visited env before rs)
visited-AllRequests ip env before direct done = tt
visited-AllRequests ip env before direct (one_more {r} {rs} asks later) =
    rw (direct (before ++ r ∷ []))
      (inl refl, visited-AllRequests ip env (before ++ r ∷ []) direct later)
visited-AllRequests ip env before direct (one_more {r} {rs} (presses btn b) later) =
    rw (direct (before ++ r ∷ []))
      (inr refl, visited-AllRequests ip env (before ++ r ∷ []) direct later)

-- From one state to another only readings changed, and only such requests were sent.
pub record Advances (ip : Bytes) (g g' : Globals) : Type 0 where
  pub sent : List Request
  pub posts : g'.posts ≡ g.posts ++ sent
  pub requests : AllRequests ip sent
  pub kept : without_readings g' ≡ without_readings (record g { posts = g'.posts })

pub Advances-refl : (ip : Bytes) (g : Globals) → Advances ip g g
Advances-refl ip g = record {
  sent = [];
  posts = sym (append-nil g.posts);
  requests = done;
  kept = refl;
}

abbrev with_posts : List Request → Globals → Globals
with_posts posts g = record g { posts = posts }

pub Advances-trans :
    (ip : Bytes) (g g' g'' : Globals) → Advances ip g g' → Advances ip g' g'' → Advances ip g g''
Advances-trans ip g g' g'' a b = record {
  sent = a.sent ++ b.sent;
  posts = b.posts ∙ rw a.posts (append_assoc g.posts a.sent b.sent);
  requests = AllRequests-append ip a.requests b.requests;
  kept = b.kept ∙ ap (with_posts g''.posts) a.kept;
}

pub Advances-ip : (ip : Bytes) (g g' : Globals) → Advances ip g g' → g'.humifier.ip ≡ g.humifier.ip
Advances-ip ip g g' a = ap (λ (x : Globals). x.humifier.ip) a.kept

-- From a state with this address the action returns, and the states are so related.
pub record IsSafe {A : Type 0} (ip : Bytes) (m : Action A) : Type 0 where
  pub run :
      (g : Globals)
      → g.humifier.ip ≡ some ip
      → (a : A) × (g' : Globals) × (m g ≡ some (a, g')) × Advances ip g g'

module _ {A : Type 0} (ip : Bytes) where
  pub IsSafe-pure : (a : A) → IsSafe ip (pure a)
  IsSafe-pure a = record { run = λ g e. (a, g, refl, Advances-refl ip g) }

  pub IsSafe-gets : (f : Globals → A) → IsSafe ip (gets f)
  IsSafe-gets f = record { run = λ g e. (f g, g, refl, Advances-refl ip g) }

  pub IsSafe-if :
      (b : Bool) (m n : Action A) → IsSafe ip m → IsSafe ip n → IsSafe ip (if b then m else n)
  IsSafe-if true m n p q = p
  IsSafe-if false m n p q = q

  pub IsSafe-bind :
      {B : Type 0} (m : Action B) (f : B → Action A)
      → IsSafe ip m
      → ((b : B) → IsSafe ip (f b))
      → IsSafe ip (m >>= f)
  IsSafe-bind m f p q = record {
    run = λ g e.
        let (b, g', ran, first) = p.run g e in
        let (a, g'', ran', second) = (q b).run g' (Advances-ip ip g g' first ∙ e) in
        (a, g'', rw (ran, ◌>>=◌) ran', Advances-trans ip g g' g'' first second);
  }

pub ruleset safe_rules = (IsSafe-pure, IsSafe-gets, IsSafe-if, IsSafe-bind)

-- A sequence whose first part meets no undefined behaviour for this address.
pub IsSafe-eq :
    {A : Type 0} (ip : Bytes) (m n : Action A)
    → ((g : Globals) → g.humifier.ip ≡ some ip → m g ≡ n g)
    → IsSafe ip n
    → IsSafe ip m
IsSafe-eq ip m n same p = record {
  run = λ g e. let (a, g', ran, steps) = p.run g e in (a, g', same g e ∙ ran, steps);
}
