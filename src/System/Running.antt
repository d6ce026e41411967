-- ===== src/System/Running.antt =====
-- What holds of the globals while the process runs.
use dss_vdc_venta.Vdc.GetProp.Indices.{AllNamed}
use dss_vdc_venta.Main.Reports.{AllActive, slots_after}
use dss_vdc_venta.Network.Parse.Unlocking.{IsOurs}
use dss_vdc_venta.Network.Safe.{Advances, AllRequests, done, AllRequests-append}
use dss_vdc_venta.Network.Parse.Frame.{settings}
use dss_vdc_venta.Scenes.Loaded.{IsLoaded}
use dss_vdc_venta.CString.{Bytes}
use dss_vdc_venta.Prelude.{
  List, ℕ, ◌≡◌, ◌∷◌, ◌++◌, ℤ, length, ◌∙◌, some, ap, false, inl, suc, sym, [], ◌⊎◌, inr, ◌+◌, true,
  refl, append-nil, append_assoc, subst,
}
use dss_vdc_venta.Types.{Globals, Mutex, SensorValue, VentaHumifier, VentaVdcd, Scene, Request}
use dss_vdc_venta.Config.RoundTrip.Sensors.{IsNamed}

-- Active sensors that have names, and then an inactive slot.
abbrev pub HasGap : List SensorValue → Type 0
HasGap [] = ⊥
HasGap (v ∷ values) = (v.is_active ≡ false) ⊎ ((v.is_active ≡ true) × IsNamed v × HasGap values)

HasGap-settings : (values : List SensorValue) → HasGap values → HasGap (settings values)
HasGap-settings [] h = h
HasGap-settings (v ∷ values) (inl free) = inl free
HasGap-settings (v ∷ values) (inr (active, name, rest)) =
    inr (active, name, HasGap-settings values rest)

settings-HasGap : (values : List SensorValue) → HasGap (settings values) → HasGap values
settings-HasGap [] h = h
settings-HasGap (v ∷ values) (inl free) = inl free
settings-HasGap (v ∷ values) (inr (active, name, rest)) =
    inr (active, name, settings-HasGap values rest)

-- The gap at the end of the active sensors.
pub record Gap (values : List SensorValue) : Type 0 where
  pub active : List SensorValue
  pub last : SensorValue
  pub rest : List SensorValue
  pub slots : values ≡ active ++ last ∷ rest
  pub all_active : AllActive active
  pub all_named : AllNamed active
  pub inactive : last.is_active ≡ false

pub HasGap-Gap : (values : List SensorValue) → HasGap values → Gap values
HasGap-Gap [] h = absurd h
HasGap-Gap (v ∷ values) (inl free) = record {
  active = [];
  last = v;
  rest = values;
  slots = refl;
  all_active = tt;
  all_named = tt;
  inactive = free;
}
HasGap-Gap (v ∷ values) (inr (active, name, rest)) =
    let gap = HasGap-Gap values rest in
    record {
      active = v ∷ gap.active;
      last = gap.last;
      rest = gap.rest;
      slots = ap (λ (vs : List SensorValue). v ∷ vs) gap.slots;
      all_active = (active, gap.all_active);
      all_named = (name, gap.all_named);
      inactive = gap.inactive;
    }

pub HasGap-slots_after :
    (now : ℕ → ℤ) (i : ℕ) (active : List SensorValue) (v : SensorValue) (rest : List SensorValue)
    → AllActive active
    → AllNamed active
    → v.is_active ≡ false
    → HasGap (slots_after now i active ++ v ∷ rest)
HasGap-slots_after now i [] v rest all named free = inl free
HasGap-slots_after now i (w ∷ active) v rest all named free =
    inr (all.0, named.0, HasGap-slots_after now (i + 1) active v rest all.1 named.1 free)

pub length-slots_after :
    (now : ℕ → ℤ) (i : ℕ) (active : List SensorValue)
    → length (slots_after now i active) ≡ length active
length-slots_after now i [] = refl
length-slots_after now i (v ∷ active) = ap suc (length-slots_after now (i + 1) active)

length-settings : (values : List SensorValue) → length (settings values) ≡ length values
length-settings [] = refl
length-settings (v ∷ values) = ap suc (length-settings values)

pub IsLoaded-same :
    (h h' : VentaHumifier) (loaded free : List Scene)
    → h'.scenes ≡ h.scenes
    → h'.configured_scenes ≡ h.configured_scenes
    → IsLoaded h loaded free
    → IsLoaded h' loaded free
IsLoaded-same h h' loaded free scenes text t = record {
  split = scenes ∙ t.split;
  listed = text ∙ t.listed;
  numbered = t.numbered;
  unused = t.unused;
}

-- What the configuration said, and that stays: the humifier's identifier, name and address, its
-- scenes, the device's dSUID, and how many sensor slots there are.
pub record Facts : Type 0 where
  pub id : Bytes
  pub name : Bytes
  pub ip : Bytes
  pub dsuid : Bytes
  pub loaded : List Scene
  pub free : List Scene
  pub slots : ℕ

pub record IsSetUp (f : Facts) (h : VentaHumifier) : Type 0 where
  pub table : IsLoaded h f.loaded f.free
  pub identified : h.id ≡ some f.id
  pub titled : h.name ≡ some f.name
  pub address : h.ip ≡ some f.ip
  pub gap : HasGap h.sensor_values
  pub size : length h.sensor_values ≡ f.slots

pub record IsUp (f : Facts) (g : Globals) : Type 0 where
  pub humifier : IsSetUp f g.humifier
  pub device : VentaVdcd
  pub there : g.device ≡ some device
  pub same_dsuid : device.dsuidstring ≡ f.dsuid
  pub ours : IsOurs g.network_mutex

-- The humifier and the device as they were, and the mutex not with the other thread.
pub IsUp-same :
    (f : Facts) (g g' : Globals)
    → g'.humifier ≡ g.humifier
    → g'.device ≡ g.device
    → IsOurs g'.network_mutex
    → IsUp f g
    → IsUp f g'
IsUp-same f g g' same_humifier same_device ours u = record {
  humifier = subst (IsSetUp f) (sym same_humifier) u.humifier;
  device = u.device;
  there = same_device ∙ u.there;
  same_dsuid = u.same_dsuid;
  ours = ours;
}

pub with_mutex-IsUp :
    (f : Facts) (m : Mutex) (g : Globals)
    → IsOurs m
    → IsUp f g
    → IsUp f (record g { network_mutex = m })
with_mutex-IsUp f m g ours u = IsUp-same f g (record g { network_mutex = m }) refl refl ours u

-- The parts of the humifier that the readings do not reach.
IsSetUp-settings :
    (f : Facts) (h h' : VentaHumifier)
    → record h' { sensor_values = settings h'.sensor_values }
      ≡ record h { sensor_values = settings h.sensor_values }
    → IsSetUp f h
    → IsSetUp f h'
IsSetUp-settings f h h' same u =
    let slots = ap (λ (x : VentaHumifier). x.sensor_values) same in
    record {
      table =
          IsLoaded-same h h' f.loaded f.free (ap (λ (x : VentaHumifier). x.scenes) same)
            (ap (λ (x : VentaHumifier). x.configured_scenes) same) u.table;
      identified = ap (λ (x : VentaHumifier). x.id) same ∙ u.identified;
      titled = ap (λ (x : VentaHumifier). x.name) same ∙ u.titled;
      address = ap (λ (x : VentaHumifier). x.ip) same ∙ u.address;
      gap = settings-HasGap h'.sensor_values (rw slots (HasGap-settings h.sensor_values u.gap));
      size =
          sym (length-settings h'.sensor_values)
          ∙ ap length slots
          ∙ length-settings h.sensor_values
          ∙ u.size;
    }

-- What only stores readings and sends requests leaves the process up.
Advances-IsUp :
    (f : Facts) (g g' : Globals)
    → Advances f.ip g g'
    → IsOurs g'.network_mutex
    → IsUp f g
    → IsUp f g'
Advances-IsUp f g g' a ours u = record {
  humifier =
      IsSetUp-settings f g.humifier g'.humifier (ap (λ (x : Globals). x.humifier) a.kept)
        u.humifier;
  device = u.device;
  there = ap (λ (x : Globals). x.device) a.kept ∙ u.there;
  same_dsuid = u.same_dsuid;
  ours = ours;
}

-- Requests to the humifier only, behind those that were sent before.
pub record Sends (ip : Bytes) (g g' : Globals) : Type 0 where
  pub sent : List Request
  pub posts : g'.posts ≡ g.posts ++ sent
  pub requests : AllRequests ip sent

pub Sends-none : (ip : Bytes) (g g' : Globals) → g'.posts ≡ g.posts → Sends ip g g'
Sends-none ip g g' same = record {
  sent = [];
  posts = same ∙ sym (append-nil g.posts);
  requests = done;
}

pub Sends-trans :
    (ip : Bytes) (g g' g'' : Globals) → Sends ip g g' → Sends ip g' g'' → Sends ip g g''
Sends-trans ip g g' g'' a b = record {
  sent = a.sent ++ b.sent;
  posts = b.posts ∙ rw a.posts (append_assoc g.posts a.sent b.sent);
  requests = AllRequests-append ip a.requests b.requests;
}

-- The process is still up, and what it sent.
pub record Goes (f : Facts) (g g' : Globals) : Type 0 where
  pub up : IsUp f g'
  pub sends : Sends f.ip g g'

pub Goes-refl : (f : Facts) (g : Globals) → IsUp f g → Goes f g g
Goes-refl f g u = record { up = u; sends = Sends-none f.ip g g refl }

pub Advances-Goes :
    (f : Facts) (g g' : Globals)
    → Advances f.ip g g'
    → IsOurs g'.network_mutex
    → IsUp f g
    → Goes f g g'
Advances-Goes f g g' a ours u = record {
  up = Advances-IsUp f g g' a ours u;
  sends = record { sent = a.sent; posts = a.posts; requests = a.requests };
}
