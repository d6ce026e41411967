-- ===== src/Network/Parse/Unlocking.antt =====
-- What parsing an answer does to the mutex.
use dss_vdc_venta.Prelude.{
  List, ℤ, ◌≡◌, Bool, some, ◌∷◌, [], refl, ◌∙◌, arith, Bool-cases, Option-cases, inl, inr, ◌⊎◌,
}
use dss_vdc_venta.Network.Json.{JsonC}
use dss_vdc_venta.Network.Parse.{
  device_entry, device_entries, entries, parse_text, c_string, unlock,
}
use dss_vdc_venta.Types.{Globals, Thread, main_thread, Mutex}
use dss_vdc_venta.CString.{Bytes, strcmp_eq, codes}

-- Free, or held by the main thread.
abbrev pub IsOurs : Mutex → Type 0
IsOurs m = (m.depth ≡ 0) ⊎ (m.owner ≡ main_thread)

pub unlock-IsOurs : (thread : Thread) (m : Mutex) → IsOurs m → IsOurs (unlock thread m)
unfolding unlock
unlock-IsOurs thread m o = ground arith

module _ (json : JsonC) where
  open json use {Json, members, tokener_parse}

  device_entries-mutex :
      (now : ℤ) (es : List (Bytes × Json)) (g : Globals)
      → (device_entries json now es g).0.network_mutex ≡ g.network_mutex
  unfolding device_entries device_entry
  device_entries-mutex now [] g = refl
  device_entries-mutex now ((key, value) ∷ es) g =
      device_entries-mutex now es (device_entry json now key value g).0

  entries-mutex :
      (now : ℤ) (es : List (Bytes × Json)) (g g' : Globals) (changed : Bool)
      → entries json now es g ≡ some (g', changed)
      → g'.network_mutex ≡ g.network_mutex
  unfolding entries
  entries-mutex now [] g g' changed e = ground arith
  entries-mutex now ((key, value) ∷ es) g g' changed e =
      elim (Bool-cases (strcmp_eq key (codes "device"))) [
        | inl device ↦ elim (Option-cases (members value)) [
          | inl no_object ↦ cc (rw (device, no_object) at e)
          | inr (ms, object) ↦
              elim (Option-cases (entries json now es (device_entries json now ms g).0)) [
                | inl fault ↦ cc (rw (device, object, fault) at e)
                | inr ((g'', later), rest) ↦
                    let last : g'' ≡ g' = cc (rw (device, object, rest) at e) in
                    rw (← last) (
                      entries-mutex now es (device_entries json now ms g).0 g'' later rest
                      ∙ device_entries-mutex now ms g)
              ]
        ]
        | inr other ↦ entries-mutex now es g g' changed (rw other at e)
      ]

  -- Parsing an answer leaves the mutex free, or the main thread's, where it was so before.
  pub parse_text-IsOurs :
      (thread : Thread) (now : ℤ) (bytes : Bytes) (g g' : Globals) (rc : ℤ)
      → IsOurs g.network_mutex
      → parse_text json thread now bytes g ≡ some (rc, g')
      → IsOurs g'.network_mutex
  unfolding parse_text
  parse_text-IsOurs thread now bytes g g' rc o e =
      elim (Option-cases (tokener_parse (c_string bytes))) [
        | inl bad ↦ let same : g ≡ g' = cc (rw (bad, parse_text) at e) in rw (← same) o
        | inr (object, good) ↦ elim (Option-cases (members object)) [
          | inl none_there ↦ cc (rw (good, none_there, parse_text) at e)
          | inr (ms, there) ↦ elim (Option-cases (entries json now ms g)) [
            | inl fault ↦ cc (rw (good, there, fault, parse_text) at e)
            | inr ((last, changed), done) ↦
                let same : record last { network_mutex = unlock thread last.network_mutex } ≡ g' =
                  cc (rw (good, there, done, parse_text) at e) in
                rw (← same) (
                  unlock-IsOurs thread last.network_mutex
                    (rw (entries-mutex now ms g last changed done) o))
          ]
        ]
      ]
