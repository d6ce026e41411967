-- ===== src/Vdc/GetProp/Device.antt =====
-- The properties of the device, and `create_action_property`.
use dss_vdc_venta.Prelude.{
  ℕ, ◌+◌, Bool, true, false, Option, none, some, List, [], ◌∷◌, ◌++◌, if◌then◌else◌, ◌>>=◌, String,
}
use dss_vdc_venta.CString.{Bytes, codes}
use dss_vdc_venta.Types.{VentaHumifier}
use dss_vdc_venta.Vdc.SetProp.{PropertyName, name_error, wildcard, named}
use dss_vdc_venta.Vdc.GetProp.Reply.{
  Leaf, text, bytes, null_text, uint, bool, leaf, group, Fields, Reply, Answer, Query, Built,
  add_text, grouped, joined_in, Case, run_case, constant,
}
use dss_vdc_venta.Vdc.GetProp.Sensors.{sensor_descriptions, sensor_settings, sensor_states}

-- An action: the key of its entry, its identifier, its title.
pub record DynamicAction : Type 0 where
  pub key : Bytes
  pub id : Bytes
  pub title : Bytes

abbrev pub action : String → String → String → DynamicAction
action key id title = record { key = codes key; id = codes id; title = codes title }

abbrev pub actions : List DynamicAction
actions =
    action "ActTurnOn" "dynamic.ActTurnOn" "01-Einschalten"
    ∷ action "ActTurnOff" "dynamic.ActTurnOff" "02-Ausschalten"
    ∷ action "ActFan1" "dynamic.ActFan1" "03-Fanspeed 1"
    ∷ action "ActFan2" "dynamic.ActFan2" "04-Fanspeed 2"
    ∷ action "ActFan3" "dynamic.ActFan3" "05-Fanspeed 3"
    ∷ action "ActSleepModeOn" "dynamic.ActSleepModeOn" "06-Schlafmodus an"
    ∷ action "ActSleepModeOff" "dynamic.ActSleepmodeOff" "07-Schlafmodus aus"
    ∷ action "ActAutoModeOn" "dynamic.ActAutoModeOn" "08-Automatikmodus an"
    ∷ action "ActAutoModeOff" "dynamic.ActAutoModeOff" "09-Automatikmodus aus"
    ∷ []

-- The new property, or `none` for a null pointer.
unfoldable pub create_action_property : Query → Bytes → Bytes → Bytes → ℕ → Option Fields
create_action_property q id title description k =
    if q.new_ok k
    then some (
        (codes "id", text id)
        ∷ (codes "action", text id)
        ∷ (codes "title", text title)
        ∷ (codes "description", text description)
        ∷ [])
    else none

-- dsvdc_property_add_property of what the call before it made.
abbrev pub add_created : Query → Bytes → Option Fields → Reply
add_created q key none = q.add_null key
add_created q key (some fields) = (key, group fields) ∷ []

unfoldable pub add_actions : Query → List DynamicAction → ℕ → Option (Reply × ℕ)
unfolding create_action_property
add_actions q [] k = some ([], k)
add_actions q (a ∷ more) k = do
  (reply, k') ← add_actions q more (k + 1)
  some (add_created q a.key (create_action_property q a.id a.title a.title k) ++ reply, k')

abbrev pub output_description : Reply
output_description =
    (codes "name", leaf (text (codes "Venta Humifier")))
    ∷ (codes "defaultGroup", leaf (uint 8))
    ∷ (codes "function", leaf (uint 0))
    ∷ (codes "outputUsage", leaf (uint 1))
    ∷ (codes "variableRamp", leaf (bool true))
    ∷ (codes "maxPower", leaf (uint 100))
    ∷ []

abbrev pub output_groups : Fields
output_groups = (codes "0", bool true) ∷ (codes "3", bool true) ∷ []

abbrev pub output_settings : Reply
output_settings =
    (codes "groups", group output_groups)
    ∷ (codes "mode", leaf (uint 1))
    ∷ (codes "pushChanges", leaf (bool true))
    ∷ []

-- Two properties are made; where one cannot be made nothing is added.
unfoldable pub add_output_settings : Query → Bytes → ℕ → Built
add_output_settings q name k =
    if q.new_ok k
    then if q.new_ok (k + 1)
      then some ((name, group output_settings) ∷ [], k + 2)
      else some ([], k + 2)
    else some ([], k + 1)

abbrev pub model_features : Reply
model_features =
    (codes "dontcare", leaf (bool false))
    ∷ (codes "blink", leaf (bool false))
    ∷ (codes "outmode", leaf (bool false))
    ∷ (codes "jokerconfig", leaf (bool true))
    ∷ []

-- The result of dsvdc_property_new is not looked at: where it fails, a pointer that was never set is
-- used.
unfoldable pub add_model_features : Query → Bytes → ℕ → Built
add_model_features q name k =
    if q.new_ok k then some ((name, group model_features) ∷ [], k + 1) else none

-- A null pointer goes on to the library.
abbrev pub name_leaf : Option Bytes → Leaf
name_leaf none = null_text
name_leaf (some name) = text name

module _ (q : Query) (h : VentaHumifier) where
  -- The chain, without the branches that do nothing: "buttonInputDescriptions",
  -- "buttonInputSettings", "channelDescriptions", "channelSettings", "channelStates",
  -- "deviceStates", "deviceProperties", "devicePropertyDescriptions", "customActions",
  -- "binaryInputDescriptions", "binaryInputSettings", "binaryInputStates", "deviceClass",
  -- "deviceClassVersion", "oemGuid" and "oemModelGuid".
  unfoldable pub reply_cases : List Case
  unfolding grouped joined_in add_actions add_output_settings sensor_descriptions sensor_settings
      sensor_states
  reply_cases =
      (codes "primaryGroup", constant (uint 8))
      ∷ (codes "zoneID", constant (uint h.zone_id))
      ∷ (codes "dynamicActionDescriptions", λ name k. grouped q name (add_actions q actions) k)
      ∷ (
        codes "outputDescription",
        λ name k. grouped q name (λ k'. some (output_description, k')) k,
      )
      ∷ (codes "outputSettings", λ name k. add_output_settings q name k)
      ∷ (
        codes "sensorDescriptions",
        λ name k. grouped q name (sensor_descriptions q h.name h.sensor_values) k,
      )
      ∷ (codes "sensorSettings", λ name k. grouped q name (sensor_settings q h.sensor_values) k)
      ∷ (codes "sensorStates", λ name k. grouped q name (sensor_states q h.sensor_values) k)
      ∷ []

  unfoldable pub text_cases : List Case
  unfolding joined_in add_model_features
  text_cases =
      (codes "name", constant (name_leaf h.name))
      ∷ (codes "type", constant (text (codes "vDSD")))
      ∷ (codes "model", constant (text (codes "Humifier")))
      ∷ (codes "modelFeatures", λ name k. add_model_features q name k)
      ∷ (codes "modelUID", constant (text (codes "Venta Humifier")))
      ∷ (codes "modelVersion", constant (text (codes "0")))
      ∷ (codes "vendorId", constant (text (codes "vendor: Venta")))
      ∷ (codes "vendorName", constant (text (codes "Venta")))
      ∷ (codes "vendorGuid", λ name k. add_text name k (joined_in 256 (codes "Venta vDC ") h.id))
      ∷ (codes "hardwareVersion", constant (text (codes "0.0.0")))
      ∷ (codes "configURL", constant (text []))
      ∷ (codes "hardwareModelGuid", constant (text []))
      ∷ (codes "deviceIcon16", constant (bytes q.icon16))
      ∷ (codes "deviceIcon48", constant (bytes q.icon48))
      ∷ (codes "deviceIconName", constant (text (codes "venta-humifier-16.png")))
      ∷ []

  unfoldable pub device_cases : List Case
  unfolding reply_cases text_cases
  device_cases = reply_cases ++ text_cases

  unfoldable pub device_answer : Bytes → ℕ → Built
  unfolding run_case device_cases
  device_answer name k = run_case device_cases name k

  -- The loop: a wildcard is passed over; a name that cannot be read ends the callback, which is what
  -- the `false` says.
  unfoldable pub device_answers : List PropertyName → ℕ → Option (Bool × Answer)
  unfolding device_answer
  device_answers [] k = some (true, [])
  device_answers (name_error ∷ names) k = some (false, [])
  device_answers (wildcard ∷ names) k = device_answers names k
  device_answers (named name ∷ names) k = do
    (entries, k') ← device_answer name k
    (over, rest) ← device_answers names k'
    some (over, entries ++ rest)
