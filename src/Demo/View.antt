-- ===== src/Demo/View.antt =====
-- What frontend/app/demo/page.tsx draws, and components/demo/UserSwitcher.tsx and
-- components/demo/FeatureCard.tsx on it. Texts that carry numbers are constructors that keep them.
use feature_flag_system.Prelude.{
  ℕ, zero, suc, ◌+◌, ◌-◌, ◌++◌, ◌∷◌, [], Text, codes, Bool, not, ◌&&◌, ◌||◌, List, Option, none,
  some, pos, ltb, ltb_ℤ, if◌then◌else◌, Dict, get, text_eq, includes, find, or_else, is_empty, map,
  decimal,
}
use feature_flag_system.Types.{FlagConfig}
use feature_flag_system.Sdk.Client.{
  ConnectionStatus, connecting, live, reconnecting, reconciling, offline, is_enabled, is_stale,
  same_status,
}
use feature_flag_system.Demo.{DemoPage}

-- `Array.from(allFlags.values())`
abbrev pub flag_list : DemoPage → List FlagConfig
flag_list p = map (λ e. e.1) p.all_flags

abbrev pub is_partial : FlagConfig → Bool
is_partial f =
    f.enabled && ltb_ℤ (pos 0) f.rollout_percentage && ltb_ℤ f.rollout_percentage (pos 100)

abbrev first_key : List FlagConfig → Text
first_key [] = []
first_key (f ∷ fs) = f.key

unfoldable pub default_viz_key : DemoPage → Text
default_viz_key p = elim (find is_partial (flag_list p)) [
  | some f ↦ f.key
  | none ↦ first_key (flag_list p)
]

unfoldable pub viz_flag : DemoPage → Option FlagConfig
unfolding default_viz_key
viz_flag p = get (or_else p.picked_viz_key (default_viz_key p)) p.all_flags

-- `data?.config_version ?? 0` is `server_version`.
unfoldable pub stale : DemoPage → ℕ → Bool
stale p server_version = p.is_ready && is_stale p.client server_version

-- `Math.max(0, serverVersion - clientVersion)`
unfoldable pub missed : DemoPage → ℕ → ℕ
missed p server_version = server_version - p.client_version

-- The badge beside the title: whether the client is behind, and the two versions.
pub record Badge : Type 0 where
  pub is_behind : Bool
  pub client_version : ℕ
  pub server_version : ℕ

unfoldable pub badge : DemoPage → ℕ → Option Badge
unfolding stale
badge p server_version =
    if p.is_ready
    then some (record {
      is_behind = stale p server_version;
      client_version = p.client_version;
      server_version = server_version;
    })
    else none

-- The sentence of the panel.
pub data PanelText : Type 0 where
  updates_missed : ℕ → PanelText
  make_changes reconciling_behind streaming_live : PanelText

unfoldable pub panel_text : DemoPage → ℕ → PanelText
unfolding stale missed
panel_text p server_version =
    if same_status p.status offline
    then if ltb 0 (missed p server_version)
      then updates_missed (missed p server_version)
      else make_changes
    else if stale p server_version
    then reconciling_behind
    else streaming_live

pub record Panel : Type 0 where
  pub label : Text
  pub spins : Bool
  pub text : PanelText
  pub disconnect_disabled : Bool
  pub reconnect_disabled : Bool

-- STATUS_META
unfoldable pub status_label : ConnectionStatus → Text
status_label connecting = codes "Connecting"
status_label live = codes "Live"
status_label reconnecting = codes "Reconnecting"
status_label reconciling = codes "Reconciling"
status_label offline = codes "Disconnected"

unfoldable pub reconnect_panel : DemoPage → ℕ → Option Panel
unfolding status_label panel_text
reconnect_panel p server_version =
    if p.is_ready
    then some (record {
      label = status_label p.status;
      spins = same_status p.status reconciling;
      text = panel_text p server_version;
      disconnect_disabled = same_status p.status offline;
      reconnect_disabled = not (same_status p.status offline);
    })
    else none

abbrev pub custom_keys : List Text
custom_keys = codes "dark-mode" ∷ codes "beta-dashboard" ∷ codes "ai-assistant" ∷ []

-- FeatureCard: its badge, and for a card without a component of its own the text under it.
pub record FeatureCard : Type 0 where
  pub flag_key : Text
  pub is_on : Bool
  pub note : Option Text

abbrev dynamic_note : Bool → Text → Text
dynamic_note is_on description =
    if is_empty description
    then if is_on
      then codes "This feature is currently enabled for you."
      else codes "This feature is not available for this user."
    else description

abbrev card_of : DemoPage → Text → Option Text → FeatureCard
card_of p key note = record {
  flag_key = key;
  is_on = is_enabled p.client key p.current_user;
  note = note;
}

dynamic_cards : DemoPage → Dict FlagConfig → List FeatureCard
dynamic_cards p [] = []
dynamic_cards p ((key, f) ∷ m) =
    let rest = dynamic_cards p m in
    if includes custom_keys key
    then rest
    else card_of p key (some (dynamic_note (is_enabled p.client key p.current_user) f.description))
      ∷ rest

-- The cards, or none while the skeleton is shown.
unfoldable pub cards : DemoPage → List FeatureCard
unfolding dynamic_cards
cards p =
    if p.is_ready
    then map (λ key. card_of p key none) custom_keys ++ dynamic_cards p p.all_flags
    else []

-- PRESET_USERS
unfoldable pub preset_users : ℕ → ℕ → List Text
preset_users first zero = []
preset_users first (suc n) = (codes "user-" ++ decimal first) ∷ preset_users (first + 1) n

-- UserSwitcher: the choice that is shown, and whether there is a field for another id.
unfoldable pub user_switcher : Text → Text × Bool
unfolding preset_users
user_switcher current_user =
    let is_preset = includes (preset_users 1 10) current_user in
    (if is_preset then current_user else codes "custom", not is_preset)

-- What a choice hands on; `custom` itself and nothing hand on nothing.
unfoldable pub choose_value : Option Text → Option Text
choose_value none = none
choose_value (some v) = if is_empty v || text_eq v (codes "custom") then none else some v
