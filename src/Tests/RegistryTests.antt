-- ===== src/Tests/RegistryTests.antt =====
-- crates/noire-pipewire/src/registry.rs at concrete inputs.
use noire.Base.{
  ℕ, ◌+◌, ◌≤◌, ◌<◌, ◌≡◌, ◌⊎◌, refl, true, false, List, [], ◌∷◌, map, none, some, saturating_add,
  u64_max,
}
use noire.Base.Text.{String, lower_codes, starts_with, contains, ends_with}
use noire.Registry.{
  NodeDescriptor, available, RegistryMonitor, is_candidate, is_monitor_name, is_monitor_description,
  matches, selector, publish_if_due, flag_default, registry_coalesce_millis,
}
use noire.Registry.Selection.{
  SelectionPolicy, selected, candidates_by_name, candidates_from, add_candidate, resolve,
}
use noire.Registry.Resolution.{Allows, resolve_safe, resolve_selector}
use noire.Registry.Debounce.{Change, upserts, removes, changes, changes_publish}

abbrev node : ℕ → String → NodeDescriptor
node id name = record {
  global_id = id;
  object_serial = none;
  node_name = name;
  description = some "Desk microphone";
  nick = none;
  media_class = some "Audio/Source";
  media_role = none;
  virtual_node = false;
  device_id = none;
  device_name = none;
  device_serial = some "usb-1";
  device_api = none;
  formats = [];
  availability = available;
  is_default = false;
  label = "Desk microphone";
}

abbrev microphone : NodeDescriptor
microphone = node 31 "alsa_input.desk"

abbrev monitor : NodeDescriptor
monitor = node 32 "alsa_output.desk.Monitor"

abbrev policy : SelectionPolicy
policy = record {
  selector = some (selector microphone);
  follow_default = false;
  fallback_to_default = false;
}

-- The monitor of an output is no candidate, whatever its case.
only_microphone : candidates_by_name (monitor ∷ microphone ∷ []) ≡ microphone ∷ []
unfolding candidates_by_name candidates_from add_candidate is_candidate is_monitor_name
    is_monitor_description ends_with contains starts_with lower_codes
only_microphone = refl

matches_itself : matches (selector microphone) microphone ≡ true
unfolding matches selector
matches_itself = refl

resolves : resolve (candidates_by_name (monitor ∷ microphone ∷ [])) policy ≡ selected microphone
resolves =
    rw only_microphone
      (resolve_selector (selector microphone) policy [] microphone [] refl (tt, tt) matches_itself)

resolve_safe_example : (is_candidate microphone ≡ true) × Allows policy microphone
resolve_safe_example = resolve_safe (monitor ∷ microphone ∷ []) policy microphone resolves

abbrev dirty : RegistryMonitor
dirty = record {
  nodes = monitor ∷ [];
  default_node_name = none;
  dirty_since_millis = some 100;
  revision = 4;
}

abbrev history : List (Change × ℕ)
history = (upserts microphone, 120) ∷ (removes 32, 149) ∷ []

changes_publish_example :
    let after = changes dirty history in
    let (next, published) = publish_if_due after 150 in
    ((150 < 100 + registry_coalesce_millis) × (published ≡ none) × (next ≡ after))
    ⊎ ((100 + registry_coalesce_millis ≤ 150)
        × (next.dirty_since_millis ≡ none)
        × (published
            ≡ some (record {
              revision = saturating_add u64_max 4 1;
              nodes = map (flag_default after.default_node_name) after.nodes;
            })))
changes_publish_example = changes_publish dirty history 150 100 refl
