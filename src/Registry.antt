-- ===== src/Registry.antt =====
-- crates/noire-pipewire/src/registry.rs: capture nodes, selectors, and the monitor that publishes
-- them. A BTreeMap keyed by the global id is the list of its entries in the order of the keys.

pub mod Selection
pub mod Candidates
pub mod Resolution
pub mod Debounce
use noire.Base.{
  ℕ, suc, ◌+◌, ◌-◌, Bool, true, false, not, ◌&&◌, ◌||◌, List, [], ◌∷◌, map, Option, none, some,
  if◌then◌else◌, ltb, leb, ◌==◌, saturating_add, u64_max,
}
use noire.Base.Text.{String, str_eq, lower_codes, starts_with, contains, ends_with}

abbrev pub registry_coalesce_millis : ℕ
registry_coalesce_millis = 50

pub data DeviceAvailability : Type 0 where
  available unavailable unknown : DeviceAvailability

pub record AdvertisedFormat : Type 0 where
  pub sample_rate : ℕ  -- u32
  pub channels : ℕ  -- u16
  pub positions : List String

pub record NodeDescriptor : Type 0 where
  pub global_id : ℕ  -- u32
  pub object_serial : Option ℕ  -- u64
  pub node_name : String
  pub description : Option String
  pub nick : Option String
  pub media_class : Option String
  pub media_role : Option String
  pub virtual_node : Bool
  pub device_id : Option ℕ  -- u32
  pub device_name : Option String
  pub device_serial : Option String
  pub device_api : Option String
  pub formats : List AdvertisedFormat
  pub availability : DeviceAvailability
  pub is_default : Bool
  pub label : String

abbrev pub option_eq {ℓ} : {A : Type ℓ} → (A → A → Bool) → Option A → Option A → Bool
option_eq f none none = true
option_eq f (some a) (some b) = f a b
option_eq f _ _ = false

abbrev pub list_eq {ℓ} : {A : Type ℓ} → (A → A → Bool) → List A → List A → Bool
list_eq f [] [] = true
list_eq f (x ∷ xs) (y ∷ ys) = f x y && list_eq f xs ys
list_eq f _ _ = false

abbrev pub bool_eq : Bool → Bool → Bool
bool_eq true b = b
bool_eq false b = not b

abbrev pub availability_eq : DeviceAvailability → DeviceAvailability → Bool
availability_eq available available = true
availability_eq unavailable unavailable = true
availability_eq unknown unknown = true
availability_eq _ _ = false

abbrev pub format_eq : AdvertisedFormat → AdvertisedFormat → Bool
format_eq a b =
    a.sample_rate == b.sample_rate
    && a.channels == b.channels
    && list_eq str_eq a.positions b.positions

-- The derived `PartialEq`.
unfoldable pub node_eq : NodeDescriptor → NodeDescriptor → Bool
node_eq a b =
    a.global_id == b.global_id
    && option_eq (λ x y. x == y) a.object_serial b.object_serial
    && str_eq a.node_name b.node_name
    && option_eq str_eq a.description b.description
    && option_eq str_eq a.nick b.nick
    && option_eq str_eq a.media_class b.media_class
    && option_eq str_eq a.media_role b.media_role
    && bool_eq a.virtual_node b.virtual_node
    && option_eq (λ x y. x == y) a.device_id b.device_id
    && option_eq str_eq a.device_name b.device_name
    && option_eq str_eq a.device_serial b.device_serial
    && option_eq str_eq a.device_api b.device_api
    && list_eq format_eq a.formats b.formats
    && availability_eq a.availability b.availability
    && bool_eq a.is_default b.is_default
    && str_eq a.label b.label

unfoldable pub is_monitor_name : String → Bool
is_monitor_name name =
    ends_with (lower_codes ".monitor") (lower_codes name)
    || contains (lower_codes ".monitor.") (lower_codes name)

unfoldable pub is_monitor_description : String → Bool
is_monitor_description description =
    starts_with (lower_codes "monitor of ") (lower_codes description)

-- `is_some_and`.
abbrev pub is_some_and {ℓ} : {A : Type ℓ} → (A → Bool) → Option A → Bool
is_some_and f none = false
is_some_and f (some a) = f a

abbrev pub is_unavailable : DeviceAvailability → Bool
is_unavailable unavailable = true
is_unavailable _ = false

unfoldable pub is_candidate : NodeDescriptor → Bool
is_candidate n =
    is_some_and (str_eq "Audio/Source") n.media_class
    && not n.virtual_node
    && not (str_eq n.node_name "io.github.rayan6ms.Noire.Microphone")
    && not (is_monitor_name n.node_name)
    && not (is_some_and is_monitor_description n.description)
    && not (is_unavailable n.availability)

pub record DeviceSelector : Type 0 where
  pub node_name : String
  pub device_serial : Option String
  pub device_name : Option String

unfoldable pub selector : NodeDescriptor → DeviceSelector
selector n = record {
  node_name = n.node_name;
  device_serial = n.device_serial;
  device_name = n.device_name;
}

-- The tests of `matches` below the one of the node name.
matches_device : Option String → Option String → NodeDescriptor → Bool
matches_device (some serial) name n = is_some_and (str_eq serial) n.device_serial
matches_device none (some name) n = is_some_and (str_eq name) n.device_name
matches_device none none n = true

unfoldable pub matches : DeviceSelector → NodeDescriptor → Bool
unfolding matches_device
matches s n =
    if not (str_eq s.node_name n.node_name)
    then false
    else matches_device s.device_serial s.device_name n

pub record RegistryMonitor : Type 0 where
  pub nodes : List NodeDescriptor
  pub default_node_name : Option String
  pub dirty_since_millis : Option ℕ
  pub revision : ℕ

unfoldable pub new : RegistryMonitor
new = record { nodes = []; default_node_name = none; dirty_since_millis = none; revision = 0 }

-- `BTreeMap::get`, `insert` and `remove`.
unfoldable pub get_node : ℕ → List NodeDescriptor → Option NodeDescriptor
get_node id [] = none
get_node id (n ∷ ns) = let rest = get_node id ns in if n.global_id == id then some n else rest

unfoldable pub insert_node : NodeDescriptor → List NodeDescriptor → List NodeDescriptor
insert_node m [] = m ∷ []
insert_node m (n ∷ ns) =
    let rest = insert_node m ns in
    if ltb m.global_id n.global_id
    then m ∷ n ∷ ns
    else if m.global_id == n.global_id
    then m ∷ ns
    else n ∷ rest

unfoldable pub remove_node : ℕ → List NodeDescriptor → List NodeDescriptor
remove_node id [] = []
remove_node id (n ∷ ns) = let rest = remove_node id ns in if n.global_id == id then ns else n ∷ rest

-- `get_or_insert`.
abbrev pub get_or_insert : Option ℕ → ℕ → Option ℕ
get_or_insert none now = some now
get_or_insert (some t) now = some t

unfoldable pub mark_dirty : RegistryMonitor → ℕ → RegistryMonitor
mark_dirty m now = record m { dirty_since_millis = get_or_insert m.dirty_since_millis now }

unfoldable pub upsert : RegistryMonitor → NodeDescriptor → ℕ → RegistryMonitor
unfolding mark_dirty
upsert m node now =
    if option_eq node_eq (get_node node.global_id m.nodes) (some node)
    then m
    else mark_dirty (record m { nodes = insert_node node m.nodes }) now

unfoldable pub remove : RegistryMonitor → ℕ → ℕ → RegistryMonitor
unfolding mark_dirty
remove m id now = elim (get_node id m.nodes) [
  | none ↦ m
  | some n ↦ mark_dirty (record m { nodes = remove_node id m.nodes }) now
]

unfoldable pub set_default_node_name : RegistryMonitor → Option String → ℕ → RegistryMonitor
unfolding mark_dirty
set_default_node_name m name now =
    if option_eq str_eq m.default_node_name name
    then m
    else mark_dirty (record m { default_node_name = name }) now

-- A published revision with the nodes that the snapshot is built from.
pub record Published : Type 0 where
  pub revision : ℕ
  pub nodes : List NodeDescriptor

abbrev pub flag_default : Option String → NodeDescriptor → NodeDescriptor
flag_default name n = record n { is_default = is_some_and (λ d. str_eq d n.node_name) name }

unfoldable pub publish_now : RegistryMonitor → RegistryMonitor × Published
publish_now m =
    let revision = saturating_add u64_max m.revision 1 in
    (
      record m { dirty_since_millis = none; revision = revision },
      record { revision = revision; nodes = map (flag_default m.default_node_name) m.nodes },
    )

-- `publish_if_due` once the time of the first change is known.
publish_since : RegistryMonitor → Option ℕ → ℕ → RegistryMonitor × Option Published
unfolding publish_now
publish_since m none now = (m, none)
publish_since m (some since) now =
    if ltb (now - since) registry_coalesce_millis
    then (m, none)
    else let (next, published) = publish_now m in (next, some published)

unfoldable pub publish_if_due : RegistryMonitor → ℕ → RegistryMonitor × Option Published
unfolding publish_since
publish_if_due m now = publish_since m m.dirty_since_millis now
