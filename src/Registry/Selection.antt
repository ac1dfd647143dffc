-- ===== src/Registry/Selection.antt =====
-- crates/noire-pipewire/src/registry.rs: the candidates of a snapshot and their resolution. The
-- candidates are kept in the order in which their names first occur; that the source then sorts
-- them and qualifies equal labels is not modelled.
use noire.Base.{Bool, not, ◌&&◌, List, [], ◌∷◌, Option, none, some, if◌then◌else◌}
use noire.Base.Text.{str_eq}
use noire.Registry.{NodeDescriptor, DeviceSelector, matches, is_candidate}

pub record SelectionPolicy : Type 0 where
  pub selector : Option DeviceSelector
  pub follow_default : Bool
  pub fallback_to_default : Bool

pub data InputUnavailable : Type 0 where
  selected_input_missing default_input_missing not_configured : InputUnavailable

pub data InputResolution : Type 0 where
  selected : NodeDescriptor → InputResolution
  unavailable_because : InputUnavailable → InputResolution

-- One `entry(...).and_modify(...).or_insert(...)`.
unfoldable pub add_candidate : NodeDescriptor → List NodeDescriptor → List NodeDescriptor
add_candidate c [] = c ∷ []
add_candidate c (n ∷ ns) =
    let rest = add_candidate c ns in
    if str_eq n.node_name c.node_name
    then (if c.is_default && not n.is_default then c else n) ∷ ns
    else n ∷ rest

-- The loop over the nodes that are candidates.
unfoldable pub candidates_from : List NodeDescriptor → List NodeDescriptor → List NodeDescriptor
candidates_from found [] = found
candidates_from found (n ∷ ns) =
    candidates_from (if is_candidate n then add_candidate n found else found) ns

unfoldable pub candidates_by_name : List NodeDescriptor → List NodeDescriptor
unfolding candidates_from
candidates_by_name nodes = candidates_from [] nodes

-- `iter().find(...)`.
unfoldable pub find : (NodeDescriptor → Bool) → List NodeDescriptor → Option NodeDescriptor
find f [] = none
find f (n ∷ ns) = let rest = find f ns in if f n then some n else rest

abbrev pub default_or : Option NodeDescriptor → InputResolution
default_or none = unavailable_because default_input_missing
default_or (some n) = selected n

-- The end of `resolve`.
unfoldable pub resolve_default : List NodeDescriptor → InputResolution
resolve_default candidates = default_or (find (λ n. n.is_default) candidates)

-- The case of a selector, from the candidate that was found for it.
unfoldable pub resolve_found : Option NodeDescriptor → List NodeDescriptor → Bool → InputResolution
resolve_found (some n) candidates fallback = selected n
resolve_found none candidates fallback =
    if not fallback then unavailable_because selected_input_missing else resolve_default candidates

unfoldable pub resolve_for :
    Option DeviceSelector → List NodeDescriptor → SelectionPolicy → InputResolution
unfolding resolve_found
resolve_for (some s) candidates policy =
    resolve_found (find (matches s) candidates) candidates policy.fallback_to_default
resolve_for none candidates policy =
    if not policy.follow_default
    then unavailable_because not_configured
    else resolve_default candidates

unfoldable pub resolve : List NodeDescriptor → SelectionPolicy → InputResolution
unfolding resolve_for
resolve candidates policy = resolve_for policy.selector candidates policy
