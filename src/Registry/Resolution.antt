-- ===== src/Registry/Resolution.antt =====
-- crates/noire-pipewire/src/registry.rs: what a policy resolves to.
use noire.Base.{
  ◌≡◌, ◌⊎◌, inl, inr, refl, sym, ap, ◌∙◌, Bool, true, false, List, [], ◌∷◌, ◌++◌, Option, none,
  some, arith, Bool-cases,
}
use noire.Base.Text.{String, str_eq, eq_iff}
use noire.Registry.{NodeDescriptor, DeviceSelector, matches, is_candidate}
use noire.Registry.Selection.{
  SelectionPolicy, selected, unavailable_because, not_configured, candidates_by_name, find,
  default_or, resolve_default, resolve_found, resolve_for, resolve,
}
use noire.Registry.Candidates.{Absent, Unique, AreCandidates, candidates_by_name_lem}

some-injective : {a b : NodeDescriptor} → some a ≡ some b → a ≡ b
some-injective h = cc

find_lem :
    (f : NodeDescriptor → Bool) (ns : List NodeDescriptor) (n : NodeDescriptor)
    → find f ns ≡ some n
    → AreCandidates ns
    → (f n ≡ true) × (is_candidate n ≡ true)
unfolding find
find_lem f [] n h a = cc
find_lem f (m ∷ ns) n h a = elim (Bool-cases (f m)) [
  | inl good ↦
      let same : some m ≡ some n = rw good at h in
      (ap f (sym (some-injective same)) ∙ good, ap is_candidate (sym (some-injective same)) ∙ a.0)
  | inr bad ↦ find_lem f ns n (rw bad at h) a.1
]

-- Why a policy allows a node: it is the selected one, or it is the default, and the policy follows
-- the default without a selection or falls back to it.
abbrev pub Allows : SelectionPolicy → NodeDescriptor → Type 0
Allows policy n =
    ((s : DeviceSelector) × (policy.selector ≡ some s) × (matches s n ≡ true))
    ⊎ ((n.is_default ≡ true)
        × (((policy.selector ≡ none) × (policy.follow_default ≡ true))
            ⊎ (policy.fallback_to_default ≡ true)))

selected-injective : {a b : NodeDescriptor} → selected a ≡ selected b → a ≡ b
selected-injective h = cc

default_or_lem :
    (r : Option NodeDescriptor) (n : NodeDescriptor) → default_or r ≡ selected n → r ≡ some n
default_or_lem none n h = cc
default_or_lem (some m) n h = ap some (selected-injective h)

resolve_default_lem :
    (ns : List NodeDescriptor) (n : NodeDescriptor)
    → resolve_default ns ≡ selected n
    → AreCandidates ns
    → (n.is_default ≡ true) × (is_candidate n ≡ true)
unfolding resolve_default
resolve_default_lem ns n h a =
    find_lem (λ m. m.is_default) ns n (default_or_lem (find (λ m. m.is_default) ns) n h) a

resolve_found_lem :
    (r : Option NodeDescriptor) (s : DeviceSelector) (ns : List NodeDescriptor) (fallback : Bool)
    (n : NodeDescriptor)
    → find (matches s) ns ≡ r
    → resolve_found r ns fallback ≡ selected n
    → AreCandidates ns
    → (is_candidate n ≡ true) × ((matches s n ≡ true) ⊎ ((n.is_default ≡ true) × (fallback ≡ true)))
unfolding resolve_found
resolve_found_lem (some m) s ns fallback n f h a =
    let (good, fit) = find_lem (matches s) ns n (f ∙ ap some (selected-injective h)) a in
    (fit, inl good)
resolve_found_lem none s ns true n f h a =
    let (d, fit) = resolve_default_lem ns n h a in (fit, inr (d, refl))
resolve_found_lem none s ns false n f h a = cc

resolve_for_lem :
    (r : Option DeviceSelector) (ns : List NodeDescriptor) (policy : SelectionPolicy)
    (n : NodeDescriptor)
    → policy.selector ≡ r
    → resolve_for r ns policy ≡ selected n
    → AreCandidates ns
    → (is_candidate n ≡ true) × Allows policy n
unfolding resolve_for
resolve_for_lem (some s) ns policy n p h a =
    let (fit, why) =
      resolve_found_lem (find (matches s) ns) s ns policy.fallback_to_default n refl h a in
    elim why [
      | inl good ↦ (fit, inl (s, p, good))
      | inr (d, fallback) ↦ (fit, inr (d, inr fallback))
    ]
resolve_for_lem none ns policy n p h a = elim (Bool-cases policy.follow_default) [
  | inl follow ↦
      let (d, fit) = resolve_default_lem ns n (rw follow at h) a in (fit, inr (d, inl (p, follow)))
  | inr off ↦ elim (absurd (rw off at h)) [ ]
]
  where
    absurd : unavailable_because not_configured ≡ selected n → ⊥
    absurd e = cc

-- Whatever nodes the registry has, a node that a policy resolves to is a microphone that can be
-- captured, never the node that this program publishes, a monitor or a virtual node; and it is the
-- one that the selector names, or the session's default, and that only if the policy follows the
-- default without a selector or allows to fall back to it.
pub resolve_safe :
    (nodes : List NodeDescriptor) (policy : SelectionPolicy) (n : NodeDescriptor)
    → resolve (candidates_by_name nodes) policy ≡ selected n
    → (is_candidate n ≡ true) × Allows policy n
unfolding resolve
resolve_safe nodes policy n h =
    resolve_for_lem policy.selector (candidates_by_name nodes) policy n refl h
      (candidates_by_name_lem nodes).0

matches-name :
    (s : DeviceSelector) (n : NodeDescriptor)
    → matches s n ≡ true
    → str_eq s.node_name n.node_name ≡ true
unfolding matches
matches-name s n h = ground arith

middle-Absent :
    (name : String) (before : List NodeDescriptor) (c : NodeDescriptor)
    (after : List NodeDescriptor)
    → Absent name (before ++ c ∷ after)
    → str_eq c.node_name name ≡ false
middle-Absent name [] c after a = a.0
middle-Absent name (n ∷ before) c after a = middle-Absent name before c after a.1

find-Unique :
    (s : DeviceSelector) (before : List NodeDescriptor) (c : NodeDescriptor)
    (after : List NodeDescriptor)
    → Unique (before ++ c ∷ after)
    → matches s c ≡ true
    → find (matches s) (before ++ c ∷ after) ≡ some c
unfolding find
find-Unique s [] c after u h = rw h refl
find-Unique s (n ∷ before) c after u h = elim (Bool-cases (matches s n)) [
  | inr other ↦ rw (other, find) (find-Unique s before c after u.1 h)
  | inl also ↦
      let away = middle-Absent n.node_name before c after u.0 in
      let same =
        sym ((eq_iff s.node_name c.node_name).0 (matches-name s c h))
        ∙ (eq_iff s.node_name n.node_name).0 (matches-name s n also) in
      ground (arith, away, (eq_iff c.node_name n.node_name).1 same)
]

-- A candidate that the selector of a policy matches is the one that it resolves to, wherever it
-- stands among candidates of different names, and whatever the rest of the policy says.
pub resolve_selector :
    (s : DeviceSelector) (policy : SelectionPolicy) (before : List NodeDescriptor)
    (c : NodeDescriptor) (after : List NodeDescriptor)
    → policy.selector ≡ some s
    → Unique (before ++ c ∷ after)
    → matches s c ≡ true
    → resolve (before ++ c ∷ after) policy ≡ selected c
unfolding resolve resolve_for resolve_found
resolve_selector s policy before c after p u h = ground (arith, p, find-Unique s before c after u h)
