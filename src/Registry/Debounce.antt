-- ===== src/Registry/Debounce.antt =====
-- crates/noire-pipewire/src/registry.rs: the publication of changes.
use noire.Base.{
  ℕ, ◌+◌, ◌≤◌, ◌<◌, ◌≡◌, ◌⊎◌, refl, List, [], ◌∷◌, map, Option, none, some, saturating_add, u64_max,
  arith,
}
use noire.Base.Text.{String}
use noire.Registry.{
  NodeDescriptor, RegistryMonitor, mark_dirty, upsert, remove, set_default_node_name, publish_now,
  publish_if_due, flag_default, registry_coalesce_millis,
}

-- A registry event.
pub data Change : Type 0 where
  upserts : NodeDescriptor → Change
  removes : ℕ → Change
  defaults : Option String → Change

unfoldable pub change : RegistryMonitor → Change → ℕ → RegistryMonitor
change m (upserts n) now = upsert m n now
change m (removes id) now = remove m id now
change m (defaults name) now = set_default_node_name m name now

-- The changes of a history, each with its time.
unfoldable pub changes : RegistryMonitor → List (Change × ℕ) → RegistryMonitor
changes m [] = m
changes m ((c, now) ∷ cs) = changes (change m c now) cs

change_dirty :
    (m : RegistryMonitor) (c : Change) (now t : ℕ)
    → m.dirty_since_millis ≡ some t
    → ((change m c now).dirty_since_millis ≡ some t) × ((change m c now).revision ≡ m.revision)
unfolding change upsert remove set_default_node_name mark_dirty
change_dirty m (upserts n) now t h = ground arith
change_dirty m (removes id) now t h = ground arith
change_dirty m (defaults name) now t h = ground arith

changes_dirty :
    (m : RegistryMonitor) (cs : List (Change × ℕ)) (t : ℕ)
    → m.dirty_since_millis ≡ some t
    → ((changes m cs).dirty_since_millis ≡ some t) × ((changes m cs).revision ≡ m.revision)
unfolding changes
changes_dirty m [] t h = (h, refl)
changes_dirty m ((c, now) ∷ cs) t h =
    let first = change_dirty m c now t h in
    let rest = changes_dirty (change m c now) cs t first.0 in ground (arith, first, rest)

publish_due :
    (m : RegistryMonitor) (now t revision : ℕ)
    → m.dirty_since_millis ≡ some t
    → m.revision ≡ revision
    → let (next, published) = publish_if_due m now in
      ((now < t + registry_coalesce_millis) × (published ≡ none) × (next ≡ m))
      ⊎ ((t + registry_coalesce_millis ≤ now)
          × (next.dirty_since_millis ≡ none)
          × (published
              ≡ some (record {
                revision = saturating_add u64_max revision 1;
                nodes = map (flag_default m.default_node_name) m.nodes;
              })))
unfolding publish_if_due publish_now
publish_due m now t revision h k = ground arith

-- Once a monitor is dirty since t, whatever changes follow and whenever, a poll before t + 50
-- publishes nothing and keeps the state, and a poll from t + 50 on publishes: no stream of changes
-- postpones it. The publication has the next revision and every node that is then known, flagged
-- as the default by its name, and leaves the monitor clean.
pub changes_publish :
    (m : RegistryMonitor) (cs : List (Change × ℕ)) (now t : ℕ)
    → m.dirty_since_millis ≡ some t
    → let after = changes m cs in
      let (next, published) = publish_if_due after now in
      ((now < t + registry_coalesce_millis) × (published ≡ none) × (next ≡ after))
      ⊎ ((t + registry_coalesce_millis ≤ now)
          × (next.dirty_since_millis ≡ none)
          × (published
              ≡ some (record {
                revision = saturating_add u64_max m.revision 1;
                nodes = map (flag_default after.default_node_name) after.nodes;
              })))
changes_publish m cs now t h =
    let d = changes_dirty m cs t h in publish_due (changes m cs) now t m.revision d.0 d.1
