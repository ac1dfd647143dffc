-- ===== src/Registry/Candidates.antt =====
-- crates/noire-pipewire/src/registry.rs: the candidates of a snapshot.
use noire.Base.{◌≡◌, inl, inr, sym, true, false, not, ◌&&◌, List, [], ◌∷◌, All, arith, Bool-cases}
use noire.Base.Text.{String, str_eq, eq_iff}
use noire.Registry.{NodeDescriptor, is_candidate}
use noire.Registry.Selection.{add_candidate, candidates_from, candidates_by_name}

-- No candidate has this name.
abbrev pub Absent : String → List NodeDescriptor → Type 0
Absent name ns = All (λ n. str_eq n.node_name name ≡ false) ns

-- No two candidates have one name.
abbrev pub Unique : List NodeDescriptor → Type 0
Unique [] = Unit
Unique (n ∷ ns) = Absent n.node_name ns × Unique ns

abbrev pub AreCandidates : List NodeDescriptor → Type 0
AreCandidates ns = All (λ n. is_candidate n ≡ true) ns

add_candidate-AreCandidates :
    (c : NodeDescriptor) (ns : List NodeDescriptor)
    → is_candidate c ≡ true
    → AreCandidates ns
    → AreCandidates (add_candidate c ns)
unfolding add_candidate
add_candidate-AreCandidates c [] h a = (h, tt)
add_candidate-AreCandidates c (n ∷ ns) h a =
    let rest = add_candidate-AreCandidates c ns h a.1 in
    elim (Bool-cases (str_eq n.node_name c.node_name)) [
      | inr other ↦ rw (other, add_candidate) (a.0, rest)
      | inl same ↦ elim (Bool-cases (c.is_default && not n.is_default)) [
        | inl newer ↦ rw (same, newer, add_candidate) (h, a.1)
        | inr older ↦ rw (same, older, add_candidate) a
      ]
    ]

add_candidate-Absent :
    (c : NodeDescriptor) (name : String) (ns : List NodeDescriptor)
    → str_eq c.node_name name ≡ false
    → Absent name ns
    → Absent name (add_candidate c ns)
unfolding add_candidate
add_candidate-Absent c name [] h a = (h, tt)
add_candidate-Absent c name (n ∷ ns) h a =
    let rest = add_candidate-Absent c name ns h a.1 in
    elim (Bool-cases (str_eq n.node_name c.node_name)) [
      | inr other ↦ rw (other, add_candidate) (a.0, rest)
      | inl same ↦ elim (Bool-cases (c.is_default && not n.is_default)) [
        | inl newer ↦ rw (same, newer, add_candidate) (h, a.1)
        | inr older ↦ rw (same, older, add_candidate) a
      ]
    ]

str_eq-false : (a b : String) → str_eq a b ≡ false → str_eq b a ≡ false
str_eq-false a b h = elim (Bool-cases (str_eq b a)) [
  | inr other ↦ other
  | inl same ↦ ground (arith, (eq_iff b a).0 same, (eq_iff a b).1 (sym ((eq_iff b a).0 same)))
]

add_candidate-Unique :
    (c : NodeDescriptor) (ns : List NodeDescriptor) → Unique ns → Unique (add_candidate c ns)
unfolding add_candidate
add_candidate-Unique c [] u = (tt, tt)
add_candidate-Unique c (n ∷ ns) u =
    let rest = add_candidate-Unique c ns u.1 in
    elim (Bool-cases (str_eq n.node_name c.node_name)) [
      | inr other ↦
          rw (other, add_candidate)
            (
              add_candidate-Absent c n.node_name ns (str_eq-false n.node_name c.node_name other)
                  u.0,
              rest,
            )
      | inl same ↦ elim (Bool-cases (c.is_default && not n.is_default)) [
        | inl newer ↦
            rw (same, newer, add_candidate)
              (rw (← ((eq_iff n.node_name c.node_name).0 same)) u.0, u.1)
        | inr older ↦ rw (same, older, add_candidate) u
      ]
    ]

candidates_from_lem :
    (nodes found : List NodeDescriptor)
    → AreCandidates found
    → Unique found
    → AreCandidates (candidates_from found nodes) × Unique (candidates_from found nodes)
unfolding candidates_from
candidates_from_lem [] found a u = (a, u)
candidates_from_lem (n ∷ ns) found a u = elim (Bool-cases (is_candidate n)) [
  | inl good ↦
      rw (good, candidates_from)
        (candidates_from_lem ns (add_candidate n found) (add_candidate-AreCandidates n found good a)
          (add_candidate-Unique n found u))
  | inr bad ↦ rw (bad, candidates_from) (candidates_from_lem ns found a u)
]

-- Whatever nodes the registry has, the candidates are microphones that can be captured, and no two
-- of them have one name.
pub candidates_by_name_lem :
    (nodes : List NodeDescriptor)
    → AreCandidates (candidates_by_name nodes) × Unique (candidates_by_name nodes)
unfolding candidates_by_name
candidates_by_name_lem nodes = candidates_from_lem nodes [] tt tt
