-- ===== src/Attractor/Toposort.antt =====
-- internal/attractor/toposort.go: the components of a gene in the order of their dependencies. The
-- maps byName, inDegree and dependents are functions. An in-degree is an int that may fall below 0,
-- so it is the number of increments and, apart, that of decrements.
pub mod Counts
pub mod Ordered
pub mod Fuel
pub mod Cycle
pub mod Stuck
pub mod Failures
mod Tests
use octopusgarden.Prelude.{
  ◌+◌, ◌++◌, ◌==◌, [], all, any, Bool, if◌then◌else◌, inl, inr, length, List, map, none, Option,
  some, suc, Text, text_eq, zero, ℕ, ◌∷◌, ◌⊎◌,
}

-- gene.Component
pub record Component : Type 0 where
  pub name : Text
  pub interface_text : Text
  pub patterns : Text
  pub depends_on : List Text

pub data TopoError : Type 0 where
  unknown_dependency : (name dependency : Text) → TopoError
  dependency_cycle : TopoError

abbrev pub has_name : Text → List Text → Bool
has_name k names = any (λ n. text_eq n k) names

abbrev pub names_of : List Component → List Text
names_of cs = map (λ c. c.name) cs

-- byName, where the last component of a name counts.
abbrev pub or_else : Option Component → Option Component → Option Component
or_else none other = other
or_else (some c) other = some c

unfoldable pub by_name : List Component → Text → Option Component
by_name [] k = none
by_name (c ∷ cs) k = or_else (by_name cs k) (if text_eq c.name k then some c else none)

-- The increments of inDegree.
unfoldable pub incoming : List Component → Text → ℕ
incoming [] k = 0
incoming (c ∷ cs) k = (if text_eq c.name k then length c.depends_on else 0) + incoming cs k

-- The first dependency on a component that is not there.
unfoldable pub unknown_of : List Text → (name : Text) → List Text → Option TopoError
unknown_of names name [] = none
unknown_of names name (d ∷ ds) =
    let rest = unknown_of names name ds in
    if has_name d names then rest else some (unknown_dependency name d)

abbrev pub or_error : Option TopoError → Option TopoError → Option TopoError
or_error none other = other
or_error (some e) other = some e

unfoldable pub find_unknown : List Text → List Component → Option TopoError
unfolding unknown_of
find_unknown names [] = none
find_unknown names (c ∷ cs) =
    or_error (unknown_of names c.name c.depends_on) (find_unknown names cs)

-- dependents[dep]
unfoldable pub named : (name dep : Text) → List Text → List Text
named name dep [] = []
named name dep (d ∷ ds) =
    let rest = named name dep ds in if text_eq d dep then name ∷ rest else rest

unfoldable pub dependents : List Component → Text → List Text
unfolding named
dependents [] dep = []
dependents (c ∷ cs) dep = named c.name dep c.depends_on ++ dependents cs dep

-- The components that the queue starts with.
unfoldable pub initial_queue : List Component → List Component → List Text
unfolding incoming
initial_queue all [] = []
initial_queue all (c ∷ cs) =
    let rest = initial_queue all cs in if incoming all c.name == 0 then c.name ∷ rest else rest

-- inDegree[k]--
abbrev pub decrement : Text → (Text → ℕ) → Text → ℕ
decrement k removed j = if text_eq k j then suc (removed j) else removed j

-- The loop over the dependents of a component.
unfoldable pub relax :
    (degree : Text → ℕ) → List Text → List Text → (Text → ℕ) → List Text × (Text → ℕ)
relax degree [] queue removed = (queue, removed)
relax degree (d ∷ ds) queue removed =
    relax degree ds (if decrement d removed d == degree d then queue ++ d ∷ [] else queue)
      (decrement d removed)

-- The names in the order in which they leave the queue.
unfoldable pub drain :
    (fuel : ℕ) → (degree : Text → ℕ) → (Text → List Text) → List Text × (Text → ℕ) → List Text
unfolding relax
drain zero degree next (queue, removed) = []
drain (suc fuel) degree next ([], removed) = []
drain (suc fuel) degree next (name ∷ queue, removed) =
    name ∷ drain fuel degree next (relax degree (next name) queue removed)

-- The fuel is one more than the components, and so enough: names beyond that number are an error
-- whatever they are.
unfoldable pub kahn_names : List Component → List Text
unfolding drain dependents incoming initial_queue
kahn_names cs = drain (suc (length cs)) (incoming cs) (dependents cs) (initial_queue cs cs, λ k. 0)

abbrev pub components_of : List Component → List Text → List (Option Component)
components_of cs names = map (by_name cs) names

unfoldable pub sorted_if : List Component → List Text → TopoError ⊎ List (Option Component)
unfolding by_name
sorted_if cs names =
    if length names == length cs then inr (components_of cs names) else inl dependency_cycle

abbrev pub sorted_unless : List Component → Option TopoError → TopoError ⊎ List (Option Component)
sorted_unless cs none = sorted_if cs (kahn_names cs)
sorted_unless cs (some e) = inl e

unfoldable pub topo_sort : List Component → TopoError ⊎ List (Option Component)
unfolding sorted_if kahn_names find_unknown
topo_sort cs = sorted_unless cs (find_unknown (names_of cs) cs)
