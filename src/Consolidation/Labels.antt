-- ===== src/Consolidation/Labels.antt =====
-- Label propagation, `_lpa_clusters` (src/engrava/extensions/dreaming.py), on the adjacency that
-- `_build_clusters` makes of the edges. `shuffle` is what the seeded `random.Random`
-- does to the nodes in each round.
use engrava.Prelude.{
  ℕ, zero, suc, ◌==◌, ◌||◌, Bool, true, false, Option, none, some, List, [], ◌∷◌, ◌++◌, map, max,
  filter, any, length, if◌then◌else◌,
}
use engrava.Prelude.Order.{lex_leq, nat_order}
use engrava.Prelude.Text.{Text, text_eq}
use engrava.Consolidation.Clusters.{Group, put}

abbrev pub Edges : Type 0
Edges = List (Text × Text)

-- `set.add`, in the order in which the members came.
abbrev pub add : Text → List Text → List Text
add x xs = if any (text_eq x) xs then xs else xs ++ x ∷ []

-- The dictionaries, in the order in which their keys came.
abbrev pub Adjacency : Type 0
Adjacency = List (Text × List Text)

-- `adjacency.setdefault(a, set()).add(b)`.
unfoldable pub link : Text → Text → Adjacency → Adjacency
link a b [] = (a, b ∷ []) ∷ []
link a b ((k, found) ∷ rest) =
    if text_eq k a then (k, add b found) ∷ rest else (k, found) ∷ link a b rest

unfoldable pub adjacency_from : Edges → Adjacency → Adjacency
unfolding link
adjacency_from [] adjacency = adjacency
adjacency_from ((a, b) ∷ edges) adjacency = adjacency_from edges (link b a (link a b adjacency))

-- `adjacency.get(x, set())`.
unfoldable pub neighbours : Adjacency → Text → List Text
neighbours [] x = []
neighbours ((k, found) ∷ rest) x = if text_eq k x then found else neighbours rest x

abbrev pub Labels : Type 0
Labels = List (Text × Text)

-- `labels[x]`, none where it raises a KeyError.
unfoldable pub label_of : Labels → Text → Option Text
label_of [] x = none
label_of ((k, label) ∷ rest) x = if text_eq k x then some label else label_of rest x

-- `labels[x] = label`.
unfoldable pub set_label : Text → Text → Labels → Labels
set_label x label [] = (x, label) ∷ []
set_label x label ((k, old) ∷ rest) =
    if text_eq k x then (k, label) ∷ rest else (k, old) ∷ set_label x label rest

-- The labels of the neighbours, none where one of them has no label.
abbrev pub labels_with : Option Text → Option (List Text) → Option (List Text)
labels_with none found = none
labels_with (some label) none = none
labels_with (some label) (some found) = some (label ∷ found)

unfoldable pub labels_of : Labels → List Text → Option (List Text)
unfolding label_of
labels_of labels [] = some []
labels_of labels (nb ∷ nbs) = labels_with (label_of labels nb) (labels_of labels nbs)

-- `counts[label]`.
abbrev pub label_count : List Text → Text → ℕ
label_count found label = length (filter (text_eq label) found)

unfoldable pub max_count : (Text → ℕ) → List Text → ℕ
max_count count [] = 0
max_count count (x ∷ xs) = max (count x) (max_count count xs)

-- `min(...)`: none where there is nothing, a ValueError.
abbrev pub lesser : Text → Option Text → Text
lesser x none = x
lesser x (some y) = if lex_leq x y then x else y

unfoldable pub least : List Text → Option Text
least [] = none
least (x ∷ xs) = some (lesser x (least xs))

abbrev pub most_common : Option (List Text) → Option Text
most_common none = none
most_common (some found) =
    least (filter (λ label. label_count found label == max_count (label_count found) found) found)

unfoldable pub best_label : Labels → List Text → Option Text
unfolding max_count least labels_of
best_label labels nbs = most_common (labels_of labels nbs)

-- The label of one node, none where `min` or a dictionary raises.
abbrev pub moved_to : Labels → Text → Text → Option Text → Option (Labels × Bool)
moved_to labels node best none = none
moved_to labels node best (some old) =
    if text_eq old best then some (labels, false) else some (set_label node best labels, true)

abbrev pub relabelled : Labels → Text → Option Text → Option (Labels × Bool)
relabelled labels node none = none
relabelled labels node (some best) = moved_to labels node best (label_of labels node)

abbrev pub label_node : Labels → Text → List Text → Option (Labels × Bool)
label_node labels node [] = some (labels, false)
label_node labels node (nb ∷ nbs) = relabelled labels node (best_label labels (nb ∷ nbs))

abbrev pub or_changed : Bool → Option (Labels × Bool) → Option (Labels × Bool)
or_changed changed none = none
or_changed changed (some (labels, later)) = some (labels, changed || later)

-- One round over the shuffled nodes.
unfoldable pub label_round : Adjacency → List Text → Labels → Option (Labels × Bool)
unfolding best_label neighbours label_of set_label
label_round adjacency [] labels = some (labels, false)
label_round adjacency (node ∷ nodes) labels =
    elim (label_node labels node (neighbours adjacency node)) [
      | none ↦ none
      | some r ↦ or_changed r.1 (label_round adjacency nodes r.0)
    ]

unfoldable pub label_rounds :
    (shuffle : ℕ → List Text → List Text)
    → Adjacency
    → (rounds_left : ℕ) → List Text
    → Labels
    → Option Labels
unfolding label_round
label_rounds shuffle adjacency zero nodes labels = some labels
label_rounds shuffle adjacency (suc n) nodes labels =
    elim (label_round adjacency (shuffle n nodes) labels) [
      | none ↦ none
      | some r ↦ if r.1 then label_rounds shuffle adjacency n (shuffle n nodes) r.0 else some r.0
    ]

-- The loop over `labels.items()`.
unfoldable pub label_groups : Labels → List Group → List Group
unfolding put
label_groups [] gs = gs
label_groups ((node, label) ∷ labels) gs = label_groups labels (put label node gs)

abbrev pub clusters_of : Option Labels → Option (List (List Text))
clusters_of none = none
clusters_of (some labels) = some (map (λ g. g.members) (label_groups labels []))

-- `_lpa_clusters` with its 20 rounds.
unfoldable pub lpa_clusters :
    (shuffle : ℕ → List Text → List Text) → Adjacency → Option (List (List Text))
unfolding label_rounds label_groups
lpa_clusters shuffle adjacency =
    let nodes = map (λ e. e.0) adjacency in
    clusters_of (label_rounds shuffle adjacency 20 nodes (map (λ n. (n, n)) nodes))
