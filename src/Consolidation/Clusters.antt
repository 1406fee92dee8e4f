-- ===== src/Consolidation/Clusters.antt =====
-- The agglomerative clusters of a consolidation (src/engrava/extensions/dreaming.py): the union-find
-- of `_agglomerative_clusters` and of `_agglomerative_clusters_python_legacy`, and their groups. The
-- pairs of similar vectors are a list; a dictionary whose keys are the identities is a function.
pub mod Forest
pub mod Components
pub mod Groups
pub mod Pairs
use engrava.Prelude.{
  ℕ, zero, suc, ◌+◌, Bool, true, false, Option, List, [], ◌∷◌, ◌++◌, filter, length, leb, map,
  if◌then◌else◌,
}
use engrava.Prelude.Text.{Text, text_eq}

-- `parent`.
abbrev pub Parent : Type 0
Parent = Text → Text

abbrev pub assign : Text → Text → Parent → Parent
assign x y p z = if text_eq z x then y else p z

-- `find`, which halves the way as it goes: the parents afterwards and the root. The fuel bounds the
-- steps.
unfoldable pub find : ℕ → Parent → Text → Parent × Text
find zero p x = (p, x)
find (suc f) p x = elim (text_eq (p x) x) [
  | true ↦ (p, x)
  | false ↦ find f (assign x (p (p x)) p) (p (p x))
]

abbrev pub linked : Parent → Text → Text → Parent
linked p ra rb = if text_eq ra rb then p else assign ra rb p

-- `union`.
unfoldable pub union : ℕ → Parent → Text → Text → Parent
unfolding find
union f p x y =
    let first = find f p x in let second = find f first.0 y in linked second.0 first.1 second.1

-- The unions of the pairs. A union at most doubles the longest way to a root, so the fuel is doubled.
unfoldable pub unite : ℕ → Parent → List (Text × Text) → ℕ × Parent
unite f p [] = (f, p)
unite f p ((x, y) ∷ pairs) = unite (f + f) (union f p x y) pairs

pub record Group : Type 0 where
  pub root : Text
  pub members : List Text

-- `groups.setdefault(root, set()).add(tid)`, for an identity that is in no group yet.
unfoldable pub put : Text → Text → List Group → List Group
put root tid [] = record { root = root; members = tid ∷ [] } ∷ []
put root tid (g ∷ gs) =
    if text_eq g.root root
    then record g { members = g.members ++ tid ∷ [] } ∷ gs
    else g ∷ put root tid gs

-- The loop over the identities, which halves ways as well.
unfoldable pub grouped : ℕ → Parent → List Text → List Group → List Group
unfolding find put
grouped f p [] gs = gs
grouped f p (tid ∷ ids) gs = let found = find f p tid in grouped f found.0 ids (put found.1 tid gs)

unfoldable pub agglomerative_clusters : List Text → List (Text × Text) → List (List Text)
unfolding unite grouped
agglomerative_clusters ids pairs =
    let united = unite 1 (λ x. x) pairs in map (λ g. g.members) (grouped united.0 united.1 ids [])

-- The bounds of `_build_clusters` on the sizes.
unfoldable pub bounded_clusters : ℕ → Option ℕ → List (List Text) → List (List Text)
bounded_clusters min_size Option.none clusters = filter (λ c. leb min_size (length c)) clusters
bounded_clusters min_size (Option.some max_size) clusters =
    filter (λ c. leb min_size (length c)) (filter (λ c. leb (length c) max_size) clusters)
