-- ===== src/Consolidation/Lpa.antt =====
-- The clusters of label propagation (src/engrava/extensions/dreaming.py).
use engrava.Prelude.{
  ℕ, ◌≡◌, refl, sym, subst, inl, inr, some, List, [], ◌∷◌, map, All, All-mono, All-append,
  Bool-cases,
}
use engrava.Prelude.Members.{All-lookup, All-of_mem}
use engrava.Prelude.Text.{Text, text_eq, text_eq_iff}
use mathlib.Core.List.{Memᴰ}
use engrava.Consolidation.Clusters.{Group, put}
use engrava.Consolidation.Clusters.Components.{Connected}
use engrava.Consolidation.Clusters.Groups.{Placed, put-Placed, still-Placed, All-map, mem-map}
use engrava.Consolidation.Labels.{Edges, Labels, adjacency_from, label_groups, lpa_clusters}
use engrava.Consolidation.Keys.{
  HasKey, adjacency_from-Relates, adjacency_from-HasKey, label_of-found, own_labels-HasKey,
}
use engrava.Consolidation.Near.{rounds-AreNear}

-- A group whose members are connected with its label.
abbrev IsAbout : Edges → Group → Type 0
IsAbout edges g = All (λ x. Connected edges x g.root) g.members

put-IsAbout :
    (edges : Edges) (label x : Text) (gs : List Group)
    → Connected edges x label
    → All (IsAbout edges) gs
    → All (IsAbout edges) (put label x gs)
unfolding put
put-IsAbout edges label x [] c h = ((c, tt), tt)
put-IsAbout edges label x (g ∷ gs) c h = elim (Bool-cases (text_eq g.root label)) [
  | inl e ↦ rw e (
    All-append _ g.members (x ∷ []) h.0
        (subst (Connected edges x) (sym ((text_eq_iff g.root label).0 e)) c, tt),
    h.1,
  )
  | inr e ↦ rw e (h.0, put-IsAbout edges label x gs c h.1)
]

groups-IsAbout :
    (edges : Edges) (labels : Labels) (gs : List Group)
    → All (λ e. Connected edges e.0 e.1) labels
    → All (IsAbout edges) gs
    → All (IsAbout edges) (label_groups labels gs)
unfolding label_groups
groups-IsAbout edges [] gs c h = h
groups-IsAbout edges ((x, label) ∷ labels) gs c h =
    groups-IsAbout edges labels (put label x gs) c.1 (put-IsAbout edges label x gs c.0 h)

groups_keep :
    (root : Text → Text) (x : Text) (labels : Labels) (gs : List Group)
    → Placed root x gs
    → Placed root x (label_groups labels gs)
unfolding label_groups
groups_keep root x [] gs h = h
groups_keep root x ((y, label) ∷ labels) gs h =
    groups_keep root x labels (put label y gs) (still-Placed root label y x gs h)

groups-Placed :
    (labels : Labels) (gs : List Group)
    → All (λ e. Placed (λ _. e.1) e.0 (label_groups labels gs)) labels
unfolding label_groups
groups-Placed [] gs = tt
groups-Placed ((x, label) ∷ labels) gs = (
  groups_keep (λ _. label) x labels (put label x gs) (put-Placed (λ _. label) x gs),
  groups-Placed labels (put label x gs),
)

-- A cluster that an identity is in.
abbrev pub IsIn : List (List Text) → Text → Type 0
IsIn clusters x = (c : List Text) × Memᴰ c clusters × Memᴰ x c

-- On the adjacency of any edges, label propagation, however the nodes are shuffled, raises no error,
-- neither of `min` nor for a missing key; two nodes that it puts into one cluster are connected by the
-- edges; and both ends of every edge are in a cluster.
pub lpa_clusters_sound :
    (shuffle : ℕ → List Text → List Text) (edges : Edges)
    → (clusters : List (List Text)) × (lpa_clusters shuffle (adjacency_from edges [])
        ≡ some clusters)
      × All (λ c. (x y : Text) → Memᴰ x c → Memᴰ y c → Connected edges x y) clusters
      × All (λ e. IsIn clusters e.0 × IsIn clusters e.1) edges
unfolding lpa_clusters
lpa_clusters_sound shuffle edges =
    let adjacency = adjacency_from edges [] in
    let nodes = map (λ e. e.0) adjacency in
    let keys = adjacency_from-HasKey edges [] in
    let own = map (λ n. (n, n)) nodes in
    let relates =
      adjacency_from-Relates (λ x y. Connected edges x y × HasKey x adjacency × HasKey y adjacency)
        edges [] (ends edges keys (All-of_mem _ edges (λ e m. m))) tt in
    let (labels, returned, near) =
      rounds-AreNear edges adjacency relates shuffle 20 nodes own record {
        near = All-map (λ n. (n, n)) _ nodes (same nodes);
        labelled = λ x k. own_labels-HasKey x adjacency k;
      } in
    let gs = label_groups labels [] in
    let about = groups-IsAbout edges labels [] near.near tt in
    let is_in : (x : Text) → HasKey x adjacency → IsIn (map (λ g. g.members) gs) x = λ x k.
      let found =
        label_of-found (λ e. Placed (λ _. e.1) e.0 gs) x labels (near.labelled x k)
          (groups-Placed labels []) in
      (found.2.0.members, mem-map (λ g. g.members) found.2.0 gs found.2.1, found.2.2) in
    (
      map (λ g. g.members) gs,
      rw returned refl,
      All-map (λ g. g.members) _ gs
          (All-mono gs
            (λ g h x y m n.
              Connected.through x g.root y (All-lookup _ g.members h m)
                (Connected.back y g.root (All-lookup _ g.members h n)))
            about),
      All-mono edges (λ e k. (is_in e.0 k.0, is_in e.1 k.1)) keys,
    )
  where
    same : (nodes : List Text) → All (λ n. Connected edges n n) nodes
    same [] = tt
    same (n ∷ nodes) = (Connected.same n, same nodes)

    ends :
        (todo : Edges)
        → All
            (λ e. HasKey e.0 (adjacency_from edges []) × HasKey e.1 (adjacency_from edges []))
            todo
        → All (λ e. Memᴰ e edges) todo
        → All
            (λ e.
              (Connected edges e.0 e.1
                × HasKey e.0 (adjacency_from edges [])
                × HasKey e.1 (adjacency_from edges []))
              × (Connected edges e.1 e.0
                  × HasKey e.1 (adjacency_from edges [])
                  × HasKey e.0 (adjacency_from edges [])))
            todo
    ends [] k m = tt
    ends ((a, b) ∷ todo) k m =
        let c = Connected.pair a b m.0 in
        (((c, k.0.0, k.0.1), (Connected.back a b c, k.0.1, k.0.0)), ends todo k.1 m.1)
