-- ===== src/Consolidation/Keys.antt =====
-- The dictionaries of the label propagation (src/engrava/extensions/dreaming.py) and their keys.
use engrava.Prelude.{
  suc, ◌≡◌, refl, sym, ap, subst, inl, inr, true, some, List, [], ◌∷◌, map, any, length, All,
  All-append, Bool-cases,
}
use engrava.Prelude.Order.{nat_order}
use engrava.Prelude.Text.{Text, text_eq, text_eq_iff, text_eq_refl}
use engrava.Consolidation.Labels.{
  Edges, Adjacency, add, link, adjacency_from, neighbours, Labels, label_of, set_label, labels_of,
}

add-All : (P : Text → Type 0) (x : Text) (xs : List Text) → P x → All P xs → All P (add x xs)
add-All P x xs p h = elim (Bool-cases (any (text_eq x) xs)) [
  | inl e ↦ rw e h
  | inr e ↦ rw e (All-append P xs (x ∷ []) h (p, tt))
]

-- The keys of a dictionary.
abbrev pub HasKey : {V : Type 0} → Text → List (Text × V) → Type 0
HasKey x entries = any (λ e. text_eq e.0 x) entries ≡ true

module _ (P : Text → Text → Type 0) where
  -- What holds of every key with every member of its set.
  abbrev pub Relates : Adjacency → Type 0
  Relates adjacency = All (λ e. All (P e.0) e.1) adjacency

  link-Relates :
      (a b : Text) (adjacency : Adjacency)
      → P a b
      → Relates adjacency
      → Relates (link a b adjacency)
  unfolding link
  link-Relates a b [] p h = ((p, tt), tt)
  link-Relates a b ((k, found) ∷ rest) p h = elim (Bool-cases (text_eq k a)) [
    | inl e ↦
        rw e (add-All (P k) b found (subst (λ z. P z b) (sym ((text_eq_iff k a).0 e)) p) h.0, h.1)
    | inr e ↦ rw e (h.0, link-Relates a b rest p h.1)
  ]

  pub adjacency_from-Relates :
      (edges : Edges) (adjacency : Adjacency)
      → All (λ e. P e.0 e.1 × P e.1 e.0) edges
      → Relates adjacency
      → Relates (adjacency_from edges adjacency)
  unfolding adjacency_from
  adjacency_from-Relates [] adjacency p h = h
  adjacency_from-Relates ((a, b) ∷ edges) adjacency p h =
      adjacency_from-Relates edges _ p.1
        (link-Relates b a _ p.0.1 (link-Relates a b adjacency p.0.0 h))

  pub neighbours-All :
      (x : Text) (adjacency : Adjacency) → Relates adjacency → All (P x) (neighbours adjacency x)
  unfolding neighbours
  neighbours-All x [] h = tt
  neighbours-All x ((k, found) ∷ rest) h = elim (Bool-cases (text_eq k x)) [
    | inl e ↦ rw e (subst (λ z. All (P z) found) ((text_eq_iff k x).0 e) h.0)
    | inr e ↦ rw e (neighbours-All x rest h.1)
  ]

key_here :
    {V : Type 0} (x k : Text) (v : V) (rest : List (Text × V))
    → text_eq k x ≡ true
    → HasKey x ((k, v) ∷ rest)
key_here x k v rest e = rw (e, any) refl

key_later :
    {V : Type 0} (x k : Text) (v : V) (rest : List (Text × V))
    → HasKey x rest
    → HasKey x ((k, v) ∷ rest)
key_later x k v rest h = elim (Bool-cases (text_eq k x)) [
  | inl e ↦ rw (e, any) refl
  | inr e ↦ rw (e, any) h
]

link-HasKey : (a b : Text) (adjacency : Adjacency) → HasKey a (link a b adjacency)
unfolding link
link-HasKey a b [] = key_here a a (b ∷ []) [] (text_eq_refl a)
link-HasKey a b ((k, found) ∷ rest) = elim (Bool-cases (text_eq k a)) [
  | inl e ↦ rw e (key_here a k (add b found) rest e)
  | inr e ↦ rw e (key_later a k found (link a b rest) (link-HasKey a b rest))
]

link_keeps :
    (a b x : Text) (adjacency : Adjacency) → HasKey x adjacency → HasKey x (link a b adjacency)
unfolding link
link_keeps a b x [] h = cc
link_keeps a b x ((k, found) ∷ rest) h = elim (Bool-cases (text_eq k a)) [
  | inl e ↦ rw e h
  | inr e ↦ elim (Bool-cases (text_eq k x)) [
    | inl l ↦ rw (e, l, any) refl
    | inr l ↦ rw (e, l, any) (link_keeps a b x rest (rw (l, any) at h))
  ]
]

from_keeps :
    (edges : Edges) (x : Text) (adjacency : Adjacency)
    → HasKey x adjacency
    → HasKey x (adjacency_from edges adjacency)
unfolding adjacency_from
from_keeps [] x adjacency h = h
from_keeps ((a, b) ∷ edges) x adjacency h =
    from_keeps edges x _ (link_keeps b a x _ (link_keeps a b x adjacency h))

pub adjacency_from-HasKey :
    (edges : Edges) (adjacency : Adjacency)
    → All
        (λ e.
          HasKey e.0 (adjacency_from edges adjacency) × HasKey e.1 (adjacency_from edges adjacency))
        edges
unfolding adjacency_from
adjacency_from-HasKey [] adjacency = tt
adjacency_from-HasKey ((a, b) ∷ edges) adjacency = (
  (
    from_keeps edges a _ (link_keeps b a a _ (link-HasKey a b adjacency)),
    from_keeps edges b _ (link-HasKey b a _),
  ),
  adjacency_from-HasKey edges _,
)

-- A key has a label, of which holds what holds of all entries.
pub label_of-found :
    (Q : Text × Text → Type 0) (x : Text) (labels : Labels)
    → HasKey x labels
    → All Q labels
    → (label : Text) × (label_of labels x ≡ some label) × Q (x, label)
unfolding label_of
label_of-found Q x [] h q = cc
label_of-found Q x ((k, label) ∷ rest) h q = elim (Bool-cases (text_eq k x)) [
  | inl e ↦ (label, rw e refl, subst (λ z. Q (z, label)) ((text_eq_iff k x).0 e) q.0)
  | inr e ↦
      let later = label_of-found Q x rest (rw (e, any) at h) q.1 in (later.0, rw e later.1, later.2)
]

pub labels_of-All :
    (P : Text → Type 0) (labels : Labels) (nbs : List Text)
    → All (λ nb. (label : Text) × (label_of labels nb ≡ some label) × P label) nbs
    → (found : List Text) × (labels_of labels nbs ≡ some found)
      × All P found
      × (length found ≡ length nbs)
unfolding labels_of
labels_of-All P labels [] h = ([], refl, tt, refl)
labels_of-All P labels (nb ∷ nbs) h =
    let rest = labels_of-All P labels nbs h.1 in
    (h.0.0 ∷ rest.0, rw (h.0.1, rest.1, labels_of) refl, (h.0.2, rest.2), ap suc rest.3)

pub set_label-All :
    (Q : Text × Text → Type 0) (x label : Text) (labels : Labels)
    → Q (x, label)
    → All Q labels
    → All Q (set_label x label labels)
unfolding set_label
set_label-All Q x label [] q h = (q, tt)
set_label-All Q x label ((k, old) ∷ rest) q h = elim (Bool-cases (text_eq k x)) [
  | inl e ↦ rw e (subst (λ z. Q (z, label)) (sym ((text_eq_iff k x).0 e)) q, h.1)
  | inr e ↦ rw e (h.0, set_label-All Q x label rest q h.1)
]

pub set_label-HasKey :
    (x label y : Text) (labels : Labels) → HasKey y labels → HasKey y (set_label x label labels)
unfolding set_label
set_label-HasKey x label y [] h = cc
set_label-HasKey x label y ((k, old) ∷ rest) h = elim (Bool-cases (text_eq k x)) [
  | inl e ↦ rw e h
  | inr e ↦ elim (Bool-cases (text_eq k y)) [
    | inl l ↦ rw (e, l, any) refl
    | inr l ↦ rw (e, l, any) (set_label-HasKey x label y rest (rw (l, any) at h))
  ]
]

pub own_labels-HasKey :
    (x : Text) (adjacency : Adjacency)
    → HasKey x adjacency
    → HasKey x (map (λ n. (n, n)) (map (λ e. e.0) adjacency))
own_labels-HasKey x [] h = cc
own_labels-HasKey x ((k, found) ∷ rest) h = elim (Bool-cases (text_eq k x)) [
  | inl e ↦ rw (e, any) refl
  | inr e ↦ rw (e, any) (own_labels-HasKey x rest (rw (e, any) at h))
]
