-- ===== src/Consolidation/Near.antt =====
-- The labels of src/engrava/extensions/dreaming.py against the connected identities.
use engrava.Prelude.{
  ℕ, zero, suc, ◌==◌, ◌||◌, ◌≡◌, refl, sym, ap, ◌∙◌, inl, inr, Bool, true, false, Option, none,
  some, List, [], ◌∷◌, filter, length, arith, All, All-mono, All-filter, leb, Bool-cases, ==_iff,
}
use engrava.Prelude.Order.{lex_leq, nat_order}
use engrava.Prelude.Text.{Text, text_eq}
use mathlib.Core.List.{Memᴰ}
use engrava.Consolidation.Clusters.Components.{Connected}
use engrava.Consolidation.Labels.{
  Edges, Adjacency, neighbours, Labels, label_of, set_label, labels_of, label_count, max_count,
  least, lesser, most_common, best_label, relabelled, label_node, label_round, label_rounds,
}
use engrava.Consolidation.Keys.{
  HasKey, Relates, neighbours-All, label_of-found, labels_of-All, set_label-All, set_label-HasKey,
}

-- The greatest count is met.
max_met :
    (count : Text → ℕ) (x : Text) (xs : List Text)
    → (y : Text) × Memᴰ y (x ∷ xs) × (count y ≡ max_count count (x ∷ xs))
unfolding max_count
max_met count x [] = (x, Memᴰ.head refl, omega arith)
max_met count x (z ∷ zs) =
    let rest = max_met count z zs in
    elim (Bool-cases (leb (max_count count (z ∷ zs)) (count x))) [
      | inl e ↦ (x, Memᴰ.head refl, ground (arith, e))
      | inr e ↦ (rest.0, Memᴰ.tail rest.1, ground (arith, e, rest.2))
    ]

abbrev LeastIs : (Text → Type 0) → Option Text → Type 0
LeastIs P none = Unit
LeastIs P (some b) = P b

least-LeastIs : (P : Text → Type 0) (xs : List Text) → All P xs → LeastIs P (least xs)
unfolding least
least-LeastIs P [] h = tt
least-LeastIs P (x ∷ xs) h = at (least xs) (least-LeastIs P xs h.1)
  where
    at : (o : Option Text) → LeastIs P o → P (lesser x o)
    at none k = h.0
    at (some y) k = elim (Bool-cases (lex_leq x y)) [ inl e ↦ rw e h.0 | inr e ↦ rw e k ]

least_from :
    (P : Text → Type 0) (y : Text) (xs : List Text)
    → All P xs
    → Memᴰ y xs
    → (b : Text) × (least xs ≡ some b) × P b
unfolding least
least_from P y [] h m = elim m [ ]
least_from P y (x ∷ xs) h m = (lesser x (least xs), refl, least-LeastIs P (x ∷ xs) h)

mem-filter :
    (p : Text → Bool) (y : Text) (xs : List Text) → Memᴰ y xs → p y ≡ true → Memᴰ y (filter p xs)
mem-filter p y [] m e = elim m [ ]
mem-filter p y (x ∷ xs) (Memᴰ.head s) e =
    let here : p x ≡ true = ap p (sym s) ∙ e in rw (here, filter) (Memᴰ.head s)
mem-filter p y (x ∷ xs) (Memᴰ.tail m) e = elim (Bool-cases (p x)) [
  | inl k ↦ rw (k, filter) (Memᴰ.tail (mem-filter p y xs m e))
  | inr k ↦ rw (k, filter) (mem-filter p y xs m e)
]

best-found :
    (P : Text → Type 0) (label : Text) (found : List Text)
    → All P (label ∷ found)
    → (b : Text) × (most_common (some (label ∷ found)) ≡ some b) × P b
best-found P label found h =
    let count = label_count (label ∷ found) in
    let met = max_met count label found in
    least_from P met.0 _
      (All-filter P (λ l. count l == max_count count (label ∷ found)) (label ∷ found) h)
      (mem-filter (λ l. count l == max_count count (label ∷ found)) met.0 (label ∷ found) met.1
        ((==_iff _ _).1 met.2))

-- Against an adjacency that relates, by the edges, only keys of its own.
module _ (edges : Edges) (adjacency : Adjacency)
    (relates : Relates
      (λ x y. Connected edges x y × HasKey x adjacency × HasKey y adjacency)
      adjacency) where
  -- Every node has a label, and every node is connected with its label.
  pub record AreNear (labels : Labels) : Type 0 where
    pub near : All (λ e. Connected edges e.0 e.1) labels
    pub labelled : (x : Text) → HasKey x adjacency → HasKey x labels

  node-AreNear :
      (labels : Labels) (node : Text) (nbs : List Text)
      → AreNear labels
      → All (λ y. Connected edges node y × HasKey node adjacency × HasKey y adjacency) nbs
      → (r : Labels × Bool) × (label_node labels node nbs ≡ some r) × AreNear r.0
  unfolding best_label
  node-AreNear labels node [] h c = ((labels, false), refl, h)
  node-AreNear labels node (nb ∷ nbs) h c = at (labels_of-All _ labels (nb ∷ nbs) reached)
    where
      label :
          (x : Text)
          → HasKey x adjacency
          → (l : Text) × (label_of labels x ≡ some l) × Connected edges x l
      label x k = label_of-found (λ e. Connected edges e.0 e.1) x labels (h.labelled x k) h.near

      reached :
          All (λ y. (l : Text) × (label_of labels y ≡ some l) × Connected edges node l) (nb ∷ nbs)
      reached =
          All-mono (nb ∷ nbs)
            (λ y k. let l = label y k.2 in (l.0, l.1, Connected.through node y l.0 k.0 l.2)) c

      placed :
          (b : Text)
          → Connected edges node b
          → (r : Labels × Bool) × (relabelled labels node (some b) ≡ some r) × AreNear r.0
      placed b k =
          let own = label node c.0.1 in
          elim (Bool-cases (text_eq own.0 b)) [
            | inl e ↦ ((labels, false), rw (own.1, e) refl, h)
            | inr e ↦ (
              (set_label node b labels, true),
              rw (own.1, e) refl,
              record {
                near = set_label-All (λ z. Connected edges z.0 z.1) node b labels k h.near;
                labelled = λ x q. set_label-HasKey node b x labels (h.labelled x q);
              },
            )
          ]

      at :
          ((found : List Text) × (labels_of labels (nb ∷ nbs) ≡ some found)
            × All (Connected edges node) found
            × (length found ≡ length (nb ∷ nbs)))
          → (r : Labels × Bool) × (label_node labels node (nb ∷ nbs) ≡ some r) × AreNear r.0
      at ([], e, k, n) = absurd (omega (arith, n))
      at (l ∷ found, e, k, n) =
          let best = best-found (Connected edges node) l found k in
          let there = placed best.0 best.2 in
          (
            there.0,
            ap (λ o. relabelled labels node (most_common o)) e
                ∙ (ap (relabelled labels node) best.1 ∙ there.1),
            there.2,
          )

  round-AreNear :
      (nodes : List Text) (labels : Labels)
      → AreNear labels
      → (r : Labels × Bool) × (label_round adjacency nodes labels ≡ some r) × AreNear r.0
  unfolding label_round
  round-AreNear [] labels h = ((labels, false), refl, h)
  round-AreNear (node ∷ nodes) labels h =
      let one =
        node-AreNear labels node (neighbours adjacency node) h
          (neighbours-All _ node adjacency relates) in
      let rest = round-AreNear nodes one.0.0 one.2 in
      ((rest.0.0, one.0.1 || rest.0.1), rw (one.1, rest.1, label_round) refl, rest.2)

  pub rounds-AreNear :
      (shuffle : ℕ → List Text → List Text) (n : ℕ) (nodes : List Text) (labels : Labels)
      → AreNear labels
      → (last : Labels) × (label_rounds shuffle adjacency n nodes labels ≡ some last) × AreNear last
  unfolding label_rounds
  rounds-AreNear shuffle zero nodes labels h = (labels, refl, h)
  rounds-AreNear shuffle (suc n) nodes labels h =
      let one = round-AreNear (shuffle n nodes) labels h in
      let rest = rounds-AreNear shuffle n (shuffle n nodes) one.0.0 one.2 in
      elim (Bool-cases one.0.1) [
        | inl e ↦ (rest.0, rw (one.1, e, label_rounds) rest.1, rest.2)
        | inr e ↦ (one.0.0, rw (one.1, e, label_rounds) refl, one.2)
      ]
