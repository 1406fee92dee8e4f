-- ===== src/Consolidation/Clusters/Groups.antt =====
-- The clusters of src/engrava/extensions/dreaming.py against the connected identities.
use engrava.Prelude.{
  ℕ, ◌≡◌, refl, sym, ap, subst, ◌∙◌, inl, inr, false, List, [], ◌∷◌, ◌++◌, map, arith, All,
  All-mono, All-append, Bool-cases,
}
use engrava.Prelude.Members.{All-lookup, All-of_mem}
use engrava.Prelude.Text.{Text, text_eq, text_eq_iff, text_eq_refl}
use mathlib.Core.List.{Memᴰ}
use engrava.Consolidation.Clusters.{Parent, find, Group, put, grouped, agglomerative_clusters}
use engrava.Consolidation.Clusters.Forest.{IsForest, find-root}
use engrava.Consolidation.Clusters.Components.{Connected, unite-United, connected_root}

-- The groups by the roots themselves.
put_all : (Text → Text) → List Text → List Group → List Group
put_all root [] gs = gs
put_all root (x ∷ xs) gs = put_all root xs (put (root x) x gs)

grouped_by_root :
    (root : Text → Text) (depth : Text → ℕ) (f : ℕ) (p : Parent) (ids : List Text) (gs : List Group)
    → IsForest root depth f p
    → grouped f p ids gs ≡ put_all root ids gs
unfolding grouped put_all
grouped_by_root root depth f p [] gs h = refl
grouped_by_root root depth f p (x ∷ xs) gs h =
    let found = find-root root depth f f p x h (h.near x) in
    grouped_by_root root depth f (find f p x).0 xs (put (find f p x).1 x gs) found.1
    ∙ ap (λ r. put_all root xs (put r x gs)) found.0

module _ (root : Text → Text) where
  -- A group of identities with one root, and groups with roots of their own.
  abbrev pub IsRooted : Group → Type 0
  IsRooted g = All (λ x. root x ≡ g.root) g.members

  abbrev AreApart : List Group → Type 0
  AreApart [] = Unit
  AreApart (g ∷ gs) = All (λ k. text_eq g.root k.root ≡ false) gs × AreApart gs

  -- The group that an identity is in.
  abbrev pub Placed : Text → List Group → Type 0
  Placed x gs = (g : Group) × Memᴰ g gs × Memᴰ x g.members × (g.root ≡ root x)

  pub put-IsRooted :
      (x : Text) (gs : List Group) → All IsRooted gs → All IsRooted (put (root x) x gs)
  unfolding put
  put-IsRooted x [] h = ((refl, tt), tt)
  put-IsRooted x (g ∷ gs) h = elim (Bool-cases (text_eq g.root (root x))) [
    | inl e ↦
        rw e
          (All-append _ g.members (x ∷ []) h.0 (sym ((text_eq_iff g.root (root x)).0 e), tt), h.1)
    | inr e ↦ rw e (h.0, put-IsRooted x gs h.1)
  ]

  put-roots :
      (r x : Text) (P : Text → Type 0) (gs : List Group)
      → P r
      → All (λ g. P g.root) gs
      → All (λ g. P g.root) (put r x gs)
  unfolding put
  put-roots r x P [] p h = (p, tt)
  put-roots r x P (g ∷ gs) p h = elim (Bool-cases (text_eq g.root r)) [
    | inl e ↦ rw e h
    | inr e ↦ rw e (h.0, put-roots r x P gs p h.1)
  ]

  put-AreApart : (r x : Text) (gs : List Group) → AreApart gs → AreApart (put r x gs)
  unfolding put
  put-AreApart r x [] h = (tt, tt)
  put-AreApart r x (g ∷ gs) h = elim (Bool-cases (text_eq g.root r)) [
    | inl e ↦ rw e h
    | inr e ↦ rw e (put-roots r x (λ k. text_eq g.root k ≡ false) gs e h.0, put-AreApart r x gs h.1)
  ]

  mem_last : (x : Text) (xs : List Text) → Memᴰ x (xs ++ x ∷ [])
  mem_last x [] = Memᴰ.head refl
  mem_last x (y ∷ ys) = Memᴰ.tail (mem_last x ys)

  mem_front : (x y : Text) (xs : List Text) → Memᴰ x xs → Memᴰ x (xs ++ y ∷ [])
  mem_front x y [] m = elim m [ ]
  mem_front x y (z ∷ xs) (Memᴰ.head e) = Memᴰ.head e
  mem_front x y (z ∷ xs) (Memᴰ.tail m) = Memᴰ.tail (mem_front x y xs m)

  pub put-Placed : (x : Text) (gs : List Group) → Placed x (put (root x) x gs)
  unfolding put
  put-Placed x [] =
      (record { root = root x; members = x ∷ [] }, Memᴰ.head refl, Memᴰ.head refl, refl)
  put-Placed x (g ∷ gs) = elim (Bool-cases (text_eq g.root (root x))) [
    | inl e ↦ rw e (
      record g { members = g.members ++ x ∷ [] },
      Memᴰ.head refl,
      mem_last x g.members,
      (text_eq_iff g.root (root x)).0 e,
    )
    | inr e ↦ rw e (let rest = put-Placed x gs in (rest.0, Memᴰ.tail rest.1, rest.2, rest.3))
  ]

  pub still-Placed : (r y x : Text) (gs : List Group) → Placed x gs → Placed x (put r y gs)
  unfolding put
  still-Placed r y x [] (g, m, n, e) = elim m [ ]
  still-Placed r y x (k ∷ gs) (g, Memᴰ.head s, n, e) = elim (Bool-cases (text_eq k.root r)) [
    | inl l ↦ rw l (
      record k { members = k.members ++ y ∷ [] },
      Memᴰ.head refl,
      mem_front x y k.members (subst (λ h. Memᴰ x h.members) s n),
      ap (λ h. h.root) (sym s) ∙ e,
    )
    | inr l ↦ rw l (g, Memᴰ.head s, n, e)
  ]
  still-Placed r y x (k ∷ gs) (g, Memᴰ.tail m, n, e) = elim (Bool-cases (text_eq k.root r)) [
    | inl l ↦ rw l (g, Memᴰ.tail m, n, e)
    | inr l ↦ rw l (
        let rest = still-Placed r y x gs (g, m, n, e) in (rest.0, Memᴰ.tail rest.1, rest.2, rest.3))
  ]

  put_all-IsRooted :
      (ids : List Text) (gs : List Group) → All IsRooted gs → All IsRooted (put_all root ids gs)
  unfolding put_all
  put_all-IsRooted [] gs h = h
  put_all-IsRooted (x ∷ xs) gs h = put_all-IsRooted xs (put (root x) x gs) (put-IsRooted x gs h)

  put_all-AreApart :
      (ids : List Text) (gs : List Group) → AreApart gs → AreApart (put_all root ids gs)
  unfolding put_all
  put_all-AreApart [] gs h = h
  put_all-AreApart (x ∷ xs) gs h =
      put_all-AreApart xs (put (root x) x gs) (put-AreApart (root x) x gs h)

  still_put :
      (x : Text) (ids : List Text) (gs : List Group) → Placed x gs → Placed x (put_all root ids gs)
  unfolding put_all
  still_put x [] gs h = h
  still_put x (y ∷ ys) gs h = still_put x ys (put (root y) y gs) (still-Placed (root y) y x gs h)

  put_all-Placed :
      (ids : List Text) (gs : List Group) → All (λ x. Placed x (put_all root ids gs)) ids
  unfolding put_all
  put_all-Placed [] gs = tt
  put_all-Placed (x ∷ xs) gs =
      (still_put x xs (put (root x) x gs) (put-Placed x gs), put_all-Placed xs (put (root x) x gs))

  put-members :
      (P : Text → Type 0) (r x : Text) (gs : List Group)
      → P x
      → All (λ g. All P g.members) gs
      → All (λ g. All P g.members) (put r x gs)
  unfolding put
  put-members P r x [] p h = ((p, tt), tt)
  put-members P r x (g ∷ gs) p h = elim (Bool-cases (text_eq g.root r)) [
    | inl e ↦ rw e (All-append P g.members (x ∷ []) h.0 (p, tt), h.1)
    | inr e ↦ rw e (h.0, put-members P r x gs p h.1)
  ]

  put_all-members :
      (P : Text → Type 0) (ids : List Text) (gs : List Group)
      → All P ids
      → All (λ g. All P g.members) gs
      → All (λ g. All P g.members) (put_all root ids gs)
  unfolding put_all
  put_all-members P [] gs p h = h
  put_all-members P (x ∷ xs) gs p h =
      put_all-members P xs (put (root x) x gs) p.1 (put-members P (root x) x gs p.0 h)

  one_group :
      (g k : Group) (gs : List Group)
      → AreApart gs
      → Memᴰ g gs
      → Memᴰ k gs
      → g.root ≡ k.root
      → g ≡ k
  one_group g k [] a m n e = elim m [ ]
  one_group g k (h ∷ hs) a (Memᴰ.head s) (Memᴰ.head t) e = s ∙ sym t
  one_group g k (h ∷ hs) a (Memᴰ.head s) (Memᴰ.tail n) e =
      absurd (clash (All-lookup _ hs a.0 n) (sym (ap (λ w. w.root) s) ∙ e))
    where
      clash : text_eq h.root k.root ≡ false → h.root ≡ k.root → ⊥
      clash f l = absurd (cc (f, (text_eq_iff h.root k.root).1 l))
  one_group g k (h ∷ hs) a (Memᴰ.tail m) (Memᴰ.head t) e =
      absurd (clash (All-lookup _ hs a.0 m) (sym (ap (λ w. w.root) t) ∙ sym e))
    where
      clash : text_eq h.root g.root ≡ false → h.root ≡ g.root → ⊥
      clash f l = absurd (cc (f, (text_eq_iff h.root g.root).1 l))
  one_group g k (h ∷ hs) a (Memᴰ.tail m) (Memᴰ.tail n) e = one_group g k hs a.1 m n e

pub All-map :
    {A B : Type 0} (f : A → B) (P : B → Type 0) (xs : List A)
    → All (λ a. P (f a)) xs
    → All P (map f xs)
All-map f P [] h = tt
All-map f P (x ∷ xs) h = (h.0, All-map f P xs h.1)

pub mem-map : {A B : Type 0} (f : A → B) (a : A) (xs : List A) → Memᴰ a xs → Memᴰ (f a) (map f xs)
mem-map f a [] m = elim m [ ]
mem-map f a (x ∷ xs) (Memᴰ.head e) = Memᴰ.head (ap f e)
mem-map f a (x ∷ xs) (Memᴰ.tail m) = Memᴰ.tail (mem-map f a xs m)

-- No cluster is connected with a later one.
abbrev pub AreUnconnected : List (Text × Text) → List (List Text) → Type 0
AreUnconnected pairs [] = Unit
AreUnconnected pairs (c ∷ cs) =
    All (λ d. (x y : Text) → Memᴰ x c → Memᴰ y d → Connected pairs x y → ⊥) cs
    × AreUnconnected pairs cs

-- The clusters are the connected components of the identities.
pub record AreComponents (pairs : List (Text × Text)) (ids : List Text)
    (clusters : List (List Text)) : Type 0 where
  pub within : All (λ c. (x y : Text) → Memᴰ x c → Memᴰ y c → Connected pairs x y) clusters
  pub whole :
      (x y : Text)
      → Memᴰ x ids
      → Memᴰ y ids
      → Connected pairs x y
      → (c : List Text) × Memᴰ c clusters × Memᴰ x c × Memᴰ y c
  pub unconnected : AreUnconnected pairs clusters
  pub only : All (λ c. All (λ x. Memᴰ x ids) c) clusters

module _ (pairs : List (Text × Text)) (root : Text → Text)
    (toward : (x : Text) → Connected pairs x (root x))
    (merged : All (λ e. root e.0 ≡ root e.1) pairs) where
  rooted_within :
      (g : Group)
      → IsRooted root g
      → (x y : Text) → Memᴰ x g.members
      → Memᴰ y g.members
      → Connected pairs x y
  rooted_within g h x y m n =
      let level : root x ≡ root y = All-lookup _ g.members h m ∙ sym (All-lookup _ g.members h n) in
      Connected.through x (root x) y (toward x)
        (subst (λ r. Connected pairs r y) (sym level) (Connected.back y (root y) (toward y)))

  groups-AreUnconnected :
      (gs : List Group)
      → AreApart root gs
      → All (IsRooted root) gs
      → AreUnconnected pairs (map (λ g. g.members) gs)
  groups-AreUnconnected [] a h = tt
  groups-AreUnconnected (g ∷ gs) a h =
      (All-map (λ k. k.members) _ gs (apart gs a.0 h.1), groups-AreUnconnected gs a.1 h.1)
    where
      split :
          (k : Group)
          → text_eq g.root k.root ≡ false
          → IsRooted root k
          → (x y : Text) → Memᴰ x g.members
          → Memᴰ y k.members
          → Connected pairs x y
          → ⊥
      split k e hk x y m n c =
          let level : g.root ≡ k.root =
            sym (All-lookup _ g.members h.0 m)
            ∙ (connected_root pairs root merged x y c ∙ All-lookup _ k.members hk n) in
          absurd (cc (e, (text_eq_iff g.root k.root).1 level))

      apart :
          (ks : List Group)
          → All (λ k. text_eq g.root k.root ≡ false) ks
          → All (IsRooted root) ks
          → All
              (λ k. (x y : Text) → Memᴰ x g.members → Memᴰ y k.members → Connected pairs x y → ⊥)
              ks
      apart [] e hs = tt
      apart (k ∷ ks) e hs = (split k e.0 hs.0, apart ks e.1 hs.1)

  put_all-AreComponents :
      (ids : List Text) → AreComponents pairs ids (map (λ g. g.members) (put_all root ids []))
  put_all-AreComponents ids =
      let gs = put_all root ids [] in
      let rooted = put_all-IsRooted root ids [] tt in
      let apart = put_all-AreApart root ids [] tt in
      let placed = put_all-Placed root ids [] in
      record {
        within = All-map (λ g. g.members) _ gs (All-mono gs (λ g h. rooted_within g h) rooted);
        whole = λ x y m n c.
            let g = All-lookup (λ z. Placed root z gs) ids placed m in
            let k = All-lookup (λ z. Placed root z gs) ids placed n in
            let one : g.0 ≡ k.0 =
              one_group root g.0 k.0 gs apart g.1 k.1
                (g.3 ∙ (connected_root pairs root merged x y c ∙ sym k.3)) in
            (
              g.0.members,
              mem-map (λ h. h.members) g.0 gs g.1,
              g.2,
              subst (λ h. Memᴰ y h.members) (sym one) k.2,
            );
        unconnected = groups-AreUnconnected gs apart rooted;
        only =
            All-map (λ g. g.members) _ gs
              (put_all-members root (λ x. Memᴰ x ids) ids [] (All-of_mem _ ids (λ x m. m)) tt);
      }

-- The agglomerative clusters are the connected components of the identities by the pairs of similar
-- vectors: two identities of one cluster are connected, two that are connected are in one cluster, no
-- cluster is connected with another, and a cluster holds only these identities. The fuel is enough for every way to its root.
pub agglomerative_clusters-AreComponents :
    (ids : List Text) (pairs : List (Text × Text))
    → AreComponents pairs ids (agglomerative_clusters ids pairs)
unfolding agglomerative_clusters
agglomerative_clusters-AreComponents ids pairs =
    let start : IsForest (λ x. x) (λ x. 0) 1 (λ x. x) = record {
      root_stays = λ x. refl;
      same_root = λ x. refl;
      at_root = λ x e. refl;
      closer = λ x e. absurd (cc (e, text_eq_refl x));
      near = λ x. omega arith;
    } in
    let u =
      unite-United pairs pairs (λ x. x) (λ x. 0) 1 (λ x. x) start (λ x. Connected.same x)
        (All-of_mem _ pairs (λ e m. m)) in
    subst (λ gs. AreComponents pairs ids (map (λ g. g.members) gs))
      (sym (grouped_by_root u.root_after u.depth_after _ _ ids [] u.forest))
      (put_all-AreComponents pairs u.root_after u.toward u.merged ids)
