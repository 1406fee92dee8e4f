-- ===== src/Consolidation/Clusters/Components.antt =====
-- What the unions of src/engrava/extensions/dreaming.py join.
use engrava.Prelude.{
  ℕ, suc, ◌+◌, ◌<◌, ◌≡◌, refl, sym, ap, subst, ◌∙◌, inl, inr, true, false, List, [], ◌∷◌, arith,
  All, Bool-cases, if◌then◌else◌,
}
use engrava.Prelude.Members.{All-lookup}
use engrava.Prelude.Text.{Text, text_eq, text_eq_iff, text_eq_refl}
use mathlib.Core.List.{Memᴰ}
use engrava.Consolidation.Clusters.{Parent, assign, find, linked, union, unite}
use engrava.Consolidation.Clusters.Forest.{IsForest, assign-here, assign-other, find-root}

-- Joined by pairs, one after the other.
pub data Connected (pairs : List (Text × Text)) : Text → Text → Type 0 where
  same : (x : Text) → Connected pairs x x
  pair : (x y : Text) → Memᴰ (x, y) pairs → Connected pairs x y
  back : (x y : Text) → Connected pairs x y → Connected pairs y x
  through : (x y z : Text) → Connected pairs x y → Connected pairs y z → Connected pairs x z

abbrev redirect : Text → Text → Text → Text
redirect ra rb r = if text_eq r ra then rb else r

abbrev lengthened : Text → ℕ → Text → ℕ → ℕ
lengthened ra n r d = if text_eq r ra then d + n else d

redirect-here : (ra rb r : Text) → text_eq r ra ≡ true → redirect ra rb r ≡ rb
redirect-here ra rb r e = rw e refl

redirect-other : (ra rb r : Text) → text_eq r ra ≡ false → redirect ra rb r ≡ r
redirect-other ra rb r e = rw e refl

lengthened-here :
    (ra : Text) (n : ℕ) (r : Text) (d : ℕ) → text_eq r ra ≡ true → lengthened ra n r d ≡ d + n
lengthened-here ra n r d e = rw e refl

lengthened-other :
    (ra : Text) (n : ℕ) (r : Text) (d : ℕ) → text_eq r ra ≡ false → lengthened ra n r d ≡ d
lengthened-other ra n r d e = rw e refl

module _ (root : Text → Text) (depth : Text → ℕ) (bound : ℕ) where
  root-root : (p : Parent) → IsForest root depth bound p → (x : Text) → root (root x) ≡ root x
  root-root p h x = h.at_root (root x) ((text_eq_iff (p (root x)) (root x)).1 (h.root_stays x))

  -- Hanging the root `ra` under the root `rb`.
  module _ (p : Parent) (ra rb : Text) (h : IsForest root depth bound p) (a : root ra ≡ ra)
      (b : root rb ≡ rb) (differ : text_eq rb ra ≡ false) where
    abbrev hung : Parent
    hung = assign ra rb p

    abbrev root' : Text → Text
    root' z = redirect ra rb (root z)

    abbrev depth' : Text → ℕ
    depth' z = lengthened ra (suc (depth rb)) (root z) (depth z)

    stays : (z : Text) → hung (root' z) ≡ root' z
    stays z = elim (Bool-cases (text_eq (root z) ra)) [
      | inl e ↦
          let fixed : p rb ≡ rb = subst (λ w. p w ≡ w) b (h.root_stays rb) in
          subst (λ w. assign ra rb p w ≡ w) (sym (redirect-here ra rb (root z) e))
            (assign-other ra rb p rb differ ∙ fixed)
      | inr e ↦
          subst (λ w. assign ra rb p w ≡ w) (sym (redirect-other ra rb (root z) e))
            (assign-other ra rb p (root z) e ∙ h.root_stays z)
    ]

    same_root : (z : Text) → root' (hung z) ≡ root' z
    same_root z = elim (Bool-cases (text_eq z ra)) [
      | inl e ↦
          let to_b : redirect ra rb (root rb) ≡ rb =
            ap (redirect ra rb) b ∙ redirect-other ra rb rb differ in
          let at_a : redirect ra rb (root z) ≡ rb =
            ap (redirect ra rb) (ap root ((text_eq_iff z ra).0 e) ∙ a)
            ∙ redirect-here ra rb ra (text_eq_refl ra) in
          ap (λ w. redirect ra rb (root w)) (assign-here ra rb p z e) ∙ (to_b ∙ sym at_a)
      | inr e ↦
          ap (λ w. redirect ra rb (root w)) (assign-other ra rb p z e)
          ∙ ap (redirect ra rb) (h.same_root z)
    ]

    ends : (z : Text) → text_eq (hung z) z ≡ true → root' z ≡ z
    ends z e = elim (Bool-cases (text_eq z ra)) [
      | inl k ↦
          let here : rb ≡ z = sym (assign-here ra rb p z k) ∙ (text_eq_iff _ z).0 e in
          absurd (cc (differ, (text_eq_iff rb ra).1 (here ∙ (text_eq_iff z ra).0 k)))
      | inr k ↦
          let fixed : root z ≡ z =
            h.at_root z (subst (λ w. text_eq w z ≡ true) (assign-other ra rb p z k) e) in
          ap (redirect ra rb) fixed ∙ redirect-other ra rb z k
    ]

    nearer : (z : Text) → text_eq (hung z) z ≡ false → depth' (hung z) < depth' z
    nearer z e = elim (Bool-cases (text_eq z ra)) [
      | inl k ↦
          let from_b : depth' (hung z) ≡ depth rb =
            ap depth' (assign-here ra rb p z k)
            ∙ (ap (λ r. lengthened ra (suc (depth rb)) r (depth rb)) b
                ∙ lengthened-other ra (suc (depth rb)) rb (depth rb) differ) in
          let root_a : root z ≡ ra = ap root ((text_eq_iff z ra).0 k) ∙ a in
          let from_a : depth' z ≡ depth z + suc (depth rb) =
            lengthened-here ra (suc (depth rb)) (root z) (depth z)
              ((text_eq_iff (root z) ra).1 root_a) in
          omega (arith, from_b, from_a)
      | inr k ↦
          let next : hung z ≡ p z = assign-other ra rb p z k in
          let less : depth (p z) < depth z = h.closer z (subst (λ w. text_eq w z ≡ false) next e) in
          let from_p : depth' (hung z) ≡ lengthened ra (suc (depth rb)) (root z) (depth (p z)) =
            ap depth' next
            ∙ ap (λ r. lengthened ra (suc (depth rb)) r (depth (p z))) (h.same_root z) in
          elim (Bool-cases (text_eq (root z) ra)) [
            | inl l ↦ omega (
              arith,
              from_p,
              less,
              lengthened-here ra (suc (depth rb)) (root z) (depth (p z)) l,
              lengthened-here ra (suc (depth rb)) (root z) (depth z) l,
            )
            | inr l ↦ omega (
              arith,
              from_p,
              less,
              lengthened-other ra (suc (depth rb)) (root z) (depth (p z)) l,
              lengthened-other ra (suc (depth rb)) (root z) (depth z) l,
            )
          ]
    ]

    within : (z : Text) → depth' z < bound + bound
    within z = elim (Bool-cases (text_eq (root z) ra)) [
      | inl e ↦
          omega
            (arith, lengthened-here ra (suc (depth rb)) (root z) (depth z) e, h.near z, h.near rb)
      | inr e ↦ omega (arith, lengthened-other ra (suc (depth rb)) (root z) (depth z) e, h.near z)
    ]

    pub hung-IsForest : IsForest root' depth' (bound + bound) hung
    hung-IsForest = record {
      root_stays = stays;
      same_root = same_root;
      at_root = ends;
      closer = nearer;
      near = within;
    }

-- What the unions of `done` make of a forest with the roots `root`, in which every identity is
-- connected with its root.
pub record United (pairs : List (Text × Text)) (root : Text → Text) (done : List (Text × Text))
    (f : ℕ) (p : Parent) : Type 0 where
  pub root_after : Text → Text
  pub depth_after : Text → ℕ
  pub forest : IsForest root_after depth_after f p
  pub toward : (x : Text) → Connected pairs x (root_after x)
  pub kept : (x y : Text) → root x ≡ root y → root_after x ≡ root_after y
  pub merged : All (λ e. root_after e.0 ≡ root_after e.1) done

module _ (pairs : List (Text × Text)) where
  symmetric : (a b : Text) → text_eq a b ≡ false → text_eq b a ≡ false
  symmetric a b e = elim (Bool-cases (text_eq b a)) [
    | inl k ↦ absurd (cc (e, (text_eq_iff a b).1 (sym ((text_eq_iff b a).0 k))))
    | inr k ↦ k
  ]

  linked-United :
      (root : Text → Text) (depth : Text → ℕ) (f : ℕ) (q : Parent) (x y : Text)
      → IsForest root depth f q
      → ((z : Text) → Connected pairs z (root z))
      → Memᴰ (x, y) pairs
      → United pairs root ((x, y) ∷ []) (f + f) (linked q (root x) (root y))
  linked-United root depth f q x y h toward m = elim (Bool-cases (text_eq (root x) (root y))) [
    | inl e ↦ rw e (record {
      root_after = root;
      depth_after = depth;
      forest = record {
        root_stays = h.root_stays;
        same_root = h.same_root;
        at_root = h.at_root;
        closer = h.closer;
        near = λ z. omega (arith, h.near z);
      };
      toward = toward;
      kept = λ a b k. k;
      merged = ((text_eq_iff (root x) (root y)).0 e, tt);
    })
    | inr e ↦ rw e (joined (symmetric (root x) (root y) e))
  ]
    where
      joined :
          text_eq (root y) (root x) ≡ false
          → United pairs root ((x, y) ∷ []) (f + f) (assign (root x) (root y) q)
      joined differ = record {
        root_after =
            root' root depth f q (root x) (root y) h (root-root root depth f q h x)
              (root-root root depth f q h y) differ;
        depth_after =
            depth' root depth f q (root x) (root y) h (root-root root depth f q h x)
              (root-root root depth f q h y) differ;
        forest =
            hung-IsForest root depth f q (root x) (root y) h (root-root root depth f q h x)
              (root-root root depth f q h y) differ;
        toward = onward;
        kept = λ a b k. ap (redirect (root x) (root y)) k;
        merged = (
          redirect-here (root x) (root y) (root x) (text_eq_refl (root x))
              ∙ sym (redirect-other (root x) (root y) (root y) differ),
          tt,
        );
      }
        where
          across : Connected pairs (root x) (root y)
          across =
              Connected.through (root x) x (root y) (Connected.back x (root x) (toward x))
                (Connected.through x y (root y) (Connected.pair x y m) (toward y))

          onward : (z : Text) → Connected pairs z (redirect (root x) (root y) (root z))
          onward z = elim (Bool-cases (text_eq (root z) (root x))) [
            | inl k ↦ subst (Connected pairs z) (sym (redirect-here (root x) (root y) (root z) k)) (
                Connected.through z (root x) (root y)
                  (subst (Connected pairs z) ((text_eq_iff (root z) (root x)).0 k) (toward z))
                  across)
            | inr k ↦
                subst (Connected pairs z) (sym (redirect-other (root x) (root y) (root z) k))
                  (toward z)
          ]

  -- One union.
  union-United :
      (root : Text → Text) (depth : Text → ℕ) (f : ℕ) (p : Parent) (x y : Text)
      → IsForest root depth f p
      → ((z : Text) → Connected pairs z (root z))
      → Memᴰ (x, y) pairs
      → United pairs root ((x, y) ∷ []) (f + f) (union f p x y)
  unfolding union
  union-United root depth f p x y h toward m =
      let first = find-root root depth f f p x h (h.near x) in
      let second = find-root root depth f f (find f p x).0 y first.1 (h.near y) in
      let q = (find f (find f p x).0 y).0 in
      subst
        (λ ra. United pairs root ((x, y) ∷ []) (f + f) (linked q ra (find f (find f p x).0 y).1))
        (sym first.0)
        (subst (λ rb. United pairs root ((x, y) ∷ []) (f + f) (linked q (root x) rb)) (sym second.0)
          (linked-United root depth f q x y second.1 toward m))

  -- All of them.
  pub unite-United :
      (todo : List (Text × Text)) (root : Text → Text) (depth : Text → ℕ) (f : ℕ) (p : Parent)
      → IsForest root depth f p
      → ((z : Text) → Connected pairs z (root z))
      → All (λ e. Memᴰ e pairs) todo
      → United pairs root todo (unite f p todo).0 (unite f p todo).1
  unfolding unite
  unite-United [] root depth f p h toward m = record {
    root_after = root;
    depth_after = depth;
    forest = h;
    toward = toward;
    kept = λ x y k. k;
    merged = tt;
  }
  unite-United ((x, y) ∷ todo) root depth f p h toward m =
      let one = union-United root depth f p x y h toward m.0 in
      let rest =
        unite-United todo one.root_after one.depth_after (f + f) (union f p x y) one.forest
          one.toward m.1 in
      record {
        root_after = rest.root_after;
        depth_after = rest.depth_after;
        forest = rest.forest;
        toward = rest.toward;
        kept = λ a b k. rest.kept a b (one.kept a b k);
        merged = (rest.kept x y one.merged.0, rest.merged);
      }

  -- The roots after the unions of all pairs are the same for the identities that are connected.
  pub connected_root :
      (root : Text → Text)
      → All (λ e. root e.0 ≡ root e.1) pairs
      → (x y : Text) → Connected pairs x y
      → root x ≡ root y
  connected_root root h x y (Connected.same z) = refl
  connected_root root h x y (Connected.pair a b m) = All-lookup _ pairs h m
  connected_root root h x y (Connected.back a b k) = sym (connected_root root h a b k)
  connected_root root h x y (Connected.through a b c k l) =
      connected_root root h a b k ∙ connected_root root h b c l
