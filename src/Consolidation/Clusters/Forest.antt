-- ===== src/Consolidation/Clusters/Forest.antt =====
-- The ways to the roots, in the union-find of src/engrava/extensions/dreaming.py.
use engrava.Prelude.{
  ℕ, zero, suc, ◌≤◌, ◌<◌, ◌≡◌, refl, sym, ap, subst, ◌∙◌, inl, inr, true, false, arith, Bool-cases,
}
use engrava.Prelude.Text.{Text, text_eq, text_eq_iff}
use engrava.Consolidation.Clusters.{Parent, assign, find}

-- Every way ends at the root `root x`, in fewer than `bound` steps.
pub record IsForest (root : Text → Text) (depth : Text → ℕ) (bound : ℕ) (p : Parent) : Type 0 where
  pub root_stays : (x : Text) → p (root x) ≡ root x
  pub same_root : (x : Text) → root (p x) ≡ root x
  pub at_root : (x : Text) → text_eq (p x) x ≡ true → root x ≡ x
  pub closer : (x : Text) → text_eq (p x) x ≡ false → depth (p x) < depth x
  pub near : (x : Text) → depth x < bound

pub assign-here : (x y : Text) (p : Parent) (z : Text) → text_eq z x ≡ true → assign x y p z ≡ y
assign-here x y p z e = rw e refl

pub assign-other : (x y : Text) (p : Parent) (z : Text) → text_eq z x ≡ false → assign x y p z ≡ p z
assign-other x y p z e = rw e refl

module _ (root : Text → Text) (depth : Text → ℕ) (bound : ℕ) where
  no_farther : (p : Parent) → IsForest root depth bound p → (x : Text) → depth (p x) ≤ depth x
  no_farther p h x = elim (Bool-cases (text_eq (p x) x)) [
    | inl e ↦
        let same : depth (p x) ≡ depth x = ap depth ((text_eq_iff (p x) x).0 e) in
        omega (arith, same)
    | inr e ↦ omega (arith, h.closer x e)
  ]

  -- Halving the way of one identity.
  halved-IsForest :
      (p : Parent) (x : Text)
      → IsForest root depth bound p
      → text_eq (p x) x ≡ false
      → IsForest root depth bound (assign x (p (p x)) p)
  halved-IsForest p x h off = record {
    root_stays = λ z. stays z;
    same_root = λ z. same z;
    at_root = λ z e. ends z e;
    closer = λ z e. nearer z e;
    near = h.near;
  }
    where
      q : Parent
      q = assign x (p (p x)) p

      less : depth (p (p x)) < depth x
      less = omega (arith, no_farther p h (p x), h.closer x off)

      stays : (z : Text) → q (root z) ≡ root z
      stays z = elim (Bool-cases (text_eq (root z) x)) [
        | inl e ↦
            let fixed : p x ≡ x =
              subst (λ w. p w ≡ w) ((text_eq_iff (root z) x).0 e) (h.root_stays z) in
            absurd (cc (off, (text_eq_iff (p x) x).1 fixed))
        | inr e ↦ assign-other x _ p (root z) e ∙ h.root_stays z
      ]

      same : (z : Text) → root (q z) ≡ root z
      same z = elim (Bool-cases (text_eq z x)) [
        | inl e ↦
            ap root (assign-here x _ p z e)
            ∙ (h.same_root (p x) ∙ (h.same_root x ∙ ap root (sym ((text_eq_iff z x).0 e))))
        | inr e ↦ ap root (assign-other x _ p z e) ∙ h.same_root z
      ]

      ends : (z : Text) → text_eq (q z) z ≡ true → root z ≡ z
      ends z e = elim (Bool-cases (text_eq z x)) [
        | inl k ↦
            let here : p (p x) ≡ z = sym (assign-here x _ p z k) ∙ (text_eq_iff (q z) z).0 e in
            let level : depth (p (p x)) ≡ depth x = ap depth (here ∙ (text_eq_iff z x).0 k) in
            absurd (omega (arith, less, level))
        | inr k ↦ h.at_root z (subst (λ w. text_eq w z ≡ true) (assign-other x _ p z k) e)
      ]

      nearer : (z : Text) → text_eq (q z) z ≡ false → depth (q z) < depth z
      nearer z e = elim (Bool-cases (text_eq z x)) [
        | inl k ↦
            let here : depth (q z) ≡ depth (p (p x)) = ap depth (assign-here x _ p z k) in
            let level : depth z ≡ depth x = ap depth ((text_eq_iff z x).0 k) in
            omega (arith, less, here, level)
        | inr k ↦
            let here : q z ≡ p z = assign-other x _ p z k in
            subst (λ w. depth w < depth z) (sym here)
              (h.closer z (subst (λ w. text_eq w z ≡ false) here e))
      ]

  -- With fuel for the way, `find` comes to the root, and leaves a forest with the same roots.
  pub find-root :
      (f : ℕ) (p : Parent) (x : Text)
      → IsForest root depth bound p
      → depth x < f
      → ((find f p x).1 ≡ root x) × IsForest root depth bound (find f p x).0
  unfolding find
  find-root zero p x h less = absurd (omega (arith, less))
  find-root (suc f) p x h less = elim (Bool-cases (text_eq (p x) x)) [
    | inl e ↦ rw (e, find) (sym (h.at_root x e), h)
    | inr e ↦
        let rest =
          find-root f (assign x (p (p x)) p) (p (p x)) (halved-IsForest p x h e)
            (omega (arith, no_farther p h (p x), h.closer x e, less)) in
        rw (e, find) (rest.0 ∙ (h.same_root (p x) ∙ h.same_root x), rest.1)
  ]
