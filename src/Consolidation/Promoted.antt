-- ===== src/Consolidation/Promoted.antt =====
-- What a consolidation promotes, against the thoughts that it may promote
-- (src/engrava/extensions/dreaming.py).
use engrava.Prelude.{
  ℕ, ◌+◌, ◌≤◌, ◌<◌, ◌≡◌, refl, sym, ap, subst, ◌∙◌, inl, inr, true, false, Option, List, [], ◌∷◌,
  ◌++◌, leb, leb→le, leb_false→lt, length, length-append, max, arith, All, All-mono, Bool-cases,
}
use engrava.Prelude.Text.{Text}
use engrava.Floats.{Floats, num_lt}
use engrava.Thought.Defs.{Thought, p1, priority_eq}
use mathlib.Core.List.{Memᴰ, append-nil, append_assoc}
use engrava.Consolidation.Promote.{
  Metadata, DreamingConfig, in_promote_type_filter, is_eligible_for_dreaming, passes_gates,
  max_p1_count, available_slots, Verdict, skipped, filtered, below_threshold, stopped, already_p1,
  capped, wrong_type, promote, Promotions, verdict, scored, applied, is_stop, promotions_from,
  apply_promotions,
}

module _ {F : Floats} (config : DreamingConfig F) (metadata : Thought F → Option Metadata)
    (score : Thought F → F.Num) (current_cycle slots : ℕ) where
  -- A thought that the run may promote.
  pub record IsPromotable (t : Thought F) : Type 0 where
    pub gates_passed : passes_gates config t current_cycle ≡ true
    pub eligible : is_eligible_for_dreaming config (metadata t) ≡ true
    pub above : num_lt F config.promote_threshold (score t) ≡ true
    pub not_p1 : priority_eq t.priority p1 ≡ false
    pub promoted_type : in_promote_type_filter config.promote_targets t.thought_type ≡ true

  -- What a verdict tells.
  Judged : Thought F → List Text → Verdict → Type 0
  Judged t promoted skipped = IsPromotable t → ⊥
  Judged t promoted filtered = IsPromotable t → ⊥
  Judged t promoted below_threshold = IsPromotable t → ⊥
  Judged t promoted already_p1 = IsPromotable t → ⊥
  Judged t promoted wrong_type = IsPromotable t → ⊥
  Judged t promoted stopped = config.gates.max_promoted_per_run ≤ length promoted
  Judged t promoted capped = slots ≤ length promoted
  Judged t promoted promote =
      IsPromotable t
      × (length promoted < config.gates.max_promoted_per_run)
      × (length promoted < slots)

  verdict-Judged :
      (t : Thought F) (promoted : List Text)
      → Judged t promoted (verdict config metadata score current_cycle slots t promoted)
  unfolding verdict Judged
  verdict-Judged t promoted = elim (Bool-cases (passes_gates config t current_cycle)) [
    | inr e ↦ rw e (λ p. absurd (cc (e, p.gates_passed)))
    | inl g ↦ elim (Bool-cases (is_eligible_for_dreaming config (metadata t))) [
      | inr e ↦ rw (g, e) (λ p. absurd (cc (e, p.eligible)))
      | inl m ↦ elim (Bool-cases (num_lt F config.promote_threshold (score t))) [
        | inr e ↦ rw (g, m, e) (λ p. absurd (cc (e, p.above)))
        | inl a ↦ elim (Bool-cases (leb config.gates.max_promoted_per_run (length promoted))) [
          | inl e ↦ rw (g, m, a, e) (leb→le _ _ e)
          | inr l ↦ elim (Bool-cases (priority_eq t.priority p1)) [
            | inl e ↦ rw (g, m, a, l, e) (λ p. absurd (cc (e, p.not_p1)))
            | inr n ↦ elim (Bool-cases (leb slots (length promoted))) [
              | inl e ↦ rw (g, m, a, l, n, e) (leb→le _ _ e)
              | inr k ↦ by_type g m a l n k
            ]
          ]
        ]
      ]
    ]
  ]
    where
      by_type :
          passes_gates config t current_cycle ≡ true
          → is_eligible_for_dreaming config (metadata t) ≡ true
          → num_lt F config.promote_threshold (score t) ≡ true
          → leb config.gates.max_promoted_per_run (length promoted) ≡ false
          → priority_eq t.priority p1 ≡ false
          → leb slots (length promoted) ≡ false
          → Judged t promoted (verdict config metadata score current_cycle slots t promoted)
      by_type g m a l n k =
          elim (Bool-cases (in_promote_type_filter config.promote_targets t.thought_type)) [
            | inr e ↦ rw (g, m, a, l, n, k, e) (λ p. absurd (cc (e, p.promoted_type)))
            | inl e ↦
                rw (g, m, a, l, n, k, e)
                  (
                    record {
                      gates_passed = g;
                      eligible = m;
                      above = a;
                      not_p1 = n;
                      promoted_type = e;
                    },
                    leb_false→lt _ _ l,
                    leb_false→lt _ _ k,
                  )
          ]

  -- What the loop makes of the state `s` over the candidates `ts`.
  record Promotes (ts : List (Thought F)) (s r : Promotions F) : Type 0 where
    new : List Text
    appended : r.promoted ≡ s.promoted ++ new
    sound : All (λ x. (t : Thought F) × Memᴰ t ts × (t.thought_id ≡ x) × IsPromotable t) new
    in_run :
        length s.promoted ≤ config.gates.max_promoted_per_run
        → length r.promoted ≤ config.gates.max_promoted_per_run
    in_slots : length s.promoted ≤ slots → length r.promoted ≤ slots
    still : r.promotion_capped ≡ false → s.promotion_capped ≡ false
    complete :
        r.promotion_capped ≡ false
        → length r.promoted < config.gates.max_promoted_per_run
        → All (λ t. IsPromotable t → Memᴰ t.thought_id r.promoted) ts

  later_sound :
      (t : Thought F) (ts : List (Thought F)) (xs : List Text)
      → All (λ x. (u : Thought F) × Memᴰ u ts × (u.thought_id ≡ x) × IsPromotable u) xs
      → All (λ x. (u : Thought F) × Memᴰ u (t ∷ ts) × (u.thought_id ≡ x) × IsPromotable u) xs
  later_sound t ts xs h = All-mono xs (λ x k. (k.0, Memᴰ.tail k.1, k.2, k.3)) h

  -- A candidate that is passed over.
  passed_over :
      (t : Thought F) (ts : List (Thought F)) (s s' r : Promotions F)
      → (IsPromotable t → ⊥)
      → s'.promoted ≡ s.promoted
      → s'.promotion_capped ≡ s.promotion_capped
      → Promotes ts s' r
      → Promotes (t ∷ ts) s r
  passed_over t ts s s' r refuted same same_cap p = record {
    new = p.new;
    appended = p.appended ∙ ap (λ l. l ++ p.new) same;
    sound = later_sound t ts p.new p.sound;
    in_run = λ h. p.in_run (subst (λ l. length l ≤ config.gates.max_promoted_per_run) (sym same) h);
    in_slots = λ h. p.in_slots (subst (λ l. length l ≤ slots) (sym same) h);
    still = λ h. sym same_cap ∙ p.still h;
    complete = λ h k. ((λ q. absurd (refuted q)), p.complete h k);
  }

  mem-middle : (x : Text) (xs ys : List Text) → Memᴰ x ((xs ++ x ∷ []) ++ ys)
  mem-middle x [] ys = Memᴰ.head refl
  mem-middle x (z ∷ xs) ys = Memᴰ.tail (mem-middle x xs ys)

  promoted_one :
      (t : Thought F) (ts : List (Thought F)) (s r : Promotions F)
      → IsPromotable t
      → length s.promoted < config.gates.max_promoted_per_run
      → length s.promoted < slots
      → Promotes ts (applied promote t (scored config metadata score current_cycle slots t s)) r
      → Promotes (t ∷ ts) s r
  promoted_one t ts s r is less_run less_slots p =
      let one : length (s.promoted ++ t.thought_id ∷ []) ≡ length s.promoted + 1 =
        length-append s.promoted (t.thought_id ∷ []) in
      record {
        new = t.thought_id ∷ p.new;
        appended = p.appended ∙ append_assoc s.promoted (t.thought_id ∷ []) p.new;
        sound = ((t, Memᴰ.head refl, refl, is), later_sound t ts p.new p.sound);
        in_run = λ h. p.in_run (omega (arith, one, less_run));
        in_slots = λ h. p.in_slots (omega (arith, one, less_slots));
        still = p.still;
        complete = λ h k. (
          (λ q.
              subst (Memᴰ t.thought_id) (sym p.appended)
                (mem-middle t.thought_id s.promoted p.new)),
          p.complete h k,
        );
      }

  promotions_from-Promotes :
      (ts : List (Thought F)) (s : Promotions F)
      → Promotes ts s (promotions_from config metadata score current_cycle slots ts s)
  unfolding promotions_from Judged
  promotions_from-Promotes [] s = record {
    new = [];
    appended = sym (append-nil s.promoted);
    sound = tt;
    in_run = λ h. h;
    in_slots = λ h. h;
    still = λ h. h;
    complete = λ h k. tt;
  }
  promotions_from-Promotes (t ∷ ts) s =
      step _ (verdict-Judged t s.promoted) (λ s'. promotions_from-Promotes ts s')
    where
      go : Promotions F → Promotions F
      go s' = promotions_from config metadata score current_cycle slots ts s'

      s1 : Promotions F
      s1 = scored config metadata score current_cycle slots t s

      step :
          (v : Verdict)
          → Judged t s.promoted v
          → ((s' : Promotions F) → Promotes ts s' (go s'))
          → Promotes (t ∷ ts) s (elim (is_stop v) [ true ↦ s1 | false ↦ go (applied v t s1) ])
      step skipped j k = passed_over t ts s _ _ j refl refl (k (applied skipped t s1))
      step filtered j k = passed_over t ts s _ _ j refl refl (k (applied filtered t s1))
      step below_threshold j k =
          passed_over t ts s _ _ j refl refl (k (applied below_threshold t s1))
      step already_p1 j k = passed_over t ts s _ _ j refl refl (k (applied already_p1 t s1))
      step wrong_type j k = passed_over t ts s _ _ j refl refl (k (applied wrong_type t s1))
      step promote j k = promoted_one t ts s _ j.0 j.1 j.2 (k (applied promote t s1))
      step stopped j k = record {
        new = [];
        appended = sym (append-nil s.promoted);
        sound = tt;
        in_run = λ h. h;
        in_slots = λ h. h;
        still = λ h. h;
        complete = λ h l. absurd (omega (arith, j, l));
      }
      step capped j k =
          let p = k (applied capped t s1) in
          record {
            new = p.new;
            appended = p.appended;
            sound = later_sound t ts p.new p.sound;
            in_run = p.in_run;
            in_slots = p.in_slots;
            still = λ h. absurd (cc (p.still h));
            complete = λ h l. absurd (cc (p.still h));
          }

  -- What a run of promotions comes to.
  pub record IsPromotionOf (candidates : List (Thought F)) (r : Promotions F) : Type 0 where
    pub sound :
        All
          (λ x. (t : Thought F) × Memᴰ t candidates × (t.thought_id ≡ x) × IsPromotable t)
          r.promoted
    pub in_run : length r.promoted ≤ config.gates.max_promoted_per_run
    pub in_slots : length r.promoted ≤ slots
    pub complete :
        r.promotion_capped ≡ false
        → length r.promoted < config.gates.max_promoted_per_run
        → All (λ t. IsPromotable t → Memᴰ t.thought_id r.promoted) candidates

  pub apply_promotions-IsPromotionOf :
      (candidates : List (Thought F))
      → IsPromotionOf candidates
          (apply_promotions config metadata score current_cycle slots candidates)
  unfolding apply_promotions
  apply_promotions-IsPromotionOf candidates =
      let p = promotions_from-Promotes candidates _ in
      record {
        sound =
            subst
              (All (λ x. (t : Thought F) × Memᴰ t candidates × (t.thought_id ≡ x) × IsPromotable t))
              (sym p.appended) p.sound;
        in_run = p.in_run (omega arith);
        in_slots = p.in_slots (omega arith);
        complete = p.complete;
      }

module _ {F : Floats} (config : DreamingConfig F) (metadata : Thought F → Option Metadata)
    (score : Thought F → F.Num) (current_cycle : ℕ) where
  -- The share of P1: the thoughts that were P1 with those that a run promotes are no more than were P1
  -- before, or no more than the configured share of all, and at least one, allows.
  pub p1_share_kept :
      (truncated : F.Num → ℕ) (total_thoughts current_p1_count : ℕ) (candidates : List (Thought F))
      → current_p1_count
          + length
              (apply_promotions config metadata score current_cycle
                (available_slots config truncated total_thoughts current_p1_count)
                candidates).promoted
        ≤ max current_p1_count (max_p1_count config truncated total_thoughts)
  p1_share_kept truncated total_thoughts current_p1_count candidates = omega (
    arith,
    (apply_promotions-IsPromotionOf config metadata score current_cycle
        (available_slots config truncated total_thoughts current_p1_count) candidates).in_slots,
  )
