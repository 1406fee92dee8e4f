-- ===== src/Consolidation/Tests.antt =====
-- Promotions and clusters of the dreaming extension (src/engrava/extensions/dreaming.py) at concrete
-- inputs.
use engrava.Prelude.{
  Bool, ℕ, ◌+◌, ◌/◌, ◌%◌, ◌≤◌, ◌≡◌, refl, true, false, ◌==◌, Option, none, some, List, [], ◌∷◌,
  length, max, arith, All,
}
use engrava.Prelude.Text.{Text, text, text_eq}
use Prim.Native.String.{String}
use engrava.Floats.{thousandths}
use engrava.Thought.Defs.{Thought, observation, Priority, p1, p3, active}
use engrava.Consolidation.Promote.{
  Metadata, Json, DreamingConfig, obs_only, external_only, is_due, is_eligible_for_dreaming,
  apply_promotions, available_slots, max_p1_count,
}
use engrava.Consolidation.Promoted.{p1_share_kept}
use mathlib.Core.List.{Memᴰ}
use engrava.Consolidation.Labels.{adjacency_from, best_label, label_round, lpa_clusters}
use engrava.Prelude.Order.{lex_leq}
use engrava.Consolidation.Lpa.{IsIn, lpa_clusters_sound}
use engrava.Consolidation.Clusters.Components.{Connected}
use engrava.Consolidation.Clusters.{find, unite, union, put, grouped, agglomerative_clusters}
use engrava.Consolidation.Clusters.Groups.{AreComponents, agglomerative_clusters-AreComponents}
use engrava.Consolidation.Clusters.Pairs.{
  whole_pairs, similar_pairs, blocks_from, block_pairs, where_block, similar_pairs-whole_pairs,
}

abbrev row : String → Priority → ℕ → Thought thousandths
row name priority confirmations = record {
  thought_id = text name;
  thought_type = observation;
  essence = text name;
  content = text name;
  priority = priority;
  lifecycle_status = active;
  created_cycle = 1;
  updated_cycle = 1;
  source = text "t";
  confidence = none;
  confirmation_count = confirmations;
  access_count = 0;
  action_outcome_score = none;
  last_accessed_at = none;
  created_at = none;
  updated_at = none;
  expires_at = none;
  valid_from = none;
  valid_until = none;
  pinned = false;
  archived_at_cycle = none;
  archived_at = none;
  revision = 1;
}

abbrev config : DreamingConfig thousandths
config = record {
  enabled = true;
  schedule_every_n_cycles = 5;
  promote_threshold = 500;
  max_p1_fraction = 100;
  access_tracking_enabled = false;
  promote_targets = obs_only;
  eligible_perspectives = none;
  self_filter_mode = external_only;
  min_source_confidence = 0;
  excluded_content_types = [];
  eligible_content_types = none;
  gates = record {
    min_confirmations = 1;
    min_age_cycles = 2;
    max_promoted_per_run = 5;
    allow_zero_confirmation = false;
  };
}

abbrev candidates : List (Thought thousandths)
candidates = row "a" p3 0 ∷ row "b" p1 3 ∷ row "c" p3 3 ∷ row "d" p3 2 ∷ []

abbrev no_metadata : Thought thousandths → Option Metadata
no_metadata t = none

p1_share_kept_example :
    1
      + length
          (apply_promotions config no_metadata
            (λ t. 600)
            10
            (available_slots config (λ x. x / 1000) 4 1)
            candidates).promoted
    ≤ max 1 (max_p1_count config (λ x. x / 1000) 4)
p1_share_kept_example =
    p1_share_kept config no_metadata (λ t. 600) 10 (λ x. x / 1000) 4 1 candidates

-- "a" lacks a confirmation, "b" is P1 already, and "d" finds no slot.
one_promoted :
    ((apply_promotions config no_metadata (λ t. 600) 10 1 candidates).promoted ≡ text "c" ∷ [])
    × ((apply_promotions config no_metadata (λ t. 600) 10 1 candidates).promotion_capped ≡ true)
unfolding apply_promotions
one_promoted = (refl, refl)

-- A thought of the agent's own is not external.
own_thought :
    is_eligible_for_dreaming config (
      some (record {
        perspective = Json.null;
        content_type = Json.null;
        source = some (record { is_self = Json.boolean true; confidence = none });
      }))
    ≡ false
unfolding is_eligible_for_dreaming
own_thought = refl

due_at_ten : (is_due config 10 ≡ true) × (is_due config 12 ≡ false)
unfolding is_due
due_at_ten = (refl, refl)

abbrev ids : List Text
ids = text "a" ∷ text "b" ∷ text "c" ∷ text "d" ∷ []

abbrev similar : List (Text × Text)
similar = (text "a", text "c") ∷ (text "c", text "d") ∷ []

agglomerative_clusters-AreComponents_example :
    AreComponents similar ids (agglomerative_clusters ids similar)
agglomerative_clusters-AreComponents_example = agglomerative_clusters-AreComponents ids similar

two_clusters :
    agglomerative_clusters ids similar
    ≡ (text "a" ∷ text "c" ∷ text "d" ∷ []) ∷ (text "b" ∷ []) ∷ []
unfolding agglomerative_clusters find unite union put grouped text_eq
two_clusters = refl

abbrev even_sum : ℕ → ℕ → Bool
even_sum i j = (i + j) % 2 == 0

abbrev even_block : ℕ → ℕ → ℕ → Bool
even_block start lr c = even_sum (start + lr) c

similar_pairs-whole_pairs_example : similar_pairs even_sum 5 even_block 2 ≡ whole_pairs even_sum 5
similar_pairs-whole_pairs_example =
    similar_pairs-whole_pairs even_sum 5 even_block (λ start lr c. refl) 2 (omega arith)

four_pairs : similar_pairs even_sum 5 even_block 2 ≡ (0, 2) ∷ (0, 4) ∷ (1, 3) ∷ (2, 4) ∷ []
unfolding similar_pairs blocks_from block_pairs where_block
four_pairs = refl

lpa_clusters_sound_example :
    (clusters : List (List Text)) × (lpa_clusters (λ n nodes. nodes) (adjacency_from similar [])
      ≡ some clusters)
    × All (λ c. (x y : Text) → Memᴰ x c → Memᴰ y c → Connected similar x y) clusters
    × All (λ e. IsIn clusters e.0 × IsIn clusters e.1) similar
lpa_clusters_sound_example = lpa_clusters_sound (λ n nodes. nodes) similar

one_label :
    lpa_clusters (λ n nodes. nodes) (adjacency_from similar [])
    ≡ some ((text "a" ∷ text "c" ∷ text "d" ∷ []) ∷ [])
unfolding lpa_clusters label_round adjacency_from best_label put text_eq lex_leq
one_label = refl
