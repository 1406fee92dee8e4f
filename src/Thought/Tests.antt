-- ===== src/Thought/Tests.antt =====
-- `ThoughtRecord.evolve` (src/engrava/domain/models/thought.py) at a concrete input.
use engrava.Prelude.{◌≡◌, refl, ◌⊎◌, true, false, none, some}
use engrava.Prelude.Text.{text}
use engrava.Floats.{thousandths}
use engrava.Thought.Defs.{Thought, task, p2, active, done, model_validate, interval_ordered}
use engrava.Thought.Lifecycle.{
  Changes, member, text_value, changed, can_transition_to, allowed_transitions, evolve, IsValid,
  evolve_sound,
}

abbrev working : Thought thousandths
working = record {
  thought_id = text "t";
  thought_type = task;
  essence = text "e";
  content = text "c";
  priority = p2;
  lifecycle_status = active;
  created_cycle = 1;
  updated_cycle = 2;
  source = text "s";
  confidence = none;
  confirmation_count = 0;
  access_count = 0;
  action_outcome_score = none;
  last_accessed_at = none;
  created_at = some 5;
  updated_at = some 6;
  expires_at = none;
  valid_from = some 3;
  valid_until = some 4;
  pinned = false;
  archived_at_cycle = none;
  archived_at = none;
  revision = 1;
}

abbrev finishing : Changes thousandths
finishing = record {
  new_created_at = some (some 5);
  new_status = some (member done);
  new_updated_at = none;
  others = λ t. record t { updated_cycle = 3 };
}

abbrev finished : Thought thousandths
finished = record working { lifecycle_status = done; updated_cycle = 3; updated_at = some 9 }

evolve_sound_example :
    IsValid thousandths finished
    × ((working.created_at ≡ none) ⊎ (finished.created_at ≡ working.created_at))
    × ((done ≡ active)
        ⊎ (some (member done) ≡ some (text_value done))
        ⊎ (can_transition_to active done ≡ true))
    × (finished.updated_at ≡ changed (some 9) finishing.new_updated_at)
unfolding evolve can_transition_to allowed_transitions model_validate interval_ordered
evolve_sound_example = evolve_sound thousandths finishing 9 working finished refl
