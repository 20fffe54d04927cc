-- ===== src/AgentRt/Release.antt =====
-- agent_rt/release.rs: releases, applied step by step and rolled back. JSON values are a parameter V
-- with the library's access to them, and the caller's `StepHandler` is one on a state H with errors X.
pub mod Atomic
pub mod History
use zeptobeam.Base.{
  ℕ, ◌+◌, List, [], ◌∷◌, ◌++◌, map, Option, none, some, is_some, String, length, ltb, if◌then◌else◌,
  Result, ok, err,
}
use mathlib.Core.List.{reverse}
use zeptobeam.HashMap.{HashMap}
use zeptobeam.AgentRt.Json.{Json}

pub record BehaviorUpgrade (V : Type 0) : Type 0 where
  pub name : String
  pub version : String
  pub upgrade_from : String
  pub extra : V

pub record ReleaseManifest (V : Type 0) : Type 0 where
  pub schema_version : ℕ
  pub version : String
  pub previous : Option String
  pub behaviors : List (BehaviorUpgrade V)
  pub config_changes : HashMap String V

pub data ReleaseStep (V : Type 0) : Type 0 where
  upgrade_behavior : String → String → String → V → ReleaseStep V
  apply_config : String → V → V → ReleaseStep V

pub record ReleasePlan (V : Type 0) : Type 0 where
  pub steps : List (ReleaseStep V)

-- The texts of `AgentRtError::Release` by their places: an error of the handler, one of it with one
-- of the rollback after it, no current release, and a manifest that is refused.
pub data ReleaseError (X : Type 0) : Type 0 where
  step : X → ReleaseError X
  step_and_rollback : X → X → ReleaseError X
  no_current : ReleaseError X
  invalid_manifest : X → ReleaseError X
  unsupported_schema : ℕ → ReleaseError X

abbrev pub max_schema_version : ℕ
max_schema_version = 1

unfoldable pub from_json :
    {V X : Type 0}
    → (String → Result (ReleaseManifest V) X)
    → String
    → Result (ReleaseManifest V) (ReleaseError X)
from_json parse json = elim (parse json) [
  | err e ↦ err (invalid_manifest e)
  | ok manifest ↦
      if ltb max_schema_version manifest.schema_version
      then err (unsupported_schema manifest.schema_version)
      else ok manifest
]

-- The walk of `resolve_dotted_key` over the parts of the key.
unfoldable pub resolve : {V : Type 0} → Json V → V → List String → Option V
resolve json current [] = some current
resolve json current (part ∷ parts) = elim (json.get current part) [
  | none ↦ none
  | some v ↦ resolve json v parts
]

abbrev pub resolve_dotted_key : {V : Type 0} → Json V → V → String → Option V
resolve_dotted_key json config key = resolve json config (json.split key)

abbrev pub upgrade_step : {V : Type 0} → BehaviorUpgrade V → ReleaseStep V
upgrade_step b = upgrade_behavior b.name b.upgrade_from b.version b.extra

unfoldable pub config_step : {V : Type 0} → Json V → V → String × V → ReleaseStep V
unfolding resolve
config_step json config (key, new_value) = elim (resolve_dotted_key json config key) [
  | none ↦ apply_config key json.null new_value
  | some old_value ↦ apply_config key old_value new_value
]

unfoldable pub from_manifest : {V : Type 0} → Json V → ReleaseManifest V → V → ReleasePlan V
unfolding config_step
from_manifest json manifest config = record {
  steps =
      map upgrade_step manifest.behaviors ++ map (config_step json config) manifest.config_changes;
}

pub record StepHandler (V H X : Type 0) : Type 0 where
  pub apply_step : ReleaseStep V → H → H × Result Unit X
  pub rollback_step : ReleaseStep V → H → H × Result Unit X

pub record ReleaseManager (V : Type 0) : Type 0 where
  pub current : Option (ReleaseManifest V)
  pub history : List (ReleaseManifest V)
  pub max_history : ℕ

unfoldable pub new : {V : Type 0} → ℕ → ReleaseManager V
new max_history = record { current = none; history = []; max_history = max_history }

-- `history.remove(0)`, when there are too many.
abbrev pub trim : {A : Type 0} → ℕ → List A → List A
trim max [] = []
trim max (x ∷ xs) = if ltb max (length (x ∷ xs)) then xs else x ∷ xs

unfoldable pub record_apply : {V : Type 0} → ReleaseManager V → ReleaseManifest V → ReleaseManager V
record_apply m manifest = elim m.current [
  | none ↦ record m { current = some manifest }
  | some prev ↦ record m {
    current = some manifest;
    history = trim m.max_history (m.history ++ prev ∷ []);
  }
]

-- `Vec::pop`: the list without its last element, and that element.
unfoldable pub pop : {A : Type 0} → List A → List A × Option A
pop [] = ([], none)
pop (x ∷ xs) =
    let (rest, last) = pop xs in elim last [ none ↦ ([], some x) | some y ↦ (x ∷ rest, some y) ]

-- The last part of `apply`, and that of `rollback`.
unfoldable pub finish_apply :
    {V H X : Type 0}
    → ReleaseManager V
    → ReleaseManifest V
    → H × Result Unit (ReleaseError X)
    → (ReleaseManager V × H) × Result Unit (ReleaseError X)
unfolding record_apply
finish_apply m manifest (h, err e) = ((m, h), err e)
finish_apply m manifest (h, ok _) = ((record_apply m manifest, h), ok tt)

unfoldable pub finish_rollback :
    {V H X : Type 0}
    → ReleaseManager V
    → H × Result Unit X
    → (ReleaseManager V × H) × Result Unit (ReleaseError X)
unfolding pop
finish_rollback m (h, err e) = ((m, h), err (step e))
finish_rollback m (h, ok _) =
    let (history, last) = pop m.history in
    ((record m { current = last; history = history }, h), ok tt)

module _ {V H X : Type 0} (handler : StepHandler V H X) where
  -- Rolls back steps in the order given, and stops at the first that fails.
  unfoldable pub rollback_steps : List (ReleaseStep V) → H → H × Result Unit X
  rollback_steps [] h = (h, ok tt)
  rollback_steps (s ∷ ss) h =
      let (h', done) = handler.rollback_step s h in
      elim done [ err e ↦ (h', err e) | ok _ ↦ rollback_steps ss h' ]

  unfoldable pub undo : X → List (ReleaseStep V) → H → H × Result Unit (ReleaseError X)
  unfolding rollback_steps
  undo e completed h =
      let (h', done) = rollback_steps completed h in
      elim done [ err rb ↦ (h', err (step_and_rollback e rb)) | ok _ ↦ (h', err (step e)) ]

  -- The loop of `apply`. The completed steps are kept with the last one first.
  unfoldable pub apply_steps :
      List (ReleaseStep V) → List (ReleaseStep V) → H → H × Result Unit (ReleaseError X)
  unfolding undo
  apply_steps completed [] h = (h, ok tt)
  apply_steps completed (s ∷ ss) h =
      let (h', done) = handler.apply_step s h in
      elim done [ err e ↦ undo e completed h' | ok _ ↦ apply_steps (s ∷ completed) ss h' ]

  unfoldable pub apply :
      ReleaseManager V
      → ReleaseManifest V
      → ReleasePlan V
      → H
      → (ReleaseManager V × H) × Result Unit (ReleaseError X)
  unfolding apply_steps finish_apply
  apply m manifest plan h = finish_apply m manifest (apply_steps [] plan.steps h)

  unfoldable pub rollback :
      ReleaseManager V → ReleasePlan V → H → (ReleaseManager V × H) × Result Unit (ReleaseError X)
  unfolding rollback_steps finish_rollback
  rollback m plan h = elim m.current [
    | none ↦ ((m, h), err no_current)
    | some _ ↦ finish_rollback m (rollback_steps (reverse plan.steps) h)
  ]
