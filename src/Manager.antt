-- ===== src/Manager.antt =====
-- pkg/component/manager.go: enabling, disabling and reconciling components. The state of everything
-- that hooks and files can change is a world; a step leaves a world beside its result. Hooks and the
-- Drupal transforms are steps of the specs; `close` is the deferred Runtime.close, which closes the
-- docker client that a hook may have opened. newRuntime itself only builds a struct.
pub mod Runs
pub mod Reconciled
pub mod Compose
mod Tests
use sitectl.Prelude.{
  ℕ, Bool, true, false, not, ◌&&◌, ◌||◌, Option, none, some, is_some, List, [], ◌∷◌, ◌++◌,
  if◌then◌else◌, is_empty,
}
use sitectl.Result.{Result, ok, err}
use sitectl.Text.{Text, codes, ◌==◌, trim_space}
use sitectl.Disposition.{normalize_state}
use sitectl.Rules.{Fields, FileRule, YamlRule}
use sitectl.Document.{Document}
use sitectl.Service.{ComposeSpec}
use sitectl.Project.{Project, Definitions}

pub data Error : Type 0 where
  local_contexts_only : Text → Error
  action_cancelled : Error
  confirm_failed : Error
  unsupported_state : Text → Error
  step_failed : Error

abbrev pub Step : Type 0 → Type 0
Step W = W → W × Result Error (Unit {0})

-- A step behind one that has succeeded
abbrev pub and_then :
    {W : Type 0} → Step W → W × Result Error (Unit {0}) → W × Result Error (Unit {0})
and_then step (w, ok u) = step w
and_then step (w, err e) = (w, err e)

-- Steps one after the other, up to the first that fails
unfoldable pub run_all : {W : Type 0} → List (Step W) → Step W
run_all [] w = (w, ok tt)
run_all (step ∷ steps) w = and_then (run_all steps) (step w)

-- GateSpec
pub record GateSpec : Type 0 where
  pub local_only : Bool
  pub disable_confirmation : Text
  pub enable_confirmation : Text

-- ApplyOptions, with the question that is asked without a Confirm of the caller's put in its place
pub record ApplyOptions : Type 0 where
  pub yolo : Bool
  pub auto_approve : Bool
  pub confirm : Text → Result Error Bool

-- ComponentSpec, with what is applied as steps: `compose` and `drupal` are given whether the component
-- is enabled.
pub record ComponentSpec (W : Type 0) : Type 0 where
  pub name : Text
  pub gates : GateSpec
  pub compose : Bool → Step W
  pub drupal : Bool → Step W
  pub files : Step W
  pub before_disable : List (Step W)
  pub after_disable : List (Step W)
  pub before_enable : List (Step W)
  pub after_enable : List (Step W)

-- What is done behind the gates
unfoldable pub stages : {W : Type 0} → Bool → ComponentSpec W → List (Step W)
stages true spec =
    spec.before_enable ++ (spec.compose true ∷ spec.drupal true ∷ spec.files ∷ spec.after_enable)
stages false spec =
    spec.before_disable
    ++ (spec.compose false ∷ spec.drupal false ∷ spec.files ∷ spec.after_disable)

-- Component
pub record Component (W : Type 0) : Type 0 where
  pub name : Text
  pub default_state : Text
  pub on : ComponentSpec W
  pub off : ComponentSpec W

-- The state that is asked for, or the component's own
abbrev pub state_for : {W : Type 0} → List (Text × Text) → Component W → Text
state_for [] feature = feature.default_state
state_for ((name, state) ∷ states) feature =
    let rest = state_for states feature in
    if name == feature.name then if is_empty state then feature.default_state else state else rest

module _ (is_local : Bool) (standard_prompt : Bool → Text → Text) where
  -- confirmationPrompt
  unfoldable pub confirmation_prompt : Text → GateSpec → Bool → Text
  confirmation_prompt name gates enable =
      if enable && not (is_empty gates.enable_confirmation)
      then gates.enable_confirmation
      else if not enable && not (is_empty gates.disable_confirmation)
      then gates.disable_confirmation
      else standard_prompt enable name

  abbrev answered : Result Error Bool → Result Error (Unit {0})
  answered (ok true) = ok tt
  answered (ok false) = err action_cancelled
  answered (err e) = err confirm_failed

  -- checkGates
  unfoldable pub check_gates : Text → GateSpec → ApplyOptions → Bool → Result Error (Unit {0})
  unfolding confirmation_prompt
  check_gates name gates opts enable =
      if gates.local_only && not is_local
      then err (local_contexts_only name)
      else if is_empty (confirmation_prompt name gates enable) || opts.yolo || opts.auto_approve
      then ok tt
      else answered (opts.confirm (confirmation_prompt name gates enable))

  module _ {W : Type 0} (close : W → W) where
    abbrev closed : W × Result Error (Unit {0}) → W × Result Error (Unit {0})
    closed (w, r) = (close w, r)

    -- EnableComponentWithOptions and DisableComponentWithOptions
    unfoldable pub apply_component : Bool → ApplyOptions → ComponentSpec W → Step W
    unfolding check_gates run_all
    apply_component enable opts spec w = elim (check_gates spec.name spec.gates opts enable) [
      | err e ↦ (w, err e)
      | ok u ↦ closed (run_all (stages enable spec) w)
    ]

    -- ReconcileComponent
    unfoldable pub reconcile_component : ApplyOptions → Component W → Text → Step W
    unfolding apply_component normalize_state
    reconcile_component opts feature state w =
        if normalize_state state == codes "on"
        then apply_component true opts feature.on w
        else if normalize_state state == codes "off"
        then apply_component false opts feature.off w
        else (w, err (unsupported_state state))

    -- ReconcileAll
    unfoldable pub reconcile_all : List (Text × Text) → ApplyOptions → List (Component W) → Step W
    unfolding reconcile_component
    reconcile_all states opts [] w = (w, ok tt)
    reconcile_all states opts (feature ∷ features) w =
        and_then (reconcile_all states opts features)
          (reconcile_component opts feature (state_for states feature) w)
