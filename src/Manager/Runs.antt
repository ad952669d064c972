-- ===== src/Manager/Runs.antt =====
-- pkg/component/manager.go: what a reconciliation may do, as relations between worlds.
use sitectl.Prelude.{◌≡◌, ◌≢◌, ◌⊎◌, Bool, true, false, List, [], ◌∷◌, ◌++◌, is_empty}
use sitectl.Result.{Result, ok, err}
use sitectl.Text.{Text, codes}
use sitectl.Disposition.{normalize_state}
use sitectl.Manager.{
  Error, local_contexts_only, action_cancelled, confirm_failed, unsupported_state, Step,
  ApplyOptions, ComponentSpec, Component, confirmation_prompt,
}

abbrev pub Outcome : Type 0
Outcome = Result Error (Unit {0})

-- Steps that are run in their order, up to the first that fails
pub data Runs {W : Type 0} : List (Step W) → W → W → Outcome → Type 0 where
  all_run : {w : W} → Runs [] w w (ok tt)
  step_run :
      {step : Step W} {steps : List (Step W)} {w w₁ w₂ : W} {r : Outcome}
      → step w ≡ (w₁, ok tt)
      → Runs steps w₁ w₂ r
      → Runs (step ∷ steps) w w₂ r
  step_fails :
      {step : Step W} {steps : List (Step W)} {w w₁ : W} {e : Error}
      → step w ≡ (w₁, err e)
      → Runs (step ∷ steps) w w₁ (err e)

-- The steps that enable or disable a component, in their order
abbrev pub in_order : {W : Type 0} → Bool → ComponentSpec W → List (Step W)
in_order true spec =
    spec.before_enable
    ++ ((spec.compose true ∷ spec.drupal true ∷ spec.files ∷ []) ++ spec.after_enable)
in_order false spec =
    spec.before_disable
    ++ ((spec.compose false ∷ spec.drupal false ∷ spec.files ∷ []) ++ spec.after_disable)

-- The state that the map asks of a component, where an empty or a missing one asks for the default
abbrev pub IsAsked : List (Text × Text) → Text → Text → Text → Type 0
IsAsked [] name default state = state ≡ default
IsAsked ((k, v) ∷ states) name default state =
    ((k ≡ name) × (is_empty v ≡ false) × (state ≡ v))
    ⊎ ((k ≡ name) × (is_empty v ≡ true) × (state ≡ default))
    ⊎ ((k ≢ name) × IsAsked states name default state)

module _ (is_local : Bool) (standard_prompt : Bool → Text → Text) (opts : ApplyOptions) where
  abbrev prompt : {W : Type 0} → Bool → ComponentSpec W → Text
  prompt enable spec = confirmation_prompt is_local standard_prompt spec.name spec.gates enable

  abbrev IsAgreed : {W : Type 0} → Bool → ComponentSpec W → Type 0
  IsAgreed enable spec =
      (is_empty (prompt enable spec) ≡ true)
      ⊎ (opts.yolo ≡ true)
      ⊎ (opts.auto_approve ≡ true)
      ⊎ (opts.confirm (prompt enable spec) ≡ ok true)

  -- The component may be changed here, and nobody has to be asked or the answer is yes.
  abbrev pub MayPass : {W : Type 0} → Bool → ComponentSpec W → Type 0
  MayPass enable spec = ((spec.gates.local_only ≡ false) ⊎ (is_local ≡ true)) × IsAgreed enable spec

  -- Why a gate refuses
  pub data Refuses {W : Type 0} : Bool → ComponentSpec W → Error → Type 0 where
    only_local :
        {enable : Bool} {spec : ComponentSpec W}
        → spec.gates.local_only ≡ true
        → is_local ≡ false
        → Refuses enable spec (local_contexts_only spec.name)
    declined :
        {enable : Bool} {spec : ComponentSpec W}
        → opts.yolo ≡ false
        → opts.auto_approve ≡ false
        → opts.confirm (prompt enable spec) ≡ ok false
        → Refuses enable spec action_cancelled
    unanswered :
        {enable : Bool} {spec : ComponentSpec W} {e : Error}
        → opts.yolo ≡ false
        → opts.auto_approve ≡ false
        → opts.confirm (prompt enable spec) ≡ err e
        → Refuses enable spec confirm_failed

  module _ {W : Type 0} (close : W → W) where
    -- Enabling or disabling: a refusal leaves the world as it is, and else the runtime is closed behind
    -- the steps, also behind one that fails.
    pub data Applies : Bool → ComponentSpec W → W → W → Outcome → Type 0 where
      refused :
          {enable : Bool} {spec : ComponentSpec W} {w : W} {e : Error}
          → Refuses enable spec e
          → Applies enable spec w w (err e)
      applied :
          {enable : Bool} {spec : ComponentSpec W} {w w₁ : W} {r : Outcome}
          → MayPass enable spec
          → Runs (in_order enable spec) w w₁ r
          → Applies enable spec w (close w₁) r

    -- One component and the state that is asked of it
    pub data Settles : Component W → Text → W → W → Outcome → Type 0 where
      enabled :
          {f : Component W} {state : Text} {w w₁ : W} {r : Outcome}
          → normalize_state state ≡ codes "on"
          → Applies true f.on w w₁ r
          → Settles f state w w₁ r
      disabled :
          {f : Component W} {state : Text} {w w₁ : W} {r : Outcome}
          → normalize_state state ≡ codes "off"
          → Applies false f.off w w₁ r
          → Settles f state w w₁ r
      unknown :
          {f : Component W} {state : Text} {w : W}
          → normalize_state state ≢ codes "on"
          → normalize_state state ≢ codes "off"
          → Settles f state w w (err (unsupported_state state))

    -- The components one after the other, up to the first that fails
    pub data Reconciles (states : List (Text × Text))
        : List (Component W) → W → W → Outcome → Type 0 where
      none_left : {w : W} → Reconciles states [] w w (ok tt)
      settled :
          {f : Component W} {fs : List (Component W)} {state : Text} {w w₁ w₂ : W} {r : Outcome}
          → IsAsked states f.name f.default_state state
          → Settles f state w w₁ (ok tt)
          → Reconciles states fs w₁ w₂ r
          → Reconciles states (f ∷ fs) w w₂ r
      failed :
          {f : Component W} {fs : List (Component W)} {state : Text} {w w₁ : W} {e : Error}
          → IsAsked states f.name f.default_state state
          → Settles f state w w₁ (err e)
          → Reconciles states (f ∷ fs) w w₁ (err e)
