-- ===== src/Manager/Reconciled.antt =====
-- pkg/component/manager.go: ReconcileAll beside the relations of Runs.
use sitectl.Prelude.{
  ◌≡◌, ◌≢◌, ◌⊎◌, refl, sym, ap, ◌∙◌, subst, Bool, true, false, not, ◌&&◌, Bool-cases, inl, inr,
  List, [], ◌∷◌, is_empty,
}
use sitectl.Result.{Result, ok, err}
use sitectl.Text.{Text, codes, ◌==◌}
use sitectl.Text.Equality.{eq_sound, eq_refl}
use sitectl.Disposition.{normalize_state}
use sitectl.Manager.{
  Error, local_contexts_only, action_cancelled, confirm_failed, Step, and_then, run_all,
  ApplyOptions, ComponentSpec, Component, confirmation_prompt, check_gates, stages, apply_component,
  reconcile_component, state_for, reconcile_all,
}
use sitectl.Manager.Runs.{
  Outcome, Runs, in_order, IsAsked, MayPass, Refuses, Applies, Settles, Reconciles,
}

run_all-Runs :
    {W : Type 0} (steps : List (Step W)) (w : W)
    → Runs steps w (run_all steps w).0 (run_all steps w).1
unfolding run_all
run_all-Runs [] w = Runs.all_run
run_all-Runs {W} (step ∷ steps) w = go (step w) refl (run_all-Runs steps)
  where
    go :
        (x : W × Outcome)
        → step w ≡ x
        → ((v : W) → Runs steps v (run_all steps v).0 (run_all steps v).1)
        → Runs (step ∷ steps) w (and_then (run_all steps) x).0 (and_then (run_all steps) x).1
    go (w₁, ok u) e later = Runs.step_run e (later w₁)
    go (w₁, err f) e later = Runs.step_fails e

stages-in_order : {W : Type 0} (b : Bool) (spec : ComponentSpec W) → stages b spec ≡ in_order b spec
unfolding stages
stages-in_order true spec = refl
stages-in_order false spec = refl

state_for-IsAsked :
    {W : Type 0} (states : List (Text × Text)) (f : Component W)
    → IsAsked states f.name f.default_state (state_for states f)
state_for-IsAsked [] f = refl
state_for-IsAsked ((k, v) ∷ states) f = elim (Bool-cases (k == f.name)) [
  | inl e ↦ elim (Bool-cases (is_empty v)) [
    | inl none_given ↦ inr (inl (eq_sound k f.name e, none_given, rw (e, none_given) refl))
    | inr given ↦ inl (eq_sound k f.name e, given, rw (e, given) refl)
  ]
  | inr e ↦ inr (
      inr (
        (λ same. cc (sym e ∙ ap (λ t. t == f.name) same ∙ eq_refl f.name)),
        rw e (state_for-IsAsked states f),
      ))
]

module _ (is_local : Bool) (standard_prompt : Bool → Text → Text) (opts : ApplyOptions) {W : Type 0}
    (enable : Bool) (spec : ComponentSpec W) where
  abbrev gates : Outcome
  gates = check_gates is_local standard_prompt spec.name spec.gates opts enable

  abbrev question : Text
  question = confirmation_prompt is_local standard_prompt spec.name spec.gates enable

  -- What the gates decide
  abbrev Decided : Type 0
  Decided =
      ((gates ≡ ok tt) × MayPass is_local standard_prompt opts enable spec)
      ⊎ ((e : Error) × (gates ≡ err e) × Refuses is_local standard_prompt opts enable spec e)

  asking :
      (spec.gates.local_only && not is_local) ≡ false
      → ((spec.gates.local_only ≡ false) ⊎ (is_local ≡ true))
      → Decided
  unfolding check_gates
  asking l here = elim (Bool-cases (is_empty question)) [
    | inl p ↦ inl (rw (l, p, check_gates) refl, (here, inl p))
    | inr p ↦ elim (Bool-cases opts.yolo) [
      | inl y ↦ inl (rw (l, p, y, check_gates) refl, (here, inr (inl y)))
      | inr y ↦ elim (Bool-cases opts.auto_approve) [
        | inl a ↦ inl (rw (l, p, y, a, check_gates) refl, (here, inr (inr (inl a))))
        | inr a ↦ answer p y a (opts.confirm question) refl
      ]
    ]
  ]
    where
      answer :
          is_empty question ≡ false
          → opts.yolo ≡ false
          → opts.auto_approve ≡ false
          → (r : Result Error Bool) → opts.confirm question ≡ r
          → Decided
      answer p y a (ok true) c =
          inl (rw (l, p, y, a, c, check_gates) refl, (here, inr (inr (inr c))))
      answer p y a (ok false) c =
          inr (action_cancelled, rw (l, p, y, a, c, check_gates) refl, Refuses.declined y a c)
      answer p y a (err e) c =
          inr (confirm_failed, rw (l, p, y, a, c, check_gates) refl, Refuses.unanswered y a c)

  decided : Decided
  unfolding check_gates
  decided = elim (Bool-cases spec.gates.local_only) [
    | inr anywhere ↦ asking (rw anywhere refl) (inl anywhere)
    | inl l ↦ elim (Bool-cases is_local) [
      | inl here ↦ asking (rw (l, here) refl) (inr here)
      | inr away ↦
          inr (
            local_contexts_only spec.name,
            rw (l, away, check_gates) refl,
            Refuses.only_local l away,
          )
    ]
  ]

module _ (is_local : Bool) (standard_prompt : Bool → Text → Text) {W : Type 0} (close : W → W)
    (opts : ApplyOptions) where
  abbrev apply : Bool → ComponentSpec W → Step W
  apply enable spec = apply_component is_local standard_prompt close enable opts spec

  apply_component-Applies :
      (enable : Bool) (spec : ComponentSpec W) (w : W)
      → Applies is_local standard_prompt opts close enable spec w
          (apply enable spec w).0
          (apply enable spec w).1
  unfolding apply_component
  apply_component-Applies enable spec w = elim (decided is_local standard_prompt opts enable spec) [
    | inl (e, passes) ↦
        rw (e, apply_component)
          (Applies.applied passes (
            subst
              (λ steps.
                Runs steps w (run_all (stages enable spec) w).0 (run_all (stages enable spec) w).1)
              (stages-in_order enable spec) (run_all-Runs (stages enable spec) w)))
    | inr (f, e, refuses) ↦ rw (e, apply_component) (Applies.refused refuses)
  ]

  abbrev reconcile : Component W → Text → Step W
  reconcile f state = reconcile_component is_local standard_prompt close opts f state

  reconcile_component-Settles :
      (f : Component W) (state : Text) (w : W)
      → Settles is_local standard_prompt opts close f state w
          (reconcile f state w).0
          (reconcile f state w).1
  unfolding reconcile_component
  reconcile_component-Settles f state w = elim (Bool-cases (normalize_state state == codes "on")) [
    | inl on ↦
        rw (on, reconcile_component)
          (Settles.enabled (eq_sound _ _ on) (apply_component-Applies true f.on w))
    | inr not_on ↦ elim (Bool-cases (normalize_state state == codes "off")) [
      | inl off ↦
          rw (not_on, off, reconcile_component)
            (Settles.disabled (eq_sound _ _ off) (apply_component-Applies false f.off w))
      | inr not_off ↦
          rw (not_on, not_off, reconcile_component)
            (Settles.unknown (differs not_on) (differs not_off))
    ]
  ]
    where
      differs : {s t : Text} → (s == t) ≡ false → s ≢ t
      differs {s} {t} ne e = cc (sym ne ∙ ap (λ u. u == t) e ∙ eq_refl t)

  abbrev all : List (Text × Text) → List (Component W) → Step W
  all states features = reconcile_all is_local standard_prompt close states opts features

  -- Reconciling all components does what the relation `Reconciles` allows, and it does it in every
  -- case: each component whose gates pass runs its hooks before, its compose, Drupal and file changes and
  -- its hooks behind in this order for the state that is asked of it, up to the first that fails, and
  -- closes the runtime; a component whose gates refuse or whose state is unknown leaves the world as
  -- it is; and the first component that fails is the last.
  pub reconcile_all-Reconciles :
      (states : List (Text × Text)) (features : List (Component W)) (w : W)
      → Reconciles is_local standard_prompt opts close states features w
          (all states features w).0
          (all states features w).1
  unfolding reconcile_all
  reconcile_all-Reconciles states [] w = Reconciles.none_left
  reconcile_all-Reconciles states (f ∷ fs) w =
      go (reconcile f (state_for states f) w) (reconcile_component-Settles f (state_for states f) w)
        (reconcile_all-Reconciles states fs)
    where
      go :
          (x : W × Outcome)
          → Settles is_local standard_prompt opts close f (state_for states f) w x.0 x.1
          → ((v : W)
              → Reconciles is_local standard_prompt opts close states fs v
                  (all states fs v).0
                  (all states fs v).1)
          → Reconciles is_local standard_prompt opts close states
              (f ∷ fs)
              w
              (and_then (all states fs) x).0
              (and_then (all states fs) x).1
      go (w₁, ok u) now later = Reconciles.settled (state_for-IsAsked states f) now (later w₁)
      go (w₁, err e) now later = Reconciles.failed (state_for-IsAsked states f) now
