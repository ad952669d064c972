-- ===== src/Rules/Detect/Counts.antt =====
-- pkg/component/status.go: the counts of a state's checks, and the state that is detected by them.
use sitectl.Prelude.{
  ◌+◌, ◌≡◌, refl, sym, ap, ap₂, ◌∙◌, Bool, true, false, Bool-cases, inl, inr, Option, List, [], ◌∷◌,
  all, length, nat_eq, arith,
}
use sitectl.Result.{Result, ok, >>=-eq-ok, ok-injective}
use sitectl.Text.{Text, codes}
use sitectl.Rules.{Value, Error, YamlRule, FileRule, RuleCheckResult}
use sitectl.Rules.State.{evaluate_file_state}
use sitectl.Rules.Detect.{
  DomainSpec, StateCheck, ComponentStatus, DetectedState, detected_on, detected_off, drifted, count,
  detect, evaluate_yaml_state, evaluate_domain_spec, detect_component_status,
}

abbrev pub all_match : List RuleCheckResult → Bool
all_match results = all (λ r. r.result.match) results

-- The state by whether all rules of the on state hold, and all of the off state
abbrev pub state_by : Bool → Bool → DetectedState
state_by true true = drifted
state_by true false = detected_on
state_by false true = detected_off
state_by false false = drifted

failed_none : (rs : List RuleCheckResult) → nat_eq (count false rs) 0 ≡ all_match rs
unfolding count
failed_none [] = refl
failed_none (r ∷ rs) = elim (Bool-cases r.result.match) [
  | inl e ↦ rw (e, count) (failed_none rs)
  | inr e ↦ rw (e, count) (ground arith)
]

count-length : (rs : List RuleCheckResult) → count true rs + count false rs ≡ length rs
unfolding count
count-length [] = refl
count-length (r ∷ rs) =
    let ih = count-length rs in
    elim (Bool-cases r.result.match) [
      | inl e ↦ rw (e, count) (omega arith)
      | inr e ↦ rw (e, count) (omega arith)
    ]

detect_lem :
    (on off : StateCheck) → detect on off ≡ state_by (nat_eq on.failed 0) (nat_eq off.failed 0)
unfolding detect
detect_lem on off = ground arith

abbrev IsCounted : StateCheck → Type 0
IsCounted c = (c.passed ≡ count true c.results) × (c.failed ≡ count false c.results)

IsCounted-length : (c : StateCheck) → IsCounted c → c.passed + c.failed ≡ length c.results
IsCounted-length c (p, f) = ap₂ (λ m n. m + n) p f ∙ count-length c.results

IsCounted-failed : (c : StateCheck) → IsCounted c → nat_eq c.failed 0 ≡ all_match c.results
IsCounted-failed c (p, f) = ap (λ n. nat_eq n 0) f ∙ failed_none c.results

module _ (decode_yaml : Text → Option Value) (decode_json : Text → Option Value)
    (sprint : Value → Text) (glob : Text → Text → Bool) (path_of : Text → Text → Text)
    (list_files : Text → Result Error (List Text)) (read_file : Text → Result Error (Option Text))
    (sort : List RuleCheckResult → List RuleCheckResult) where
  abbrev yaml_state : Text → Text → List YamlRule → Result Error (List RuleCheckResult)
  yaml_state =
      evaluate_yaml_state decode_yaml decode_json sprint glob path_of list_files read_file sort

  abbrev file_state : Text → List FileRule → Result Error (List RuleCheckResult)
  file_state root =
      evaluate_file_state decode_json sprint glob (path_of root) (list_files root) read_file

  abbrev domain_spec : Text → Text → DomainSpec → Result Error StateCheck
  domain_spec =
      evaluate_domain_spec decode_yaml decode_json sprint glob path_of list_files read_file sort

  evaluate_domain_spec-IsCounted :
      (compose_root drupal_root : Text) (spec : DomainSpec) (c : StateCheck)
      → domain_spec compose_root drupal_root spec ≡ ok c
      → IsCounted c
  unfolding evaluate_domain_spec
  evaluate_domain_spec-IsCounted compose_root drupal_root spec c h =
      let (compose, _, h₁) =
        >>=-eq-ok (yaml_state compose_root (codes "compose") spec.compose) _ h in
      let (drupal, _, h₂) = >>=-eq-ok (yaml_state drupal_root (codes "drupal") spec.drupal) _ h₁ in
      let (files, _, h₃) = >>=-eq-ok (file_state compose_root spec.files) _ h₂ in
      let e = ok-injective h₃ in rw (sym e) (refl, refl)

  -- A component is detected as on if all checks of its on state match and not all of its off state, as
  -- off in the opposite case, and else as drifted; and the passed and failed checks of a state are as
  -- many as its results. This holds whenever no file fails to be read or decoded.
  pub detect_component_status-all_match :
      (compose_root drupal_root name : Text) (on off : DomainSpec) (st : ComponentStatus)
      → detect_component_status decode_yaml decode_json sprint glob path_of list_files read_file
          sort compose_root drupal_root name on off
        ≡ ok st
      → (st.state ≡ state_by (all_match st.on.results) (all_match st.off.results))
        × (st.on.passed + st.on.failed ≡ length st.on.results)
        × (st.off.passed + st.off.failed ≡ length st.off.results)
  unfolding detect_component_status
  detect_component_status-all_match compose_root drupal_root name on off st h =
      let (a, on_ok, h₁) = >>=-eq-ok (domain_spec compose_root drupal_root on) _ h in
      let (b, off_ok, h₂) = >>=-eq-ok (domain_spec compose_root drupal_root off) _ h₁ in
      let counted_on = evaluate_domain_spec-IsCounted compose_root drupal_root on a on_ok in
      let counted_off = evaluate_domain_spec-IsCounted compose_root drupal_root off b off_ok in
      rw (sym (ok-injective h₂)) (
        detect_lem a b
            ∙ ap₂ state_by (IsCounted-failed a counted_on) (IsCounted-failed b counted_off),
        IsCounted-length a counted_on,
        IsCounted-length b counted_off,
      )
