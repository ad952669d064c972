-- ===== src/Manager/Tests.antt =====
-- Two components over a world that is the list of the steps that were run.
use sitectl.Prelude.{◌≡◌, refl, ℕ, Bool, true, false, List, [], ◌∷◌}
use sitectl.Result.{ok, err}
use sitectl.Text.{Text, codes}
use sitectl.Manager.{
  step_failed, Step, ApplyOptions, ComponentSpec, Component, stages, reconcile_all,
}
use sitectl.Manager.Runs.{Reconciles}
use sitectl.Manager.Reconciled.{reconcile_all-Reconciles}

abbrev logged : ℕ → Step (List ℕ)
logged n w = (n ∷ w, ok tt)

abbrev broken : Step (List ℕ)
broken w = (w, err step_failed)

abbrev prompt : Bool → Text → Text
prompt enable name = name

abbrev options : ApplyOptions
options = record { yolo = true; auto_approve = false; confirm = λ question. ok false }

abbrev spec : ℕ → ComponentSpec (List ℕ)
spec n = record {
  name = codes "solr";
  gates = record { local_only = true; disable_confirmation = []; enable_confirmation = [] };
  compose = λ enable. logged n;
  drupal = λ enable. logged 2;
  files = broken;
  before_disable = logged 1 ∷ [];
  after_disable = logged 4 ∷ [];
  before_enable = logged 3 ∷ [];
  after_enable = logged 5 ∷ [];
}

abbrev solr : Component (List ℕ)
solr = record { name = codes "solr"; default_state = codes "on"; on = spec 7; off = spec 8 }

abbrev states : List (Text × Text)
states = (codes "solr", codes "off") ∷ []

-- The runtime that is closed is written down as 9.
abbrev close : List ℕ → List ℕ
close w = 9 ∷ w

abbrev reconciled : Step (List ℕ)
reconciled w = reconcile_all true prompt close states options (solr ∷ []) w

-- The failing change of files ends the run, and the runtime is closed.
run : reconciled [] ≡ (9 ∷ 2 ∷ 8 ∷ 1 ∷ [], err step_failed)
unfolding reconcile_all sitectl.Text.trim_space sitectl.Text.◌==◌ sitectl.Text.to_lower stages
run = refl

reconcile_all-Reconciles_example :
    Reconciles true prompt options close states (solr ∷ []) [] (reconciled []).0 (reconciled []).1
reconcile_all-Reconciles_example =
    reconcile_all-Reconciles true prompt close options states (solr ∷ []) []
