-- ===== src/Rules/State/Cached.antt =====
-- pkg/component/status.go: reading through the cache is reading the files.
use sitectl.Prelude.{
  ◌≡◌, refl, ap, ◌∙◌, Bool, Bool-cases, inl, inr, Option, none, some, List, [], ◌∷◌, ◌++◌, All,
}
use sitectl.Result.{Result, ok, err, ◌>>=◌, Result-cases}
use mathlib.Core.Path.{subst}
use sitectl.Text.{Text, ◌==◌}
use sitectl.Text.Equality.{eq_sound}
use sitectl.Rules.{Value, Error, FileRule, Check, RuleCheckResult}
use sitectl.Rules.Files.{evaluate_file_rule}
use sitectl.Rules.State.{
  Cache, cached, read_behind, read_cached_file, evaluate_targets, evaluate_rules,
  evaluate_file_state, file_rule_targets, file_result,
}

module _ (read_file : Text → Result Error (Option Text)) where
  -- A cache that has only what the files have
  abbrev pub Agrees : Cache → Type 0
  Agrees cache = All (λ (e : Text × Option Text). read_file e.0 ≡ ok e.1) cache

  cached-Agrees :
      (path : Text) (cache : Cache) (contents : Option Text)
      → Agrees cache
      → cached path cache ≡ some contents
      → read_file path ≡ ok contents
  unfolding cached
  cached-Agrees path [] contents a h = cc
  cached-Agrees path ((p, c) ∷ cache) contents (here, there) h = elim (Bool-cases (p == path)) [
    | inl e ↦ let f = rw (e, cached) at h in let s = eq_sound p path e in cc
    | inr e ↦ cached-Agrees path cache contents there (rw (e, cached) at h)
  ]

  -- A result with a cache that agrees with the files, and the same result without one
  abbrev Simulates : {A : Type 0} → Result Error (A × Cache) → Result Error A → Type 0
  Simulates (ok (a, cache)) (ok b) = (a ≡ b) × Agrees cache
  Simulates (err e) (err f) = e ≡ f
  Simulates (ok r) (err f) = ⊥
  Simulates (err e) (ok b) = ⊥

  >>=-Simulates :
      {A B : Type 0} (m : Result Error (A × Cache)) (n : Result Error A)
      (f : A × Cache → Result Error (B × Cache)) (g : A → Result Error B)
      → Simulates m n
      → ((a : A) (cache : Cache) → Agrees cache → Simulates (f (a, cache)) (g a))
      → Simulates (m >>= f) (n >>= g)
  >>=-Simulates (ok (a, cache)) (ok b) f g (e, agrees) next =
      subst (λ x. Simulates (f (a, cache)) (g x)) e (next a cache agrees)
  >>=-Simulates (err e) (err e') f g h next = h
  >>=-Simulates (ok r) (err e) f g h next = absurd h
  >>=-Simulates (err e) (ok b) f g h next = absurd h

  >>=-forget :
      {A B : Type 0} (m : Result Error (A × Cache)) (n : Result Error A)
      (f : A × Cache → Result Error B) (g : A → Result Error B)
      → Simulates m n
      → ((a : A) (cache : Cache) → Agrees cache → f (a, cache) ≡ g a)
      → (m >>= f) ≡ (n >>= g)
  >>=-forget (ok (a, cache)) (ok b) f g (e, agrees) next = next a cache agrees ∙ ap g e
  >>=-forget (err e) (err e') f g h next = ap err h
  >>=-forget (ok r) (err e) f g h next = absurd h
  >>=-forget (err e) (ok b) f g h next = absurd h

  read_behind-Simulates :
      (path : Text) (cache : Cache) (o : Option (Option Text))
      → Agrees cache
      → cached path cache ≡ o
      → Simulates (read_behind read_file path cache o) (read_file path)
  read_behind-Simulates path cache (some contents) agrees h =
      rw (cached-Agrees path cache contents agrees h) (refl, agrees)
  read_behind-Simulates path cache none agrees h = elim (Result-cases (read_file path)) [
    | inl (c, e) ↦ rw e (refl, (e, agrees))
    | inr (f, e) ↦ rw e refl
  ]

  read_cached_file-Simulates :
      (path : Text) (cache : Cache)
      → Agrees cache
      → Simulates (read_cached_file read_file path cache) (read_file path)
  unfolding read_cached_file
  read_cached_file-Simulates path cache agrees =
      read_behind-Simulates path cache (cached path cache) agrees refl

module _ (decode : Text → Option Value) (sprint : Value → Text) (glob : Text → Text → Bool)
    (target : Text → Text) (read_file : Text → Result Error (Option Text)) where
  -- The evaluation that reads every file again
  unfoldable pub direct_targets : FileRule → List Text → Result Error (List RuleCheckResult)
  direct_targets rule [] = ok []
  direct_targets rule (rel ∷ rels) = read_file (target rel) >>= (λ (contents : Option Text).
      evaluate_file_rule decode sprint contents rule >>= (λ (c : Check).
        direct_targets rule rels >>= (λ (rest : List RuleCheckResult).
          ok (file_result decode sprint glob target rule rel c ∷ rest))))

  unfoldable pub direct_rules :
      Result Error (List Text) → List FileRule → Result Error (List RuleCheckResult)
  direct_rules listed [] = ok []
  direct_rules listed (rule ∷ rules) = file_rule_targets glob listed rule >>= (λ (rels : List Text).
      direct_targets rule rels >>= (λ (results : List RuleCheckResult).
        direct_rules listed rules >>= (λ (rest : List RuleCheckResult). ok (results ++ rest))))

  evaluate_targets-Simulates :
      (rule : FileRule) (rels : List Text) (cache : Cache)
      → Agrees read_file cache
      → Simulates read_file
          (evaluate_targets decode sprint glob target read_file rule rels cache)
          (direct_targets rule rels)
  unfolding evaluate_targets direct_targets
  evaluate_targets-Simulates rule [] cache agrees = (refl, agrees)
  evaluate_targets-Simulates rule (rel ∷ rels) cache agrees =
      >>=-Simulates read_file (read_cached_file read_file (target rel) cache)
        (read_file (target rel)) _ _
        (read_cached_file-Simulates read_file (target rel) cache agrees)
        (λ contents cache' agrees'.
          elim (Result-cases (evaluate_file_rule decode sprint contents rule)) [
            | inl (c, e) ↦ rw e (
                >>=-Simulates read_file
                  (evaluate_targets decode sprint glob target read_file rule rels cache')
                  (direct_targets rule rels) _ _
                  (evaluate_targets-Simulates rule rels cache' agrees')
                  (λ rest last agrees''. (refl, agrees'')))
            | inr (f, e) ↦ rw e refl
          ])

  evaluate_rules-direct_rules :
      (listed : Result Error (List Text)) (rules : List FileRule) (cache : Cache)
      → Agrees read_file cache
      → evaluate_rules decode sprint glob target listed read_file rules cache
        ≡ direct_rules listed rules
  unfolding evaluate_rules direct_rules
  evaluate_rules-direct_rules listed [] cache agrees = refl
  evaluate_rules-direct_rules listed (rule ∷ rules) cache agrees =
      elim (Result-cases (file_rule_targets glob listed rule)) [
        | inr (f, e) ↦ rw e refl
        | inl (rels, e) ↦ rw e (
            >>=-forget read_file
              (evaluate_targets decode sprint glob target read_file rule rels cache)
              (direct_targets rule rels) _ _ (evaluate_targets-Simulates rule rels cache agrees)
              (λ results cache' agrees'.
                ap (λ r. r >>= (λ (rest : List RuleCheckResult). ok (results ++ rest)))
                  (evaluate_rules-direct_rules listed rules cache' agrees')))
      ]

  -- The evaluation of the file rules of a state, with its cache, is the evaluation that reads every
  -- file again for every rule, errors included.
  pub evaluate_file_state-direct_rules :
      (listed : Result Error (List Text)) (rules : List FileRule)
      → evaluate_file_state decode sprint glob target listed read_file rules
        ≡ direct_rules listed rules
  unfolding evaluate_file_state
  evaluate_file_state-direct_rules listed rules = evaluate_rules-direct_rules listed rules [] tt
