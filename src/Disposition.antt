-- ===== src/Disposition.antt =====
-- pkg/component/manager.go: the states and dispositions of a component, as texts, and the follow-ups
-- of pkg/component/types.go that they select.
pub mod Normal
mod Tests
use sitectl.Prelude.{
  Bool, true, false, not, ◌&&◌, ◌||◌, List, [], ◌∷◌, if◌then◌else◌, is_empty, any, keep,
}
use sitectl.Result.{Result, ok, err}
use sitectl.Text.{Text, codes, ◌==◌, trim_space, to_lower}

abbrev pub lowered : Text → Text
lowered s = to_lower (trim_space s)

abbrev pub is_among : List Text → Text → Bool
is_among names s = any (λ name. name == s) names

abbrev pub states : List Text
states = codes "on" ∷ codes "off" ∷ []

abbrev pub dispositions : List Text
dispositions =
    codes "disabled"
    ∷ codes "superseded"
    ∷ codes "enabled"
    ∷ codes "distributed"
    ∷ codes "cantaloupe"
    ∷ codes "triplet"
    ∷ codes "nested"
    ∷ codes "git-root"
    ∷ []

-- normalizeState
unfoldable pub normalize_state : Text → Text
normalize_state s = lowered s

-- ParseState; the error holds the value.
unfoldable pub parse_state : Text → Result Text Text
unfolding normalize_state
parse_state v = if is_among states (normalize_state v) then ok (normalize_state v) else err v

-- The switch of normalizeDisposition over the text in lower case; the names that stand for
-- themselves fall under the last case.
unfoldable pub normalize_lowered : Text → Text
normalize_lowered s =
    if s == codes "on"
    then codes "enabled"
    else if s == codes "off"
    then codes "disabled"
    else if s == codes "superceded"
    then codes "superseded"
    else s

-- normalizeDisposition
unfoldable pub normalize_disposition : Text → Text
unfolding normalize_lowered
normalize_disposition d = normalize_lowered (lowered d)

-- ParseDisposition
unfoldable pub parse_disposition : Text → Result Text Text
unfolding normalize_disposition
parse_disposition v =
    if is_among dispositions (normalize_disposition v) then ok (normalize_disposition v) else err v

-- DispositionToState
unfoldable pub disposition_to_state : Text → Text
unfolding normalize_disposition
disposition_to_state d =
    if is_among (codes "enabled" ∷ codes "distributed" ∷ codes "triplet" ∷ codes "git-root" ∷ [])
      (normalize_disposition d)
    then codes "on"
    else codes "off"

-- StateToDisposition
unfoldable pub state_to_disposition : Text → Text
unfolding normalize_state
state_to_disposition s =
    if normalize_state s == codes "on" then codes "enabled" else codes "disabled"

-- FollowUpSpec, as far as it is looked at
pub record FollowUp : Type 0 where
  pub follow_up_name : Text
  pub applies_to_state : Text
  pub applies_to_disposition : Text

unfoldable pub is_followed : Text → FollowUp → Bool
unfolding normalize_disposition normalize_state disposition_to_state
is_followed disposition f =
    not (is_empty f.follow_up_name)
    && (if is_empty f.applies_to_disposition
        then is_empty f.applies_to_state
          || normalize_state f.applies_to_state
            == normalize_state (disposition_to_state disposition)
        else normalize_disposition f.applies_to_disposition == normalize_disposition disposition)

-- FollowUpsForDisposition, FollowUpsForState
unfoldable pub follow_ups_for_disposition : List FollowUp → Text → List FollowUp
unfolding is_followed
follow_ups_for_disposition follow_ups disposition = keep (is_followed disposition) follow_ups

unfoldable pub follow_ups_for_state : List FollowUp → Text → List FollowUp
unfolding follow_ups_for_disposition state_to_disposition
follow_ups_for_state follow_ups state =
    follow_ups_for_disposition follow_ups (state_to_disposition state)
