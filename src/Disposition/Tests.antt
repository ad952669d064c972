-- ===== src/Disposition/Tests.antt =====
-- States and dispositions in other spellings.
use sitectl.Prelude.{◌≡◌, refl}
use sitectl.Result.{ok}
use sitectl.Text.{Text, codes}
use sitectl.Disposition.{parse_state, parse_disposition, disposition_to_state, state_to_disposition}
use sitectl.Disposition.Normal.{parse_disposition-again, disposition_to_state-state_to_disposition}

on_parsed : parse_state (codes " On ") ≡ ok (codes "on")
unfolding parse_state sitectl.Text.trim_space sitectl.Text.to_lower sitectl.Text.◌==◌
on_parsed = refl

off_parsed : parse_disposition (codes "OFF") ≡ ok (codes "disabled")
unfolding parse_disposition sitectl.Text.trim_space sitectl.Text.to_lower sitectl.Text.◌==◌
off_parsed = refl

parse_disposition-again_example : parse_disposition (codes "disabled") ≡ ok (codes "disabled")
parse_disposition-again_example =
    parse_disposition-again (codes "OFF") (codes "disabled") off_parsed

disposition_to_state-state_to_disposition_example :
    disposition_to_state (state_to_disposition (codes "on")) ≡ codes "on"
disposition_to_state-state_to_disposition_example =
    disposition_to_state-state_to_disposition (codes " On ") (codes "on") on_parsed
