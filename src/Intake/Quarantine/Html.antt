-- ===== src/Intake/Quarantine/Html.antt =====
-- intake/quarantine.py: what is stripped off a page. The four regular expressions are parameters: what
-- `search` finds, and what `sub` leaves.
use brain_flow.Prelude.{false, ◌≡◌, arith, String, Bool, true, [], ◌∷◌, ◌++◌, if◌then◌else◌}
use brain_flow.Intake.Quarantine.{QuarantineResult, clean}

pub record Pattern : Type 0 where
  pub search : String → Bool
  pub sub : String → String

pub record Patterns : Type 0 where
  pub script_tag : Pattern
  pub event_handler : Pattern
  pub js_url : Pattern
  pub remote_ref : Pattern

abbrev Page : Type 0
Page = String × QuarantineResult

-- One of the three substitutions, with its flag and its action.
abbrev strip : Pattern → String → String → Page → Page
strip p flag action (out, r) =
    if p.search out
    then (
      p.sub out,
      record r {
        scripts_stripped = true;
        active_content_flags = r.active_content_flags ++ flag ∷ [];
        actions = r.actions ++ action ∷ [];
      },
    )
    else (out, r)

-- A reference to another host stays, and is noted.
abbrev note_remote : Pattern → Page → Page
note_remote p (out, r) =
    if p.search out
    then (
      out,
      record r {
        active_content_flags = r.active_content_flags ++ "remote_reference" ∷ [];
        actions = r.actions ++ "noted_remote_reference_not_fetched" ∷ [];
      },
    )
    else (out, r)

unfoldable pub strip_html_active_content : Patterns → String → Page
strip_html_active_content p html = note_remote p.remote_ref (
    strip p.js_url "javascript_url" "stripped_javascript_urls" (
      strip p.event_handler "html_event_handler" "stripped_event_handlers"
        (strip p.script_tag "html_script" "stripped_script_tags" (html, clean))))

-- A page that is not reported as stripped is what it was, and none of what is stripped is found in it.
strip_html_active_content-kept :
    (p : Patterns) (html : String)
    → (strip_html_active_content p html).1.scripts_stripped ≡ false
    → ((strip_html_active_content p html).0 ≡ html)
      × (p.script_tag.search html ≡ false)
      × (p.event_handler.search html ≡ false)
      × (p.js_url.search html ≡ false)
unfolding strip_html_active_content
strip_html_active_content-kept p html h = ground arith
