-- ===== src/Examples/Groups.antt =====
-- The groups page.
use scrapydweb.Base.{◌≡◌, refl, true, false, not, ◌&&◌, [], ◌∷◌, none, text, any}
use scrapydweb.Api.Types.{JobGroup}
use scrapydweb.Groups.Form.{GroupForm, empty_form, to_record}
use scrapydweb.Groups.Form.RoundTrip.{kept_fields}
use scrapydweb.Groups.Page.{edit, edits, remove}
use scrapydweb.Groups.Page.Reach.{
  World, has_id, without, is_listed, Steps, Steps-listed, edited, asked, removed, done, step,
  is_listed-remove,
}

abbrev a_form : GroupForm
a_form = record {
  name = text "nightly";
  project = text "demo";
  version = text "1_0";
  spiders = text "books" ∷ [];
  nodes = 1 ∷ [];
  settings = record { key = text "A"; value = text "1" } ∷ [];
  args = record { key = text "category"; value = text "new" } ∷ [];
  notify_enabled = false;
  notify_channels = [];
}

abbrev a_group : JobGroup
a_group = kept_fields 5 (text "/api/groups/5/fire") none none (to_record a_form)

abbrev opened : World
opened = record {
  page = record { editing = none; form = empty_form 1 };
  groups = a_group ∷ [];
  pending = [];
}

abbrev editing : World
editing = record opened { page = edit 1 a_group opened.page }

abbrev leaving : World
leaving = record editing { pending = (editing.page.editing, a_group.id) ∷ [] }

abbrev emptied : World
emptied = record {
  page = (remove 1 editing.page.editing true true a_group editing.page).0;
  groups = without (a_group ∷ []) a_group.id;
  pending = [];
}

has-group : has_id (a_group ∷ []) a_group.id ≡ true
unfolding has_id any
has-group = refl

edit_and_remove : Steps 1 opened emptied
edit_and_remove = step opened editing emptied (edited opened a_group has-group tt) (
    step editing leaving emptied (asked editing a_group) (
      step leaving emptied emptied (removed leaving editing.page.editing a_group [] [] refl)
        (done emptied)))

Steps-listed_example : is_listed emptied.page.editing emptied.groups ≡ true
Steps-listed_example = Steps-listed 1 opened emptied edit_and_remove (unfold is_listed in refl) refl

-- Delete is clicked while nothing is edited, and Edit before the answer.
is_listed-remove_example :
    is_listed
      (remove 1 none true true a_group editing.page).0.editing
      (without (a_group ∷ []) a_group.id)
    ≡ not (edits editing.page.editing a_group.id && not (edits none a_group.id))
is_listed-remove_example =
    is_listed-remove 1 none a_group editing.page (a_group ∷ []) (unfold is_listed edit in has-group)
