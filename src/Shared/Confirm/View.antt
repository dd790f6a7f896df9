-- ===== src/Shared/Confirm/View.antt =====
-- The dialog of `useConfirm`, of frontend/src/components/confirm-dialog.tsx.
use scrapydweb.Base.{
  ℕ, Bool, true, false, Option, none, some, or_else, List, [], ◌∷◌, ◌++◌, Text, text, truthy,
}
use scrapydweb.Js.View.{Shown, when}
use scrapydweb.Js.View
use scrapydweb.Shared.Confirm.{ConfirmState, close}

pub record ConfirmOptions : Type 0 where
  pub title : Text
  pub description : Option Text
  pub confirm_label : Option Text
  pub is_destructive : Bool

pub data Click : Type 0 where
  cancel accept : Click
  -- `onOpenChange`
  open_change : Bool → Click

-- the handlers of the render that shows the promise `n`
unfoldable pub click : (rendered : Option ℕ) → Click → ConfirmState → ConfirmState
unfolding close
click n cancel s = close n false s
click n accept s = close n true s
click n (open_change true) s = s
click n (open_change false) s = close n false s

-- `state?.description && …`
abbrev pub description_view : Option Text → List (Shown Click)
description_view none = []
description_view (some t) = when (truthy t) (View.says t ∷ [])

-- nothing when no promise is shown
unfoldable pub dialog_view : Option ConfirmOptions → List (Shown Click)
dialog_view none = []
dialog_view (some o) =
    View.says o.title
    ∷ (description_view o.description
        ++ View.button (text "Cancel") true cancel
          ∷ View.button (or_else o.confirm_label (text "Confirm")) true accept
          ∷ [])
