-- ===== src/Shared/Reason.antt =====
-- `isFailedReason` of frontend/src/lib/utils.ts.
use scrapydweb.Base.{
  Bool, false, not, ◌&&◌, List, [], ◌∷◌, Option, none, some, Text, text, truthy, same,
  includes_text,
}

unfoldable pub failed_finish_reasons : List Text
failed_finish_reasons =
    text "cancelled"
    ∷ text "shutdown"
    ∷ text "closespider_errorcount"
    ∷ text "memusage_exceeded"
    ∷ text "error"
    ∷ []

unfoldable pub is_failed_reason : Option Text → Bool
is_failed_reason none = false
is_failed_reason (some reason) =
    truthy reason && not (same reason (text "N/A")) && includes_text failed_finish_reasons reason
