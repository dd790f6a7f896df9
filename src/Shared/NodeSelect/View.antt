-- ===== src/Shared/NodeSelect/View.antt =====
-- What `NodeMultiSelect` of frontend/src/components/node-multi-select.tsx shows.
use scrapydweb.Base.{
  ℕ, Bool, true, Option, none, some, List, [], ◌∷◌, ◌++◌, text, map, length, ◌==◌, includes,
}
use scrapydweb.Js.View.{Shown, when}
use scrapydweb.Js.View
use scrapydweb.Js.Decimal.{show}
use scrapydweb.Api.Types.{NodeInfo}
use scrapydweb.Shared.NodeSelect.{toggle}

-- a click on the button of a node
pub data Event : Type 0 where
  clicked : ℕ → Event

unfoldable pub handle : Event → List ℕ → List ℕ
unfolding toggle
handle (clicked n) value = toggle n value

-- whether the button of the node is lit
unfoldable pub is_active : List ℕ → NodeInfo → Bool
is_active value n = includes value n.node

unfoldable pub node_button : NodeInfo → Shown Event
node_button n = View.button (show n.node ++ (text " · " ++ n.server)) true (clicked n.node)

-- The nodes are none while they are asked for, and then the ones of the answer, or `[]` when it failed.
unfoldable pub select_view : Option (List NodeInfo) → List ℕ → List (Shown Event)
unfolding node_button
select_view none value = []
select_view (some nodes) value =
    map node_button nodes
    ++ when (length value == 0) (View.says (text "select at least one node") ∷ [])
