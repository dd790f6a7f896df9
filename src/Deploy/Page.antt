-- ===== src/Deploy/Page.antt =====
-- `DeployPage`: what the page shows of its target, the folders and the upload, and its handlers.
use scrapydweb.Base.{
  ℕ, ◌≡◌, Bool, true, false, not, ◌&&◌, Option, none, some, List, [], ◌∷◌, ◌++◌, Text, text, truthy,
  or_text, length, ltb, ◌<◌, ◌==◌, arith, Bool-cases, inl, inr, Obj, All, same, if◌then◌else◌,
}
use scrapydweb.Js.View.{
  Shown, when, concat_map, Raises, IfEnabled, enabled, Raises-append, Raises-when, Raises-map,
}
use scrapydweb.Js.View
use scrapydweb.Js.Decimal.{show}
use scrapydweb.Deploy.{
  DeployState, UploadSource, file, server_folder, pick_folder, sync_node, can_deploy_folder,
  upload_fields,
}

-- the states of the page, and whether the mutation `deploy` is pending
pub record PageState : Type 0 where
  pub target : DeployState
  pub archive : Option Text
  pub drag_over : Bool
  pub pending : Bool

pub record FolderEntry : Type 0 where
  pub folder : Text
  pub project : Text
  pub modified : Text

pub record FoldersResponse : Type 0 where
  pub projects_dir : Text
  pub folders : List FolderEntry
  pub latest_folder : Text

pub data Event : Type 0 where
  node_changes : ℕ → Event
  choose_project : Text → Event
  type_version : Text → Event
  choose_nodes : List ℕ → Event
  pick : FolderEntry → Event
  drag : Bool → Event
  drop : (first : Option Text) → Event
  browse : (first : Option Text) → Event
  deploy : UploadSource → Event
  settled : Event

abbrev in_target : (DeployState → DeployState) → PageState → PageState
in_target f s = record s { target = f s.target }

abbrev dropped : Option Text → Option Text → Option Text
dropped none old = old
dropped (some f) old = some f

-- the handlers; `deploy` posts its fields, which `posted` gives
unfoldable pub handle : Event → PageState → PageState
unfolding pick_folder sync_node
handle (node_changes n) s = in_target (sync_node n) s
handle (choose_project p) s = in_target (λ t. record t { project = p }) s
handle (type_version v) s = in_target (λ t. record t { version = v }) s
handle (choose_nodes ns) s = in_target (λ t. record t { nodes = ns }) s
handle (pick f) s = in_target (pick_folder f.folder f.project) s
handle (drag b) s = record s { drag_over = b }
handle (drop f) s = record s { drag_over = false; archive = dropped f s.archive }
handle (browse f) s = record s { archive = f }
handle (deploy src) s = record s { pending = true }
handle settled s = record s { pending = false }

unfoldable pub posted : Event → PageState → Option (Obj Text)
unfolding upload_fields
posted (deploy src) s = some (upload_fields s.target src)
posted (node_changes n) s = none
posted (choose_project p) s = none
posted (type_version v) s = none
posted (choose_nodes ns) s = none
posted (pick f) s = none
posted (drag b) s = none
posted (drop f) s = none
posted (browse f) s = none
posted settled s = none

-- The card "Target"; the selection of a project and of nodes are components of their own.
unfoldable pub target_view : ℕ → PageState → List (Shown Event)
target_view node s =
    View.says (text "Deploy Project")
    ∷ View.says (text "node " ++ show node)
    ∷ View.says (text "Target")
    ∷ View.says (text "Project")
    ∷ View.input s.target.project true choose_project
    ∷ View.says (text "Version")
    ∷ View.input s.target.version (truthy s.target.project) type_version
    ∷ View.says (text "Deploy to nodes")
    ∷ []

module _ (fmt_date_time : Text → Text) where
  -- a folder's row
  unfoldable pub folder_row : FoldersResponse → FolderEntry → List (Shown Event)
  unfolding same
  folder_row scan f =
      View.button f.folder true (pick f)
      ∷ View.says (text "→ " ++ f.project)
      ∷ (when (same f.folder scan.latest_folder) (View.badge (text "latest") ∷ [])
          ++ View.says (fmt_date_time f.modified) ∷ [])

  abbrev rows_of : Option FoldersResponse → List (Shown Event)
  rows_of none = View.says (text "…") ∷ []
  rows_of (some scan) =
      View.says scan.projects_dir
      ∷ (when (length scan.folders == 0)
            (View.says (text "No scrapy projects found (folders containing scrapy.cfg).") ∷ [])
          ++ concat_map (folder_row scan) scan.folders)

  unfoldable pub folder_view : Option FoldersResponse → PageState → List (Shown Event)
  unfolding can_deploy_folder folder_row
  folder_view scan s =
      rows_of scan
      ++ View.button
          (if s.pending
            then text "Building egg…"
            else text "Deploy " ++ or_text s.target.folder (text "folder"))
          (can_deploy_folder s.target && not s.pending) (deploy (server_folder s.target.folder))
        ∷ []

-- the button of the upload, which is disabled without a file
abbrev upload_button : Option Text → Bool → Bool → List (Shown Event)
upload_button none some_nodes pending =
    View.button (if pending then text "Deploying…" else text "Deploy file") false (deploy (file []))
    ∷ []
upload_button (some f) some_nodes pending =
    View.button (if pending then text "Deploying…" else text "Deploy file")
      (some_nodes && not pending) (deploy (file f))
    ∷ []

abbrev archive_view : Option Text → List (Shown Event)
archive_view none =
    View.says (text "Drop an egg / zip / tar.gz here, or click to browse")
    ∷ View.says (text "archives are unpacked and built into an egg server-side")
    ∷ []
archive_view (some f) = View.says f ∷ []

unfoldable pub upload_view : PageState → List (Shown Event)
upload_view s =
    archive_view s.archive ++ upload_button s.archive (ltb 0 (length s.target.nodes)) s.pending

-- What is right of an upload when it is raised: its source is the page's, there is a node, and no
-- other upload is pending.
abbrev pub IsSource : PageState → UploadSource → Type 0
IsSource s (file f) = s.archive ≡ some f
IsSource s (server_folder f) = (f ≡ s.target.folder) × (truthy f ≡ true)

abbrev pub IsReady : PageState → Event → Type 0
IsReady s (deploy src) = IsSource s src × (0 < length s.target.nodes) × (s.pending ≡ false)
IsReady s (node_changes n) = Unit
IsReady s (choose_project p) = Unit
IsReady s (type_version v) = Unit
IsReady s (choose_nodes ns) = Unit
IsReady s (pick f) = Unit
IsReady s (drag b) = Unit
IsReady s (drop f) = Unit
IsReady s (browse f) = Unit
IsReady s settled = Unit

-- The page: the target, and the tabs "Server folder" and "Upload egg / archive".
unfoldable pub page_view :
    (Text → Text) → ℕ → Option FoldersResponse → PageState → List (Shown Event)
unfolding target_view folder_view upload_view
page_view fmt_date_time node scan s =
    target_view node s ++ (folder_view fmt_date_time scan s ++ upload_view s)

module _ (fmt_date_time : Text → Text) (s : PageState) where
  row-IsReady :
      (scan : FoldersResponse) (f : FolderEntry)
      → All (Raises (IsReady s)) (folder_row fmt_date_time scan f)
  unfolding folder_row
  row-IsReady scan f = ground arith

  rows-IsReady :
      (scan : Option FoldersResponse) → All (Raises (IsReady s)) (rows_of fmt_date_time scan)
  rows-IsReady none = (tt, tt)
  rows-IsReady (some scan) =
      let row = folder_row fmt_date_time scan in
      let rows = Raises-map (IsReady s) row scan.folders (row-IsReady scan) in
      elim (Bool-cases (length scan.folders == 0)) [
        | inl e ↦ rw e (tt, (tt, rows))
        | inr e ↦ rw e (tt, rows)
      ]

  target-IsReady : (node : ℕ) → All (Raises (IsReady s)) (target_view node s)
  unfolding target_view
  target-IsReady node =
      let typed = enabled (truthy s.target.project) (λ e t. tt) in
      (tt, (tt, (tt, (tt, (λ t. tt, (tt, (typed, (tt, tt))))))))

  folder-IsReady :
      (scan : Option FoldersResponse) → All (Raises (IsReady s)) (folder_view fmt_date_time scan s)
  unfolding folder_view
  folder-IsReady scan =
      Raises-append (IsReady s) (rows_of fmt_date_time scan) _ (rows-IsReady scan) (button, tt)
    where
      button :
          IfEnabled
            (can_deploy_folder s.target && not s.pending)
            (IsReady s (deploy (server_folder s.target.folder)))
      button =
          enabled (can_deploy_folder s.target && not s.pending)
            λ e. unfold can_deploy_folder in ground arith

  upload-IsReady : All (Raises (IsReady s)) (upload_view s)
  unfolding upload_view
  upload-IsReady = ground arith

-- Every upload that the deploy page offers has a source, a chosen folder or a chosen file, and at
-- least one node, and no other upload is pending when it is raised.
pub page_view-IsReady :
    (fmt_date_time : Text → Text) (node : ℕ) (scan : Option FoldersResponse) (s : PageState)
    → All (Raises (IsReady s)) (page_view fmt_date_time node scan s)
unfolding page_view
page_view-IsReady fmt node scan s =
    Raises-append (IsReady s) (target_view node s) _ (target-IsReady fmt s node) (
      Raises-append (IsReady s) (folder_view fmt scan s) _ (folder-IsReady fmt s scan)
        (upload-IsReady fmt s))
