-- ===== src/Deploy/History.antt =====
-- `RecentDeploysCard` and `CiTemplateCard`: the deploys of the past and the workflow for a repository.
use scrapydweb.Base.{
  ◌>>=◌, ℕ, Bool, not, ◌&&◌, Option, none, some, List, [], ◌∷◌, ◌++◌, map, Text, text, truthy,
  length, ◌==◌, same, if◌then◌else◌,
}
use scrapydweb.Js.Decimal.{show}
use scrapydweb.Js.Uri.{encode_uri}
use scrapydweb.Js.View.{Shown, when, when_some, concat_map}
use scrapydweb.Js.View
use scrapydweb.Api.Calls.{Call, deploy_history}

pub record NodeOutcome : Type 0 where
  pub node : ℕ
  pub server : Text
  pub status : Text
  pub message : Text

pub record DeployRecord : Type 0 where
  pub created_at : Option Text
  pub source : Text
  pub project : Text
  pub version : Text
  pub actor : Text
  pub status : Text
  pub results : List NodeOutcome

-- `SOURCE_LABEL[r.source] ?? r.source`
unfoldable pub source_label : Text → Text
unfolding same
source_label s =
    if same s (text "file")
    then text "upload"
    else if same s (text "push")
    then text "ci push"
    else s

-- the request of the card, every 15 seconds
unfoldable pub history_call : Call
history_call = deploy_history none (some 15) none none

unfoldable pub code_link : Text → Text → Option Text
unfolding encode_uri
code_link project version = do
  p ← encode_uri project
  v ← encode_uri version
  some (text "/code/" ++ (p ++ (text "/" ++ v)))

pub data Tone : Type 0 where
  good neutral bad : Tone

unfoldable pub node_tone : Text → Tone
unfolding same
node_tone status = if same status (text "ok") then good else bad

unfoldable pub status_tone : Text → Tone
unfolding same
status_tone status =
    if same status (text "ok") then good else if same status (text "pending") then neutral else bad

abbrev outcomes : Text → List NodeOutcome → List (Shown (Unit {0}))
outcomes status [] = View.badge status ∷ []
outcomes status (r ∷ rs) = map (λ (n : NodeOutcome). View.badge (text "n" ++ show n.node)) (r ∷ rs)

-- `fmtDateTime` is a parameter.
module _ (fmt_date_time : Option Text → Text) where
  unfoldable pub deploy_row : DeployRecord → List (Shown (Unit {0}))
  unfolding source_label code_link
  deploy_row r =
      View.says (fmt_date_time r.created_at)
      ∷ View.badge (source_label r.source)
      ∷ View.says r.project
      ∷ (when (truthy r.version) (View.link r.version (code_link r.project r.version) ∷ [])
          ++ (when (truthy r.actor) (View.says (text "by " ++ r.actor) ∷ [])
              ++ outcomes r.status r.results))

  unfoldable pub history_view : (is_loading : Bool) → List DeployRecord → List (Shown (Unit {0}))
  unfolding deploy_row
  history_view is_loading records =
      View.says (text "Recent deploys")
      ∷ (when (not is_loading && (length records == 0))
            (View.says (text "No deploys recorded yet.") ∷ [])
          ++ concat_map deploy_row records)

abbrev line : Text → Text → Text
line l rest = l ++ 10 ∷ rest

-- the workflow, for the instance's origin
unfoldable pub workflow : Text → Text
workflow origin = line (text "name: deploy-spiders") (
    line [] (
      line (text "on:") (
        line (text "  push:") (
          line
            (text "    tags: [\"v*\"]          # deploy on version tags; or use branches: [main]")
            (line [] (
              line (text "jobs:") (
                line (text "  deploy:") (
                  line (text "    runs-on: ubuntu-latest") (
                    line (text "    steps:") (
                      line (text "      - uses: actions/checkout@v4") (
                        line (text "      - uses: actions/setup-python@v5") (
                          line (text "        with: { python-version: \"3.12\" }") (
                            line (text "      - name: Build egg") (
                              line (text "        run: |") (
                                line (text "          pip install scrapyd-client") (
                                  line (text "          scrapyd-deploy --build-egg=project.egg") (
                                    line (text "      - name: Push to ScrapydWeb") (
                                      line (text "        run: |") (
                                        line
                                          (text "          curl --fail -X POST \""
                                            ++ (origin ++ text "/api/deploy/push\" \\"))
                                          (line
                                            (text
                                              "            -H \"X-Deploy-Token: ${{ secrets.SCRAPYDWEB_DEPLOY_TOKEN }}\" \\")
                                            (line (text "            -F \"egg=@project.egg\" \\") (
                                              line
                                                (text "            -F \"project=YOUR_PROJECT\" \\")
                                                (line (text "            -F \"nodes=1\" \\") (
                                                  text
                                                    "            -F \"version=${{ github.ref_name }}\""))))))))))))))))))))))))
