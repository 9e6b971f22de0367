-- ===== src/Provision/Helm/Charts.antt =====
-- pkg/provider/helm/helm.go: `getChartRef`, where a chart is found.
use Prim.Native.String.{◌++◌}
use cofidectl.Common.{String, ◌==◌, Option, none, some, if◌then◌else◌}
use cofidectl.Common.Errors.{Result, ok, err, empty_chart_name, empty_repo_path, empty_repo_name}

-- `strings.TrimRight(path, "/")`
unfoldable pub trim_right_slashes : String → String
trim_right_slashes String.[] = ""
trim_right_slashes (String.◌∷◌ c s) =
    let rest = trim_right_slashes s in
    if rest == ""
    then (if String.◌∷◌ c "" == "/" then "" else String.◌∷◌ c "")
    else String.◌∷◌ c rest

-- `getChartRef`, given `os.LookupEnv("HELM_REPO_PATH")`
unfoldable pub get_chart_ref : Option String → String → String → Result String
get_chart_ref repo_path repo_name chart_name =
    if chart_name == "" then err empty_chart_name else elim repo_path [
      | some path ↦
          if path == ""
          then err empty_repo_path
          else ok (trim_right_slashes path ++ "/" ++ chart_name)
      | none ↦ if repo_name == "" then err empty_repo_name else ok (repo_name ++ "/" ++ chart_name)
    ]
