-- ===== src/Execute/BaseUrl.antt =====
-- resolveBaseURL of swagger_execute.go.
use mcp_swagger.Prelude.{◌||◌, ◌&&◌, not, Option, none, some, ◌++◌, if◌then◌else◌}
use mcp_swagger.Text.{Text, codes, text_eq, is_empty, to_lower, trim_space, has_suffix, trim_suffix}
use mcp_swagger.Policy.{mode_sandbox}
use mcp_swagger.Execute.Env.{ResolvedOperation, SwaggerExecuteOptions}
use mcp_swagger.Prepare.Url.{Url}
use mcp_swagger.Prepare.Request.{first_server}

abbrev host_path : Text → Url → Text
host_path path_template url = trim_suffix (trim_suffix url.path path_template) (codes "/")

-- The scheme and host of the URL template, and the path in front of the path template.
unfoldable pub template_base : Text → Option Url → Option Text
template_base path_template none = none
template_base path_template (some url) =
    let base = url.scheme ++ (codes "://" ++ url.host) in
    if is_empty url.scheme || is_empty url.host
    then none
    else if not (is_empty url.path) && has_suffix url.path path_template
    then some (base ++ host_path path_template url)
    else some base

unfoldable pub resolve_base_url :
    (Text → Option Url) → SwaggerExecuteOptions → ResolvedOperation → Option Text
unfolding template_base
resolve_base_url parse_url options endpoint =
    let sandbox = trim_space options.upstream_sandbox_base_url in
    let upstream = trim_space options.upstream_base_url in
    let server = first_server endpoint.servers in
    let base = trim_space endpoint.base_url in
    let raw_url = trim_space endpoint.url_template in
    if text_eq (to_lower (trim_space options.mode)) mode_sandbox
    then (if is_empty sandbox then none else some sandbox)
    else if not (is_empty upstream)
    then some upstream
    else if not (is_empty server)
    then some server
    else if not (is_empty base)
    then some base
    else if is_empty raw_url
    then none
    else template_base endpoint.path_template (parse_url raw_url)
