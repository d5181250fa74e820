-- ===== src/Prepare/Url.antt =====
-- buildTargetURL, joinBaseAndEndpointPath and inferBaseURLFromEndpointURL. net/url is `UrlApi`: of a
-- parsed URL `path` is the decoded path and `raw_path` the encoding of it that was given.
use mcp_swagger.Prelude.{
  Bool, not, ◌&&◌, ◌||◌, Option, none, some, List, [], ◌∷◌, ◌++◌, Result, ok, err, ◌==◌,
  if◌then◌else◌,
}
use mathlib.Core.List.{reverse}
use mcp_swagger.Text.{
  Text, codes, text_eq, is_empty, trim_space, has_prefix, has_suffix, trim_suffix,
}
use mcp_swagger.Dict.{Dict, put}
use mcp_swagger.Policy.{is_nil}
use mcp_swagger.Contract.Operation.{ResolvedOperation}

pub record Url : Type 0 where
  pub scheme : Text
  pub host : Text
  pub path : Text
  pub raw_path : Text
  pub raw_query : Text
  pub fragment : Text

pub record UrlApi : Type 0 where
  pub parse : Text → Option Url
  pub parse_query : Text → Dict (List Text)
  pub encode : Dict (List Text) → Text
  pub print : Url → Text

-- The errors of prepareEndpointRequest: "no base URL", and the others.
pub data PrepareError : Type 0 where
  no_base_url other_error : PrepareError

-- strings.TrimRight(s, "/")
abbrev drop_slashes : Text → Text
drop_slashes [] = []
drop_slashes (c ∷ t) = let rest = drop_slashes t in if c == 47 then rest else c ∷ t

unfoldable pub trim_right_slash : Text → Text
trim_right_slash s = reverse (drop_slashes (reverse s))

unfoldable pub join_base_and_endpoint_path : Text → Text → Text
unfolding trim_right_slash
join_base_and_endpoint_path base_path endpoint_path =
    let base = trim_space base_path in
    let given = trim_space endpoint_path in
    let endpoint = if has_prefix given (codes "/") then given else codes "/" ++ given in
    if is_empty given
    then (if is_empty base then codes "/" else base)
    else if is_empty base || text_eq base (codes "/")
    then endpoint
    else trim_right_slash base ++ endpoint

-- q.Set(key, value) for the values that are given, and for the last of those in the path.
unfoldable pub set_all : Dict Text → Dict (List Text) → Dict (List Text)
set_all [] q = q
set_all ((key, value) ∷ query) q = set_all query (put key (value ∷ []) q)

abbrev set_last : Text → List Text → Dict (List Text) → Dict (List Text)
set_last key [] q = q
set_last key (v ∷ []) q = put key (v ∷ []) q
set_last key (v ∷ vs) q = set_last key vs q

unfoldable pub set_path_query : Dict (List Text) → Dict (List Text) → Dict (List Text)
set_path_query [] q = q
set_path_query ((key, values) ∷ query) q = set_path_query query (set_last key values q)

module _ (api : UrlApi) where
  abbrev without_base : Bool → Text → Dict Text → Result PrepareError Text
  without_base allow_no_base path query =
      if not allow_no_base
      then err no_base_url
      else if is_nil query
      then ok path
      else ok (path ++ (codes "?" ++ api.encode (set_all query [])))

  abbrev pub merged : Url → Url → Dict Text → Url
  merged base part query = record base {
    path = join_base_and_endpoint_path base.path part.path;
    raw_path = [];
    raw_query = api.encode (
        set_all query
          (set_path_query (api.parse_query part.raw_query) (api.parse_query base.raw_query)));
    fragment = part.fragment;
  }

  abbrev pub with_path : Url → Option Url → Dict Text → Result PrepareError Text
  with_path base none query = err other_error
  with_path base (some part) query =
      if not (is_empty part.scheme) || not (is_empty part.host)
      then err other_error
      else ok (api.print (merged base part query))

  abbrev pub with_base : Option Url → Text → Dict Text → Result PrepareError Text
  with_base none path query = err other_error
  with_base (some base) path query = with_path base (api.parse path) query

  unfoldable pub build_target_url : Text → Text → Dict Text → Bool → Result PrepareError Text
  unfolding join_base_and_endpoint_path set_all set_path_query
  build_target_url base_url path query allow_no_base =
      if is_empty (trim_space base_url)
      then without_base allow_no_base path query
      else with_base (api.parse (trim_space base_url)) path query

  abbrev inferred : Text → Option Url → Text
  inferred template none = []
  inferred template (some u) =
      let base = u.scheme ++ (codes "://" ++ u.host) in
      if is_empty u.scheme || is_empty u.host
      then []
      else if not (is_empty u.path) && not (is_empty template) && has_suffix u.path template
      then base ++ trim_suffix (trim_suffix u.path template) (codes "/")
      else base

  unfoldable pub infer_base_url : ResolvedOperation → Text
  infer_base_url endpoint =
      let base = trim_space endpoint.base_url in
      let raw_url = trim_space endpoint.url_template in
      if not (is_empty base)
      then base
      else if is_empty raw_url
      then []
      else inferred endpoint.path_template (api.parse raw_url)
