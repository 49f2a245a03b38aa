-- ===== src/Board/Routes.antt =====
-- `BoardHandler.do_GET` of dashboard/part_health_api.py: the answer to a request. The file system is
-- given: whether the frontend is built, the path that `resolve` makes, and what is a file.
use ajit_segment_bots.Prelude.{
  ◌&&◌, ◌||◌, ℕ, ◌==◌, Bool, not, [], ◌∷◌, ◌++◌, none, some, Text, codes, if◌then◌else◌, text_eq,
  starts_with, partition,
}

pub record Site : Type 0 where
  pub dist : Text
  pub dist_exists : Bool
  pub resolve : Text → Text
  pub is_file : Text → Bool
  pub suffix : Text → Text

pub data Answer : Type 0 where
  board_json blueprint_json : Answer
  static_file : Text → Text → Answer
  not_built not_found : Answer

abbrev pub status : Answer → ℕ
status not_built = 503
status not_found = 404
status _ = 200

-- `kinds.get(suffix, …)`
unfoldable pub content_type : Text → Text
content_type suffix =
    if text_eq suffix (codes ".html")
    then codes "text/html; charset=utf-8"
    else if text_eq suffix (codes ".js")
    then codes "text/javascript; charset=utf-8"
    else if text_eq suffix (codes ".css")
    then codes "text/css; charset=utf-8"
    else if text_eq suffix (codes ".json")
    then codes "application/json; charset=utf-8"
    else if text_eq suffix (codes ".svg")
    then codes "image/svg+xml"
    else codes "application/octet-stream"

-- `self.path.split("?", 1)[0]`
unfoldable pub route_of : Text → Text
route_of path = elim (partition (codes "?") path) [ none ↦ path | some (before, _) ↦ before ]

-- `route.lstrip("/")`
unfoldable pub strip_slashes : Text → Text
strip_slashes [] = []
strip_slashes (c ∷ s) = let rest = strip_slashes s in if c == b'/' then rest else c ∷ s

unfoldable pub relative_of : Text → Text
unfolding strip_slashes
relative_of route =
    if text_eq route (codes "/") || text_eq route []
    then codes "index.html"
    else strip_slashes route

module _ (site : Site) where
  -- `DIST / relative`
  abbrev joined : Text → Text
  joined [] = site.dist
  joined (c ∷ s) = site.dist ++ b'/' ∷ c ∷ s

  unfoldable pub candidate_of : Text → Text
  candidate_of route = site.resolve (joined (relative_of route))

  unfoldable pub serve_static : Text → Answer
  serve_static candidate =
      if site.dist_exists
        && (starts_with (site.resolve site.dist) candidate && site.is_file candidate)
      then static_file candidate (content_type (site.suffix candidate))
      else if not site.dist_exists
      then not_built
      else not_found

  unfoldable pub do_get : Text → Answer
  unfolding serve_static
  do_get path =
      let route = route_of path in
      if text_eq route (codes "/api/board")
      then board_json
      else if text_eq route (codes "/api/blueprint")
      then blueprint_json
      else serve_static (candidate_of route)
