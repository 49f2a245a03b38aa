-- ===== src/Board/Requests.antt =====
-- Requests to a site beside which an older one lies, and a part that a message names.
use ajit_segment_bots.Board.{failing}
use ajit_segment_bots.Prelude.{
  ◌≡◌, ◌↔◌, ◌⊎◌, refl, true, false, List, [], ◌∷◌, String, Text, codes, text_eq, ok, All,
  if◌then◌else◌, partition, starts_with, words,
}
use ajit_segment_bots.Contracts.Sample.{sample_reader}
use ajit_segment_bots.Dict.{Dict, get, put}
use ajit_segment_bots.Board.Routes.{
  relative_of, Site, static_file, status, route_of, candidate_of, do_get, serve_static,
  content_type,
}
use ajit_segment_bots.Board.Served.{IsBelow, IsBeside, do_get_lem}
use ajit_segment_bots.Board.Monitor.{
  names_part, first_word, PartState, by_name_from, measure_parts, parts_in_violation,
  measure_features,
}
use ajit_segment_bots.Board.Named.{IsHonest, measure_parts-IsHonest}

abbrev dist : Text
dist = codes "/web/dist"

abbrev old_page : Text
old_page = codes "/web/dist-old/a.html"

-- The request climbs out of the directory and into the one beside it.
abbrev climbing : Text
climbing = codes "/../dist-old/a.html"

abbrev site : Site
site = record {
  dist = dist;
  dist_exists = true;
  resolve = λ p. if text_eq p (codes "/web/dist/../dist-old/a.html") then old_page else p;
  is_file = λ p. text_eq p old_page;
  suffix = λ p. codes ".html";
}

climbs : do_get site climbing ≡ static_file old_page (codes "text/html; charset=utf-8")
unfolding do_get serve_static candidate_of route_of partition starts_with text_eq content_type
    relative_of
climbs = refl

not_board : text_eq (route_of climbing) (codes "/api/board") ≡ false
unfolding route_of partition starts_with text_eq
not_board = refl

not_blueprint : text_eq (route_of climbing) (codes "/api/blueprint") ≡ false
unfolding route_of partition starts_with text_eq
not_blueprint = refl

do_get_lem_example :
    (((kind : Text) × (do_get site climbing ≡ static_file old_page kind)) ↔ (
      (true ≡ true)
      × (text_eq old_page old_page ≡ true)
      × (old_page ≡ candidate_of site (route_of climbing))
      × (IsBelow (site.resolve dist) old_page ⊎ IsBeside (site.resolve dist) old_page)))
    × ((status (do_get site climbing) ≡ 503) ↔ (true ≡ false))
do_get_lem_example = do_get_lem site climbing old_page not_board not_blueprint

abbrev names : Dict String
names = ("Reader", "reader") ∷ []

abbrev message : Text
message = codes "T-1 Reader: is no switch"

names_read : by_name_from [] (sample_reader ∷ []) ≡ ok names
unfolding by_name_from put
names_read = refl

abbrev measured_parts : List PartState
measured_parts =
    record {
      part_id = "reader";
      name = "Reader";
      role = "Reads ticks";
      category = "feed";
      rung = failing;
    }
    ∷ []

parts_measured : measure_parts (λ i. []) [] (sample_reader ∷ []) (message ∷ []) ≡ ok measured_parts
unfolding measure_parts parts_in_violation measure_features by_name_from put get names_part
    first_word words starts_with
parts_measured = refl

measure_parts-IsHonest_example : All (IsHonest (λ i. []) [] (message ∷ []) names) measured_parts
measure_parts-IsHonest_example =
    measure_parts-IsHonest (λ i. []) [] (sample_reader ∷ []) (message ∷ []) names measured_parts
      names_read parts_measured
