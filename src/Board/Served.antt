-- ===== src/Board/Served.antt =====
-- What a request is answered with, and where the files that are served lie.
use ajit_segment_bots.Probes.Readings.{differs}
use mathlib.Core.List.{append-nil}
use ajit_segment_bots.Prelude.{
  ◌≡◌, ◌≢◌, ◌↔◌, ◌⊎◌, inl, inr, refl, arith, ap, sym, ◌∙◌, ℕ, ◌==◌, true, false, [], ◌∷◌, ◌++◌,
  Text, codes, text_eq, starts_with, Bool-cases,
}
use ajit_segment_bots.Board.Routes.{
  Site, static_file, status, route_of, candidate_of, content_type, serve_static, do_get,
}

starts_with-append : (p s : Text) → starts_with p s ≡ true → (rest : Text) × (s ≡ p ++ rest)
unfolding starts_with
starts_with-append [] s h = (s, refl)
starts_with-append (a ∷ p) [] h = absurd (cc h)
starts_with-append (a ∷ p) (b ∷ s) h =
    let (rest, same) = starts_with-append p s (ground (arith, h)) in (rest, ground (arith, h, same))

-- The directory itself, below it, or beside it under a longer name.
abbrev pub IsBelow : Text → Text → Type 0
IsBelow directory path = (path ≡ directory) ⊎ ((rest : Text) × (path ≡ directory ++ b'/' ∷ rest))

abbrev pub IsBeside : Text → Text → Type 0
IsBeside directory path = (c : ℕ) × (rest : Text) × (c ≢ b'/') × (path ≡ directory ++ c ∷ rest)

below_or_beside :
    (directory path rest : Text)
    → path ≡ directory ++ rest
    → IsBelow directory path ⊎ IsBeside directory path
below_or_beside directory path [] same = inl (inl (same ∙ append-nil directory))
below_or_beside directory path (c ∷ rest) same = elim (Bool-cases (c == b'/')) [
  | inl slash ↦ inl (inr (rest, same ∙ ap (λ d. directory ++ d ∷ rest) (ground (arith, slash))))
  | inr differs ↦ inr (c, rest, (λ e. absurd (ground (arith, differs, e))), same)
]

append-starts_with : (p rest : Text) → starts_with p (p ++ rest) ≡ true
unfolding starts_with
append-starts_with [] rest = refl
append-starts_with (a ∷ p) rest = ground (arith, append-starts_with p rest)

begins_at :
    (directory path : Text)
    → IsBelow directory path ⊎ IsBeside directory path
    → starts_with directory path ≡ true
begins_at directory path (inl (inl same)) =
    ap (starts_with directory) (same ∙ sym (append-nil directory)) ∙ append-starts_with directory []
begins_at directory path (inl (inr (rest, same))) =
    ap (starts_with directory) same ∙ append-starts_with directory (b'/' ∷ rest)
begins_at directory path (inr (c, rest, _, same)) =
    ap (starts_with directory) same ∙ append-starts_with directory (c ∷ rest)

module _ (site : Site) where
  do_get-static :
      (path file kind : Text)
      → do_get site path ≡ static_file file kind
      → serve_static site (candidate_of site (route_of path)) ≡ static_file file kind
  unfolding do_get
  do_get-static path file kind h = ground (arith, h)

  serve_static-file :
      (candidate file kind : Text)
      → serve_static site candidate ≡ static_file file kind
      → (site.dist_exists ≡ true)
        × (starts_with (site.resolve site.dist) file ≡ true)
        × (site.is_file file ≡ true)
        × (file ≡ candidate)
  unfolding serve_static
  serve_static-file candidate file kind h = ground (arith, h)

  placed :
      (file : Text)
      → starts_with (site.resolve site.dist) file ≡ true
      → IsBelow (site.resolve site.dist) file ⊎ IsBeside (site.resolve site.dist) file
  placed file begins =
      let (rest, same) = starts_with-append (site.resolve site.dist) file begins in
      below_or_beside (site.resolve site.dist) file rest same

  do_get-missing :
      (path : Text)
      → text_eq (route_of path) (codes "/api/board") ≡ false
      → text_eq (route_of path) (codes "/api/blueprint") ≡ false
      → (status (do_get site path) ≡ 503) ↔ (site.dist_exists ≡ false)
  unfolding do_get serve_static
  do_get-missing path board_apart blueprint_apart = ground (arith, board_apart, blueprint_apart)

  serve_static-begins :
      (candidate : Text)
      → site.dist_exists ≡ true
      → starts_with (site.resolve site.dist) candidate ≡ true
      → site.is_file candidate ≡ true
      → serve_static site candidate ≡ static_file candidate (content_type (site.suffix candidate))
  unfolding serve_static
  serve_static-begins candidate exists begins is_file = ground (arith, exists, begins, is_file)

  do_get-candidate :
      (path : Text)
      → text_eq (route_of path) (codes "/api/board") ≡ false
      → text_eq (route_of path) (codes "/api/blueprint") ≡ false
      → do_get site path ≡ serve_static site (candidate_of site (route_of path))
  unfolding do_get
  do_get-candidate path board_apart blueprint_apart = ground (arith, board_apart, blueprint_apart)

  -- For a request that is for neither interface: it is answered with a file exactly if the frontend is
  -- there, the file is one, the request resolves to it, and it is the frontend's directory, lies below
  -- it, or lies beside it under a name that goes on where the directory's ends; and it is answered 503
  -- exactly if there is no frontend.
  pub do_get_lem :
      (path file : Text)
      → text_eq (route_of path) (codes "/api/board") ≡ false
      → text_eq (route_of path) (codes "/api/blueprint") ≡ false
      → (((kind : Text) × (do_get site path ≡ static_file file kind)) ↔ (
          (site.dist_exists ≡ true)
          × (site.is_file file ≡ true)
          × (file ≡ candidate_of site (route_of path))
          × (IsBelow (site.resolve site.dist) file ⊎ IsBeside (site.resolve site.dist) file)))
        × ((status (do_get site path) ≡ 503) ↔ (site.dist_exists ≡ false))
  do_get_lem path file board_apart blueprint_apart = (
    (
      (λ (kind, h).
          let (exists, begins, is_file, same) =
            serve_static-file (candidate_of site (route_of path)) file kind
              (do_get-static path file kind h) in
          (exists, is_file, same, placed file begins)),
      (λ (exists, is_file, same, place). (
        content_type (site.suffix file),
        do_get-candidate path board_apart blueprint_apart
            ∙ ap (serve_static site) (sym same)
            ∙ serve_static-begins file exists (begins_at (site.resolve site.dist) file place)
                is_file,
      )),
    ),
    do_get-missing path board_apart blueprint_apart,
  )
