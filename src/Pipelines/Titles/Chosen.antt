-- ===== src/Pipelines/Titles/Chosen.antt =====
-- The titles that daemon/pipelines/movie_title_select.go chooses.
use disc_echo_dd.Common.{
  ℕ, ◌<◌, ◌≡◌, refl, ◌⊎◌, inl, inr, true, List, [], ◌∷◌, Option, none, Memᴰ, keep_if_mem,
  mem-keep_if, ◌↔◌, GoError, Bool-cases, Option-cases, ok, err, message, codes, ◌++◌, format, ap,
}
use disc_echo_dd.State.Rows.{Profile}
use disc_echo_dd.Pipelines.Options.{include_extras, min_extra_seconds, extras_max_ratio}
use disc_echo_dd.Pipelines.Titles.{
  MakeMkvTitle, longest_from, add_extras, extras_of, is_extra_of, select_movie_titles,
  select_extras, with_extras, pick_longest_title, min_title_seconds,
}
use disc_echo_dd.Pipelines.Titles.Best.{Longest, Longest-of, longest_from-none}

module _ (ratio_of : ℕ → ℕ → ℕ) where
  add_extras-titles :
      (main : MakeMkvTitle) (es : List MakeMkvTitle)
      → (n : ℕ) × (add_extras ratio_of main es ≡ (main ∷ es, n))
  add_extras-titles main [] = (0, refl)
  add_extras-titles main (e ∷ es) = (main.id, refl)

  -- The main feature's duration band, and not the main feature.
  abbrev pub IsExtra : Option Profile → MakeMkvTitle → MakeMkvTitle → Type 0
  IsExtra prof main t =
      is_extra_of (min_extra_seconds prof) (ratio_of main.duration_sec (extras_max_ratio prof)) main
        t
      ≡ true

  extras_mem :
      (prof : Option Profile) (titles : List MakeMkvTitle) (main t : MakeMkvTitle)
      → Memᴰ t (extras_of ratio_of prof titles main)
        ↔ ((include_extras prof ≡ true) × Memᴰ t titles × IsExtra prof main t)
  unfolding select_extras
  extras_mem prof titles main t = elim (Bool-cases (include_extras prof)) [
    | inl on ↦ (
      λ m.
          let (n, e) =
            keep_if_mem
              (is_extra_of (min_extra_seconds prof)
                (ratio_of main.duration_sec (extras_max_ratio prof)) main)
              titles t (rw on at m) in
          (on, n, e),
      λ (u, n, e). rw on (
          mem-keep_if
            (is_extra_of (min_extra_seconds prof)
              (ratio_of main.duration_sec (extras_max_ratio prof)) main)
            titles t n e),
    )
    | inr off ↦ (λ m. absurd (let n = rw off at m in elim n [ ]), λ (u, n, e). absurd (cc (u, off)))
  ]

  -- Without a pick by the user, the selection fails exactly where no title reaches the profile's
  -- minimum; otherwise it starts with a longest such title, and the rest are the other titles of the
  -- extras' duration band, where the profile asks for extras.
  pub select_movie_titles_auto :
      (titles : List MakeMkvTitle) (prof : Option Profile)
      → (((u : MakeMkvTitle) → Memᴰ u titles → u.duration_sec < min_title_seconds prof)
          × ((e : GoError) × (select_movie_titles ratio_of [] titles prof ≡ err e)))
        ⊎ ((main : MakeMkvTitle) × (rest : List MakeMkvTitle) × (n : ℕ) × (select_movie_titles
                ratio_of [] titles prof
              ≡ ok (main ∷ rest, n))
            × Longest (min_title_seconds prof) titles main
            × ((t : MakeMkvTitle)
                → Memᴰ t rest
                  ↔ ((include_extras prof ≡ true) × Memᴰ t titles × IsExtra prof main t)))
  unfolding select_movie_titles pick_longest_title with_extras
  select_movie_titles_auto titles prof =
      elim (Option-cases (longest_from (min_title_seconds prof) titles none)) [
        | inl missing ↦ inl (
          longest_from-none (min_title_seconds prof) titles missing,
          (
            message (
                codes "no title with duration >= " ++ format (min_title_seconds prof) ++ codes "s"),
            rw missing refl,
          ),
        )
        | inr (t, found) ↦
            let (n, e) = add_extras-titles t (extras_of ratio_of prof titles t) in
            inr (
              t,
              extras_of ratio_of prof titles t,
              n,
              rw found (ap ok e),
              Longest-of (min_title_seconds prof) titles t found,
              extras_mem prof titles t,
            )
      ]
