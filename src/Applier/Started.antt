-- ===== src/Applier/Started.antt =====
-- The calls of an apply that start units, but for given image builds.
use picolet.Prelude.{
  ℕ, String, ◌≡◌, refl, ◌∙◌, Bool, true, not, Option, none, some, List, [], ◌∷◌, arith, contains,
  count_if, eq_iff,
}
use picolet.GoMap.{GoMap}
use picolet.Applier.Types.{Env, Run, History, Call, run_build_unit, call}
use picolet.Applier.Restart.{add_restarted}
use picolet.Applier.Builds.{
  restore_tag, restore_tags, run_each_build, run_recorded, run_builds, image_ids,
}
use picolet.Applier.Apply.{reload_if_needed}
use picolet.Applier.Observe.{is_start_call}

-- What starts, restarts or enables a unit, now or after the apply, except the run of one of `builds`.
abbrev pub starts_beside : List String → Call → Bool
starts_beside builds (run_build_unit u) = not (contains u builds)
starts_beside builds c = is_start_call c

-- How many calls of a kind were made.
abbrev pub calls_of : (Call → Bool) → History → ℕ
calls_of kind = count_if (λ (c, ok). kind c)

abbrev pub starts : List String → History → ℕ
starts builds = calls_of (starts_beside builds)

pub reload_if_needed-starts :
    (builds : List String) (env : Env) (needed : Bool) (r : Run)
    → starts builds (reload_if_needed env needed r).0.history ≡ starts builds r.history
unfolding reload_if_needed call
reload_if_needed-starts builds env needed r = ground arith

module _ (builds : List String) (env : Env) where
  restore_tag-starts :
      (before : GoMap String) (tag : String) (r : Run)
      → starts builds (restore_tag env before tag r).0.history ≡ starts builds r.history
  unfolding restore_tag call
  restore_tag-starts before tag r = ground arith

  restore_tags-starts :
      (before : GoMap String) (tags : List String) (r : Run)
      → starts builds (restore_tags env before tags r).0.history ≡ starts builds r.history
  unfolding restore_tags
  restore_tags-starts before [] r = refl
  restore_tags-starts before (tag ∷ rest) r =
      restore_tags-starts before rest (restore_tag env before tag r).0
      ∙ restore_tag-starts before tag r

  build-starts :
      (u : String) (r : Run)
      → contains u builds ≡ true
      → starts builds (call env (run_build_unit u) r).0.history ≡ starts builds r.history
  unfolding call
  build-starts u r h = ground (arith, h)

  head_in :
      (u : String) (rest : List String)
      → ((v : String) → contains v (u ∷ rest) ≡ true → contains v builds ≡ true)
      → contains u builds ≡ true
  head_in u rest sub = sub u (ground (arith, eq_iff u u))

  run_each_build-starts :
      (before : GoMap String) (tags list : List String) (r : Run)
      → ((v : String) → contains v list ≡ true → contains v builds ≡ true)
      → starts builds (run_each_build env before tags list r).0.history ≡ starts builds r.history
  unfolding run_each_build
  run_each_build-starts before tags [] r sub = refl
  run_each_build-starts before tags (unit ∷ rest) r sub =
      let r' = (call env (run_build_unit unit) r).0 in
      let rest_sub : (v : String) → contains v rest ≡ true → contains v builds ≡ true =
        λ v h. sub v (ground (arith, h)) in
      ground (
        arith,
        build-starts unit r (head_in unit rest sub),
        restore_tags-starts before tags r',
        run_each_build-starts before tags rest (record r' { result = add_restarted unit r'.result })
            rest_sub,
      )

  run_recorded-starts :
      (tags : List String) (before : Option (GoMap String)) (r : Run)
      → starts builds (run_recorded env builds tags before r).0.history ≡ starts builds r.history
  unfolding run_recorded
  run_recorded-starts tags none r = refl
  run_recorded-starts tags (some before) r = run_each_build-starts before tags builds r (λ v h. h)

  pub run_builds-starts :
      (tags : List String) (r : Run)
      → starts builds (run_builds env builds tags r).0.history ≡ starts builds r.history
  unfolding run_builds
  run_builds-starts tags r = ground (arith, run_recorded-starts tags (image_ids env tags [] r) r)
