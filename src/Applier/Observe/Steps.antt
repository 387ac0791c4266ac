-- ===== src/Applier/Observe/Steps.antt =====
-- What stopping units, writing files, building images and restarting units leave alone.
use picolet.Prelude.{
  String, ◌≡◌, refl, ◌∙◌, Bool, true, Option, none, some, List, [], ◌∷◌, arith, or_else,
}
use picolet.GoMap.{GoMap, get}
use picolet.FilePath.{dir}
use picolet.Changeset.{Change}
use picolet.Applier.Types.{
  Op, disable, Env, Applier, Run, History, Call, call, unit_op, stop_unit, secret_create,
  secret_remove, mkdir_all, write_file, remove_file, daemon_reload, run_build_unit, image_tag,
  image_untag,
}
use picolet.Applier.Phase.{
  run_systemd_op, stop_unit_for_delete, prepare_delete, unit_name_for_delete,
  apply_create_or_update, apply_delete, apply_change, secret_name, is_update,
}
use picolet.Applier.Restart.{add_restarted}
use picolet.Applier.Builds.{
  image_ids, restore_tag, restore_tags, run_each_build, run_recorded, run_builds,
}
use picolet.Applier.Apply.{reload_if_needed}
use picolet.Applier.Observe.{Ignores, is_stop_call, is_file_call, is_prepare_call}

module _ {X : Type 0} (O : History → X) where
  pub call-unseen :
      (kind : Call → Bool)
      → Ignores O kind
      → (env : Env) (c : Call) (r : Run) → kind c ≡ true
      → O (call env c r).0.history ≡ O r.history
  unfolding call
  call-unseen kind unseen env c r h = unseen c _ r.history h

  pub run_systemd_op-unseen :
      (kind : Call → Bool)
      → Ignores O kind
      → (env : Env) (unit : String) (op : Op) (r : Run) → kind (unit_op op unit) ≡ true
      → O (run_systemd_op env unit op r).history ≡ O r.history
  unfolding run_systemd_op
  run_systemd_op-unseen kind unseen env unit op r h =
      ground (arith, call-unseen kind unseen env (unit_op op unit) r h)

module _ {X : Type 0} (O : History → X) (unseen : Ignores O is_stop_call) (env : Env)
    (a : Applier) where
  pub prepare_delete-unseen :
      (c : Change) (r : Run) → O (prepare_delete env a c r).history ≡ O r.history
  unfolding prepare_delete stop_unit_for_delete
  prepare_delete-unseen c r =
      let unit = unit_name_for_delete c in
      let disabled = run_systemd_op env unit disable r in
      ground (
        arith,
        run_systemd_op-unseen O is_stop_call unseen env unit disable r refl,
        call-unseen O is_stop_call unseen env (stop_unit unit) r refl,
        call-unseen O is_stop_call unseen env (stop_unit unit) disabled refl,
      )

module _ {X : Type 0} (O : History → X) (unseen : Ignores O is_file_call) (env : Env) where
  writing-unseen :
      (c : Change) (r : Run) → O (apply_create_or_update env c r).0.history ≡ O r.history
  unfolding apply_create_or_update
  writing-unseen c r =
      let made = (call env (mkdir_all (dir c.dest_path)) r).0 in
      let seen = call-unseen O is_file_call unseen env in
      ground (
        arith,
        seen (secret_create (secret_name c.dest_path) c.new_content (is_update c.action)) r refl,
        seen (mkdir_all (dir c.dest_path)) r refl,
        seen (write_file c.dest_path c.new_content) made refl,
      )

  deleting-unseen : (c : Change) (r : Run) → O (apply_delete env c r).0.history ≡ O r.history
  unfolding apply_delete
  deleting-unseen c r =
      let seen = call-unseen O is_file_call unseen env in
      ground (
        arith,
        seen (secret_remove (secret_name c.dest_path)) r refl,
        seen (remove_file c.dest_path) r refl,
      )

  pub apply_change-unseen :
      (c : Change) (r : Run) → O (apply_change env c r).0.history ≡ O r.history
  unfolding apply_change
  apply_change-unseen c r = ground (arith, writing-unseen c r, deleting-unseen c r)

module _ {X : Type 0} (O : History → X) (unseen : Ignores O is_prepare_call) (env : Env) where
  pub reload_if_needed-unseen :
      (needed : Bool) (r : Run) → O (reload_if_needed env needed r).0.history ≡ O r.history
  unfolding reload_if_needed
  reload_if_needed-unseen needed r =
      ground (arith, call-unseen O is_prepare_call unseen env daemon_reload r refl)

  restore_tag-unseen :
      (before : GoMap String) (tag : String) (r : Run)
      → O (restore_tag env before tag r).0.history ≡ O r.history
  unfolding restore_tag
  restore_tag-unseen before tag r =
      let old = or_else (get tag before) "" in
      ground (
        arith,
        call-unseen O is_prepare_call unseen env (image_untag tag) r refl,
        call-unseen O is_prepare_call unseen env (image_tag old tag) r refl,
      )

  restore_tags-unseen :
      (before : GoMap String) (tags : List String) (r : Run)
      → O (restore_tags env before tags r).0.history ≡ O r.history
  unfolding restore_tags
  restore_tags-unseen before [] r = refl
  restore_tags-unseen before (tag ∷ rest) r =
      restore_tags-unseen before rest (restore_tag env before tag r).0
      ∙ restore_tag-unseen before tag r

  run_each_build-unseen :
      (before : GoMap String) (tags builds : List String) (r : Run)
      → O (run_each_build env before tags builds r).0.history ≡ O r.history
  unfolding run_each_build
  run_each_build-unseen before tags [] r = refl
  run_each_build-unseen before tags (unit ∷ rest) r =
      let r' = (call env (run_build_unit unit) r).0 in
      ground (
        arith,
        call-unseen O is_prepare_call unseen env (run_build_unit unit) r refl,
        restore_tags-unseen before tags r',
        run_each_build-unseen before tags rest
            (record r' { result = add_restarted unit r'.result }),
      )

  run_recorded-unseen :
      (builds tags : List String) (before : Option (GoMap String)) (r : Run)
      → O (run_recorded env builds tags before r).0.history ≡ O r.history
  unfolding run_recorded
  run_recorded-unseen builds tags none r = refl
  run_recorded-unseen builds tags (some before) r = run_each_build-unseen before tags builds r

  pub run_builds-unseen :
      (builds tags : List String) (r : Run)
      → O (run_builds env builds tags r).0.history ≡ O r.history
  unfolding run_builds
  run_builds-unseen builds tags r =
      ground (arith, run_recorded-unseen builds tags (image_ids env tags [] r) r)
