-- ===== src/Config/Hook/Normalize.antt =====
-- pkg/config/hook.go: a hook's defaults and checks. `parse_url` stands for `url.Parse`: the scheme and
-- the host, `none` for an error.
use picolet.Prelude.{
  zero, String, Bool, true, false, not, ◌&&◌, ◌||◌, Option, none, some, List, [], ◌∷◌, ◌==◌,
  if◌then◌else◌, or_else, or_default,
}
use picolet.Prelude.Int.{ℤ, pos, negsuc}
use picolet.FilePath.{cut_prefix}
use picolet.Config.RelPath.{validate_rel_path}
use picolet.Config.Hook.{Hook, default_max_retries}

pub data HookError : Type 0 where
  name_missing triggers_missing unit_missing action_missing retries_negative secret_empty
        manifest_unclean file_unclean action_unknown field_set method_unknown url_missing
        url_invalid container_missing on_failure_unknown :
      HookError

-- A hook or a list of its texts, or the error that ended the checks.
pub data Checked {ℓ} (A : Type ℓ) : Type ℓ where
  passed : A → Checked A
  refused : HookError → Checked A

module _ {ℓ} {A : Type ℓ} {B : Type ℓ} where
  abbrev pub and_then : Checked A → (A → Checked B) → Checked B
  and_then (passed a) f = f a
  and_then (refused e) f = refused e

unfoldable pub refuse_if : Bool → HookError → Checked Hook → Checked Hook
refuse_if true e rest = refused e
refuse_if false e rest = rest

abbrev pub is_none_given : List String → Bool
is_none_given [] = true
is_none_given _ = false

abbrev pub is_negative : ℤ → Bool
is_negative (pos n) = false
is_negative (negsuc n) = true

abbrev pub default_retries : ℤ → ℤ
default_retries (pos zero) = pos default_max_retries
default_retries n = n

abbrev pub prepend : String → List String → Checked (List String)
prepend s rest = passed (s ∷ rest)

unfoldable pub normalize_secrets : List String → Checked (List String)
unfolding cut_prefix
normalize_secrets [] = passed []
normalize_secrets (s ∷ rest) =
    let name = or_else (cut_prefix "secret:" s) s in
    let others = normalize_secrets rest in
    if name == "" then refused secret_empty else and_then others (prepend name)

-- `normalizeManifests` and `normalizeFiles`, which differ in the error.
unfoldable pub normalize_paths : HookError → List String → Checked (List String)
unfolding validate_rel_path
normalize_paths e [] = passed []
normalize_paths e (raw ∷ rest) =
    let others = normalize_paths e rest in
    elim (validate_rel_path raw) [
      | none ↦ refused e
      | some cleaned ↦ and_then others (prepend cleaned)
    ]

-- `firstSetField` finds a field.
unfoldable pub any_set : List String → Bool
any_set [] = false
any_set (value ∷ rest) = not (value == "") || any_set rest

abbrev pub is_http_url : Option (String × String) → Bool
is_http_url none = false
is_http_url (some (scheme, host)) = (scheme == "http" || scheme == "https") && not (host == "")

module _ (parse_url : String → Option (String × String)) where
  unfoldable pub normalize_http_action : Hook → Checked Hook
  unfolding any_set
  normalize_http_action h =
      let m = or_default h.method "POST" in
      let h' = record h { method = m } in
      refuse_if (any_set (h.container ∷ h.signal ∷ [])) field_set (
        refuse_if (not (m == "GET") && not (m == "POST")) method_unknown (
          refuse_if (h.url == "") url_missing (
            refuse_if (not (is_http_url (parse_url h.url))) url_invalid (
              refuse_if (not (h.health_url == "") && not (is_http_url (parse_url h.health_url)))
                url_invalid (passed h')))))

unfoldable pub normalize_signal_action : Hook → Checked Hook
unfolding any_set
normalize_signal_action h = refuse_if (any_set (h.method ∷ h.url ∷ h.health_url ∷ [])) field_set (
    refuse_if (h.container == "") container_missing
      (passed (record h { signal = or_default h.signal "HUP" })))

unfoldable pub normalize_restart_action : Hook → Checked Hook
unfolding any_set
normalize_restart_action h =
    refuse_if (any_set (h.method ∷ h.url ∷ h.health_url ∷ h.container ∷ h.signal ∷ [])) field_set
      (passed h)

unfoldable pub normalize_on_failure : Hook → Checked Hook
normalize_on_failure h =
    refuse_if (not (h.on_failure == "keep_running") && not (h.on_failure == "restart"))
      on_failure_unknown (passed h)

abbrev pub with_defaults : Hook → Hook
with_defaults h = record h {
  on_failure = or_default h.on_failure "keep_running";
  max_retries = default_retries h.max_retries;
}

module _ (parse_url : String → Option (String × String)) where
  unfoldable pub normalize_action : Hook → Checked Hook
  unfolding normalize_http_action normalize_signal_action normalize_restart_action
  normalize_action h =
      if h.action == "http"
      then normalize_http_action parse_url h
      else if h.action == "signal"
      then normalize_signal_action h
      else if h.action == "restart"
      then normalize_restart_action h
      else refused action_unknown

  -- `Normalize` from the checks of the lists on.
  unfoldable pub normalize_rest : Hook → Checked Hook
  unfolding normalize_secrets normalize_paths normalize_action normalize_on_failure
  normalize_rest h = and_then (normalize_secrets h.secrets) (λ secrets.
      and_then (normalize_paths manifest_unclean h.manifests) (λ manifests.
        and_then (normalize_paths file_unclean h.files) (λ files.
          and_then
            (normalize_action
              (record h { secrets = secrets; manifests = manifests; files = files }))
            normalize_on_failure)))

  -- `Normalize`
  unfoldable pub normalize : Hook → Checked Hook
  unfolding normalize_rest
  normalize h = refuse_if (h.name == "") name_missing (
      refuse_if (is_none_given h.secrets && is_none_given h.manifests && is_none_given h.files)
        triggers_missing
        (refuse_if (h.unit == "") unit_missing (
          refuse_if (h.action == "") action_missing (
            refuse_if (is_negative h.max_retries) retries_negative
              (normalize_rest (with_defaults h))))))
