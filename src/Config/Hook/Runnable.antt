-- ===== src/Config/Hook/Runnable.antt =====
-- pkg/config/hook.go: what the runner may rely on in a hook that `Normalize` accepts.
use picolet.Prelude.{
  zero, suc, String, ◌≡◌, refl, Bool, true, false, not, ◌&&◌, ◌||◌, Option, ◌==◌, if◌then◌else◌,
  arith, Bool-cases, or_default, inl, inr,
}
use picolet.Prelude.Int.{ℤ, pos, negsuc}
use picolet.Config.Hook.{Hook}
use picolet.Config.Hook.Normalize.{
  HookError, name_missing, triggers_missing, unit_missing, action_missing, retries_negative,
  manifest_unclean, file_unclean, field_set, method_unknown, url_missing, url_invalid,
  container_missing, on_failure_unknown, Checked, passed, refused, and_then, refuse_if, is_negative,
  default_retries, normalize_secrets, normalize_paths, any_set, is_http_url, normalize_http_action,
  normalize_signal_action, normalize_restart_action, normalize_on_failure, normalize_action,
  normalize_rest, with_defaults, normalize,
}

-- The test holds of what was accepted.
abbrev pub all_passed {ℓ} : {A : Type ℓ} → (A → Bool) → Checked A → Bool
all_passed p (passed a) = p a
all_passed p (refused e) = true

abbrev pub is_positive : ℤ → Bool
is_positive (pos (suc n)) = true
is_positive _ = false

abbrev pub is_unset : String → Bool
is_unset value = value == ""

-- The hook names its unit and may be tried at least once.
abbrev pub is_named : Hook → Bool
is_named h = not (is_unset h.name) && not (is_unset h.unit) && is_positive h.max_retries

-- The fields that the hook's action needs are there, and no others.
abbrev pub has_its_fields : (String → Option (String × String)) → Hook → Bool
has_its_fields parse_url h =
    if h.action == "http"
    then (h.method == "GET" || h.method == "POST")
      && is_http_url (parse_url h.url)
      && (is_unset h.health_url || is_http_url (parse_url h.health_url))
      && is_unset h.container
      && is_unset h.signal
    else if h.action == "signal"
    then not (is_unset h.container)
      && not (is_unset h.signal)
      && is_unset h.method
      && is_unset h.url
      && is_unset h.health_url
    else h.action == "restart"
      && is_unset h.container
      && is_unset h.signal
      && is_unset h.method
      && is_unset h.url
      && is_unset h.health_url

abbrev pub knows_failure : Hook → Bool
knows_failure h = h.on_failure == "keep_running" || h.on_failure == "restart"

refuse_if_passed :
    (p : Hook → Bool) (b : Bool) (e : HookError) (rest : Checked Hook)
    → (b ≡ false → all_passed p rest ≡ true)
    → all_passed p (refuse_if b e rest) ≡ true
unfolding refuse_if
refuse_if_passed p true e rest h = refl
refuse_if_passed p false e rest h = h refl

and_then_passed :
    {A : Type 0} (p : Hook → Bool) (first : Checked A) (f : A → Checked Hook)
    → ((a : A) → all_passed p (f a) ≡ true)
    → all_passed p (and_then first f) ≡ true
and_then_passed p (passed a) f h = h a
and_then_passed p (refused e) f h = refl

-- The accepted hook is named and has its action's fields.
abbrev pub is_complete : (String → Option (String × String)) → Hook → Bool
is_complete parse_url h = is_named h && has_its_fields parse_url h

signal_given : (s : String) → is_unset (or_default s "HUP") ≡ false
signal_given s = elim (Bool-cases (s == "")) [
  | inl absent ↦ rw absent refl
  | inr given ↦ rw given given
]

module _ (parse_url : String → Option (String × String)) where
  http_complete :
      (h : Hook)
      → (h.action == "http") ≡ true
      → is_named h ≡ true
      → all_passed (is_complete parse_url) (normalize_http_action parse_url h) ≡ true
  unfolding normalize_http_action any_set
  http_complete h a n =
      let p = is_complete parse_url in
      refuse_if_passed p _ field_set _ (λ fields. refuse_if_passed p _ method_unknown _ (λ m.
        refuse_if_passed p _ url_missing _ (λ u. refuse_if_passed p _ url_invalid _ (λ valid.
          refuse_if_passed p _ url_invalid _
            (λ health. ground (arith, a, n, fields, m, valid, health))))))

  signal_complete :
      (h : Hook)
      → (h.action == "http") ≡ false
      → (h.action == "signal") ≡ true
      → is_named h ≡ true
      → all_passed (is_complete parse_url) (normalize_signal_action h) ≡ true
  unfolding normalize_signal_action any_set
  signal_complete h a b n =
      let p = is_complete parse_url in
      refuse_if_passed p _ field_set _ (λ fields.
        refuse_if_passed p _ container_missing _
          (λ c. ground (arith, a, b, n, fields, c, signal_given h.signal)))

  restart_complete :
      (h : Hook)
      → (h.action == "http") ≡ false
      → (h.action == "signal") ≡ false
      → (h.action == "restart") ≡ true
      → is_named h ≡ true
      → all_passed (is_complete parse_url) (normalize_restart_action h) ≡ true
  unfolding normalize_restart_action any_set
  restart_complete h a b c n =
      refuse_if_passed (is_complete parse_url) _ field_set _
        (λ fields. ground (arith, a, b, c, n, fields))

  action_complete :
      (h : Hook)
      → is_named h ≡ true
      → all_passed (is_complete parse_url) (normalize_action parse_url h) ≡ true
  unfolding normalize_action
  action_complete h n = elim (Bool-cases (h.action == "http")) [
    | inl a ↦ rw a (http_complete h a n)
    | inr a ↦ rw a (elim (Bool-cases (h.action == "signal")) [
      | inl b ↦ rw b (signal_complete h a b n)
      | inr b ↦ rw b (elim (Bool-cases (h.action == "restart")) [
        | inl c ↦ rw c (restart_complete h a b c n)
        | inr c ↦ rw c refl
      ])
    ])
  ]

  failure_known :
      (c : Checked Hook)
      → all_passed (is_complete parse_url) c ≡ true
      → all_passed
          (λ h. is_complete parse_url h && knows_failure h)
          (and_then c normalize_on_failure)
        ≡ true
  unfolding normalize_on_failure
  failure_known (refused e) k = refl
  failure_known (passed h) k =
      refuse_if_passed (λ h. is_complete parse_url h && knows_failure h) _ on_failure_unknown _
        (λ f. ground (arith, k, f))

  rest_complete :
      (h : Hook)
      → is_named h ≡ true
      → all_passed (λ h. is_complete parse_url h && knows_failure h) (normalize_rest parse_url h)
        ≡ true
  unfolding normalize_rest
  rest_complete h n =
      let p : Hook → Bool = λ h. is_complete parse_url h && knows_failure h in
      and_then_passed p (normalize_secrets h.secrets) _ (λ secrets.
        and_then_passed p (normalize_paths manifest_unclean h.manifests) _ (λ manifests.
          and_then_passed p (normalize_paths file_unclean h.files) _ (λ files.
            let k : Hook = record h { secrets = secrets; manifests = manifests; files = files } in
            failure_known (normalize_action parse_url k) (action_complete k n))))

retries_positive : (n : ℤ) → is_negative n ≡ false → is_positive (default_retries n) ≡ true
retries_positive (pos zero) h = refl
retries_positive (pos (suc n)) h = refl
retries_positive (negsuc n) h = ground (arith, h)

-- A hook that passes the checks is one the runner can run: it has a name, a unit, at least one try and
-- a known policy for failures; its action is http, with the method GET or POST and a valid URL, or
-- signal, with a container and a signal, or restart; and no field of another action is set.
pub normalize_lem :
    (parse_url : String → Option (String × String)) (h : Hook)
    → all_passed (λ k. is_complete parse_url k && knows_failure k) (normalize parse_url h) ≡ true
unfolding normalize
normalize_lem parse_url h =
    let p : Hook → Bool = λ k. is_complete parse_url k && knows_failure k in
    refuse_if_passed p _ name_missing _ (λ name.
      refuse_if_passed p _ triggers_missing _ (λ triggers.
        refuse_if_passed p _ unit_missing _ (λ unit.
          refuse_if_passed p _ action_missing _ (λ action.
            refuse_if_passed p _ retries_negative _ (λ retries.
              let tries = retries_positive h.max_retries retries in
              rest_complete parse_url (with_defaults h) (ground (arith, name, unit, tries)))))))
