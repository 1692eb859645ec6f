-- ===== src/Proxy/Progress.antt =====
-- The handshake goes through.
use kestrel_feature_mcp.Prelude.{
  ℕ, ◌≤◌, String, Bool, true, false, ◌≡◌, refl, ap, ◌∙◌, not, ◌||◌, some, List, [], ◌∷◌,
  utf8_length, ltb, eq_refl, ok, arith,
}
use kestrel_feature_mcp.Value.{Value, undefined, member, has_key, is_text, strictly_equal}
use kestrel_feature_mcp.Platform.{Platform, ResourceReady}
use kestrel_feature_mcp.Policy.{Approved, approve_sandbox_policy}
use kestrel_feature_mcp.Transport.{validate_message}
use kestrel_feature_mcp.Proxy.{
  Settings, Phase, loaded, initializing, responded, initialized, View, Proxy, Effect, to_host,
  to_view, mount, message, Source, host_window, view_window, fresh, has_view, is_opaque,
  is_reserved, settle, from_view, from_host, view_of, load_resource, pass_on, relay, handle,
  is_heard, step, play,
}

within_test : (n m : ℕ) → m ≤ n → not (ltb n m) ≡ true
within_test n m h = ground arith

module _ (build : List String → String) (p : Platform) (g : Settings) where
  -- A value that is read as a message, whose method is the proxy's own or not.
  abbrev pub Reads : Value → Value → Bool → Type 0
  Reads value m own =
      (validate_message p value g.max_message_bytes ≡ ok m)
      × (is_reserved (member m "method") ≡ ok own)

  pub step_of_handle :
      (s : Proxy) (source : Source) (origin : String) (value : Value) (r : Proxy × List Effect)
      → s.closed ≡ false
      → is_heard build p g s source origin ≡ true
      → handle build p g s source value ≡ ok r
      → step build p g s (message source origin value) ≡ r
  unfolding step settle
  step_of_handle s source origin value r o h k =
      let hears : (s.closed || not (is_heard build p g s source origin)) ≡ false = ground arith in
      rw hears (ap (settle s) k)

  pub handle_of_Reads :
      (s : Proxy) (source : Source) (value m : Value) (own : Bool)
      → Reads value m own
      → handle build p g s source value ≡ relay build p g s source m own
  unfolding handle
  handle_of_Reads s source value m own (valid, named) = rw (valid, named) refl

  pub hears_host : (s : Proxy) → is_heard build p g s host_window g.host_origin ≡ true
  hears_host s = rw (eq_refl g.host_origin) refl

  pub hears_view :
      (s : Proxy) → has_view s.view ≡ true → is_heard build p g s view_window "null" ≡ true
  hears_view s h = rw h refl

  view_turn :
      (s : Proxy) (m : Value)
      → has_view s.view ≡ true
      → relay build p g s view_window m false ≡ from_view p s s.phase m
  unfolding relay pass_on
  view_turn s m v = simp v

  host_turn :
      (s : Proxy) (m : Value)
      → has_view s.view ≡ true
      → relay build p g s host_window m false ≡ from_host s s.phase m
  unfolding relay pass_on
  host_turn s m v = simp v

  pub passes_view :
      (s : Proxy) (m : Value)
      → has_view s.view ≡ true
      → s.phase ≡ initialized
      → relay build p g s view_window m false ≡ ok (s, to_host m ∷ [])
  unfolding from_view
  passes_view s m v ph = view_turn s m v ∙ ap (λ x. from_view p s x m) ph

  pub passes_host :
      (s : Proxy) (m : Value)
      → has_view s.view ≡ true
      → s.phase ≡ initialized
      → relay build p g s host_window m false ≡ ok (s, to_view m ∷ [])
  unfolding from_host
  passes_host s m v ph = host_turn s m v ∙ ap (λ x. from_host s x m) ph

  -- The four messages of a start: the host's resource, within the limit, opaque and approved; the
  -- View's initialization request; the host's result for its id; the View's notification.
  pub record IsStart (resource opening reply notice : Value) : Type 0 where
    pub ready : Value
    pub params : ResourceReady
    pub approved : Approved
    pub request : Value
    pub result : Value
    pub done : Value
    pub reads_ready : Reads resource ready true
    pub names_ready :
        is_text (member ready "method") "ui/notifications/sandbox-resource-ready" ≡ true
    pub parsed : p.resource_ready ready ≡ some params
    pub within : utf8_length params.html ≤ g.max_html_bytes
    pub opaque : is_opaque params.sandbox ≡ true
    pub granted : approve_sandbox_policy p params.csp params.permissions g.grants ≡ ok approved
    pub reads_request : Reads opening request false
    pub names_request : is_text (member request "method") "ui/initialize" ≡ true
    pub has_id : has_key request "id" ≡ true
    pub reads_result : Reads reply result false
    pub same_id : strictly_equal (member result "id") (member request "id") ≡ true
    pub has_result : has_key result "result" ≡ true
    pub reads_notice : Reads notice done false
    pub is_notice : p.is_initialized done ≡ true

  module _ (resource opening reply notice : Value) (i : IsStart resource opening reply notice) where
    shown : View
    shown = view_of build p g i.params i.approved

    after : Value → Phase → Proxy
    after id ph = record { view = some shown; closed = false; initialize_id = id; phase = ph }

    loads_it :
        step build p g fresh (message host_window g.host_origin resource)
        ≡ (after undefined loaded, mount shown ∷ [])
    unfolding relay load_resource after shown
    loads_it = step_of_handle fresh host_window g.host_origin resource _ refl (hears_host fresh) (
        handle_of_Reads fresh host_window resource i.ready true i.reads_ready
        ∙ rw
            (
              i.names_ready,
              i.parsed,
              within_test g.max_html_bytes (utf8_length i.params.html) i.within,
              i.opaque,
              i.granted,
            )
            refl)

    opens_it :
        step build p g (after undefined loaded) (message view_window "null" opening)
        ≡ (after (member i.request "id") initializing, to_host i.request ∷ [])
    unfolding relay pass_on from_view after
    opens_it = step_of_handle (after undefined loaded) view_window "null" opening _ refl refl (
        handle_of_Reads (after undefined loaded) view_window opening i.request false i.reads_request
        ∙ rw (i.names_request, i.has_id) refl)

    answers_it :
        step build p g
          (after (member i.request "id") initializing)
          (message host_window g.host_origin reply)
        ≡ (after (member i.request "id") responded, to_view i.result ∷ [])
    unfolding relay pass_on from_host after
    answers_it =
        step_of_handle (after (member i.request "id") initializing) host_window g.host_origin reply
          _ refl (hears_host (after (member i.request "id") initializing))
          (handle_of_Reads (after (member i.request "id") initializing) host_window reply i.result
              false i.reads_result
            ∙ rw (i.same_id, i.has_result) refl)

    confirms_it :
        step build p g (after (member i.request "id") responded) (message view_window "null" notice)
        ≡ (after (member i.request "id") initialized, to_host i.done ∷ [])
    unfolding relay pass_on from_view after
    confirms_it =
        step_of_handle (after (member i.request "id") responded) view_window "null" notice _ refl
          refl
          (handle_of_Reads (after (member i.request "id") responded) view_window notice i.done false
              i.reads_notice
            ∙ rw i.is_notice refl)

    -- A start succeeds: where the host's resource is valid, opaque, within the HTML limit and
    -- approved, and the View's `ui/initialize` request, the host's result for its id and the View's
    -- `initialized` notification are valid messages that follow in this order, a new proxy shows the
    -- approved View, passes the three messages on, and is then initialized and open.
    pub play_handshake :
        play build p g fresh (
          message host_window g.host_origin resource
          ∷ message view_window "null" opening
          ∷ message host_window g.host_origin reply
          ∷ message view_window "null" notice
          ∷ [])
        ≡ (
          record {
            view = some (view_of build p g i.params i.approved);
            closed = false;
            initialize_id = member i.request "id";
            phase = initialized;
          },
          mount (view_of build p g i.params i.approved)
              ∷ to_host i.request
              ∷ to_view i.result
              ∷ to_host i.done
              ∷ [],
        )
    unfolding play after shown
    play_handshake = rw (loads_it, opens_it, answers_it, confirms_it) refl
