-- ===== src/OauthReply.antt =====
-- web/src/oauth-panel.js: what the panel makes of the host's answers, of the texts in its form, and of
-- what the tab's storage keeps.
use kestrel_feature_mcp.Prelude.{
  starts_with, ℕ, String, Bool, true, false, not, ◌&&◌, ◌||◌, Option, none, some, List, [], ◌∷◌,
  ◌++◌, leb, ltb, includes, is_blank, is_space, add_first, trim, utf16_length, ◌==◌, Outcome, ok,
  ◌>>=◌, ◌>>◌, require, or_throw, error, type_error, lookup, if◌then◌else◌,
}
use kestrel_feature_mcp.Json.{nullish_or, string_of, join_items, ◌<>◌}
use kestrel_feature_mcp.Value.{
  Value, undefined, null, bool, str, arr, obj, Items, nil, cons, end, field, member, get, is_text,
  is_truthy,
}
use kestrel_feature_mcp.Platform.{Platform, Url}
use kestrel_feature_mcp.Launcher.{reference_text}

-- What a button or the form does; `connect` says whether the credentials are refreshed, and
-- `prepare` has the URL and the scopes for the form.
pub data Operation : Type 0 where
  reload submit : Operation
  connect : String → Bool → Operation
  disconnect : String → Operation
  prepare : String → String → Operation
  cancel : String → String → Operation  -- a key of the storage, and the operation's id

-- A connection's card: its lines, and its buttons.
pub record Card : Type 0 where
  pub lines : List String
  pub buttons : List (String × Operation)

-- The text of an element, which is not set to `undefined`; `null` empties it.
abbrev pub shown_text : Value → String
shown_text v = nullish_or v (string_of v)

abbrev pub state_texts : List (String × String)
state_texts =
    ("authorized", "Authorized; ready to connect")
    ∷ ("connected", "Connected")
    ∷ ("authorizing", "Waiting for authorization")
    ∷ ("outcome_unknown", "Authorization outcome uncertain")
    ∷ ("refresh_unknown", "Refresh outcome uncertain")
    ∷ ("reauthorization_required", "New authorization required")
    ∷ ("resource_rejected", "The connector refused this grant")
    ∷ ("revoked", "Disconnected locally")
    ∷ []

-- `states[state] ?? …`, for a state that no prototype has as a key.
abbrev pub state_text : Value → String
state_text state = elim (lookup (string_of state) state_texts) [
  | none ↦ "Connection status unavailable"
  | some text ↦ text
]

abbrev pub is_connectable : Value → Bool
is_connectable state =
    is_text state "authorized" || is_text state "connected" || is_text state "resource_rejected"

abbrev pub connect_buttons : Value → String → List (String × Operation)
connect_buttons row path =
    if is_connectable (member row "state")
    then (if is_truthy (member row "connected") then "Reconnect" else "Connect", connect path false)
      ∷ ("Refresh credentials", connect path true)
      ∷ []
    else []

abbrev pub disconnect_buttons : Value → String → List (String × Operation)
disconnect_buttons row path =
    if is_text (member row "state") "revoked"
    then []
    else ("Disconnect locally", disconnect path) ∷ []

-- An assignment to the value of an input.
abbrev pub input_text : Value → String
input_text null = ""
input_text v = string_of v

-- The card of a row, and whether it is whole: of a row that has no list of scopes, it is begun.
unfoldable pub render_row : (String → String) → Value → Card × Bool
render_row encode undefined = (record { lines = []; buttons = [] }, false)
render_row encode null = (record { lines = []; buttons = [] }, false)
render_row encode row =
    let path = "/connections/" <> encode (string_of (member row "connection_id")) in
    let title = shown_text (member row "server_url") in
    let issuer = shown_text (member row "issuer") in
    elim (member row "scopes") [
      | arr vs ↦
          let scopes = join_items " " vs in
          (
            record {
              lines =
                  title ∷ issuer ∷ ("Scopes: " <> scopes) ∷ state_text (member row "state") ∷ [];
              buttons =
                  connect_buttons row path
                  ++ (disconnect_buttons row path
                      ++ (
                        "Prepare new authorization",
                        prepare (input_text (member row "server_url")) scopes,
                      )
                        ∷ []);
            },
            true,
          )
      | _ ↦ (record { lines = title ∷ issuer ∷ []; buttons = [] }, false)
    ]

-- The cards up to the first that is not whole.
abbrev pub render_rows : (String → String) → List Value → List Card × Bool
unfolding render_row
render_rows encode [] = ([], true)
render_rows encode (row ∷ rows) =
    let (card, whole) = render_row encode row in
    let (cards, all_whole) = render_rows encode rows in
    if whole then (card ∷ cards, all_whole) else (card ∷ [], false)

-- `slice(0, -n)`
unfoldable pub slice_end : ℕ → String → String
unfolding utf16_length
slice_end n String.[] = String.[]
slice_end n (String.◌∷◌ c s) =
    if leb n (utf16_length s) then String.◌∷◌ c (slice_end n s) else String.[]

abbrev pub hint_key : String
hint_key = "kestrel.mcp-oauth."

-- The button for a hint of the agent's own in the storage, which is read by `JSON.parse`.
unfoldable pub hint_button :
    (String → Option Value) → String → String → String → List (String × Operation)
hint_button parse agent_prefix key text =
    if starts_with hint_key key
    then elim (parse text) [
      | none ↦ []
      | some hint ↦
          if is_truthy hint && is_text (member hint "agentPrefix") agent_prefix
          then elim (reference_text (member hint "operationId")) [
            | none ↦ []
            | some id ↦ ("Cancel pending authorization", cancel key id) ∷ []
          ]
          else []
    ]
    else []

abbrev pub hint_buttons :
    (String → Option Value) → String → List (String × String) → List (String × Operation)
hint_buttons parse agent_prefix [] = []
hint_buttons parse agent_prefix ((key, text) ∷ storage) =
    hint_button parse agent_prefix key text ++ hint_buttons parse agent_prefix storage

abbrev starts_with_space : String → Bool
starts_with_space String.[] = false
starts_with_space (String.◌∷◌ c s) = is_space c

-- `split(/\s+/)`
abbrev pub split_spaces : String → List String
split_spaces String.[] = "" ∷ []
split_spaces (String.◌∷◌ c s) =
    let rest = split_spaces s in
    if is_space c then (if starts_with_space s then rest else "" ∷ rest) else add_first c rest

abbrev pub all_different : List String → Bool
all_different [] = true
all_different (s ∷ ss) = not (includes ss s) && all_different ss

abbrev has_first : List String → Bool
has_first [] = false
has_first (s ∷ ss) = not (is_blank s)

abbrev pub is_connector_url : Url → Bool
is_connector_url url = not (
    not (url.protocol == "https:")
    || not (is_blank url.username)
    || not (is_blank url.password)
    || not (is_blank url.hash))

-- The scopes of the form, where it may begin an authorization.
unfoldable pub read_form : Platform → String → String → Outcome (List String)
unfolding trim
read_form p server scopes = do
  url ← or_throw (p.new_url (str server)) (type_error "Invalid URL")
  let requested = split_spaces (trim scopes) in
      require (is_connector_url url && has_first requested && all_different requested)
        (error "Invalid authorization")
      >> ok requested

-- The body of the request that begins an authorization.
unfoldable pub begin_body : String → List String → Bool → Value
begin_body server requested acknowledge = obj (
    field "server_url" (str server) (
      field "scopes" (arr (scope_items requested))
        (field "acknowledge_unknown" (bool acknowledge) end)))
  where
    scope_items : List String → Items
    scope_items [] = nil
    scope_items (s ∷ ss) = cons (str s) (scope_items ss)

-- Where the browser goes for consent, with the one `state` of the URL.
pub record Authorization : Type 0 where
  pub destination : Url
  pub state : String
  pub operation_id : Value

abbrev pub is_destination : Url → Url → String → Bool
is_destination destination issuer state = not (
    not (destination.protocol == "https:")
    || not (is_blank destination.username)
    || not (is_blank destination.password)
    || not (destination.origin == issuer.origin)
    || ltb (utf16_length state) 16
    || ltb 1024 (utf16_length state))

abbrev pub single : List String → Option String
single (s ∷ []) = some s
single ss = none

abbrev pub has_reference : Value → Bool
has_reference v = elim (reference_text v) [ none ↦ false | some id ↦ true ]

-- What the host's answer to the beginning of an authorization gives, with the values of `state` in
-- a URL.
unfoldable pub read_authorization : Platform → (Url → List String) → Value → Outcome Authorization
unfolding get
read_authorization p states_of started = do
  address ← get started "authorization_url"
  destination ← or_throw (p.new_url address) (type_error "Invalid URL")
  issuer ← or_throw (p.new_url (member started "issuer")) (type_error "Invalid URL")
  state ← or_throw (single (states_of destination)) (error "Invalid authorization owner")
  require (is_destination destination issuer state && has_reference (member started "operation_id"))
      (error "Invalid authorization owner")
  ok (record {
    destination = destination;
    state = state;
    operation_id = member started "operation_id";
  })

-- What the tab keeps until the host's callback page.
unfoldable pub hint_of : String → Value → Value
hint_of agent_prefix operation_id = obj (
    field "agentPrefix" (str agent_prefix)
      (field "operationId" operation_id (field "returnTo" (str "/") end)))
