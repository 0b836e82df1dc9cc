-- ===== src/Capability/Dispatch/Safe.antt =====
-- Which calls of a capability reach a service, and what comes back.
use q_browser.Base.{
  Bool, true, false, not, ◌&&◌, ◌||◌, Option, none, some, ◌≡◌, ◌⊎◌, inl, inr, refl, arith,
  if◌then◌else◌, Bool-cases, Option-cases,
}
use q_browser.Base.Int.{ℤ}
use q_browser.Base.Text.{Text, codes, text_eq, text_eq_iff}
use q_browser.Ipc.Frame.{QtJson}
use q_browser.Ipc.Json.{JsonObject, is_some}
use q_browser.Ipc.Payload.{QtText}
use q_browser.Policy.{
  HostPolicy, HostNetworkPolicy, HostFilePolicy, HostClipboardPolicy, ManifestPermissions, no_items,
}
use q_browser.Policy.Engine.{
  intersect_clipboard, intersect_storage, intersect_file, intersect_network, intersect,
}
use q_browser.Capability.Dispatch.{
  HostRequestContext, BrokerResult, CapabilityService, CapabilityServices, denied,
  payload_too_large, response_too_large, valid_request_context, operation_allowed, select_service,
  response_fits_ipc, request_fits_ipc, bound_response_to_ipc, invoke_service, dispatch,
}

-- The service that has the name of a capability
unfoldable pub service_named :
    {W : Type 0} → CapabilityServices W → Text → Option (CapabilityService W)
service_named s name =
    if text_eq name (codes "audio")
    then s.audio
    else if text_eq name (codes "network")
    then s.network
    else if text_eq name (codes "storage")
    then s.storage
    else if text_eq name (codes "clipboard")
    then s.clipboard
    else if text_eq name (codes "file")
    then s.file
    else none

-- Whether the policy has a part for a capability
unfoldable pub permits : HostPolicy → Text → Bool
permits p name =
    if text_eq name (codes "audio")
    then p.audio_playback
    else if text_eq name (codes "network")
    then is_some p.network
    else if text_eq name (codes "storage")
    then is_some p.storage
    else if text_eq name (codes "clipboard")
    then is_some p.clipboard
    else if text_eq name (codes "file")
    then is_some p.file
    else false

-- Whether the manifest asks for a capability
unfoldable pub declares : ManifestPermissions → Text → Bool
declares m name =
    if text_eq name (codes "audio")
    then m.audio_playback
    else if text_eq name (codes "network")
    then not (no_items m.hosts || no_items m.methods)
    else if text_eq name (codes "storage")
    then m.app_private_storage
    else if text_eq name (codes "clipboard")
    then m.clipboard_write || m.clipboard_user_gesture
    else if text_eq name (codes "file")
    then m.file_user_brokered
    else false

-- The names of the capabilities differ.
Name-cases :
    (name : Text)
    → (name ≡ codes "audio")
      ⊎ (name ≡ codes "network")
      ⊎ (name ≡ codes "storage")
      ⊎ (name ≡ codes "clipboard")
      ⊎ (name ≡ codes "file")
      ⊎ ((text_eq name (codes "audio") ≡ false)
          × (text_eq name (codes "network") ≡ false)
          × (text_eq name (codes "storage") ≡ false)
          × (text_eq name (codes "clipboard") ≡ false)
          × (text_eq name (codes "file") ≡ false))
Name-cases name = ground (
  arith,
  text_eq_iff name (codes "audio"),
  text_eq_iff name (codes "network"),
  text_eq_iff name (codes "storage"),
  text_eq_iff name (codes "clipboard"),
  text_eq_iff name (codes "file"),
)

select_service-named :
    {W : Type 0} (p : HostPolicy) (s : CapabilityServices W) (name : Text)
    → select_service p s name ≡ (if permits p name then service_named s name else none)
unfolding select_service permits service_named text_eq
select_service-named p s name = elim (Name-cases name) [
  | inl e ↦ rw e ground arith
  | inr (inl e) ↦ rw e ground arith
  | inr (inr (inl e)) ↦ rw e ground arith
  | inr (inr (inr (inl e))) ↦ rw e ground arith
  | inr (inr (inr (inr (inl e)))) ↦ rw e ground arith
  | inr (inr (inr (inr (inr (a, b, c, d, f))))) ↦ ground arith
]

module _ {W : Type 0} (qt : QtText) (json : QtJson JsonObject) (policy : HostPolicy)
    (services : CapabilityServices W) where
  -- Unless its context is valid, the policy permits the capability, and the capability has the
  -- operation, a call is denied and no service is called.
  pub dispatch-refused :
      (w : W) (capability operation : Text) (payload : JsonObject) (c : HostRequestContext)
      → (valid_request_context c
          && permits policy capability
          && operation_allowed capability operation)
        ≡ false
      → dispatch qt json policy services w capability operation payload c ≡ (w, denied)
  unfolding dispatch invoke_service
  dispatch-refused w capability operation payload c h =
      let chosen = select_service-named policy services capability in
      elim (Bool-cases (valid_request_context c)) [
        | inr e ↦ rw e refl
        | inl e ↦ elim (Bool-cases (permits policy capability)) [
          | inr f ↦
              let no_service : select_service policy services capability ≡ none = ground arith in
              rw (e, no_service) refl
          | inl f ↦ elim (Option-cases (select_service policy services capability)) [
            | inl g ↦ rw (e, g) refl
            | inr (service, g) ↦
                let no_operation : operation_allowed capability operation ≡ false = ground arith in
                rw (e, g, no_operation) refl
          ]
        ]
      ]

undeclared_storage :
    (m : ManifestPermissions) (host : Option ℤ)
    → m.app_private_storage ≡ false
    → is_some (intersect_storage m host) ≡ false
unfolding intersect_storage
undeclared_storage m none h = refl
undeclared_storage m (some quota) h = ground arith

undeclared_clipboard :
    (m : ManifestPermissions) (host : Option HostClipboardPolicy)
    → (m.clipboard_write || m.clipboard_user_gesture) ≡ false
    → is_some (intersect_clipboard m host) ≡ false
unfolding intersect_clipboard
undeclared_clipboard m none h = refl
undeclared_clipboard m (some c) h = ground arith

undeclared_file :
    (m : ManifestPermissions) (host : Option HostFilePolicy)
    → m.file_user_brokered ≡ false
    → is_some (intersect_file m host) ≡ false
unfolding intersect_file
undeclared_file m none h = refl
undeclared_file m (some f) h = ground arith

module _ (to_ace : Text → Option Text) (is_pattern is_number : Text → Bool) where
  undeclared_network :
      (m : ManifestPermissions) (host : Option HostNetworkPolicy)
      → not (no_items m.hosts || no_items m.methods) ≡ false
      → is_some (intersect_network to_ace is_pattern is_number m host) ≡ false
  unfolding intersect_network
  undeclared_network m none h = refl
  undeclared_network m (some n) h = ground arith

  undeclared-permits :
      (m : ManifestPermissions) (host : HostPolicy) (name : Text)
      → declares m name ≡ false
      → permits (intersect to_ace is_pattern is_number m host) name ≡ false
  unfolding declares permits intersect text_eq
  undeclared-permits m host name h = elim (Name-cases name) [
    | inl e ↦ rw e (let h' = rw e at h in ground arith)
    | inr (inl e) ↦ rw e (undeclared_network m host.network (rw e at h))
    | inr (inr (inl e)) ↦ rw e (undeclared_storage m host.storage (rw e at h))
    | inr (inr (inr (inl e))) ↦ rw e (undeclared_clipboard m host.clipboard (rw e at h))
    | inr (inr (inr (inr (inl e)))) ↦ rw e (undeclared_file m host.file (rw e at h))
    | inr (inr (inr (inr (inr (a, b, c, d, f))))) ↦ ground arith
  ]

  -- Under the policy that `intersect` computes of a manifest and any policy of the host, a call of a
  -- capability that the manifest does not ask for is denied and no service is called.
  pub dispatch-undeclared :
      {W : Type 0} (qt : QtText) (json : QtJson JsonObject) (m : ManifestPermissions)
      (host : HostPolicy) (services : CapabilityServices W) (w : W) (capability operation : Text)
      (payload : JsonObject) (c : HostRequestContext)
      → declares m capability ≡ false
      → dispatch qt json
          (intersect to_ace is_pattern is_number m host)
          services
          w
          capability
          operation
          payload
          c
        ≡ (w, denied)
  dispatch-undeclared qt json m host services w capability operation payload c h =
      let policy = intersect to_ace is_pattern is_number m host in
      let refused = undeclared-permits m host capability h in
      dispatch-refused qt json policy services w capability operation payload c (ground arith)

module _ {W : Type 0} (qt : QtText) (json : QtJson JsonObject) (policy : HostPolicy)
    (services : CapabilityServices W) where
  bound-fits :
      (id : Text) (r : BrokerResult)
      → response_fits_ipc qt json id response_too_large ≡ true
      → response_fits_ipc qt json id (bound_response_to_ipc qt json id r) ≡ true
  unfolding bound_response_to_ipc
  bound-fits id r h = elim (Bool-cases (response_fits_ipc qt json id r)) [
    | inl e ↦ rw (e, e) refl
    | inr e ↦ rw (e, h) refl
  ]

  -- Whatever a service returns, the answer to a request fits into a frame, if the three answers that
  -- the broker gives of itself do for its request id.
  pub dispatch-fits :
      (w : W) (capability operation : Text) (payload : JsonObject) (c : HostRequestContext)
      → response_fits_ipc qt json c.request_id denied ≡ true
      → response_fits_ipc qt json c.request_id payload_too_large ≡ true
      → response_fits_ipc qt json c.request_id response_too_large ≡ true
      → response_fits_ipc qt json c.request_id
          (dispatch qt json policy services w capability operation payload c).1
        ≡ true
  unfolding dispatch invoke_service
  dispatch-fits w capability operation payload c d p r =
      elim (Bool-cases (valid_request_context c)) [
        | inr e ↦ rw (e, d) refl
        | inl e ↦ elim (Option-cases (select_service policy services capability)) [
          | inl f ↦ rw (e, f, d) refl
          | inr (service, f) ↦ elim (Bool-cases (operation_allowed capability operation)) [
            | inr g ↦ rw (e, f, g, d) refl
            | inl g ↦
                elim (Bool-cases
                  (request_fits_ipc qt json c.request_id capability operation payload)) [
                    | inr h ↦ rw (e, f, g, h, p) refl
                    | inl h ↦
                        rw (e, f, g, h)
                          (bound-fits c.request_id (service w operation payload c).1 r)
                  ]
          ]
        ]
      ]
