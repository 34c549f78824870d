-- ===== src/Store/InStep/Steps.antt =====
-- The steps of client/store.ts and what they leave.
use sync_resource.Shared.{
  String, ◌≡◌, refl, ◌∙◌, Bool, Option, none, some, List, [], ◌∷◌, inl, inr, Bool-cases,
  Option-cases, ◌==◌,
}
use sync_resource.Shared.JsMap.{get}
use sync_resource.Js.{Value, items_of, property, read_string}
use sync_resource.Protocol.{SyncEnvelope}
use sync_resource.Optimistic.Types.{Family, State, Host, Reconcile}
use sync_resource.Optimistic.Families.{
  is_key, read_family, get_active_family, create_family, get_or_create_family,
}
use sync_resource.Optimistic.QueryKey.{query_family_key, query_without_cursor}
use sync_resource.Optimistic.Pages.{
  fill_family, fill_if_there, apply_page_items, apply_output_items,
}
use sync_resource.Optimistic.Envelope.{Client, apply_envelope}
use sync_resource.Optimistic.Views.{active_page_metas}
use sync_resource.Store.{
  Store, local_pending_envelope, refresh_shown, apply_envelope_state, apply_store_envelope,
  apply_envelope_states, settle_over,
}
use sync_resource.Store.Rollback.{IsShown}

-- Two states that hold the same record and show the same.
abbrev SameData : State → State → Type 0
SameData a b = (a.base_data ≡ b.base_data) × (a.shown_data ≡ b.shown_data)

read_family-SameData : (s : State) (key : String) → SameData (read_family s key).0 s
unfolding read_family
read_family-SameData s key = elim (Option-cases (get key s.families)) [
  | inl e ↦ rw (e, read_family) (refl, refl)
  | inr (f, e) ↦
      rw (e, read_family)
        (elim (Bool-cases (is_key s.recent_family_key key)) [
          | inl recent ↦ rw recent (refl, refl)
          | inr old ↦ rw old (refl, refl)
        ])
]

get_active_family-SameData : (s : State) → SameData (get_active_family s).0 s
unfolding get_active_family
get_active_family-SameData s = elim (Option-cases s.active_family_key) [
  | inl e ↦ rw (e, get_active_family) (refl, refl)
  | inr (key, e) ↦
      rw (e, get_active_family)
        (elim (Bool-cases (key == "")) [
          | inl empty ↦ rw empty (refl, refl)
          | inr set ↦ rw set (read_family-SameData s key)
        ])
]

get_or_create-SameData :
    (s : State) (key : String) (query : Value) → SameData (get_or_create_family s key query) s
unfolding get_or_create_family create_family
get_or_create-SameData s key query =
    let read = read_family-SameData s key in
    elim (Option-cases (read_family s key).1) [
      | inl e ↦ rw (e, get_or_create_family) read
      | inr (f, e) ↦ rw (e, get_or_create_family) read
    ]

pub IsShown-SameData :
    (reconcile : Reconcile) (c : Client) (s : State)
    → SameData s c.state
    → IsShown reconcile c
    → IsShown reconcile (record c { state = s })
IsShown-SameData reconcile c s same h = rw same.0 (same.1 ∙ h)

module _ (host : Host) (reconcile : Reconcile) where
  fill_if_there-SameData :
      (s : State) (key : String) (there : Option Family) (items : List Value)
      (cursor_in page_cursor : Option String) (meta : Value)
      → SameData (fill_if_there host reconcile s key there items cursor_in page_cursor meta) s
  unfolding fill_if_there fill_family
  fill_if_there-SameData s key none items cursor_in page_cursor meta = (refl, refl)
  fill_if_there-SameData s key (some f) items cursor_in page_cursor meta = (refl, refl)

  apply_page_items-SameData :
      (s : State) (items : List Value) (query : Value) (page_cursor : Option String) (meta : Value)
      (activate : Bool)
      → SameData (apply_page_items host reconcile s items query page_cursor meta activate) s
  unfolding apply_page_items
  apply_page_items-SameData s items query page_cursor meta activate =
      let key = query_family_key host query in
      let made = get_or_create_family s key (query_without_cursor query) in
      let one = get_or_create-SameData s key (query_without_cursor query) in
      let two =
        fill_if_there-SameData made key (get key made.families) items
          (read_string (property "cursor" query)) page_cursor meta in
      elim (Bool-cases activate) [
        | inl chosen ↦ rw chosen (two.0 ∙ one.0, two.1 ∙ one.1)
        | inr left ↦ rw left (two.0 ∙ one.0, two.1 ∙ one.1)
      ]

  pub apply_output_items-SameData :
      (s : State) (items output query : Value) (activate : Bool)
      → SameData (apply_output_items host reconcile s items output query activate) s
  unfolding apply_output_items
  apply_output_items-SameData s (Value.array items) output query activate =
      apply_page_items-SameData s (items_of items) query _ _ activate
  apply_output_items-SameData s Value.undefined output query activate = (refl, refl)
  apply_output_items-SameData s Value.null output query activate = (refl, refl)
  apply_output_items-SameData s (Value.boolean b) output query activate = (refl, refl)
  apply_output_items-SameData s (Value.number n) output query activate = (refl, refl)
  apply_output_items-SameData s (Value.text t) output query activate = (refl, refl)
  apply_output_items-SameData s (Value.object fs) output query activate = (refl, refl)

  pub refresh_shown-IsShown : (c : Client) → IsShown reconcile (refresh_shown host reconcile c)
  unfolding refresh_shown
  refresh_shown-IsShown c = refl

  apply_envelope-IsShown :
      (e : SyncEnvelope) (query : Value) (c : Client)
      → IsShown reconcile (apply_envelope host reconcile e query c)
  unfolding apply_envelope
  apply_envelope-IsShown e query c = refl

  -- An envelope brings the shown data in step, whatever it was.
  apply_envelope_state-IsShown :
      (s : Store) (e : SyncEnvelope)
      → IsShown reconcile (apply_envelope_state host reconcile s e).client
  unfolding apply_envelope_state active_page_metas
  apply_envelope_state-IsShown s e =
      let c =
        apply_envelope host reconcile (local_pending_envelope s.client_id e) s.active_query
          s.client in
      IsShown-SameData reconcile c (get_active_family c.state).0
        (get_active_family-SameData c.state)
        (apply_envelope-IsShown (local_pending_envelope s.client_id e) s.active_query s.client)

  pub apply_store_envelope-IsShown :
      (s : Store) (e : SyncEnvelope)
      → IsShown reconcile (apply_store_envelope host reconcile s e).client
  unfolding apply_store_envelope
  apply_store_envelope-IsShown s e = apply_envelope_state-IsShown _ e

  apply_envelope_states-IsShown :
      (s : Store) (es : List SyncEnvelope)
      → IsShown reconcile s.client
      → IsShown reconcile (apply_envelope_states host reconcile s es).client
  unfolding apply_envelope_states
  apply_envelope_states-IsShown s [] h = h
  apply_envelope_states-IsShown s (e ∷ es) h =
      apply_envelope_states-IsShown (apply_envelope_state host reconcile s e) es
        (apply_envelope_state-IsShown s e)

  pub settle_over-IsShown :
      (s : Store) (live : List SyncEnvelope) (response : Option SyncEnvelope)
      → IsShown reconcile s.client
      → IsShown reconcile (settle_over host reconcile s live response).client
  unfolding settle_over
  settle_over-IsShown s [] response h = h
  settle_over-IsShown s (e ∷ es) response h = apply_envelope_states-IsShown s (e ∷ es) h
