-- ===== src/Frame.antt =====
-- The frame of the application: ctrlp/src/app/app.component.ts, with the account that
-- ctrlp/src/app/services/navigation.service.ts keeps, and the banner of
-- ctrlp/src/app/shared/connection-banner.component.ts. `route` is where the router was last told to
-- go. What the debounced subscriptions hear is one event each.
pub mod Leaving
use nauts.Base.{Bool, true, false, not, ◌&&◌, ◌||◌, List, [], ◌∷◌, if◌then◌else◌, is_nonempty}
use nauts.Base.Text.{Text, codes, is_empty, starts_with}
use nauts.Thrown.{Outcome, ok, throw}
use nauts.NatsService.{
  ConnectionStatus, disconnected, connecting, connected, reconnecting, errored, ConnectParams,
  ConnectOptions, Connection, Nats, Json, disconnect, reconnect,
}
use nauts.KvStore.Client.{KvClient}
use nauts.AccountService.{discover_accounts}

pub record Frame : Type 0 where
  pub show_shell : Bool
  pub current_account : Text
  pub accounts : List Text
  pub heard_status : Bool
  pub navigation : Text
  pub route : List Text

-- `setCurrentAccount`, which the frame hears of at once
unfoldable pub set_current_account : Text → Frame → Frame
set_current_account account f = record f { navigation = account; current_account = account }

unfoldable pub get_policies_link : Frame → List Text
get_policies_link f =
    if is_empty f.current_account
    then codes "/policies" ∷ []
    else codes "/policies" ∷ f.current_account ∷ []

unfoldable pub get_bindings_link : Frame → List Text
get_bindings_link f =
    if is_empty f.current_account
    then codes "/bindings" ∷ []
    else codes "/bindings" ∷ f.current_account ∷ []

-- The account chosen in the menu, with the URL of the current page.
unfoldable pub on_account_change : Text → Text → Frame → Frame
unfolding set_current_account get_policies_link get_bindings_link
on_account_change account url f =
    let g = set_current_account account (record f { current_account = account }) in
    if starts_with url (codes "/policies")
    then record g { route = get_policies_link g }
    else if starts_with url (codes "/bindings")
    then record g { route = get_bindings_link g }
    else g

-- A failure to find the accounts leaves those that are there.
unfoldable pub accounts_found : Outcome (List Text) → Frame → Frame
accounts_found (ok accounts) f = record f { accounts = accounts }
accounts_found (throw err) f = f

module _ {D B : Type 0} (kv : KvClient D B) where
  unfoldable pub load_accounts : Frame → B → Frame × B
  unfolding accounts_found
  load_accounts f b = let (r, c) = discover_accounts kv b in (accounts_found r f, c)

  -- The end of a navigation, by the URL after redirects.
  unfoldable pub navigated : Text → Frame → B → Frame × B
  unfolding load_accounts
  navigated url f b =
      let g = record f { show_shell = not (starts_with url (codes "/login")) } in
      if g.show_shell && not (is_nonempty g.accounts) then load_accounts g b else (g, b)

  -- The policies or the bindings of the store have changed.
  unfoldable pub store_changed : Frame → B → Frame × B
  unfolding load_accounts
  store_changed f b = if f.show_shell then load_accounts f b else (f, b)

  -- The dialog of the bucket was closed, with an import or without.
  unfoldable pub bucket_dialog_closed : Bool → Frame → B → Frame × B
  unfolding load_accounts
  bucket_dialog_closed imported f b = if imported then load_accounts f b else (f, b)

unfoldable pub is_disconnected : ConnectionStatus → Bool
is_disconnected disconnected = true
is_disconnected _ = false

-- The subscription to the status leaves out the first one that it hears.
unfoldable pub status_changed : ConnectionStatus → Frame → Frame
unfolding is_disconnected
status_changed status f =
    if not f.heard_status
    then record f { heard_status = true }
    else if is_disconnected status
    then record f { route = codes "/login" ∷ [] }
    else f

unfoldable pub logout : Nats → Frame → Nats × Frame
logout n f = (disconnect n, record f { route = codes "/login" ∷ [] })

-- The banner, and its button.
unfoldable pub shows_banner : ConnectionStatus → Bool
shows_banner disconnected = true
shows_banner reconnecting = true
shows_banner errored = true
shows_banner connecting = false
shows_banner connected = false

abbrev pub retry : Json ConnectParams → (ConnectOptions → Outcome Connection) → Nats → Nats
retry json dial n = (reconnect json dial n).1
