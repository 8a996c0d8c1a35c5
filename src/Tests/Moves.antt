-- ===== src/Tests/Moves.antt =====
-- The theorems on moving between the pages and on the frame at concrete inputs.
use nauts.Base.{inl, ◌≡◌, refl, true, none, some, [], ◌∷◌, In}
use nauts.Base.Text.{codes, ◌==◌}
use nauts.Models.{PolicyEntry}
use nauts.NatsService.{connected, Nats, initial, on_status, disconnect_event}
use nauts.PolicyStore.{Store, get_policy, list_all_policies}
use nauts.Base.Dict
use nauts.KvKeys.{global_prefix, policy_key, account_part}
use nauts.AuthGuard.{to_login, auth_guard}
use nauts.BindingDetails.{info_of}
use nauts.Frame.{Frame, logout}
use nauts.Frame.Leaving.{logout_guarded}
use nauts.LoginPage.{LoginPage, blank, on_connect}
use nauts.LoginPage.Dropped.{login_after_drop}
use nauts.PoliciesPage.{PoliciesPage}
use nauts.StatementsView.{statement_policy_route, policies_routed}
use nauts.StatementsView.Links.{global_link_lost}
use nauts.Tests.Coder.{params_json}
use nauts.Tests.Data.{acme}
use nauts.Tests.Sessions.{local, dial_up, open_all, lower}
use nauts.Tests.Stores.{filled}

abbrev policies : PoliciesPage
policies = record {
  selected_account = [];
  search_query = [];
  show_global_policies = true;
  entries = [];
  filtered_entries = [];
  selected_entry = none;
  message = none;
  route = [];
}

abbrev everyone_row : PolicyEntry
everyone_row = record {
  policy = record {
    id = codes "g1";
    account = global_prefix;
    name = codes "Everyone";
    statements = [];
  };
  revision = 7;
}

abbrev shared : Store
shared = record filled {
  policies_map = (codes "_global.policy.g1", everyone_row) ∷ filled.policies_map;
}

everyone_stored : In everyone_row (list_all_policies shared)
unfolding list_all_policies Dict.values
everyone_stored = inl refl

not_of_acme : get_policy acme (codes "g1") shared ≡ none
unfolding get_policy policy_key account_part Dict.get ◌==◌
not_of_acme = refl

global_link_lost_example :
    ((policies_routed lower
        (statement_policy_route (some acme) (info_of everyone_row))
        shared
        policies).selected_entry
      ≡ none)
    × In everyone_row
        (policies_routed lower
          (statement_policy_route (some acme) (info_of everyone_row))
          shared
          policies).entries
global_link_lost_example =
    global_link_lost lower shared policies acme everyone_row refl refl refl refl refl
      everyone_stored not_of_acme

abbrev live : Nats
live = record initial {
  connection = some 1;
  current_params = some local;
  connection_status = connected;
}

abbrev frame : Frame
frame = record {
  show_shell = true;
  current_account = acme;
  accounts = acme ∷ [];
  heard_status = true;
  navigation = acme;
  route = [];
}

logout_guarded_example :
    ((logout live frame).1.route ≡ codes "/login" ∷ [])
    × (auth_guard params_json dial_up lower open_all (logout live frame).0
        ≡ (to_login, (logout live frame).0))
logout_guarded_example = logout_guarded params_json dial_up lower open_all live frame

abbrev other_form : LoginPage
other_form = record (blank (codes "ws://other:8080") (codes "other")) { nkey_seed = codes "SX" }

login_after_drop_example :
    ((on_connect params_json dial_up lower open_all other_form
        (on_status disconnect_event live)).0.entered
      ≡ true)
    × ((on_connect params_json dial_up lower open_all other_form
          (on_status disconnect_event live)).1
        ≡ on_status disconnect_event live)
login_after_drop_example =
    login_after_drop params_json dial_up lower open_all other_form live 1 local refl refl refl
