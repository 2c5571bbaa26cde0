-- ===== src/Examples/Sessions.antt =====
-- Examples of the admission of tokens (ws.rs).
use chuk_mcp_training.Base.{◌≡◌, refl, none, some, [], ◌∷◌}
use chuk_mcp_training.Base.Text.{strip_prefix}
use chuk_mcp_training.Wire.{leased}
use chuk_mcp_training.Store.Tables.{Store}
use chuk_mcp_training.Store.Tokens.{resolve_join_token, consumed}
use chuk_mcp_training.Session.Admission.{Gatekeeper, resumes, resolve_join, admit_join_token}
use chuk_mcp_training.Session.Identity.{resolve_join-once}
use chuk_mcp_training.Examples.HubData.{hub}

abbrev gate : Gatekeeper
gate = record {
  hash_token = λ s. s;
  uuid = "0123456789abcdef";
  binary_sha = λ t. none;
  join_token = "shared";
  min_protocol = 1;
  public_url = "https://cp/";
}

abbrev minted : Store
minted = record (hub.store) {
  join_tokens =
      record {
        id = "t";
        worker_id = "vast-1";
        token_hash = "cj_1";
        created_at = 0;
        expires_at = 100;
        used_at = none;
      }
      ∷ [];
}

resolve_join-once_example :
    (leased ≡ leased)
    × ((resolve_join gate 60 "cj_1"
          (some (record { worker_id = "vast-2" }))
          (resolve_join gate 50 "cj_1" none minted).0).1
        ≡ none)
unfolding resolve_join resolve_join_token consumed admit_join_token strip_prefix resumes
resolve_join-once_example =
    resolve_join-once gate 50 60 "cj_1" none (some (record { worker_id = "vast-2" })) minted
      "vast-1" leased refl (tt, tt) refl
