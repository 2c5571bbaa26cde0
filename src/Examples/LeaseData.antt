-- ===== src/Examples/LeaseData.antt =====
-- A world with a clock in milliseconds and the list of what was destroyed, and a provider in it.
use chuk_mcp_training.Base.{
  ℕ, ◌+◌, String, ◌==◌, ◌≡◌, refl, true, some, List, [], ◌∷◌, arith, Bool-cases, inl, inr,
}
use chuk_mcp_training.Base.Doubles.{whole, zero_f64}
use chuk_mcp_training.Proto.Run.{LeaseState}
use chuk_mcp_training.Proto.Lease.{Lease}
use chuk_mcp_training.Leases.Manager.{
  Instance, gone, Provider, Outside, VerifyPolicy, Config, Manager, provider_named,
}
use chuk_mcp_training.Leases.Verify.{Timely}
use chuk_mcp_training.Leases.Rows.{Reliable}
use chuk_mcp_training.Examples.HubData.{hub}

pub record World : Type 0 where
  pub clock : ℕ
  pub ended : List String

abbrev pub t4 : Instance
t4 = record { id = "i-7"; provider = "fake"; gpu = "t4"; price_hr = whole 6 }

abbrev pub fake : Provider World
fake = record {
  name = "fake";
  provision = λ req ctx w. (w, some t4);
  destroy = λ id w. (record w { ended = id ∷ w.ended }, true);
  status = λ id w. (w, some gone);
  list_instances = λ w. (w, some (t4 ∷ []));
}

abbrev pub out : Outside World
out = record {
  providers = fake ∷ [];
  now = λ w. w.clock;
  instant = λ w. w.clock;
  sleep = λ d w. record w { clock = w.clock + d };
  uuid = λ w. (w, "0123456789abcdef");
  hash_token = λ s. s;
}

abbrev pub verify : VerifyPolicy
verify = record { timeout = 120000; poll = 2000 }

abbrev pub config : Config
config = record { agent_ws_url = "wss://cp"; drain_window_min = whole 10; idle_reap = 600000 }

-- An hour from the epoch, draining in the last ten minutes.
abbrev pub lease_in : String → String → LeaseState → Lease
lease_in id machine state = record {
  worker_id = id;
  provider = "fake";
  instance_id = machine;
  price_hr = whole 6;
  granted_min = whole 60;
  drain_window_min = whole 10;
  started_at = zero_f64;
  state = state;
  extensions = [];
}

abbrev pub manager_at : ℕ → List Lease → Manager World
manager_at clock leases = record {
  hub = record hub { store = record (hub.store) { leases = leases } };
  idle_since = [];
  world = record { clock = clock; ended = [] };
}

only_fake :
    (name : String) (p : Provider World) → provider_named name out.providers ≡ some p → p ≡ fake
unfolding provider_named
only_fake name p e = elim (Bool-cases ("fake" == name)) [
  | inl t ↦ ground (arith, (rw t at e))
  | inr t ↦ absurd (cc (rw t at e))
]

pub timely : Timely out fake
timely = record { asked = λ id w. omega arith; slept = λ d w. omega arith }

pub reliable : Reliable out verify
reliable = record {
  positive = omega arith;
  timely = λ name p e. rw (only_fake name p e) timely;
  accepts = λ name p e id w. rw (only_fake name p e) refl;
}
