-- ===== src/Tests/Saved.antt =====
-- Tests of the saved state of a client, and of the addresses of storage.
use lake_go.Prelude.{
  ◌≡◌, refl, true, false, Option, none, some, List, [], ◌∷◌, Bytes, codes, bytes_eq,
}
use lake_go.Prelude.Result.{Result, err}
use lake_go.Client.State.{Client, SessionState, StringMap}
use lake_go.Client.Saved.{
  StateLib, with_state, get_state, Distinct, or_lookup, with_state-get_state,
}
use lake_go.Dsn.{lookup}
use lake_go.Presign.{IpLib, public_presign_ip, dial_context, dial_context_keeps}
use lake_go.Tests.Client.{client}

abbrev session : SessionState
session = record {
  database = codes "db";
  role = [];
  secondary_roles = none;
  settings = [];
  txn_state = [];
  need_sticky = false;
  need_keep_alive = false;
}

abbrev json : StateLib
json = record { unmarshal_raw = λ s. some s; unmarshal_session = λ s. some session }

abbrev saved : Client
saved = record client { session_state_raw = some (codes "{}"); session_state = some session }

abbrev jar : StringMap
jar = (codes "cookie", codes "1") ∷ []

jar-Distinct : Distinct jar
unfolding Distinct lookup
jar-Distinct = (refl, tt)

with_state-get_state_example :
    ((with_state json (some (get_state saved jar)) client []).0 ≡ record client {
      state_restored = true;
      session_id = codes "s1";
      query_seq = 1;
      route_hint = [];
      node_id = codes "n1";
      session_state_raw = some (codes "{}");
      session_state = some session;
    })
    × ((x : Bytes)
        → lookup (with_state json (some (get_state saved jar)) client []).1 x
          ≡ or_lookup (lookup jar x) (lookup [] x))
    × (record (get_state (with_state json (some (get_state saved jar)) client []).0 []) {
      cookies = jar;
    }
        ≡ get_state saved jar)
with_state-get_state_example =
    with_state-get_state json saved client jar [] b'{' (codes "}") session refl refl refl
      jar-Distinct

-- Addresses are texts, and the public ones are those that are not `10.0.0.1`.
abbrev net : IpLib Bytes Bytes
net = record {
  addr_from_slice = λ ip. some ip;
  unmap = λ a. a;
  is_global_unicast = λ a. true;
  is_private = λ a. bytes_eq a (codes "10.0.0.1");
  is_loopback = λ a. false;
  is_link_local_unicast = λ a. false;
  contains_addr = λ block a. false;
  join_port = λ ip port. ip;
}

-- The world is the hosts that were resolved and the addresses that were dialled.
data Event : Type 0 where
  resolved dialled : Bytes → Event

abbrev dial : Bytes → List Event → Result Bytes Bytes × List Event
dial ip w = (err (codes "refused"), dialled ip ∷ w)

abbrev resolve : Bytes → List Event → Option (List Bytes) × List Event
resolve host w = (some (codes "1.1.1.1" ∷ codes "8.8.8.8" ∷ []), resolved host ∷ w)

-- One host was resolved, and then public addresses were dialled.
abbrev OnceThenPublic : List Event → Type 0
OnceThenPublic [] = ⊥
OnceThenPublic (resolved host ∷ w) = w ≡ []
OnceThenPublic (dialled ip ∷ w) = (public_presign_ip net ip ≡ true) × OnceThenPublic w

dial_context_keeps_example :
    OnceThenPublic (dial_context net dial false resolve (some (codes "storage", codes "443")) []).1
dial_context_keeps_example =
    dial_context_keeps net dial OnceThenPublic false resolve (codes "storage") (codes "443") [] refl
      (λ ip v m h p. (h, p))
