-- ===== src/Conn/Driven/Transaction.antt =====
-- The requests of COMMIT and ROLLBACK.
use lake_go.Prelude.{◌≡◌, ◌||◌, true, Bytes, ℕ}
use lake_go.Client.State.{Client}
use lake_go.Client.Retry.{Retrier, IsRetrier}
use lake_go.Client.Request.Keeps.{KeptBy}
use lake_go.Client.Request.Carries.{Carries}
use lake_go.Query.Calls.Send.{Setting, kill_query}
use lake_go.Conn.{Conn, Reading}
use lake_go.Conn.Driven.{Tx, asking_of, asked_setting}

module _ {V W Z T E X : Type 0} (retrier : Retrier) (law : IsRetrier retrier)
    (set : Setting W Z T E) (reading : Reading V Z T X) (fuel : ℕ) where
  -- The setting of COMMIT and ROLLBACK of a transaction.
  abbrev pub ending : Tx W → Bytes → Setting W Z T E
  ending tx uuid = asked_setting set (asking_of tx uuid)

  -- A client with this user agent that needs no login.
  pub record IsReady (agent : Bytes) (c : Client) : Type 0 where
    pub has_agent : c.user_agent ≡ agent
    pub needs_no_login : (c.state_restored || c.connection_info_initialized) ≡ true

  -- What COMMIT and ROLLBACK need to keep: requests with this query id and user agent, the kill of a query
  -- whose context is canceled, which has a context of its own, and what a query does besides.
  pub record EndingKeeps (tx : Tx W) (uuid id agent : Bytes) (P : W → Type 0) : Type 0 where
    pub requests : KeptBy set.env (Carries set.env id agent) P
    pub kills :
        (uri : Bytes) (c : Client) (w : W)
        → P w
        → P (kill_query retrier (ending tx uuid) uri (c, w)).1
    pub sleeps : (n : ℕ) (w : W) → P w → P (set.host.sleep n w)
    pub tracks : (id stats : Bytes) (w : W) → P w → P (set.host.track id stats w)
    pub hints : (w : W) → P w → P (set.host.rand_route_hint w).1
