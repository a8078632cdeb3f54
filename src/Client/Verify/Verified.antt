-- ===== src/Client/Verify/Verified.antt =====
-- A session that is verified is the client's.
use lake_go.Prelude.{
  ◌≡◌, ◌⊎◌, inl, inr, refl, true, false, Bool-cases, Option, [], Bytes, arith, bytes_eq-eq,
}
use lake_go.Prelude.Decimal.{ℤ}
use lake_go.Prelude.Result.{Result, ok, err}
use lake_go.Client.Errors.{Failure}
use lake_go.Client.State.{Client, is_nil}
use lake_go.Client.Request.{Ctx, Env, Exchange, Reader}
use lake_go.Client.Login.{LoginRequest, initialize_connection_info}
use lake_go.Client.Verify.{
  VerifyResponse, differs, check_verified, no_answer, verify_loop, verify_end, verify_initialized,
  verify,
}

-- The server names the tenant and the user of the client, where the client has them.
pub record Matches (c : Client) (r : VerifyResponse) : Type 0 where
  pub same_tenant : (is_nil c.tenant ≡ true) ⊎ (r.tenant ≡ c.tenant)
  pub same_user : (is_nil c.user ≡ true) ⊎ (r.user ≡ c.user)

not_differs : (own given : Bytes) → differs own given ≡ false → (is_nil own ≡ true) ⊎ (given ≡ own)
not_differs own given h = ground (arith, bytes_eq-eq given own)

check_verified-Matches :
    (c : Client) (r : VerifyResponse) → check_verified c r ≡ ok tt → Matches c r
unfolding check_verified
check_verified-Matches c r h = elim (Bool-cases (differs c.tenant r.tenant)) [
  | inl t ↦ absurd (cc (t, h))
  | inr t ↦ elim (Bool-cases (differs c.user r.user)) [
    | inl u ↦ absurd (cc (t, u, h))
    | inr u ↦ record {
      same_tenant = not_differs c.tenant r.tenant t;
      same_user = not_differs c.user r.user u;
    }
  ]
]

module _ {W : Type 0} (env : Env W) (ctx : Ctx) (pause : W → W) (read : Reader env VerifyResponse)
    (marshal : LoginRequest → Bytes) (read_login : Reader env (Option ℤ)) where
  abbrev start : W → Exchange VerifyResponse W
  start w = record { resp = no_answer; headers = []; world = w }

  -- The client that initialises the connection, and the last answer that it reads: they match.
  pub record Verified (s : Client × W) : Type 0 where
    pub client : Client
    pub world : W
    pub initialized :
        initialize_connection_info env marshal read_login s.0 ctx s.1 ≡ (ok tt, (client, world))
    pub matches : Matches client (verify_loop env ctx pause read 2 client (start world)).1.resp

  -- A session is verified only where the last answer that was read names the tenant and the user of
  -- the client, as far as it has them.
  pub verify-Verified :
      (s : Client × W) → (verify env ctx pause read marshal read_login s).0 ≡ ok tt → Verified s
  unfolding verify verify_initialized verify_end
  verify-Verified (c, w) h = init (initialize_connection_info env marshal read_login c ctx w) refl h
    where
      ended :
          (c' : Client) (w' : W) (r : Result Failure (Unit {0}) × Exchange VerifyResponse W)
          → verify_loop env ctx pause read 2 c' (start w') ≡ r
          → initialize_connection_info env marshal read_login c ctx w ≡ (ok tt, (c', w'))
          → (verify_end env ctx pause read c' r).0 ≡ ok tt
          → Verified (c, w)
      ended c' w' (err e, x) p q k = cc
      ended c' w' (ok done, x) p q k = record {
        client = c';
        world = w';
        initialized = q;
        matches = rw p (check_verified-Matches c' x.resp k);
      }

      init :
          (r : Result Failure (Unit {0}) × (Client × W))
          → initialize_connection_info env marshal read_login c ctx w ≡ r
          → (verify_initialized env ctx pause read marshal read_login r).0 ≡ ok tt
          → Verified (c, w)
      init (err e, s) p k = cc
      init (ok done, (c', w')) p k = ended c' w' _ refl p k
