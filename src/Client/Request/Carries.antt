-- ===== src/Client/Request/Carries.antt =====
-- The headers of every request that `doRequest` sends.
use lake_go.Prelude.{
  ◌≡◌, ◌∙◌, refl, Bool, true, false, [], ◌∷◌, String, Bytes, codes, bytes_eq, bytes_eq-eq,
  bytes_eq_refl, if◌then◌else◌, ap, sym,
}
use lake_go.Prelude.Result.{Result, ok, err, ok_injective}
use lake_go.Client.Errors.{Failure}
use lake_go.Client.State.{
  Client, AuthMethod, user_password, access_token, no_auth, auth_method, get_query_id, StringMap,
}
use lake_go.Client.Request.{
  Ctx, HttpRequest, Env, Exchange, Reader, set_header, get_header, user_agent_header, or_value,
  set_unless_empty, base_headers, bearer, authorize, make_headers, request_headers, do_request,
}
use lake_go.Client.Request.Keeps.{KeptBy, do_request_keeps_of}

pub get_header-set_header : (k v : Bytes) (h : StringMap) → get_header k (set_header k v h) ≡ v
unfolding get_header set_header
get_header-set_header k v [] = simp (bytes_eq_refl k)
get_header-set_header k v ((j, w) ∷ h) = split (bytes_eq j k) refl (get_header-set_header k v h)
  where
    split :
        (b : Bool)
        → bytes_eq j k ≡ b
        → get_header k (set_header k v h) ≡ v
        → get_header k (set_header k v ((j, w) ∷ h)) ≡ v
    split true p rest = simp (p, bytes_eq_refl k)
    split false p rest = simp (p, rest)

-- Setting one header leaves another as it was.
get_header-set_other :
    (k j v : Bytes) (h : StringMap)
    → bytes_eq j k ≡ false
    → get_header k (set_header j v h) ≡ get_header k h
unfolding get_header set_header
get_header-set_other k j v [] n = simp n
get_header-set_other k j v ((i, w) ∷ h) n =
    split (bytes_eq i j) refl (get_header-set_other k j v h n)
  where
    split :
        (b : Bool)
        → bytes_eq i j ≡ b
        → get_header k (set_header j v h) ≡ get_header k h
        → get_header k (set_header j v ((i, w) ∷ h)) ≡ get_header k ((i, w) ∷ h)
    split true p rest =
        let same : bytes_eq i k ≡ false = rw (bytes_eq-eq i j p) n in simp (p, n, same)
    split false p rest = simp (p, rest)

if_other :
    (k j v : Bytes) (b : Bool) (h : StringMap)
    → bytes_eq j k ≡ false
    → get_header k (if b then set_header j v h else h) ≡ get_header k h
if_other k j v true h n = get_header-set_other k j v h n
if_other k j v false h n = refl

unless_empty_other :
    (k : Bytes) (name : String) (v : Bytes) (h : StringMap)
    → bytes_eq (codes name) k ≡ false
    → get_header k (set_unless_empty name v h) ≡ get_header k h
unless_empty_other k name [] h n = refl
unless_empty_other k name (c ∷ v) h n = get_header-set_other k (codes name) (c ∷ v) h n

base_headers-query_id :
    (version : Bytes) (c : Client) (ctx : Ctx)
    → get_header (codes "X-DATABEND-QUERY-ID") (base_headers version c ctx)
      ≡ or_value ctx.query_id (get_query_id c)
unfolding base_headers
base_headers-query_id version c ctx = get_header-set_header (codes "X-DATABEND-QUERY-ID") _ _

base_headers-user_agent :
    (version : Bytes) (c : Client) (ctx : Ctx)
    → get_header (codes "User-Agent") (base_headers version c ctx)
      ≡ user_agent_header version (or_value ctx.user_agent c.user_agent)
unfolding base_headers
base_headers-user_agent version c ctx =
    let k = codes "User-Agent" in
    get_header-set_other k (codes "X-DATABEND-QUERY-ID") _ _ refl
    ∙ unless_empty_other k "X-DATABEND-ROUTE-HINT" c.route_hint _ refl
    ∙ unless_empty_other k "X-DATABEND-WAREHOUSE" c.warehouse _ refl
    ∙ unless_empty_other k "X-DATABEND-TENANT" c.tenant _ refl
    ∙ get_header-set_header k _ _

-- A request with this query id and user agent.
abbrev pub Carries : {W : Type 0} → Env W → Bytes → Bytes → HttpRequest → Type 0
Carries env id agent req =
    (get_header (codes "X-DATABEND-QUERY-ID") req.headers ≡ id)
    × (get_header (codes "User-Agent") req.headers ≡ user_agent_header env.version agent)

module _ {W : Type 0} (env : Env W) (c : Client) where
  -- Authorizing sets no other header.
  authorize_other :
      (k : Bytes) (a : AuthMethod) (h h' : StringMap) (w : W)
      → bytes_eq (codes "Authorization") k ≡ false
      → (authorize env a c h w).0 ≡ ok h'
      → get_header k h' ≡ get_header k h
  unfolding authorize bearer
  authorize_other k user_password h h' w n p =
      sym (ap (get_header k) (ok_injective p))
      ∙ get_header-set_other k (codes "Authorization") _ h n
  authorize_other k access_token h h' w n p = loaded (env.load_token false w) p
    where
      loaded :
          (r : Result Failure Bytes × W)
          → (bearer env h r).0 ≡ ok h'
          → get_header k h' ≡ get_header k h
      loaded (ok token, w') p =
          sym (ap (get_header k) (ok_injective p))
          ∙ get_header-set_other k (codes "Authorization") _ h n
      loaded (err e, w') p = cc
  authorize_other k no_auth h h' w n p = cc

  pub request_headers_other :
      (k method : Bytes) (sticky : Bool) (accept : Bytes) (h : StringMap)
      → bytes_eq (codes "X-DATABEND-STICKY-NODE") k ≡ false
      → bytes_eq (codes "X-DATABEND-NODE-ID") k ≡ false
      → bytes_eq (codes "Content-Type") k ≡ false
      → bytes_eq (codes "Accept") k ≡ false
      → get_header k (request_headers env c method sticky accept h) ≡ get_header k h
  unfolding request_headers
  request_headers_other k method sticky accept h p q r s =
      get_header-set_other k (codes "Accept") _ _ s
      ∙ get_header-set_other k (codes "Content-Type") _ _ r
      ∙ if_other k (codes "X-DATABEND-NODE-ID") c.node_id _ _ q
      ∙ if_other k (codes "X-DATABEND-STICKY-NODE") c.node_id _ h p

  abbrev headers_of : Bytes → Bool → Bytes → StringMap → StringMap
  headers_of method sticky accept h = request_headers env c method sticky accept h

  request_headers-query_id :
      (ctx : Ctx) (method : Bytes) (sticky : Bool) (accept : Bytes) (w : W) (h : StringMap)
      → (make_headers env c ctx w).0 ≡ ok h
      → get_header (codes "X-DATABEND-QUERY-ID") (headers_of method sticky accept h)
        ≡ or_value ctx.query_id (get_query_id c)
  unfolding make_headers
  request_headers-query_id ctx method sticky accept w h p =
      let k = codes "X-DATABEND-QUERY-ID" in
      request_headers_other k method sticky accept h refl refl refl refl
      ∙ authorize_other k (auth_method c) _ h w refl p
      ∙ base_headers-query_id env.version c ctx

  request_headers-user_agent :
      (ctx : Ctx) (method : Bytes) (sticky : Bool) (accept : Bytes) (w : W) (h : StringMap)
      → (make_headers env c ctx w).0 ≡ ok h
      → get_header (codes "User-Agent") (headers_of method sticky accept h)
        ≡ user_agent_header env.version (or_value ctx.user_agent c.user_agent)
  unfolding make_headers
  request_headers-user_agent ctx method sticky accept w h p =
      let k = codes "User-Agent" in
      request_headers_other k method sticky accept h refl refl refl refl
      ∙ authorize_other k (auth_method c) _ h w refl p
      ∙ base_headers-user_agent env.version c ctx

  -- Every request that `doRequest` sends, a repeated one included, has the query id and the user agent
  -- that the context tells: a property of the world that such requests and the token loader keep is kept.
  pub do_request-Carries :
      {R : Type 0} (read : Reader env R) (P : W → Type 0) (ctx : Ctx) (method path body : Bytes)
      (sticky : Bool) (accept : Bytes) (x : Exchange R W)
      → KeptBy env
          (Carries env
            (or_value ctx.query_id (get_query_id c))
            (or_value ctx.user_agent c.user_agent))
          P
      → P x.world
      → P (do_request env c ctx method path body sticky accept read x).1.world
  do_request-Carries read P ctx method path body sticky accept x kept p =
      do_request_keeps_of env c read _ P kept ctx method path body sticky accept x
        (λ url h q m. (
          request_headers-query_id ctx method sticky accept x.world h m,
          request_headers-user_agent ctx method sticky accept x.world h m,
        ))
        p
