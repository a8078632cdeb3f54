-- ===== src/Client/Saved.antt =====
-- clientstate.go, and the jar of cookie_jar.go: the state of a client that a program keeps. A copy of a
-- slice or a map is the same value here.
use lake_go.Prelude.{
  ℕ, ◌≡◌, refl, Bool, true, false, Option, none, some, [], ◌∷◌, inl, inr, Bool-cases, if◌then◌else◌,
  Bytes, bytes_eq, bytes_eq-eq, sym,
}
use lake_go.Client.State.{Client, SessionState, StringMap}
use lake_go.Dsn.{lookup, assign}

-- IgnoreDomainCookieJar: the values by name. SetCookies takes the address and forgets it.
unfoldable pub set_cookies : StringMap → StringMap → StringMap
set_cookies jar [] = jar
set_cookies jar ((name, value) ∷ cookies) = set_cookies (assign name value jar) cookies

pub record Snapshot : Type 0 where
  pub query_seq : ℕ
  pub route_hint : Bytes
  pub node_id : Bytes
  pub state_restored : Bool
  pub session_state_raw : Option Bytes
  pub session_state : Option SessionState

unfoldable pub snapshot_client_state : Client → Snapshot
snapshot_client_state c = record {
  query_seq = c.query_seq;
  route_hint = c.route_hint;
  node_id = c.node_id;
  state_restored = c.state_restored;
  session_state_raw = c.session_state_raw;
  session_state = c.session_state;
}

-- The function that snapshotClientState returns.
unfoldable pub restore_snapshot : Snapshot → Client → Client
restore_snapshot s c = record c {
  query_seq = s.query_seq;
  route_hint = s.route_hint;
  node_id = s.node_id;
  state_restored = s.state_restored;
  session_state_raw = s.session_state_raw;
  session_state = s.session_state;
}

-- APIClientState
pub record ClientState : Type 0 where
  pub session_id : Bytes
  pub query_seq : ℕ
  pub route_hint : Bytes
  pub node_id : Bytes
  pub session_state : Bytes
  pub cookies : StringMap

-- json.Unmarshal, to a raw message and to a session state.
pub record StateLib : Type 0 where
  pub unmarshal_raw : Bytes → Option Bytes
  pub unmarshal_session : Bytes → Option SessionState

raw_text : Option Bytes → Bytes
raw_text none = []
raw_text (some raw) = raw

-- GetState
unfoldable pub get_state : Client → StringMap → ClientState
unfolding raw_text
get_state c jar = record {
  session_id = c.session_id;
  query_seq = c.query_seq;
  route_hint = c.route_hint;
  node_id = c.node_id;
  session_state = raw_text c.session_state_raw;
  cookies = jar;
}

module _ (json : StateLib) where
  set_session : Option SessionState → Client → Client
  set_session none c = c
  set_session (some s) c = record c { session_state = some s }

  set_raw : Bytes → Option Bytes → Client → Client
  set_raw text none c = c
  set_raw text (some raw) c =
      set_session (json.unmarshal_session text) (record c { session_state_raw = some raw })

  load_session : Bytes → Client → Client
  load_session [] c = c
  load_session (b ∷ text) c = set_raw (b ∷ text) (json.unmarshal_raw (b ∷ text)) c

  -- WithState; the jar is changed too.
  unfoldable pub with_state : Option ClientState → Client → StringMap → Client × StringMap
  unfolding load_session set_raw set_session
  with_state none c jar = (c, jar)
  with_state (some st) c jar = (
    load_session st.session_state (record c {
      state_restored = true;
      session_id = st.session_id;
      query_seq = st.query_seq;
      route_hint = st.route_hint;
      node_id = st.node_id;
    }),
    set_cookies jar st.cookies,
  )

if_twice :
    {A : Type 0} (b : Bool) (p q r : A)
    → (if b then p else r) ≡ (if b then p else (if b then q else r))
if_twice true p q r = refl
if_twice false p q r = refl

bytes_ne : (l k x : Bytes) → bytes_eq l k ≡ false → bytes_eq k x ≡ true → bytes_eq l x ≡ false
bytes_ne l k x h e = rw (bytes_eq-eq k x e) at h

lookup-assign :
    (k v : Bytes) (m : StringMap) (x : Bytes)
    → lookup (assign k v m) x ≡ (if bytes_eq k x then some v else lookup m x)
unfolding lookup assign
lookup-assign k v [] x = refl
lookup-assign k v ((l, w) ∷ m) x = elim (Bool-cases (bytes_eq l k)) [
  | inl h ↦ rw (h, bytes_eq-eq l k h) (if_twice (bytes_eq k x) (some v) (some w) (lookup m x))
  | inr h ↦ elim (Bool-cases (bytes_eq k x)) [
    | inl e ↦ rw (h, lookup-assign k v m x, e, bytes_ne l k x h e) refl
    | inr e ↦ rw (h, lookup-assign k v m x, e) refl
  ]
]

-- Of two maps, the first that has the key.
abbrev pub or_lookup : Option Bytes → Option Bytes → Option Bytes
or_lookup none o = o
or_lookup (some v) o = some v

-- A map has each key once.
unfoldable pub Distinct : StringMap → Type 0
Distinct [] = Unit
Distinct ((k, v) ∷ m) = (lookup m k ≡ none) × Distinct m

set_cookies-lookup :
    (jar cookies : StringMap) (x : Bytes)
    → Distinct cookies
    → lookup (set_cookies jar cookies) x ≡ or_lookup (lookup cookies x) (lookup jar x)
unfolding set_cookies lookup Distinct
set_cookies-lookup jar [] x d = refl
set_cookies-lookup jar ((k, v) ∷ cookies) x (n, d) = elim (Bool-cases (bytes_eq k x)) [
  | inl e ↦
      rw
        (
          set_cookies-lookup (assign k v jar) cookies x d,
          lookup-assign k v jar x,
          e,
          sym (bytes_eq-eq k x e),
          n,
        )
        refl
  | inr e ↦ rw (set_cookies-lookup (assign k v jar) cookies x d, lookup-assign k v jar x, e) refl
]

module _ (json : StateLib) where
  -- A state that GetState gives of a client with a session, whose text is JSON, set on any client by
  -- WithState, gives that client the session, parsed as the text says, and the names, the count and the
  -- hint of the state; it is marked as restored. Its cookies are those of the state, and behind them the
  -- ones it had. GetState then gives the same state, but for these cookies.
  pub with_state-get_state :
      (c c' : Client) (jar jar' : StringMap) (b : ℕ) (raw : Bytes) (s : SessionState)
      → c.session_state_raw ≡ some (b ∷ raw)
      → json.unmarshal_raw (b ∷ raw) ≡ some (b ∷ raw)
      → json.unmarshal_session (b ∷ raw) ≡ some s
      → Distinct jar
      → ((with_state json (some (get_state c jar)) c' jar').0 ≡ record c' {
        state_restored = true;
        session_id = c.session_id;
        query_seq = c.query_seq;
        route_hint = c.route_hint;
        node_id = c.node_id;
        session_state_raw = c.session_state_raw;
        session_state = some s;
      })
        × ((x : Bytes)
            → lookup (with_state json (some (get_state c jar)) c' jar').1 x
              ≡ or_lookup (lookup jar x) (lookup jar' x))
        × (record (get_state (with_state json (some (get_state c jar)) c' jar').0 jar') {
          cookies = jar;
        }
            ≡ get_state c jar)
  unfolding with_state get_state load_session set_raw set_session
  with_state-get_state c c' jar jar' b raw s h r u d =
      (rw (h, r, u) refl, (λ x. set_cookies-lookup jar' jar x d), rw (h, r, u) refl)
