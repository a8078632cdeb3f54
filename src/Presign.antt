-- ===== src/Presign.antt =====
-- presign_security.go: which presigned URLs and which addresses of storage are used.
use mathlib.Core.List.{Memᴰ}
use lake_go.Prelude.{
  ◌≡◌, refl, Bool, true, false, not, ◌&&◌, ◌||◌, Option, none, some, List, [], ◌∷◌, inl, inr,
  Bool-cases, if◌then◌else◌, Bytes, codes, bytes_eq,
}
use lake_go.Prelude.Result.{Result, ok, err}

-- The parts of a URL that are looked at.
pub record StorageUrl : Type 0 where
  pub scheme : Bytes
  pub hostname : Bytes
  pub has_user : Bool
  pub fragment : Bytes

is_empty : Bytes → Bool
is_empty [] = true
is_empty (c ∷ s) = false

-- validatePresignURL: whether there is no error.
unfoldable pub validate_presign_url : Option StorageUrl → Bool → Bool
unfolding is_empty
validate_presign_url none allow_private = false
validate_presign_url (some u) allow_private = not (
    is_empty u.hostname
    || (u.has_user
        || (not (is_empty u.fragment)
            || (not (bytes_eq u.scheme (codes "https"))
                && not (allow_private && bytes_eq u.scheme (codes "http"))))))

-- net/netip over its addresses `A`, and `net.IP` as `I`.
pub record IpLib (I A : Type 0) : Type 0 where
  pub addr_from_slice : I → Option A
  pub unmap : A → A
  pub is_global_unicast : A → Bool
  pub is_private : A → Bool
  pub is_loopback : A → Bool
  pub is_link_local_unicast : A → Bool
  -- netip.MustParsePrefix(block).Contains(addr)
  pub contains_addr : Bytes → A → Bool
  -- net.JoinHostPort(ip.String(), port)
  pub join_port : I → Bytes → Bytes

abbrev pub reserved_blocks : List Bytes
reserved_blocks =
    codes "0.0.0.0/8"
    ∷ codes "100.64.0.0/10"
    ∷ codes "192.0.0.0/24"
    ∷ codes "192.0.2.0/24"
    ∷ codes "198.18.0.0/15"
    ∷ codes "198.51.100.0/24"
    ∷ codes "203.0.113.0/24"
    ∷ codes "240.0.0.0/4"
    ∷ codes "2001:db8::/32"
    ∷ []

pub data DialError : Type 0 where
  invalid_address unresolved not_public unconnected : DialError

allowed_both :
    (allow public rest : Bool)
    → (if not allow && not public then false else rest) ≡ true
    → ((allow || public) ≡ true) × (rest ≡ true)
allowed_both true public rest h = (refl, h)
allowed_both false true rest h = (refl, h)
allowed_both false false rest h = cc

module _ {I A : Type 0} (net : IpLib I A) where
  in_blocks : List Bytes → A → Bool
  in_blocks [] addr = false
  in_blocks (block ∷ blocks) addr = net.contains_addr block addr || in_blocks blocks addr

  public_addr : A → Bool
  public_addr addr =
      if not (net.is_global_unicast addr)
        || (net.is_private addr || (net.is_loopback addr || net.is_link_local_unicast addr))
      then false
      else not (in_blocks reserved_blocks addr)

  public_ip : Option A → Bool
  public_ip none = false
  public_ip (some addr) = public_addr (net.unmap addr)

  -- publicPresignIP
  unfoldable pub public_presign_ip : I → Bool
  unfolding public_ip public_addr in_blocks
  public_presign_ip ip = public_ip (net.addr_from_slice ip)

  -- The first loop of DialContext
  unfoldable pub are_allowed : Bool → List I → Bool
  are_allowed allow_private [] = true
  are_allowed allow_private (ip ∷ ips) =
      let rest = are_allowed allow_private ips in
      if not allow_private && not (public_presign_ip ip) then false else rest

  module _ {W C E : Type 0} (dial : Bytes → W → Result E C × W) where
    or_next : (W → Result DialError C × W) → Result E C × W → Result DialError C × W
    or_next next (ok conn, w) = (ok conn, w)
    or_next next (err e, w) = next w

    -- The second loop of DialContext
    unfoldable pub dial_each : Bytes → List I → W → Result DialError C × W
    unfolding or_next
    dial_each port [] w = (err unconnected, w)
    dial_each port (ip ∷ ips) w = or_next (dial_each port ips) (dial (net.join_port ip port) w)

    dial_resolved : Bool → Bytes → Option (List I) → W → Result DialError C × W
    dial_resolved allow_private port none w = (err unresolved, w)
    dial_resolved allow_private port (some []) w = (err unresolved, w)
    dial_resolved allow_private port (some (ip ∷ ips)) w =
        if are_allowed allow_private (ip ∷ ips)
        then dial_each port (ip ∷ ips) w
        else (err not_public, w)

    -- DialContext of newPresignTransport, behind net.SplitHostPort; `resolve` is LookupIPAddr.
    unfoldable pub dial_context :
        Bool
        → (Bytes → W → Option (List I) × W)
        → Option (Bytes × Bytes)
        → W
        → Result DialError C × W
    unfolding dial_resolved
    dial_context allow_private resolve none w = (err invalid_address, w)
    dial_context allow_private resolve (some (host, port)) w =
        let (ips, w') = resolve host w in dial_resolved allow_private port ips w'

    -- What each connection to an address that is allowed keeps, the loop keeps.
    dial_each_keeps :
        (P : W → Type 0) (allow_private : Bool) (port : Bytes) (ips : List I) (w : W)
        → ((ip : I) (w : W)
            → Memᴰ ip ips
            → (allow_private || public_presign_ip ip) ≡ true
            → P w
            → P (dial (net.join_port ip port) w).1)
        → are_allowed allow_private ips ≡ true
        → P w
        → P (dial_each port ips w).1
    unfolding dial_each are_allowed
    dial_each_keeps P allow_private port [] w keeps h p = p
    dial_each_keeps P allow_private port (ip ∷ ips) w keeps h p =
        let (b, h') =
          allowed_both allow_private (public_presign_ip ip) (are_allowed allow_private ips) h in
        split (dial (net.join_port ip port) w) (keeps ip w (Memᴰ.head refl) b p) (λ w' q.
          dial_each_keeps P allow_private port ips w' (λ i v m. keeps i v (Memᴰ.tail m)) h' q)
      where
        split :
            (r : Result E C × W)
            → P r.1
            → ((w' : W) → P w' → P (dial_each port ips w').1)
            → P (or_next (dial_each port ips) r).1
        split (ok conn, w') q next = q
        split (err e, w') q next = next w' q

    -- The addresses of an answer of the resolver.
    abbrev pub addresses : Option (List I) → List I
    addresses none = []
    addresses (some ips) = ips

    dial_resolved_keeps :
        (P : W → Type 0) (allow_private : Bool) (port : Bytes) (ips : Option (List I)) (w : W)
        → ((ip : I) (w : W)
            → Memᴰ ip (addresses ips)
            → (allow_private || public_presign_ip ip) ≡ true
            → P w
            → P (dial (net.join_port ip port) w).1)
        → P w
        → P (dial_resolved allow_private port ips w).1
    unfolding dial_resolved
    dial_resolved_keeps P allow_private port none w keeps p = p
    dial_resolved_keeps P allow_private port (some []) w keeps p = p
    dial_resolved_keeps P allow_private port (some (ip ∷ ips)) w keeps p =
        elim (Bool-cases (are_allowed allow_private (ip ∷ ips))) [
          | inl b ↦ rw b (dial_each_keeps P allow_private port (ip ∷ ips) w keeps b p)
          | inr b ↦ rw b p
        ]

    -- Dialling the host of a presigned URL resolves it once, and dials addresses of this answer only, at
    -- the port of the URL, and of these only public ones unless private storage is allowed: a property of
    -- the world that holds once the host was resolved, and that such connections keep, holds in the end,
    -- though nothing is said of what resolving a host keeps.
    pub dial_context_keeps :
        (P : W → Type 0) (allow_private : Bool) (resolve : Bytes → W → Option (List I) × W)
        (host port : Bytes) (w : W)
        → P (resolve host w).1
        → ((ip : I) (v : W)
            → Memᴰ ip (addresses (resolve host w).0)
            → (allow_private || public_presign_ip ip) ≡ true
            → P v
            → P (dial (net.join_port ip port) v).1)
        → P (dial_context allow_private resolve (some (host, port)) w).1
    unfolding dial_context
    dial_context_keeps P allow_private resolve host port w p keeps =
        dial_resolved_keeps P allow_private port (resolve host w).0 (resolve host w).1 keeps p
