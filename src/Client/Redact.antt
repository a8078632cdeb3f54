-- ===== src/Client/Redact.antt =====
-- The texts that log lines and messages show: `redacted` of helpers.go, `String` of a client and of a
-- configuration (client.go, dsn.go), and the error of a response (apierrors.go).
use lake_go.Prelude.{◌≡◌, ◌≢◌, refl, Option, none, some, [], ◌∷◌, ◌++◌, Bytes, codes}
use lake_go.Client.Errors.{ApiError, Failure, api, wrap, api_error_text, error_text}
use lake_go.Client.State.{Client}
use lake_go.Dsn.{Config}

-- redacted
unfoldable pub redacted : Bytes → Bytes
redacted [] = []
redacted (c ∷ secret) = codes "<redacted>"

-- APIClient.String
pub client_text : Option Client → Bytes
client_text none = codes "APIClient<nil>"
client_text (some c) =
    codes "APIClient{SessionID:"
    ++ (c.session_id
        ++ (codes " Host:"
            ++ (c.host
                ++ (codes " Tenant:"
                    ++ (c.tenant
                        ++ (codes " Warehouse:"
                            ++ (c.warehouse
                                ++ (codes " User:"
                                    ++ (c.user
                                        ++ (codes " Password:"
                                            ++ (redacted c.password ++ codes "}")))))))))))

-- Config.String
pub config_text : {Z : Type 0} → Option (Config Z) → Bytes
config_text none = codes "Config<nil>"
config_text (some cfg) =
    codes "Config{Host:"
    ++ (cfg.host
        ++ (codes " Tenant:"
            ++ (cfg.tenant
                ++ (codes " Warehouse:"
                    ++ (cfg.warehouse
                        ++ (codes " Database:"
                            ++ (cfg.database
                                ++ (codes " User:"
                                    ++ (cfg.user
                                        ++ (codes " Password:"
                                            ++ (redacted cfg.password
                                                ++ (codes " AccessToken:"
                                                    ++ (redacted cfg.access_token
                                                        ++ codes "}")))))))))))))

-- Two errors that differ at most in what a response held.
pub data Alike : Failure → Failure → Type 0 where
  same : (e : Failure) → Alike e e
  responses :
      (a b : ApiError) → a.status_code ≡ b.status_code → a.hint ≡ b.hint → Alike (api a) (api b)
  wrapped : (message : Bytes) {e f : Failure} → Alike e f → Alike (wrap message e) (wrap message f)

Alike-error_text : {e f : Failure} → Alike e f → error_text e ≡ error_text f
unfolding error_text api_error_text
Alike-error_text (same e) = refl
Alike-error_text (responses a b s h) = rw (s, h)
Alike-error_text (wrapped message a) = rw (Alike-error_text a)

redacted_same : (p q : Bytes) → p ≢ [] → q ≢ [] → redacted p ≡ redacted q
unfolding redacted
redacted_same [] q h k = absurd (h refl)
redacted_same (c ∷ p) [] h k = absurd (k refl)
redacted_same (c ∷ p) (d ∷ q) h k = refl

-- The text of a client does not depend on which password it has, nor that of a configuration on which
-- password and which token, as long as they are not empty; and the text of an error, wrapped or not, does
-- not depend on the body of the response that it keeps.
pub texts-redacted :
    {Z : Type 0} (c : Client) (cfg : Config Z) (p q t u : Bytes) (e f : Failure)
    → p ≢ []
    → q ≢ []
    → t ≢ []
    → u ≢ []
    → Alike e f
    → (client_text (some (record c { password = p }))
        ≡ client_text (some (record c { password = q })))
      × (config_text (some (record cfg { password = p; access_token = t }))
          ≡ config_text (some (record cfg { password = q; access_token = u })))
      × (error_text e ≡ error_text f)
unfolding client_text config_text
texts-redacted c cfg p q t u e f hp hq ht hu a =
    let same_password = redacted_same p q hp hq in
    (rw same_password, rw (same_password, redacted_same t u ht hu), Alike-error_text a)
