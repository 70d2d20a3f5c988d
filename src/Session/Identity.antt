-- ===== src/Session/Identity.antt =====
-- `_identity` and `_key` of src/xrd/session/pool.py. The digest and Python's `repr` are parameters.
use py_xroot_dclient.Base.{
  Bytes, List, Option, ◌≡◌, ◌∷◌, some, if◌then◌else◌, All, Bool, ℕ, ◌++◌, [], none, ap, ◌||◌, ◌≢◌,
  refl,
}
use py_xroot_dclient.Session.World.{Key}
use py_xroot_dclient.Config.{Config}
use py_xroot_dclient.Url.{XRootDUrl, use_tls}
use py_xroot_dclient.Base.Text.{codes}

-- The values that `repr` is asked for.
pub data Value : Type 0 where
  no_value : Value
  text : Bytes → Value
  texts : List Bytes → Value
  flag : Bool → Value

abbrev optional : Option Bytes → Value
optional none = no_value
optional (some b) = text b

-- `url.username or config.username`
abbrev login_name : Bytes → Bytes → Bytes
login_name [] fallback = fallback
login_name (b ∷ name) fallback = b ∷ name

-- What is digested: the login name, and the fields `_IDENTITY_FIELDS` in their order.
unfoldable pub identity_values : XRootDUrl → Config → List Value
identity_values u c =
    text (login_name u.username c.username)
    ∷ text c.username
    ∷ optional c.token
    ∷ optional c.token_file
    ∷ optional c.keytab
    ∷ optional c.proxy
    ∷ optional c.ca_path
    ∷ optional c.ca_file
    ∷ texts c.auth_order
    ∷ flag c.verify_tls
    ∷ flag c.require_tls
    ∷ []

-- Each further value behind a NUL.
unfoldable pub join_rest : (Value → Bytes) → List Value → Bytes
join_rest repr [] = []
join_rest repr (v ∷ vs) = 0 ∷ repr v ++ join_rest repr vs

unfoldable pub digested : (Value → Bytes) → List Value → Bytes
digested repr [] = []
digested repr (v ∷ vs) = repr v ++ join_rest repr vs

-- `_identity`
unfoldable pub identity : (Value → Bytes) → (Bytes → Bytes) → XRootDUrl → Config → Bytes
identity repr sha256 u c = sha256 (digested repr (identity_values u c))

-- `_key`
unfoldable pub key_of : (Value → Bytes) → (Bytes → Bytes) → XRootDUrl → Config → Key
key_of repr sha256 u c = record {
  scheme = if use_tls u || c.require_tls then codes "roots" else codes "root";
  host = u.host;
  port = u.port;
  identity = identity repr sha256 u c;
}

-- What is used of `repr`: the text of a value has no NUL in it, and tells the value.
pub record IsRepr (repr : Value → Bytes) : Type 0 where
  pub no_nul : (v : Value) → All (λ (b : ℕ). b ≢ 0) (repr v)
  pub tells : (v w : Value) → repr v ≡ repr w → v ≡ w

-- Empty, or with a NUL in front.
abbrev Stops : Bytes → Type 0
Stops [] = Unit
Stops (b ∷ bs) = b ≡ 0

split_nul :
    (before bs xs ys : Bytes)
    → All (λ (b : ℕ). b ≢ 0) before
    → All (λ (b : ℕ). b ≢ 0) bs
    → Stops xs
    → Stops ys
    → before ++ xs ≡ bs ++ ys
    → (before ≡ bs) × (xs ≡ ys)
split_nul [] [] xs ys h k p q e = (refl, e)
split_nul [] (b ∷ bs) [] ys h k p q e = cc
split_nul [] (b ∷ bs) (x ∷ xs) ys h (k, ks) p q e = elim (k (cc)) [ ]
split_nul (a ∷ front) [] xs [] h k p q e = cc
split_nul (a ∷ front) [] xs (y ∷ ys) (h, hs) k p q e = elim (h (cc)) [ ]
split_nul (a ∷ front) (b ∷ bs) xs ys (h, hs) (k, ks) p q e =
    let r = split_nul front bs xs ys hs ks p q (cc) in (cc, r.1)

module _ (repr : Value → Bytes) (is_repr : IsRepr repr) where
  join_rest-Stops : (vs : List Value) → Stops (join_rest repr vs)
  unfolding join_rest
  join_rest-Stops [] = tt
  join_rest-Stops (v ∷ vs) = refl

  join_rest-injective : (vs ws : List Value) → join_rest repr vs ≡ join_rest repr ws → vs ≡ ws
  unfolding join_rest
  join_rest-injective [] [] e = refl
  join_rest-injective [] (w ∷ ws) e = cc
  join_rest-injective (v ∷ vs) [] e = cc
  join_rest-injective (v ∷ vs) (w ∷ ws) e =
      let r =
        split_nul (repr v) (repr w) (join_rest repr vs) (join_rest repr ws) (is_repr.no_nul v)
          (is_repr.no_nul w) (join_rest-Stops vs) (join_rest-Stops ws) (cc) in
      let hv = is_repr.tells v w r.0 in let hvs = join_rest-injective vs ws r.1 in cc

  pub digested-injective :
      (v w : Value) (vs ws : List Value)
      → digested repr (v ∷ vs) ≡ digested repr (w ∷ ws)
      → v ∷ vs ≡ w ∷ ws
  unfolding digested join_rest
  digested-injective v w vs ws e = join_rest-injective (v ∷ vs) (w ∷ ws) (ap (◌∷◌ 0) e)

  -- Equal keys are of equal credentials, if the digest does not take the two texts to one.
  pub key_of-credentials :
      (sha256 : Bytes → Bytes) (u u' : XRootDUrl) (c c' : Config)
      → (sha256 (digested repr (identity_values u c))
            ≡ sha256 (digested repr (identity_values u' c'))
          → digested repr (identity_values u c) ≡ digested repr (identity_values u' c'))
      → key_of repr sha256 u c ≡ key_of repr sha256 u' c'
      → identity_values u c ≡ identity_values u' c'
  unfolding key_of identity identity_values
  key_of-credentials sha256 u u' c c' free e =
      digested-injective _ _ _ _ (free (ap (λ (k : Key). k.identity) e))

optional-injective : (o p : Option Bytes) → optional o ≡ optional p → o ≡ p
optional-injective none none e = refl
optional-injective none (some b) e = cc
optional-injective (some b) none e = cc
optional-injective (some b) (some d) e = cc

-- The same name to log in with, and the same settings that decide who the server takes one for.
pub record SameCredentials (u u' : XRootDUrl) (c c' : Config) : Type 0 where
  pub login : login_name u.username c.username ≡ login_name u'.username c'.username
  pub username : c.username ≡ c'.username
  pub token : c.token ≡ c'.token
  pub token_file : c.token_file ≡ c'.token_file
  pub keytab : c.keytab ≡ c'.keytab
  pub proxy : c.proxy ≡ c'.proxy
  pub ca_path : c.ca_path ≡ c'.ca_path
  pub ca_file : c.ca_file ≡ c'.ca_file
  pub auth_order : c.auth_order ≡ c'.auth_order
  pub verify_tls : c.verify_tls ≡ c'.verify_tls
  pub require_tls : c.require_tls ≡ c'.require_tls

pub identity_values-SameCredentials :
    (u u' : XRootDUrl) (c c' : Config)
    → identity_values u c ≡ identity_values u' c'
    → SameCredentials u u' c c'
unfolding identity_values
identity_values-SameCredentials u u' c c' e = record {
  login = cc;
  username = cc;
  token = optional-injective c.token c'.token (cc);
  token_file = optional-injective c.token_file c'.token_file (cc);
  keytab = optional-injective c.keytab c'.keytab (cc);
  proxy = optional-injective c.proxy c'.proxy (cc);
  ca_path = optional-injective c.ca_path c'.ca_path (cc);
  ca_file = optional-injective c.ca_file c'.ca_file (cc);
  auth_order = cc;
  verify_tls = cc;
  require_tls = cc;
}
