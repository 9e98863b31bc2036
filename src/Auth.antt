-- ===== src/Auth.antt =====
-- The guard of the requests: src/common/guards/api-key.guard.ts.
pub mod Granted
use ecf_api.Prelude.{
  ℕ, ◌+◌, ◌≡◌, Bool, true, false, ◌&&◌, ◌||◌, not, List, [], ◌∷◌, ◌++◌, Option, none, some, ltb,
  leb, ◌==◌, length, take, if◌then◌else◌,
}
use ecf_api.Prelude.Text.{Text, codes, text_eq}
use ecf_api.Prelude.Results.{Result, ok, err, and_then}
use ecf_api.Prelude.Rows.{find_first}
use ecf_api.Types.{Uuid, Time}
use ecf_api.Sequences.Assign.{is_expired}

-- `ApiKeyScope`; `other` stands for the scopes that the guard does not name, by their place in the schema.
pub data Scope : Type 0 where
  full_access admin : Scope
  other : ℕ → Scope

abbrev pub scope_eq : Scope → Scope → Bool
scope_eq full_access full_access = true
scope_eq admin admin = true
scope_eq (other a) (other b) = a == b
scope_eq _ _ = false

-- `scopes.includes(scope)`
abbrev pub has_scope : Scope → List Scope → Bool
has_scope s [] = false
has_scope s (t ∷ scopes) = scope_eq s t || has_scope s scopes

-- `requiredScopes.filter((s) => !grantedScopes.includes(s))` is empty.
abbrev pub has_scopes : List Scope → List Scope → Bool
has_scopes granted [] = true
has_scopes granted (s ∷ required) = has_scope s granted && has_scopes granted required

-- The columns of `model ApiKey` and of its tenant.
pub record ApiKey : Type 0 where
  pub tenant_id : Uuid
  pub key_prefix : Text
  pub key_hash : Text
  pub is_active : Bool
  pub expires_at : Option Time
  pub scopes : List Scope
  pub tenant_is_active : Bool

-- A tenant with the scopes of its active keys.
pub record TenantKeys : Type 0 where
  pub is_active : Bool
  pub scopes : List (List Scope)

pub record Headers : Type 0 where
  pub authorization : Option Text
  pub api_key : Option Text

-- What the guard leaves in the request.
pub record Caller : Type 0 where
  pub tenant_id : Uuid
  pub is_live : Bool
  pub scopes : List Scope

pub data AuthError : Type 0 where
  bad_authorization missing_credentials jwt_invalid account_inactive bad_key_format key_invalid :
      AuthError
  key_expired tenant_inactive admin_required scopes_missing : AuthError

-- The tables, with what the code takes from libraries: the check of a JWT, which gives its subject, and the
-- comparison of a key with a hash.
pub record Directory : Type 0 where
  pub verify_jwt : Text → Option Uuid
  pub compare_hash : Text → Text → Bool
  pub tenants : Uuid → Option TenantKeys
  pub api_keys : List ApiKey

abbrev pub before_first : ℕ → List Text → List Text
before_first c [] = (c ∷ []) ∷ []
before_first c (part ∷ parts) = (c ∷ part) ∷ parts

-- `s.split(separator)`
unfoldable pub split : ℕ → Text → List Text
split separator [] = [] ∷ []
split separator (c ∷ s) =
    let rest = split separator s in if c == separator then [] ∷ rest else before_first c rest

abbrev pub to_lower : Text → Text
to_lower [] = []
to_lower (c ∷ s) = (if leb 65 c && leb c 90 then c + 32 else c) ∷ to_lower s

unfoldable pub bearer_token : List Text → Result AuthError Text
bearer_token (scheme ∷ (c ∷ token) ∷ _) =
    if text_eq (to_lower scheme) (codes "bearer") then ok (c ∷ token) else err bad_authorization
bearer_token _ = err bad_authorization

unfoldable pub key_token : Option Text → Result AuthError Text
key_token (some (c ∷ s)) = ok (c ∷ s)
key_token _ = err missing_credentials

-- The token of a request.
unfoldable pub token_of : Headers → Result AuthError Text
token_of h = elim h.authorization [
  | some [] ↦ key_token h.api_key
  | some (c ∷ s) ↦ bearer_token (split b' ' (c ∷ s))
  | none ↦ key_token h.api_key
]

unfoldable pub concat_scopes : List (List Scope) → List Scope
concat_scopes [] = []
concat_scopes (s ∷ rest) = s ++ concat_scopes rest

-- `validateJwt`; the scopes are a set, of which only membership is asked.
unfoldable pub validate_jwt : Directory → Text → Result AuthError Caller
validate_jwt d token = elim (d.verify_jwt token) [
  | none ↦ err jwt_invalid
  | some sub ↦ elim (d.tenants sub) [
    | none ↦ err account_inactive
    | some t ↦
        if t.is_active
        then ok (record {
          tenant_id = sub;
          is_live = false;
          scopes = full_access ∷ concat_scopes t.scopes;
        })
        else err account_inactive
  ]
]

-- `where: { keyPrefix, isActive: true }`
abbrev pub is_key : Text → ApiKey → Bool
is_key prefix k = text_eq k.key_prefix prefix && k.is_active

unfoldable pub check_key : Directory → Time → Text → Bool → ApiKey → Result AuthError Caller
check_key d now api_key is_live k =
    if not (d.compare_hash api_key k.key_hash)
    then err key_invalid
    else if is_expired now k.expires_at
    then err key_expired
    else if not k.tenant_is_active
    then err tenant_inactive
    else ok (record { tenant_id = k.tenant_id; is_live = is_live; scopes = k.scopes })

-- `validateApiKey`
unfoldable pub validate_key_parts : Directory → Time → Text → List Text → Result AuthError Caller
validate_key_parts d now api_key (a ∷ b ∷ c ∷ _) =
    elim (find_first (is_key (a ++ b'_' ∷ b ++ b'_' ∷ take 8 c)) d.api_keys) [
      | none ↦ err key_invalid
      | some k ↦ check_key d now api_key (text_eq b (codes "live")) k
    ]
validate_key_parts d now api_key _ = err bad_key_format

unfoldable pub validate_token : Directory → Time → Text → Result AuthError Caller
validate_token d now token =
    if length (split b'.' token) == 3
    then validate_jwt d token
    else validate_key_parts d now token (split b'_' token)

-- `checkScopes`
unfoldable pub check_scopes : List Scope → List Scope → Result AuthError (Unit {0})
check_scopes granted required =
    if has_scope admin required
    then (if has_scope admin granted then ok tt else err admin_required)
    else if has_scope full_access granted
    then ok tt
    else if has_scopes granted required
    then ok tt
    else err scopes_missing

-- `canActivate`. An empty list of scopes asks for none.
unfoldable pub authenticate : Directory → Time → List Scope → Headers → Result AuthError Caller
authenticate d now required h = and_then (token_of h) (λ token.
    and_then (validate_token d now token)
      (λ caller. and_then (check_scopes caller.scopes required) (λ _. ok caller)))
