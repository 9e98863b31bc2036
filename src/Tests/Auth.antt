-- ===== src/Tests/Auth.antt =====
-- The guard of src/common/guards/api-key.guard.ts at work.
use ecf_api.Prelude.{◌≡◌, refl, true, [], ◌∷◌, none, some}
use ecf_api.Prelude.Text.{Text, codes, text_eq}
use ecf_api.Prelude.Results.{ok, err}
use ecf_api.Auth.{
  Scope, full_access, admin, admin_required, ApiKey, Headers, Caller, Directory, split,
  bearer_token, token_of, check_key, validate_key_parts, validate_token, check_scopes, authenticate,
}
use ecf_api.Auth.Granted.{IsKnown, IsGranted, authenticate-IsGranted}

abbrev key : ApiKey
key = record {
  tenant_id = 7;
  key_prefix = codes "frd_live_abcdefgh";
  key_hash = codes "frd_live_abcdefgh1";
  is_active = true;
  expires_at = some 100;
  scopes = full_access ∷ [];
  tenant_is_active = true;
}

abbrev directory : Directory
directory = record {
  verify_jwt = λ _. none;
  compare_hash = λ s t. text_eq s t;
  tenants = λ _. none;
  api_keys = key ∷ [];
}

abbrev headers : Headers
headers = record { authorization = some (codes "Bearer frd_live_abcdefgh1"); api_key = none }

abbrev caller : Caller
caller = record { tenant_id = 7; is_live = true; scopes = full_access ∷ [] }

passes : authenticate directory 50 (Scope.other 1 ∷ []) headers ≡ ok caller
unfolding authenticate token_of split bearer_token validate_token validate_key_parts check_key
    check_scopes
passes = refl

-- Full access is not enough where `admin` is asked for.
stops : authenticate directory 50 (admin ∷ []) headers ≡ err admin_required
unfolding authenticate token_of split bearer_token validate_token validate_key_parts check_key
    check_scopes
stops = refl

authenticate-IsGranted_example :
    (token : Text) × (token_of headers ≡ ok token)
    × IsKnown directory 50 token caller
    × IsGranted caller.scopes (Scope.other 1 ∷ [])
authenticate-IsGranted_example =
    authenticate-IsGranted directory 50 (Scope.other 1 ∷ []) headers caller passes
