-- ===== src/Auth/Granted.antt =====
-- Who gets through the guard.
use ecf_api.Prelude.{
  ◌≡◌, sym, ap, ◌∙◌, ◌⊎◌, inl, inr, Bool, true, false, List, [], ◌∷◌, ◌++◌, some, arith, length,
  take, ◌==◌, Bool-cases, Option-cases,
}
use mathlib.Core.Path.{subst}
use ecf_api.Prelude.Text.{Text, codes, text_eq}
use ecf_api.Prelude.Results.{ok, and_then-ok}
use ecf_api.Prelude.Rows.{Has, find_first}
use ecf_api.Prelude.Rows.Laws.{find_first-some}
use ecf_api.Types.{Time}
use ecf_api.Sequences.Assign.{is_expired}
use ecf_api.Auth.{
  Scope, full_access, admin, has_scope, has_scopes, ApiKey, TenantKeys, Headers, Caller, Directory,
  split, token_of, validate_jwt, is_key, check_key, validate_key_parts, validate_token,
  check_scopes, authenticate,
}

-- The scopes of a caller are enough: `admin` is asked for and is there, or it is not asked for, and the
-- caller has full access or every scope that is asked for.
abbrev pub IsGranted : List Scope → List Scope → Type 0
IsGranted granted required =
    ((has_scope admin required ≡ true) × (has_scope admin granted ≡ true))
    ⊎ ((has_scope admin required ≡ false)
        × ((has_scope full_access granted ≡ true) ⊎ (has_scopes granted required ≡ true)))

-- The caller is an active tenant whose JWT is good, or has the scopes of an active key of an active tenant
-- that is not expired and whose hash fits the token.
abbrev pub IsKnown : Directory → Time → Text → Caller → Type 0
IsKnown d now token caller =
    ((t : TenantKeys) × (d.verify_jwt token ≡ some caller.tenant_id)
      × (d.tenants caller.tenant_id ≡ some t)
      × (t.is_active ≡ true))
    ⊎ ((k : ApiKey) × Has k d.api_keys
        × (k.is_active ≡ true)
        × (d.compare_hash token k.key_hash ≡ true)
        × (is_expired now k.expires_at ≡ false)
        × (k.tenant_is_active ≡ true)
        × (caller.tenant_id ≡ k.tenant_id)
        × (caller.scopes ≡ k.scopes))

check_scopes-IsGranted :
    (granted required : List Scope)
    → check_scopes granted required ≡ ok tt
    → IsGranted granted required
unfolding check_scopes
check_scopes-IsGranted granted required h = ground arith

jwt-IsKnown :
    (d : Directory) (now : Time) (token : Text) (caller : Caller)
    → validate_jwt d token ≡ ok caller
    → IsKnown d now token caller
unfolding validate_jwt
jwt-IsKnown d now token caller h = elim (Option-cases (d.verify_jwt token)) [
  | inl bad ↦ absurd (ground arith)
  | inr (sub, good) ↦ elim (Option-cases (d.tenants sub)) [
    | inl missing ↦ absurd (ground arith)
    | inr (t, there) ↦
        let live : t.is_active ≡ true = ground arith in
        let same : sub ≡ caller.tenant_id = ground arith in
        inl (t, good ∙ ap some same, ap d.tenants (sym same) ∙ there, live)
  ]
]

checked_key :
    (d : Directory) (now : Time) (token : Text) (is_live : Bool) (k : ApiKey) (caller : Caller)
    → check_key d now token is_live k ≡ ok caller
    → (d.compare_hash token k.key_hash ≡ true)
      × (is_expired now k.expires_at ≡ false)
      × (k.tenant_is_active ≡ true)
      × (caller.tenant_id ≡ k.tenant_id)
      × (caller.scopes ≡ k.scopes)
unfolding check_key
checked_key d now token is_live k caller h = ground arith

key-IsKnown :
    (d : Directory) (now : Time) (token : Text) (parts : List Text) (caller : Caller)
    → validate_key_parts d now token parts ≡ ok caller
    → IsKnown d now token caller
unfolding validate_key_parts
key-IsKnown d now token [] caller h = absurd (cc)
key-IsKnown d now token (a ∷ []) caller h = absurd (cc)
key-IsKnown d now token (a ∷ b ∷ []) caller h = absurd (cc)
key-IsKnown d now token (a ∷ b ∷ c ∷ rest) caller h =
    let prefix = a ++ b'_' ∷ b ++ b'_' ∷ take 8 c in
    elim (Option-cases (find_first (is_key prefix) d.api_keys)) [
      | inl missing ↦ absurd (ground arith)
      | inr (k, found) ↦
          let (fits, there) = find_first-some (is_key prefix) d.api_keys found in
          let passed : check_key d now token (text_eq b (codes "live")) k ≡ ok caller =
            ground arith in
          let (own, fresh, live, tenant, scopes) =
            checked_key d now token (text_eq b (codes "live")) k caller passed in
          inr (k, there, ground (arith, fits), own, fresh, live, tenant, scopes)
    ]

token-IsKnown :
    (d : Directory) (now : Time) (token : Text) (caller : Caller)
    → validate_token d now token ≡ ok caller
    → IsKnown d now token caller
unfolding validate_token
token-IsKnown d now token caller h = elim (Bool-cases (length (split b'.' token) == 3)) [
  | inl three ↦ jwt-IsKnown d now token caller (ground arith)
  | inr other ↦ key-IsKnown d now token (split b'_' token) caller (ground arith)
]

-- A request that the guard lets through has a token of a caller that is known, active and not expired, and
-- whose scopes are enough: full access does not give `admin`.
pub authenticate-IsGranted :
    (d : Directory) (now : Time) (required : List Scope) (h : Headers) (caller : Caller)
    → authenticate d now required h ≡ ok caller
    → (token : Text) × (token_of h ≡ ok token)
      × IsKnown d now token caller
      × IsGranted caller.scopes required
unfolding authenticate
authenticate-IsGranted d now required h caller passed =
    let (token, sent, h1) = and_then-ok (token_of h) _ caller passed in
    let (found, known, h2) = and_then-ok (validate_token d now token) _ caller h1 in
    let (_, enough, same) = and_then-ok (check_scopes found.scopes required) _ caller h2 in
    let e : found ≡ caller = cc same in
    (
      token,
      sent,
      token-IsKnown d now token caller (known ∙ ap ok e),
      subst (λ c. IsGranted c.scopes required) e
          (check_scopes-IsGranted found.scopes required enough),
    )
