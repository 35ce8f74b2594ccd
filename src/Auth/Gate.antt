-- ===== src/Auth/Gate.antt =====
-- What the gate of internal/worker/middleware.go lets through.
use claude_mnemonic_plus.Prelude.{
  dec_str, All, ℕ, ◌≤◌, ◌≡◌, ◌≢◌, refl, sym, ap, ◌∙◌, String, true, false, Option, none, some, List,
  [], ◌∷◌, length, length-append, ◌⊎◌, inl, inr, Bool-cases, Option-cases, arith, ◌↔◌,
}
use claude_mnemonic_plus.Auth.{
  Identity, same, source_client, role_read_only, is_session_admin, AuthError, empty_token,
  invalid_credentials, revoked, store_lookup, unexpected_scope, bcrypt_error, Validator, is_blank,
  validate,
}
use claude_mnemonic_plus.Auth.Validate.{is_session_admin-validate}
use claude_mnemonic_plus.Auth.Requests.{HttpRequest, CookieCodec, TokenAuth, holds_text}
use claude_mnemonic_plus.Auth.Middleware.{
  passed, read_only_allowed_posts, is_mutating_method, extract_http_bearer, is_open, reject,
  stats_capacity, count_use, is_read_only_violation, bearer_gate, answer, cookie_gate, middleware,
}

Result-cases :
    (x : AuthError ⊎ Identity) → ((e : AuthError) × (x ≡ inl e)) ⊎ ((i : Identity) × (x ≡ inr i))
Result-cases (inl e) = inl (e, refl)
Result-cases (inr i) = inr (i, refl)

reject-passed : (e : AuthError) (o : Option Identity) → reject e ≢ passed o
unfolding reject
reject-passed empty_token o = λ h. absurd cc
reject-passed invalid_credentials o = λ h. absurd cc
reject-passed revoked o = λ h. absurd cc
reject-passed (store_lookup m) o = λ h. absurd cc
reject-passed (unexpected_scope i s) o = λ h. absurd cc
reject-passed (bcrypt_error m) o = λ h. absurd cc

-- A request that came through by its token.
record ByToken (ta : TokenAuth) (r : HttpRequest) (o : Option Identity) : Type 0 where
  by_validator : Validator
  wired : ta.validator ≡ some by_validator
  who : Identity
  granted : o ≡ some who
  accepted : (validate by_validator (extract_http_bearer r)).0 ≡ inr who
  allowed : is_read_only_violation r who ≡ false

bearer_gate-passed :
    (ta : TokenAuth) (r : HttpRequest) (o : Option Identity)
    → (bearer_gate ta r).0 ≡ passed o
    → ByToken ta r o
unfolding bearer_gate
bearer_gate-passed ta r o h = elim (Option-cases ta.validator) [
  | inl e ↦ absurd (ground arith)
  | inr (v, e) ↦ elim (Result-cases (validate v (extract_http_bearer r)).0) [
    | inl (x, c) ↦ let b : reject x ≡ passed o = ground arith in absurd (reject-passed x o b)
    | inr (i, c) ↦ elim (Bool-cases (is_read_only_violation r i)) [
      | inl w ↦ absurd (ground arith)
      | inr nw ↦ record {
        by_validator = v;
        wired = e;
        who = i;
        granted = ground arith;
        accepted = c;
        allowed = nw;
      }
    ]
  ]
]

is_blank_ne : (xs : List ℕ) → xs ≢ [] → is_blank xs ≡ false
unfolding is_blank
is_blank_ne [] ne = absurd (ne refl)
is_blank_ne (x ∷ xs) ne = refl

same_self : (s t : String) → s ≡ t → same s t ≡ true
same_self s t e = ground arith

answer-none : (o : Option Identity) → answer o ≢ passed none
answer-none none = λ h. absurd cc
answer-none (some i) = λ h. absurd cc

count_use-le :
    (i : Identity) (w : List String)
    → length w ≤ stats_capacity
    → length (count_use i w) ≤ stats_capacity
unfolding count_use
count_use-le i w h = ground (arith, length-append w (i.keycard_id ∷ []))

bearer_gate-le :
    (ta : TokenAuth) (r : HttpRequest)
    → length ta.waiting ≤ stats_capacity
    → length (bearer_gate ta r).1.waiting ≤ stats_capacity
unfolding bearer_gate
bearer_gate-le ta r h = elim (Option-cases ta.validator) [
  | inl e ↦ ground arith
  | inr (v, e) ↦ elim (Result-cases (validate v (extract_http_bearer r)).0) [
    | inl (x, c) ↦ ground arith
    | inr (i, c) ↦ ground (arith, count_use-le i ta.waiting h)
  ]
]

is_mutating_method-ne :
    (method : String)
    → is_mutating_method method ≡ false
    → All (λ m. method ≢ m) ("POST" ∷ "PUT" ∷ "DELETE" ∷ "PATCH" ∷ [])
unfolding is_mutating_method dec_str Bool-cases
is_mutating_method-ne method h =
    let differs : (m : String) → is_mutating_method m ≡ true → method ≢ m = λ m t e.
      let g : is_mutating_method method ≡ true = ap is_mutating_method e ∙ t in
      let f : false ≡ true = sym h ∙ g in absurd cc in
    (differs "POST" refl, (differs "PUT" refl, (differs "DELETE" refl, (differs "PATCH" refl, tt))))

module _ (c : CookieCodec) (now : ℕ) (ta : TokenAuth) (r : HttpRequest) where
  middleware-token :
      is_open ta r ≡ false → extract_http_bearer r ≢ [] → middleware c now ta r ≡ bearer_gate ta r
  unfolding middleware
  middleware-token closed bearer =
      let full = is_blank_ne (extract_http_bearer r) bearer in ground arith

  token-passed :
      (o : Option Identity)
      → is_open ta r ≡ false
      → extract_http_bearer r ≢ []
      → (middleware c now ta r).0 ≡ passed o
      → ByToken ta r o
  token-passed o closed bearer h =
      bearer_gate-passed ta r o (ap (λ x. x.0) (sym (middleware-token closed bearer)) ∙ h)

  -- If a request with a token comes through to a path that needs authentication, its identity is
  -- not that of a browser session of an administrator, so it cannot issue or revoke keycards.
  pub is_session_admin-middleware :
      (i : Identity)
      → is_open ta r ≡ false
      → extract_http_bearer r ≢ []
      → (middleware c now ta r).0 ≡ passed (some i)
      → is_session_admin i ≡ false
  is_session_admin-middleware i closed bearer h =
      let t = token-passed (some i) closed bearer h in
      let e : t.who ≡ i = cc (t.granted) in
      ap is_session_admin (sym e)
      ∙ is_session_admin-validate t.by_validator (extract_http_bearer r) t.who t.accepted

  -- If a request with a token of a read-only keycard comes through to a path that needs
  -- authentication, its method is none of POST, PUT, DELETE and PATCH, or its path is one of the
  -- four that read-only keycards may post to.
  pub read_only-middleware :
      (i : Identity)
      → is_open ta r ≡ false
      → extract_http_bearer r ≢ []
      → (middleware c now ta r).0 ≡ passed (some i)
      → i.source ≡ source_client
      → i.role ≡ role_read_only
      → All (λ m. r.http_method ≢ m) ("POST" ∷ "PUT" ∷ "DELETE" ∷ "PATCH" ∷ [])
        ⊎ (holds_text r.path read_only_allowed_posts ≡ true)
  unfolding is_read_only_violation
  read_only-middleware i closed bearer h client ro =
      let t = token-passed (some i) closed bearer h in
      let e : t.who ≡ i = cc (t.granted) in
      let v : is_read_only_violation r i ≡ false =
        ap (is_read_only_violation r) (sym e) ∙ t.allowed in
      let a = same_self i.source source_client client in
      let b = same_self i.role role_read_only ro in
      elim (Bool-cases (is_mutating_method r.http_method)) [
        | inr n ↦ inl (is_mutating_method-ne r.http_method n)
        | inl m ↦ elim (Bool-cases (holds_text r.path read_only_allowed_posts)) [
          | inl y ↦ inr y
          | inr n ↦ absurd (ground arith)
        ]
      ]

  -- A request comes through without an identity exactly if authentication is disabled or its path
  -- needs none.
  pub is_open-middleware : (middleware c now ta r).0 ≡ passed none ↔ is_open ta r ≡ true
  unfolding middleware cookie_gate
  is_open-middleware = (
    λ h. elim (Bool-cases (is_open ta r)) [
      | inl o ↦ o
      | inr closed ↦ elim (Bool-cases (is_blank (extract_http_bearer r))) [
        | inl no_token ↦
            let e : (middleware c now ta r).0 ≡ cookie_gate c now ta r = ground arith in
            absurd (answer-none _ (sym e ∙ h))
        | inr token ↦
            let e : (middleware c now ta r).0 ≡ (bearer_gate ta r).0 = ground arith in
            let t = bearer_gate-passed ta r none (sym e ∙ h) in let g = t.granted in absurd cc
      ]
    ],
    λ o. ground arith,
  )

  -- A full channel of keycard uses stays full, so no request grows it beyond 256 entries.
  pub waiting-middleware :
      length ta.waiting ≤ stats_capacity → length (middleware c now ta r).1.waiting ≤ stats_capacity
  unfolding middleware
  waiting-middleware h = ground (arith, bearer_gate-le ta r h)
