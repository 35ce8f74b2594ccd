-- ===== src/Auth/Validate.antt =====
-- Validate of internal/auth/validator.go: who becomes an administrator, when the store is asked,
-- and which keycard decides.
use claude_mnemonic_plus.Prelude.{
  ℕ, ◌≡◌, refl, sym, ap, ◌∙◌, String, true, false, List, [], ◌∷◌, dec_str, ◌⊎◌, inl, inr,
  Bool-cases, Option-cases, arith, bytes_eq, bytes_eq→eq, bytes_eq_refl, ◌↔◌, ◌&&◌,
}
use claude_mnemonic_plus.Auth.{
  Identity, admin, client, same, is_admin, is_session_admin, ApiToken, BcryptOutcome, matching,
  mismatched, bcrypt_failed, StoreOutcome, candidates, store_failed, Validator, identity_of,
  try_candidates, well_shaped, lookup_prefix, validate_keycard, is_blank, is_master, validate,
  role_read_write, role_read_only, role_admin, source_client, source_session,
}

pub same→eq : (a b : String) → same a b ≡ true → a ≡ b
same→eq a b h = elim (dec_str a b) [ yes e ↦ e | no ne ↦ ground arith ]

Bcrypt-cases :
    (o : BcryptOutcome)
    → (o ≡ matching) ⊎ ((o ≡ mismatched) ⊎ ((m : String) × (o ≡ bcrypt_failed m)))
Bcrypt-cases matching = inl refl
Bcrypt-cases mismatched = inr (inl refl)
Bcrypt-cases (bcrypt_failed m) = inr (inr (m, refl))

Store-cases :
    (o : StoreOutcome)
    → ((ts : List ApiToken) × (o ≡ candidates ts)) ⊎ ((m : String) × (o ≡ store_failed m))
Store-cases (candidates ts) = inl (ts, refl)
Store-cases (store_failed m) = inr (m, refl)

-- A scope that a keycard may have is not the administrator's role.
scope_not_admin :
    (s : String)
    → same s role_read_write ≡ true ⊎ same s role_read_only ≡ true
    → same s role_admin ≡ false
unfolding dec_str Bool-cases
scope_not_admin s (inl h) = ap (λ x. same x role_admin) (same→eq s role_read_write h)
scope_not_admin s (inr h) = ap (λ x. same x role_admin) (same→eq s role_read_only h)

identity_of-client :
    (t : ApiToken) (i : Identity)
    → identity_of t ≡ inr i
    → (same i.role role_admin ≡ false) × (i.source ≡ source_client)
unfolding identity_of
identity_of-client t i h = elim (Bool-cases (same t.scope role_read_write)) [
  | inl w ↦
      let n = scope_not_admin t.scope (inl w) in
      let e : client t.scope t.id ≡ i = ground arith in
      (ap (λ x. same x.role role_admin) (sym e) ∙ n, ap (λ x. x.source) (sym e))
  | inr nw ↦ elim (Bool-cases (same t.scope role_read_only)) [
    | inl r ↦
        let n = scope_not_admin t.scope (inr r) in
        let e : client t.scope t.id ≡ i = ground arith in
        (ap (λ x. same x.role role_admin) (sym e) ∙ n, ap (λ x. x.source) (sym e))
    | inr nr ↦ absurd (ground arith)
  ]
]

try_candidates-client :
    (bcrypt : String → List ℕ → BcryptOutcome) (raw : List ℕ) (ts : List ApiToken) (i : Identity)
    → (try_candidates bcrypt raw ts).0 ≡ inr i
    → (same i.role role_admin ≡ false) × (i.source ≡ source_client)
unfolding try_candidates
try_candidates-client bcrypt raw [] i h = absurd cc
try_candidates-client bcrypt raw (t ∷ ts) i h = elim (Bcrypt-cases (bcrypt t.token_hash raw)) [
  | inl e ↦ identity_of-client t i (ground arith)
  | inr (inl e) ↦ try_candidates-client bcrypt raw ts i (ground arith)
  | inr (inr (m, e)) ↦ absurd (ground arith)
]

validate_keycard-client :
    (v : Validator) (raw : List ℕ) (i : Identity)
    → (validate_keycard v raw).0 ≡ inr i
    → (same i.role role_admin ≡ false) × (i.source ≡ source_client)
unfolding validate_keycard
validate_keycard-client v raw i h = elim (Option-cases v.store) [
  | inl e ↦ absurd (ground arith)
  | inr (f, e) ↦ elim (Store-cases (f (lookup_prefix raw))) [
    | inl (ts, c) ↦ try_candidates-client v.bcrypt raw ts i (ground arith)
    | inr (m, c) ↦ absurd (ground arith)
  ]
]

-- What is known of an accepted token, by the test of the master token.
validate-cases :
    (v : Validator) (raw : List ℕ) (i : Identity)
    → (validate v raw).0 ≡ inr i
    → ((is_master v raw ≡ true) × (i ≡ admin))
      ⊎ ((is_master v raw ≡ false) × (same i.role role_admin ≡ false) × (i.source ≡ source_client))
unfolding validate
validate-cases v raw i h = elim (Bool-cases (is_blank raw)) [
  | inl e ↦ absurd (ground arith)
  | inr ne ↦ elim (Bool-cases (is_master v raw)) [
    | inl m ↦ inl (m, ground arith)
    | inr nm ↦ elim (Bool-cases (well_shaped raw)) [
      | inl w ↦ let (a, b) = validate_keycard-client v raw i (ground arith) in inr (nm, a, b)
      | inr nw ↦ absurd (ground arith)
    ]
  ]
]

pub is_master-eq : (v : Validator) (raw : List ℕ) → is_master v raw ≡ true → raw ≡ v.master_token
unfolding is_master
is_master-eq v raw m = bytes_eq→eq raw v.master_token (ground arith)

pub eq-is_master :
    (v : Validator) (raw : List ℕ)
    → is_blank raw ≡ false
    → raw ≡ v.master_token
    → is_master v raw ≡ true
unfolding is_master
eq-is_master v raw ne e =
    let f : is_blank v.master_token ≡ false = ap is_blank (sym e) ∙ ne in
    let g : bytes_eq raw v.master_token ≡ true = ap (bytes_eq raw) (sym e) ∙ bytes_eq_refl raw in
    ground arith

validate-is_blank :
    (v : Validator) (raw : List ℕ) (i : Identity)
    → (validate v raw).0 ≡ inr i
    → is_blank raw ≡ false
unfolding validate
validate-is_blank v raw i h = elim (Bool-cases (is_blank raw)) [
  | inl e ↦ absurd (ground arith)
  | inr ne ↦ ne
]

-- A token that Validate accepts has the role of an administrator exactly if it is the master
-- token; a keycard never has it, whatever scope its row has in the store.
pub is_admin-validate :
    (v : Validator) (raw : List ℕ) (i : Identity)
    → (validate v raw).0 ≡ inr i
    → is_admin i ≡ true ↔ raw ≡ v.master_token
unfolding is_admin dec_str Bool-cases
is_admin-validate v raw i h = elim (validate-cases v raw i h) [
  | inl (m, e) ↦ (λ _. is_master-eq v raw m, λ _. ap (λ x. same x.role role_admin) e)
  | inr (nm, n, c) ↦
      (λ a. absurd cc, λ e. let m = eq-is_master v raw (validate-is_blank v raw i h) e in absurd cc)
]

-- No token, neither the master token nor a keycard, passes the gate of the endpoints that issue and
-- revoke keycards, which want an administrator's browser session.
pub is_session_admin-validate :
    (v : Validator) (raw : List ℕ) (i : Identity)
    → (validate v raw).0 ≡ inr i
    → is_session_admin i ≡ false
unfolding is_session_admin dec_str Bool-cases
is_session_admin-validate v raw i h = elim (validate-cases v raw i h) [
  | inl (m, e) ↦ ap (λ x. same x.role role_admin && same x.source source_session) e
  | inr (nm, n, c) ↦ ap (λ x. x && same i.source source_session) n
]
