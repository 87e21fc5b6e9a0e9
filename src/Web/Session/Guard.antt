-- ===== src/Web/Session/Guard.antt =====
-- Which requests `requireAuth` lets through.
use mrdns.Prelude.{ℕ, true, some, ◌≡◌, ◌↔◌, sym, ap, ◌∙◌, arith, eq_iff, Option-cases, inl, inr}
use mrdns.Web.Session.{
  Session, Codec, HttpRequest, served, current_session, require_auth, guarded, is_mutating,
  token_of,
}

pub the_session : (s t : Session) → some s ≡ some t → s ≡ t
the_session s t h = cc h

module _ (c : Codec) where
  -- A request reaches the handler exactly when it carries a valid session that is logged in and, if
  -- its method changes state, the session's CSRF token.
  pub require_auth-served_iff :
      (now : ℕ) (r : HttpRequest)
      → (require_auth c now r ≡ served) ↔ (
          (s : Session) × (current_session c now r ≡ some s)
          × (s.authed ≡ true)
          × (is_mutating r.method ≡ true → token_of c r ≡ s.csrf))
  unfolding require_auth guarded
  require_auth-served_iff now r = elim (Option-cases (current_session c now r)) [
    | inl e ↦ (λ h. absurd (ground (arith, e)), λ (s, k, a, m). absurd (ground (arith, e, k)))
    | inr (s, e) ↦ (
      λ h. (s, e, ground (arith, e), λ m. ground (arith, e, eq_iff (token_of c r) s.csrf)),
      λ (t, k, a, m).
          let same = the_session s t (sym e ∙ k) in
          ground (arith, e, a, ap (λ x. x.authed) same, m, eq_iff (token_of c r) s.csrf),
    )
  ]
