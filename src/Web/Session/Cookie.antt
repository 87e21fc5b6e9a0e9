-- ===== src/Web/Session/Cookie.antt =====
-- Session cookies: what is signed is read back, and nothing without its MAC is read.
use Prim.Native.String.{◌++◌}
use text.Mathlib.TextEquality.{Char-path}
use mrdns.Prelude.{
  ℕ, ◌<◌, String, Option, none, some, ◌≡◌, refl, sym, ap, ◌∙◌, arith, ◌==◌, eq_iff, eq_refl, ltb,
  Bool-cases, Option-cases, inl, inr,
}
use mrdns.Text.{cut}
use mrdns.Text.Trim.{Lacks, cut-some, cut-parts, char-append}
use mrdns.Web.Session.{
  Session, Codec, sealed, sign_session, parse_session, current, decoded, verified,
}

-- The documented behaviour of the codecs, on the texts of sessions.
pub record IsLawful (c : Codec) : Type 0 where
  pub json : (s : Session) (p : String) → c.marshal s ≡ some p → c.unmarshal p ≡ some s
  pub base64 : (s : Session) (p : String) → c.marshal s ≡ some p → c.decode (c.encode p) ≡ some p
  -- a dot is no letter of the alphabet
  pub no_dot : (s : Session) (p : String) → c.marshal s ≡ some p → Lacks b'.' (c.encode p)

until : Option Session → ℕ
until none = 0
until (some s) = s.expiry

module _ (c : Codec) where
  cookie_of :
      (s : Session) (p value : String)
      → c.marshal s ≡ some p
      → sign_session c s ≡ some value
      → value ≡ c.encode p ++ (String.◌∷◌ "." (c.mac (c.encode p)))
  unfolding sign_session
  cookie_of s p value e signed =
      cc (signed, ap (sealed c) e)
      ∙ ap (λ w. c.encode p ++ w) (char-append "." (c.mac (c.encode p)))

  dotted : (enc mac value : String) → cut b'.' value ≡ some (enc, mac) → value ≡ enc ++ ("." ++ mac)
  dotted enc mac value e =
      let (k, is_dot, whole) = cut-parts b'.' value enc mac e in
      whole
      ∙ ap (λ x. enc ++ String.◌∷◌ x mac) (Char-path k "." is_dot)
      ∙ ap (λ w. enc ++ w) (sym (char-append "." mac))

  -- A session that was signed, and has not expired, is what its cookie is parsed to.
  pub parse_session-sign_session :
      IsLawful c
      → (s : Session) (now : ℕ) (value : String) → sign_session c s ≡ some value
      → now < s.expiry
      → parse_session c now value ≡ some s
  unfolding sign_session parse_session verified decoded current
  parse_session-sign_session lawful s now value signed fresh = elim (Option-cases (c.marshal s)) [
    | inl e ↦ absurd (ground (arith, e))
    | inr (p, e) ↦
        let enc = c.encode p in
        let whole = cookie_of s p value e signed in
        rw (ap (cut b'.') whole ∙ cut-some b'.' enc (c.mac enc) "." (lawful.no_dot s p e) refl)
          (ground (arith, eq_refl (c.mac enc), lawful.base64 s p e, lawful.json s p e))
  ]

  current_sound :
      (now : ℕ) (o : Option Session) (s : Session)
      → current c now o ≡ some s
      → (o ≡ some s) × (now < s.expiry)
  unfolding current
  current_sound now none s h = cc
  current_sound now (some t) s h = elim (Bool-cases (ltb now t.expiry)) [
    | inl e ↦ let same = (rw e at h) in (same, ground (arith, e, ap (λ o. until o) same))
    | inr e ↦ absurd (ground (arith, e))
  ]

  decoded_sound :
      (now : ℕ) (o : Option String) (s : Session)
      → decoded c now o ≡ some s
      → (p : String) × (o ≡ some p) × (current c now (c.unmarshal p) ≡ some s)
  unfolding decoded
  decoded_sound now none s h = cc
  decoded_sound now (some p) s h = (p, refl, h)

  verified_sound :
      (now : ℕ) (o : Option (String × String)) (s : Session)
      → verified c now o ≡ some s
      → (enc mac : String) × (o ≡ some (enc, mac))
        × (mac ≡ c.mac enc)
        × (decoded c now (c.decode enc) ≡ some s)
  unfolding verified
  verified_sound now none s h = cc
  verified_sound now (some (enc, mac)) s h = elim (Bool-cases (mac == c.mac enc)) [
    | inl e ↦ (enc, mac, refl, (eq_iff mac (c.mac enc)).0 e, ground (arith, e))
    | inr e ↦ absurd (ground (arith, e))
  ]

  -- A cookie is parsed to a session only if it is a payload with a dot and the MAC of the payload,
  -- the payload decodes to that session, and the session has not expired.
  pub parse_session_sound :
      (now : ℕ) (value : String) (s : Session)
      → parse_session c now value ≡ some s
      → (enc p : String) × (value ≡ enc ++ ("." ++ c.mac enc))
        × (c.decode enc ≡ some p)
        × (c.unmarshal p ≡ some s)
        × (now < s.expiry)
  unfolding parse_session
  parse_session_sound now value s h =
      let (enc, mac, is_cut, is_mac, rest) = verified_sound now (cut b'.' value) s h in
      let (p, is_p, now_read) = decoded_sound now (c.decode enc) s rest in
      let (is_s, fresh) = current_sound now (c.unmarshal p) s now_read in
      (enc, p, dotted enc mac value is_cut ∙ ap (λ m. enc ++ ("." ++ m)) is_mac, is_p, is_s, fresh)
