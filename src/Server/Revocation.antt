-- ===== src/Server/Revocation.antt =====
-- A backchannel logout through the whole server (knox-proxy/main.go, knox-proxy/auth/backchannel.go).
use mathlib.Core.Path.{subst}
use knox_proxy.Base.{
  ◌∙◌, ap, sym, ◌≢◌, ◌↔◌, ◌↔◌, lookup, Str, arith, ◌⊎◌, ◌≡◌, ℕ, false, none, some, inr, inl,
}
use knox_proxy.Server.{
  backchannel_page, page_of, location_of, location_of, serve_backchannel, serve_page, route_page,
  serve, App, Chance, Site,
}
use knox_proxy.World.{World}
use knox_proxy.Http.{Response, Request}
use knox_proxy.Session.{SessionManager, UserSession}
use knox_proxy.Session.Invariant.{IsConsistent}
use knox_proxy.Session.Backchannel.{revokes, IsIndexed}
use knox_proxy.Logout.{backchannel_logout, LogoutTokenClaims}
use knox_proxy.Logout.Laws.{backchannel_logout_cases, Decides, IsLogout, Carries}

accepted_status : (status : ℕ) → (status ≡ 400) ⊎ (status ≡ 405) → status ≡ 200 → ⊥
accepted_status status k h = ground (arith, k, h)

module _ (site : Site) (w : World) (r : Request) (s : App w) (j : Str) (t : UserSession) where
  -- The token's claims, and the sessions that are left.
  abbrev pub Revokes : App w → Type 0
  Revokes s' =
      (claims : LogoutTokenClaims) × Carries site.backchannel r claims
      × IsLogout site.backchannel claims
      × ((lookup j s'.sessions.sessions ≡ some t)
          ↔ ((lookup j s.sessions.sessions ≡ some t) × (t.keycloak_sid ≢ claims.session_id)))

  backchannel-Revokes :
      (result : Response × SessionManager)
      → IsConsistent s.sessions
      → IsIndexed s.sessions
      → result.0.status ≡ 200
      → Decides site.backchannel s.sessions (Carries site.backchannel r) result
      → Revokes (record s { sessions = result.1 })
  backchannel-Revokes result v ix ok (inl (claims, carried, valid, done)) = (
    claims,
    carried,
    valid,
    subst
        (λ sm.
          (lookup j sm.sessions ≡ some t)
          ↔ ((lookup j s.sessions.sessions ≡ some t) × (t.keycloak_sid ≢ claims.session_id)))
        (sym (ap (λ x. x.1) done)) (revokes claims.session_id s.sessions j t v ix valid.named),
  )
  backchannel-Revokes result v ix ok (inr (status, message, k, done)) =
      absurd (accepted_status status k (sym (ap (λ x. x.0.status) done) ∙ ok))

  routed :
      (chance : Chance)
      → page_of (site.mux.elements r) ≡ backchannel_page
      → site.mux.clean_location r ≡ none
      → serve site w chance r s ≡ serve_backchannel site w r (record s { closed = false })
  unfolding serve route_page serve_page location_of
  routed chance page plain =
      let fresh : App w = record s { closed = false } in
      ap (λ p. route_page site w p (location_of p (site.mux.clean_location r)) chance r fresh) page
      ∙ ap (λ l. route_page site w backchannel_page (location_of backchannel_page l) chance r fresh)
          plain

  -- If the sessions are consistent and all indexed, and the server answers 200 to a request at the
  -- address of the backchannel logout, the request carried Keycloak's token about the end of a
  -- session, and the sessions left are those with another Keycloak ID.
  pub serve_backchannel-Revokes :
      (chance : Chance)
      → IsConsistent s.sessions
      → IsIndexed s.sessions
      → page_of (site.mux.elements r) ≡ backchannel_page
      → site.mux.clean_location r ≡ none
      → (serve site w chance r s).0.status ≡ 200
      → Revokes (serve site w chance r s).1
  unfolding serve_backchannel
  serve_backchannel-Revokes chance v ix page plain ok =
      let same = routed chance page plain in
      subst (λ x. Revokes x.1) (sym same)
        (backchannel-Revokes (backchannel_logout site.backchannel r s.sessions) v ix
          (subst (λ x. x.0.status ≡ 200) same ok)
          (backchannel_logout_cases site.backchannel s.sessions r))
