-- ===== src/Api/Access.antt =====
-- authMW of internal/api/api.go: which requests are refused.
use keypool_service.Base.{
  ℕ, ◌≡◌, refl, ◌≢◌, ◌↔◌, Bool, true, false, [], ◌∷◌, ◌++◌, arith, if◌then◌else◌,
}
use keypool_service.Base.Text.{Str, codes, eq_str, eq_str_iff}
use keypool_service.Platform.{Platform}
use keypool_service.Store.Settings.{CfgCodec}
use keypool_service.Api.Requests.{Answer}
use keypool_service.Api.Router.{Router, Endpoint, Request, Response, status_of}
use keypool_service.Api.Serve.{healthz_path, unauthorized, authorized, dispatch, serve}
use keypool_service.Api.Documented.{
  Documented, as_ok, as_bad_request, as_missing, as_duplicate, as_no_key, as_unavailable,
  as_internal, InTable, by_envelope, by_probe, by_metrics, by_mux, dispatch-InTable,
}

-- No row of the table has the status 401.
not_unauthorized : {a : Answer} → Documented a → a.status ≢ 401
not_unauthorized as_ok q = omega arith
not_unauthorized as_bad_request q = omega arith
not_unauthorized as_missing q = omega arith
not_unauthorized as_duplicate q = omega arith
not_unauthorized as_no_key q = omega arith
not_unauthorized as_unavailable q = omega arith
not_unauthorized as_internal q = omega arith

authorized_iff :
    (token header : Str)
    → (authorized token header ≡ true) ↔ ((token ≢ []) × (header ≡ codes "Bearer " ++ token))
unfolding authorized
authorized_iff [] header = ((λ h. absurd (cc)), (λ h. absurd (h.0 refl)))
authorized_iff (c ∷ token) header = (
  (λ h. ((λ q. absurd (cc)), (eq_str_iff header (codes "Bearer " ++ c ∷ token)).0 h)),
  (λ h. (eq_str_iff header (codes "Bearer " ++ c ∷ token)).1 (h.1)),
)

module _ {S : Type 0} (p : Platform) (c : CfgCodec) (n : ℕ) (rt : Router S) where
  dispatched : (e : Endpoint) (s : S) → n ≢ 401 → status_of (dispatch p c n rt e s).0 ≢ 401
  unfolding status_of
  dispatched e s h = go (dispatch-InTable p c rt e s)
    where
      go : {r : Response} → InTable n r → status_of r ≢ 401
      go (by_envelope d m) = not_unauthorized d
      go by_probe = λ q. omega arith
      go by_metrics = λ q. omega arith
      go by_mux = h

  -- A request is answered with 401 exactly when its path is not /healthz and its header is not
  -- Bearer with a configured, non-empty token; such a request changes nothing. The condition is that
  -- ServeMux itself does not answer with 401.
  pub serve-access :
      (q : Request) (s : S)
      → n ≢ 401
      → ((status_of (serve p c n rt q s).0 ≡ 401) ↔ (
          (q.path ≢ healthz_path)
          × ¬ ((rt.auth_token ≢ []) × (q.authorization ≡ codes "Bearer " ++ rt.auth_token))))
        × (status_of (serve p c n rt q s).0 ≡ 401 → (serve p c n rt q s).1 ≡ s)
  unfolding serve status_of
  serve-access q s h =
      go (eq_str q.path healthz_path) (authorized rt.auth_token q.authorization) refl refl
    where
      handled : Response × S
      handled = dispatch p c n rt q.endpoint s

      other : status_of handled.0 ≢ 401
      other = dispatched q.endpoint s h

      token :
          (authorized rt.auth_token q.authorization ≡ true)
          ↔ ((rt.auth_token ≢ []) × (q.authorization ≡ codes "Bearer " ++ rt.auth_token))
      token = authorized_iff rt.auth_token q.authorization

      Refused : Type 0
      Refused =
          (q.path ≢ healthz_path)
          × ¬ ((rt.auth_token ≢ []) × (q.authorization ≡ codes "Bearer " ++ rt.auth_token))

      go :
          (a b : Bool)
          → eq_str q.path healthz_path ≡ a
          → authorized rt.auth_token q.authorization ≡ b
          → ((status_of (if a then handled else if b then handled else (unauthorized, s)).0 ≡ 401)
              ↔ Refused)
            × (status_of (if a then handled else if b then handled else (unauthorized, s)).0 ≡ 401
                → (if a then handled else if b then handled else (unauthorized, s)).1 ≡ s)
      go true b e f = (
        ((λ k. absurd (other k)), (λ k. absurd (k.0 ((eq_str_iff q.path healthz_path).0 e)))),
        (λ k. absurd (other k)),
      )
      go false true e f =
          (((λ k. absurd (other k)), (λ k. absurd (k.1 (token.0 f)))), (λ k. absurd (other k)))
      go false false e f = (
        (
          (λ k. (
            (λ same. absurd (cc (e, (eq_str_iff q.path healthz_path).1 same))),
            (λ t. absurd (cc (f, token.1 t))),
          )),
          (λ k. refl),
        ),
        (λ k. refl),
      )
