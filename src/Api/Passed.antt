-- ===== src/Api/Passed.antt =====
-- internal/api/handlers.go: the checks that may end a handler, and what follows from the data of its answer.
use keypool_service.Base.{◌≡◌, refl, ap, Bool, true, false, Option, none, some, if◌then◌else◌}
use keypool_service.Api.Router.{Payload, no_data, Response, enveloped, bad_request}
use keypool_service.Api.Serve.{unauthorized}

unfoldable pub data_of : Response → Payload
data_of (enveloped a d) = d
data_of _ = no_data

unfoldable pub is_data : Payload → Bool
is_data no_data = false
is_data _ = true

-- The data of the answer to a check that may end the handler.
pub passed :
    {S A : Type 0} (o : Option A) (f : A → Response × S) (s : S) (d : Payload)
    → is_data d ≡ true
    → data_of ((λ (x : Response × S). x.0) (elim o [ none ↦ (bad_request, s) | some a ↦ f a ])) ≡ d
    → (a : A) × (o ≡ some a) × (data_of (f a).0 ≡ d)
unfolding data_of is_data
passed none f s d t h = absurd (cc (t, ap is_data h))
passed (some a) f s d t h = (a, refl, h)

-- The same for a property of the whole result.
pub passed_to :
    {S A : Type 0} (Q : Response × S → Type 0) (o : Option A) (f : A → Response × S) (s : S)
    (d : Payload)
    → is_data d ≡ true
    → ((a : A) → o ≡ some a → data_of (f a).0 ≡ d → Q (f a))
    → data_of ((λ (x : Response × S). x.0) (elim o [ none ↦ (bad_request, s) | some a ↦ f a ])) ≡ d
    → Q (elim o [ none ↦ (bad_request, s) | some a ↦ f a ])
unfolding data_of is_data
passed_to Q none f s d t k h = absurd (cc (t, ap is_data h))
passed_to Q (some a) f s d t k h = k a refl h

-- Behind authMW.
pub through :
    {S : Type 0} (Q : Response × S → Type 0) (a b : Bool) (x : Response × S) (s : S) (d : Payload)
    → is_data d ≡ true
    → (data_of x.0 ≡ d → Q x)
    → data_of ((λ (y : Response × S). y.0) (if a then x else if b then x else (unauthorized, s)))
      ≡ d
    → Q (if a then x else if b then x else (unauthorized, s))
unfolding data_of is_data
through Q true b x s d t k h = k h
through Q false true x s d t k h = k h
through Q false false x s d t k h = absurd (cc (t, ap is_data h))
