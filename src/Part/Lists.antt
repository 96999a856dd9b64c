-- ===== src/Part/Lists.antt =====
-- The lists of endpoints and of requests under a change at an address.
use usbq_core.Endpoint.{Endpoint, Request}
use usbq_core.Part.{at_ref, list_del, list_del_request, put_request}
use usbq_core.Prelude.{Bool-cases, List, [], ap, arith, inl, inr, refl, true, ℕ, ◌==◌, ◌∷◌, ◌≡◌}

equal_self : (n : ℕ) → (n == n) ≡ true
equal_self n = ground arith

-- Two changes at an address in turn.
pub at_ref-at_ref :
    {U X : Type 0} (ref : ℕ) (f g h : Endpoint U X → Endpoint U X)
    → ((ep : Endpoint U X) → (g ep).ref ≡ ep.ref)
    → ((ep : Endpoint U X) → f (g ep) ≡ h ep)
    → (list : List (Endpoint U X)) → at_ref ref f (at_ref ref g list) ≡ at_ref ref h list
unfolding at_ref
at_ref-at_ref ref f g h keeps e [] = refl
at_ref-at_ref ref f g h keeps e (ep ∷ list) = elim (Bool-cases (ep.ref == ref)) [
  | inl same ↦
      let same' : ((g ep).ref == ref) ≡ true = rw (keeps ep) same in
      rw (same, same', at_ref) (ap (λ x. x ∷ list) (e ep))
  | inr other ↦ rw (other, at_ref, other) (ap (λ l. ep ∷ l) (at_ref-at_ref ref f g h keeps e list))
]

-- A change that changes nothing.
pub at_ref-id :
    {U X : Type 0} (ref : ℕ) (f : Endpoint U X → Endpoint U X)
    → ((ep : Endpoint U X) → f ep ≡ ep)
    → (list : List (Endpoint U X)) → at_ref ref f list ≡ list
unfolding at_ref
at_ref-id ref f e [] = refl
at_ref-id ref f e (ep ∷ list) = elim (Bool-cases (ep.ref == ref)) [
  | inl same ↦ rw (same, at_ref) (ap (λ x. x ∷ list) (e ep))
  | inr other ↦ rw (other, at_ref) (ap (λ l. ep ∷ l) (at_ref-id ref f e list))
]

pub put_request-head :
    {U : Type 0} (req req' : Request U) (list : List (Request U))
    → req.ref ≡ req'.ref
    → put_request req' (req ∷ list) ≡ req' ∷ list
unfolding put_request
put_request-head req req' list e =
    let same : (req.ref == req'.ref) ≡ true = rw e (equal_self req'.ref) in rw (same, put_request)

pub list_del_request-head :
    {U : Type 0} (req : Request U) (list : List (Request U))
    → list_del_request req.ref (req ∷ list) ≡ list
unfolding list_del_request
list_del_request-head req list = rw (equal_self req.ref, list_del_request)

pub list_del-head :
    {U X : Type 0} (ep : Endpoint U X) (list : List (Endpoint U X))
    → list_del ep.ref (ep ∷ list) ≡ list
unfolding list_del
list_del-head ep list = rw (equal_self ep.ref, list_del)
