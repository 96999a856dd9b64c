-- ===== src/Part/Members.antt =====
-- The endpoints of a part one by one, under the changes of the list: a request comes to an endpoint
-- or leaves it, or an endpoint leaves the list.
use usbq_core.Endpoint.{Endpoint, Request, find_endpoint, same_epid}
use usbq_core.Part.{at_ref}
use usbq_core.Part.Accounts.{push}
use usbq_core.Part.Cleanup.{objects}
use usbq_core.Part.Table.{Absent, Distinct, remove}
use usbq_core.Types.{Epid}
use usbq_core.Prelude.{
  Bool-cases, Every, IsIn, List, [], ap, arith, false, inl, inr, refl, some, subst, sym, true, ℕ,
  ◌+◌, ◌==◌, ◌∙◌, ◌∷◌, ◌≡◌, ◌≢◌, ◌≤◌, ◌⊎◌,
}

module _ {U X : Type 0} where
  -- Whatever holds of each holds after a change at an address that keeps it there.
  pub Every-at_ref :
      (P Q : Endpoint U X → Type 0) (ref : ℕ) (f : Endpoint U X → Endpoint U X)
      → ((x : Endpoint U X) → x.ref ≡ ref → P x → Q x → P (f x))
      → (list : List (Endpoint U X)) → Every P list
      → Every Q list
      → Every P (at_ref ref f list)
  unfolding at_ref
  Every-at_ref P Q ref f keeps [] p q = tt
  Every-at_ref P Q ref f keeps (x ∷ list) (h, p) (h', q) = elim (Bool-cases (x.ref == ref)) [
    | inl same ↦ rw (same, at_ref) (keeps x (ground (arith, same)) h h', p)
    | inr other ↦ rw (other, at_ref) (h, Every-at_ref P Q ref f keeps list p q)
  ]

  pub Every-find_endpoint :
      (P : Endpoint U X → Type 0) (id : Epid) (ep : Endpoint U X) (list : List (Endpoint U X))
      → Every P list
      → find_endpoint id list ≡ some ep
      → P ep
  unfolding find_endpoint
  Every-find_endpoint P id ep [] a e = cc
  Every-find_endpoint P id ep (x ∷ list) (h, a) e = elim (Bool-cases (same_epid id x.epid)) [
    | inl same ↦
        let first : find_endpoint id (x ∷ list) ≡ some x = rw (same, find_endpoint) in
        let found : x ≡ ep = cc in subst P found h
    | inr other ↦
        let later : find_endpoint id (x ∷ list) ≡ find_endpoint id list =
          rw (other, find_endpoint) in
        Every-find_endpoint P id ep list a (sym later ∙ e)
  ]

  pub at_ref-Distinct :
      (ref : ℕ) (f : Endpoint U X → Endpoint U X)
      → ((x : Endpoint U X) → (f x).ref ≡ x.ref)
      → (list : List (Endpoint U X)) → Distinct list
      → Distinct (at_ref ref f list)
  unfolding at_ref
  at_ref-Distinct ref f keeps [] d = tt
  at_ref-Distinct ref f keeps (x ∷ list) (a, d) = elim (Bool-cases (x.ref == ref)) [
    | inl same ↦ rw (same, at_ref) (subst (λ n. Absent n list) (sym (keeps x)) a, d)
    | inr other ↦
        rw (other, at_ref)
          (
            Every-at_ref (λ y. y.ref ≢ x.ref) (λ y. y.ref ≢ x.ref) ref f
                (λ y _ h _. subst (λ n. n ≢ x.ref) (sym (keeps y)) h) list a a,
            at_ref-Distinct ref f keeps list d,
          )
  ]

  pub push-Distinct :
      (ref : ℕ) (req : Request U) (list : List (Endpoint U X))
      → Distinct list
      → Distinct (at_ref ref (push req) list)
  push-Distinct ref req = at_ref-Distinct ref (push req) (λ x. refl)

  -- An endpoint with this address and this identity is in the list.
  abbrev pub Present : ℕ → Epid → List (Endpoint U X) → Type 0
  Present ref id [] = ⊥
  Present ref id (x ∷ list) = ((x.ref ≡ ref) × (x.epid ≡ id)) ⊎ Present ref id list

  pub find_endpoint-Present :
      (id : Epid) (ep : Endpoint U X) (list : List (Endpoint U X))
      → find_endpoint id list ≡ some ep
      → Present ep.ref ep.epid list
  unfolding find_endpoint
  find_endpoint-Present id ep [] e = cc
  find_endpoint-Present id ep (x ∷ list) e = elim (Bool-cases (same_epid id x.epid)) [
    | inl same ↦
        let first : find_endpoint id (x ∷ list) ≡ some x = rw (same, find_endpoint) in
        let found : x ≡ ep = cc in inl (ap (λ y. y.ref) found, ap (λ y. y.epid) found)
    | inr other ↦
        let later : find_endpoint id (x ∷ list) ≡ find_endpoint id list =
          rw (other, find_endpoint) in
        inr (find_endpoint-Present id ep list (sym later ∙ e))
  ]

  pub IsIn-Present :
      (ep : Endpoint U X) (list : List (Endpoint U X)) → IsIn ep list → Present ep.ref ep.epid list
  IsIn-Present ep [] m = m
  IsIn-Present ep (x ∷ list) m = elim m [
    | inl same ↦ inl (ap (λ y. y.ref) same, ap (λ y. y.epid) same)
    | inr later ↦ inr (IsIn-Present ep list later)
  ]

  pub Present-at_ref :
      (ref ref' : ℕ) (id : Epid) (f : Endpoint U X → Endpoint U X)
      → ((x : Endpoint U X) → ((f x).ref ≡ x.ref) × ((f x).epid ≡ x.epid))
      → (list : List (Endpoint U X)) → Present ref id list
      → Present ref id (at_ref ref' f list)
  unfolding at_ref
  Present-at_ref ref ref' id f keeps [] p = p
  Present-at_ref ref ref' id f keeps (x ∷ list) p = elim (Bool-cases (x.ref == ref')) [
    | inl same ↦
        rw (same, at_ref)
          (elim p [ inl (h, h') ↦ inl ((keeps x).0 ∙ h, (keeps x).1 ∙ h') | inr later ↦ inr later ])
    | inr other ↦
        rw (other, at_ref)
          (elim p [
            | inl here ↦ inl here
            | inr later ↦ inr (Present-at_ref ref ref' id f keeps list later)
          ])
  ]

  -- It stays when an endpoint of another identity goes.
  pub Present-remove :
      (ref : ℕ) (id id' : Epid) (list : List (Endpoint U X))
      → same_epid id' id ≡ false
      → Present ref id list
      → Present ref id (remove id' list)
  unfolding remove
  Present-remove ref id id' [] h p = p
  Present-remove ref id id' (x ∷ list) h p = elim (Bool-cases (same_epid id' x.epid)) [
    | inl same ↦
        rw (same, remove)
          (elim p [
            | inl (_, here) ↦
                absurd (subst (λ e. same_epid id' e ≡ true → ⊥) (sym here) (λ t. cc) same)
            | inr later ↦ later
          ])
    | inr other ↦
        rw (other, remove)
          (elim p [
            | inl here ↦ inl here
            | inr later ↦ inr (Present-remove ref id id' list h later)
          ])
  ]

  -- Where addresses are distinct, all that is at its address has its identity.
  Absent-agrees :
      (ref : ℕ) (id : Epid) (list : List (Endpoint U X))
      → Absent ref list
      → Every (λ x. (x.ref ≢ ref) ⊎ (x.epid ≡ id)) list
  Absent-agrees ref id [] a = tt
  Absent-agrees ref id (x ∷ list) (h, a) = (inl h, Absent-agrees ref id list a)

  Present-Absent :
      (ref ref' : ℕ) (id : Epid) (list : List (Endpoint U X))
      → Present ref id list
      → Absent ref' list
      → ref ≢ ref'
  Present-Absent ref ref' id [] p a = absurd p
  Present-Absent ref ref' id (x ∷ list) p (h, a) = elim p [
    | inl (here, _) ↦ subst (λ n. n ≢ ref') here h
    | inr later ↦ Present-Absent ref ref' id list later a
  ]

  pub Present-agrees :
      (ref : ℕ) (id : Epid) (list : List (Endpoint U X))
      → Distinct list
      → Present ref id list
      → Every (λ x. (x.ref ≢ ref) ⊎ (x.epid ≡ id)) list
  Present-agrees ref id [] d p = tt
  Present-agrees ref id (x ∷ list) (a, d) p = elim p [
    | inl (here, same) ↦ (inr same, Absent-agrees ref id list (subst (λ n. Absent n list) here a))
    | inr later ↦ (
      inl (λ e. Present-Absent ref x.ref id list later a (sym e)),
      Present-agrees ref id list d later,
    )
  ]

  pub objects-push :
      (ref : ℕ) (req : Request U) (list : List (Endpoint U X))
      → objects (at_ref ref (push req) list) ≤ 3 + objects list
  unfolding at_ref objects
  objects-push ref req [] = omega arith
  objects-push ref req (x ∷ list) = elim (Bool-cases (x.ref == ref)) [
    | inl same ↦ rw (same, at_ref) (omega arith)
    | inr other ↦ rw (other, at_ref) (omega (arith, objects-push ref req list))
  ]
