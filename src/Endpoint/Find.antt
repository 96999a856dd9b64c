-- ===== src/Endpoint/Find.antt =====
-- find_endpoint of common.c.
use usbq_core.Endpoint.{Endpoint, find_endpoint, same_epid}
use usbq_core.Types.{Epid}
use usbq_core.Prelude.{
  Bool-cases, List, [], ap, false, inl, inr, none, refl, some, subst, sym, true, ◌++◌, ◌∙◌, ◌∷◌,
  ◌≡◌, ◌⊎◌,
}

-- No endpoint of the list has the identity.
abbrev pub NoneSame : {U X : Type 0} → Epid → List (Endpoint U X) → Type 0
NoneSame id [] = Unit {0}
NoneSame id (ep ∷ list) = (same_epid id ep.epid ≡ false) × NoneSame id list

pub NoneSame-find_endpoint :
    {U X : Type 0} (id : Epid) (list : List (Endpoint U X))
    → NoneSame id list
    → find_endpoint id list ≡ none
unfolding find_endpoint
NoneSame-find_endpoint id [] others = refl
NoneSame-find_endpoint id (ep ∷ list) (e, others) =
    rw (e, find_endpoint) (NoneSame-find_endpoint id list others)

-- What was found has the identity.
pub find_endpoint-same_epid :
    {U X : Type 0} (id : Epid) (ep : Endpoint U X) (list : List (Endpoint U X))
    → find_endpoint id list ≡ some ep
    → same_epid id ep.epid ≡ true
unfolding find_endpoint
find_endpoint-same_epid id ep [] e = cc
find_endpoint-same_epid id ep (x ∷ list) e = elim (Bool-cases (same_epid id x.epid)) [
  | inl same ↦
      let first : find_endpoint id (x ∷ list) ≡ some x = rw (same, find_endpoint) in
      let found : x ≡ ep = cc in subst (λ y. same_epid id y.epid ≡ true) found same
  | inr other ↦
      let later : find_endpoint id (x ∷ list) ≡ find_endpoint id list = rw (other, find_endpoint) in
      find_endpoint-same_epid id ep list (sym later ∙ e)
]

-- find_endpoint gives NULL exactly when no endpoint has the identity, and else the first that has
-- it: the list is what stands before it, none of which has the identity, it, and the rest.
pub find_endpoint-first :
    {U X : Type 0} (id : Epid) (list : List (Endpoint U X))
    → ((find_endpoint id list ≡ none) × NoneSame id list)
      ⊎ ((before after : List (Endpoint U X)) × (ep : Endpoint U X) × (find_endpoint id list
            ≡ some ep)
          × (list ≡ before ++ (ep ∷ after))
          × NoneSame id before
          × (same_epid id ep.epid ≡ true))
unfolding find_endpoint
find_endpoint-first id [] = inl (refl, tt)
find_endpoint-first id (ep ∷ list) = elim (Bool-cases (same_epid id ep.epid)) [
  | inl e ↦ inr ([], list, ep, rw (e, find_endpoint), refl, tt, e)
  | inr e ↦ elim (find_endpoint-first id list) [
    | inl (nothing, others) ↦ inl (rw (e, find_endpoint) nothing, (e, others))
    | inr (before, after, found, is_found, split, others, same) ↦ inr (
      ep ∷ before,
      after,
      found,
      rw (e, find_endpoint) is_found,
      ap (λ l. ep ∷ l) split,
      (e, others),
      same,
    )
  ]
]
