-- ===== src/Part/Stacks.antt =====
-- The endpoints of a part as a table of stacks, one for each identity: adding puts an endpoint on
-- the stack of its identity, and freeing the one that was found takes the top away.
use usbq_core.Endpoint.{Endpoint, find_endpoint, same_epid}
use usbq_core.Part.Table.{remove, same_epid-apart, same_epid-eq}
use usbq_core.Types.{Epid}
use usbq_core.Prelude.{
  Bool-cases, List, Option, [], ap, arith, false, if◌then◌else◌, inl, inr, none, refl, some, subst,
  sym, ◌∷◌, ◌≡◌,
}

module _ {U X : Type 0} where
  -- The endpoints of one identity, the newest first.
  unfoldable pub stack : Epid → List (Endpoint U X) → List (Endpoint U X)
  stack id [] = []
  stack id (ep ∷ list) =
      let rest = stack id list in if same_epid id ep.epid then ep ∷ rest else rest

  -- The top of a stack, and what is below it.
  abbrev pub top : List (Endpoint U X) → Option (Endpoint U X)
  top [] = none
  top (ep ∷ list) = some ep

  abbrev pub below : List (Endpoint U X) → List (Endpoint U X)
  below [] = []
  below (ep ∷ list) = list

  pub find_endpoint-top :
      (id : Epid) (list : List (Endpoint U X)) → find_endpoint id list ≡ top (stack id list)
  unfolding find_endpoint stack
  find_endpoint-top id [] = refl
  find_endpoint-top id (x ∷ list) = elim (Bool-cases (same_epid id x.epid)) [
    | inl same ↦ rw (same, find_endpoint, stack)
    | inr other ↦ rw (other, find_endpoint, stack) (find_endpoint-top id list)
  ]

  pub stack-push :
      (id : Epid) (ep : Endpoint U X) (list : List (Endpoint U X))
      → stack id (ep ∷ list) ≡ (if same_epid id ep.epid then ep ∷ stack id list else stack id list)
  unfolding stack
  stack-push id ep list = refl

  -- Removing takes the top of one stack, and leaves the others.
  stack-remove_same :
      (id : Epid) (list : List (Endpoint U X)) → stack id (remove id list) ≡ below (stack id list)
  unfolding remove stack
  stack-remove_same id [] = refl
  stack-remove_same id (x ∷ list) = elim (Bool-cases (same_epid id x.epid)) [
    | inl same ↦ rw (same, remove, stack)
    | inr other ↦ rw (other, remove, stack, other) (stack-remove_same id list)
  ]

  stack-remove_other :
      (id id' : Epid) (list : List (Endpoint U X))
      → same_epid id id' ≡ false
      → stack id' (remove id list) ≡ stack id' list
  unfolding remove stack
  stack-remove_other id id' [] h = refl
  stack-remove_other id id' (x ∷ list) h = elim (Bool-cases (same_epid id x.epid)) [
    | inl same ↦
        let apart : same_epid id' x.epid ≡ false = same_epid-apart id id' x.epid h same in
        rw (same, remove, stack, apart)
    | inr other ↦ elim (Bool-cases (same_epid id' x.epid)) [
      | inl same' ↦
          rw (other, remove, stack, same') (ap (λ l. x ∷ l) (stack-remove_other id id' list h))
      | inr other' ↦ rw (other, remove, stack, other') (stack-remove_other id id' list h)
    ]
  ]

  pub stack-remove :
      (id id' : Epid) (list : List (Endpoint U X))
      → stack id' (remove id list)
        ≡ (if same_epid id' id then below (stack id' list) else stack id' list)
  stack-remove id id' list = elim (Bool-cases (same_epid id' id)) [
    | inl same ↦ rw same (
        subst (λ e. stack e (remove id list) ≡ below (stack e list))
          (sym (same_epid-eq id' id same)) (stack-remove_same id list))
    | inr other ↦ rw other (stack-remove_other id id' list (ground (arith, other)))
  ]
