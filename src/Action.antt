-- ===== src/Action.antt =====
-- The handlers of the two parts: a result and the next state, or nothing where the C code leaves
-- the memory that it may use.
use usbq_core.Prelude.{Option, none, refl, some, subst, ◌≡◌}

abbrev pub Act : Type 0 → Type 0 → Type 0
Act S A = S → Option (A × S)

infixl 5 ◌▷◌
abbrev pub ◌▷◌ : {S A B : Type 0} → Act S A → (A → Act S B) → Act S B
(m ▷ f) s = elim (m s) [ none ↦ none | some (a, s') ↦ f a s' ]

abbrev pub ret : {S A : Type 0} → A → Act S A
ret a s = some (a, s)

abbrev pub crash : {S A : Type 0} → Act S A
crash s = none

abbrev pub lift : {S A : Type 0} → Option A → Act S A
lift r s = elim r [ none ↦ none | some a ↦ some (a, s) ]

-- An action that does not leave its memory, and what holds of its result.
abbrev pub Ok : {S A : Type 0} → (A → S → Type 0) → Option (A × S) → Type 0
Ok P none = ⊥
Ok P (some (a, s)) = P a s

pub ▷-Ok :
    {S A B : Type 0} {P : A → S → Type 0} (Q : B → S → Type 0) (r : Option (A × S)) (m : Act S A)
    (f : A → Act S B) (s : S)
    → m s ≡ r
    → Ok P r
    → ((a : A) (s' : S) → P a s' → Ok Q (f a s'))
    → Ok Q ((m ▷ f) s)
▷-Ok Q none m f s e p next = absurd p
▷-Ok Q (some (a, s')) m f s e p next = rw (e, ◌▷◌) (next a s' p)

pub Ok-map :
    {S A : Type 0} (P Q : A → S → Type 0) (r : Option (A × S))
    → ((a : A) (s : S) → P a s → Q a s)
    → Ok P r
    → Ok Q r
Ok-map P Q none f p = p
Ok-map P Q (some (a, s)) f p = f a s p

-- Two things that hold of one result.
pub Ok-both :
    {S A : Type 0} (P Q R : A → S → Type 0) (r : Option (A × S))
    → ((a : A) (s : S) → P a s → Q a s → R a s)
    → Ok P r
    → Ok Q r
    → Ok R r
Ok-both P Q R none f p q = p
Ok-both P Q R (some (a, s)) f p q = f a s p q

-- The result and the state that there are.
pub Ok-result :
    {S A : Type 0} (P : A → S → Type 0) (r : Option (A × S))
    → Ok P r
    → (a : A) × (s : S) × (r ≡ some (a, s)) × P a s
Ok-result P none p = absurd p
Ok-result P (some (a, s)) p = (a, s, refl, p)

-- What holds of a result that is known.
pub Ok-known :
    {S A : Type 0} (P : A → S → Type 0) (r : Option (A × S)) (a : A) (s : S)
    → r ≡ some (a, s)
    → Ok P r
    → P a s
Ok-known P r a s e p = subst (Ok P) e p
