-- ===== src/Behaviour.antt =====
-- What a run of code comes to: `out_of_rounds` where the rounds given as fuel are too few, `undefined` where C
-- leaves undefined what it does.
pub data Behaviour {ℓ} (A : Type ℓ) : Type ℓ where
  out_of_rounds : Behaviour A
  undefined : Behaviour A
  gives : A → Behaviour A

-- code that goes on with what other code gives
abbrev pub and_then {ℓ ℓ'} :
    {A : Type ℓ} {B : Type ℓ'} → Behaviour A → (A → Behaviour B) → Behaviour B
and_then out_of_rounds next = out_of_rounds
and_then undefined next = undefined
and_then (gives a) next = next a
