-- ===== src/Common/Histories.antt =====
-- Histories of a step relation, and simulations between two of them.
use mathlib.Core.List.{List, [], ◌∷◌}

-- The steps that a list of events makes, one after the other.
pub data Runs {κ} {State Event : Type 0} (R : State → Event → State → Type κ)
    : State → List Event → State → Type κ where
  stop : {s : State} → Runs R s [] s
  go : {a b c : State} {e : Event} {es : List Event} → R a e b → Runs R b es c → Runs R a (e ∷ es) c

-- When every step of one relation can be followed in another, so can every history.
pub simulate {κ μ ν} :
    {State Spec Event : Type 0} {R : State → Event → State → Type κ}
    {Q : Spec → Event → Spec → Type μ} (I : State → Spec → Type ν)
    (follow : (a b : State) (e : Event) (x : Spec) → I a x → R a e b → (y : Spec) × Q x e y × I b y)
    {a b : State} {es : List Event} (x : Spec)
    → I a x
    → Runs R a es b
    → (y : Spec) × Runs Q x es y × I b y
simulate I follow x i stop = (x, stop, i)
simulate I follow x i (go {a} {b} {e} r rs) =
    let (y, q, j) = follow a b e x i r in
    let (z, qs, k) = simulate I follow y j rs in (z, go q qs, k)
