-- ===== src/Passthrough/Ends.antt =====
-- How the calls of the UART and the loop of send_cmd end.
use odp_platform_radxa_orion.Common.{
  ℕ, zero, suc, ◌<◌, ◌≡◌, refl, ap, Option, none, some, List, [], ◌∷◌, ◌++◌, arith,
}
use odp_platform_radxa_orion.Common.Lists.{length}
use odp_platform_radxa_orion.Passthrough.{
  Line, Outcome, returned, panicked, waiting, stuck, ◌>>=◌, take_bytes,
}

-- The bytes that were split off a list, and those behind them.
abbrev pub Split : ℕ → List ℕ → Option (List ℕ × List ℕ) → Type 0
Split n bytes none = length bytes < n
Split n bytes (some (front, rest)) = (bytes ≡ front ++ rest) × (length front ≡ n)

cons-Split :
    (n b : ℕ) (bytes : List ℕ) (result : Option (List ℕ × List ℕ))
    → Split n bytes result
    → Split
        (suc n)
        (b ∷ bytes)
        (elim result [ none ↦ none | some (front, rest) ↦ some (b ∷ front, rest) ])
cons-Split n b bytes none h = omega arith
cons-Split n b bytes (some (front, rest)) (e, l) = (ap (λ t. b ∷ t) e, ap suc l)

pub take_bytes-Split : (n : ℕ) (bytes : List ℕ) → Split n bytes (take_bytes n bytes)
unfolding take_bytes
take_bytes-Split zero bytes = (refl, refl)
take_bytes-Split (suc n) [] = omega arith
take_bytes-Split (suc n) (b ∷ bytes) =
    cons-Split n b bytes (take_bytes n bytes) (take_bytes-Split n bytes)

-- A call does not run out of rounds; one that returns has a property, and so has the line that a
-- panic or a wait leaves.
abbrev pub Ends : {A : Type 0} → (Line → Type 0) → (A → Line → Type 0) → Outcome A → Type 0
Ends left given (returned a line) = given a line
Ends left given (panicked line) = left line
Ends left given (waiting line) = left line
Ends left given stuck = ⊥

pub bind-Ends :
    {A B : Type 0} (left : Line → Type 0) (given : A → Line → Type 0) (after : B → Line → Type 0)
    (call : Outcome A) (f : A → Line → Outcome B)
    → Ends left given call
    → ((a : A) (line : Line) → given a line → Ends left after (f a line))
    → Ends left after (call >>= f)
bind-Ends left given after (returned a line) f h k = k a line h
bind-Ends left given after (panicked line) f h k = h
bind-Ends left given after (waiting line) f h k = h
bind-Ends left given after stuck f h k = absurd h
