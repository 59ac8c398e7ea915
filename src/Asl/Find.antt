-- ===== src/Asl/Find.antt =====
-- str::find and str::contains.
use odp_platform_radxa_orion.Common.{
  ℕ, zero, suc, ◌<◌, ◌≡◌, refl, ◌∙◌, ap, Bool, true, false, Option, none, some, [], ◌∷◌, Bool-cases,
  inl, inr, arith, dec_lt,
}
use odp_platform_radxa_orion.Common.Lists.{drop}
use odp_platform_radxa_orion.Asl.{Text, is_prefix, str_find, str_contains, next_position}

-- The first position where a text stands in another.
pub record IsFirst (p : Text) (i : ℕ) (s : Text) : Type 0 where
  pub here : is_prefix p (drop i s) ≡ true
  pub not_before : (j : ℕ) → j < i → is_prefix p (drop j s) ≡ false

-- The text stands nowhere.
abbrev pub Nowhere : Text → Text → Type 0
Nowhere p s = (j : ℕ) → is_prefix p (drop j s) ≡ false

-- What a search has found.
abbrev pub Found : Text → Text → Option ℕ → Type 0
Found p s none = Nowhere p s
Found p s (some i) = IsFirst p i s

at_once : (p s : Text) → is_prefix p s ≡ true → IsFirst p 0 s
at_once p s h = record { here = h; not_before = λ j k. absurd (omega arith) }

later :
    (p : Text) (c : ℕ) (cs : Text) (found : Option ℕ)
    → is_prefix p (c ∷ cs) ≡ false
    → Found p cs found
    → Found p (c ∷ cs) (next_position found)
later p c cs none ne h = λ j. beyond j
  where
    beyond : (j : ℕ) → is_prefix p (drop j (c ∷ cs)) ≡ false
    beyond zero = ne
    beyond (suc j) = h j
later p c cs (some i) ne h = record { here = h.here; not_before = before }
  where
    before : (j : ℕ) → j < suc i → is_prefix p (drop j (c ∷ cs)) ≡ false
    before zero k = ne
    before (suc j) k = h.not_before j (omega arith)

drop-nil : (j : ℕ) → drop {A = ℕ} j [] ≡ []
drop-nil zero = refl
drop-nil (suc j) = refl

pub str_find-Found : (p s : Text) → Found p s (str_find p s)
unfolding str_find
str_find-Found p [] = elim (Bool-cases (is_prefix p [])) [
  | inl e ↦ rw e (at_once p [] e)
  | inr e ↦ rw e (λ j. ap (is_prefix p) (drop-nil j) ∙ e)
]
str_find-Found p (c ∷ cs) = elim (Bool-cases (is_prefix p (c ∷ cs))) [
  | inl e ↦ rw e (at_once p (c ∷ cs) e)
  | inr e ↦ rw e (later p c cs (str_find p cs) e (str_find-Found p cs))
]

pub both : {b : Bool} → b ≡ true → b ≡ false → ⊥
both e f = cc

-- The place is the only one.
Found-some :
    (p s : Text) (i : ℕ) (found : Option ℕ) → IsFirst p i s → Found p s found → found ≡ some i
Found-some p s i none first none_found = absurd (both first.here (none_found i))
Found-some p s i (some j) first h = elim (dec_lt i j) [
  | yes k ↦ absurd (both first.here (h.not_before i k))
  | no k ↦ elim (dec_lt j i) [
    | yes l ↦ absurd (both h.here (first.not_before j l))
    | no l ↦ ap some (omega arith)
  ]
]

pub str_find-IsFirst : (p s : Text) (i : ℕ) → IsFirst p i s → str_find p s ≡ some i
str_find-IsFirst p s i first = Found-some p s i (str_find p s) first (str_find-Found p s)

pub str_contains-prefix : (p s : Text) → is_prefix p s ≡ true → str_contains s p ≡ true
unfolding str_contains
str_contains-prefix p s h = rw (str_find-IsFirst p s 0 (at_once p s h), str_contains) refl
