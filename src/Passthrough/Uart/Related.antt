-- ===== src/Passthrough/Uart/Related.antt =====
-- A call over the registers of the UART against the same call over the line.
use mathlib.Core.Path.{subst}
use odp_platform_radxa_orion.Common.{
  ◌≡◌, refl, ap, Bool, true, false, Option, none, some, if◌then◌else◌,
}
use odp_platform_radxa_orion.Passthrough.{
  Line, Ending, returned, panicked, waiting, stuck, ◌>>=◌, or_panic, line_port,
}

module _ {S : Type 0} (line : S → Line) where
  -- The same end, with the line that belongs to the device; a call that waits has sent as much.
  abbrev pub Related : {A : Type 0} → Ending S A → Ending Line A → Type 0
  Related (returned a s) (returned b l) = (a ≡ b) × (line s ≡ l)
  Related (panicked s) (panicked l) = line s ≡ l
  Related (waiting s) (waiting l) = (line s).sent ≡ l.sent
  Related stuck stuck = Unit
  Related _ _ = ⊥

  pub bind-Related :
      {A B : Type 0} (m : Ending S A) (n : Ending Line A) (f : A → S → Ending S B)
      (g : A → Line → Ending Line B)
      → Related m n
      → ((a : A) (s : S) → Related (f a s) (g a (line s)))
      → Related (m >>= f) (n >>= g)
  bind-Related (returned a s) (returned b l) f g (e, k) h =
      subst (λ x. Related (f a s) (g x l)) e (subst (λ x. Related (f a s) (g a x)) k (h a s))
  bind-Related (panicked s) (panicked l) f g r h = r
  bind-Related (waiting s) (waiting l) f g r h = r
  bind-Related stuck stuck f g r h = r
  bind-Related (returned a s) (panicked l) f g r h = absurd r
  bind-Related (returned a s) (waiting l) f g r h = absurd r
  bind-Related (returned a s) stuck f g r h = absurd r
  bind-Related (panicked s) (returned b l) f g r h = absurd r
  bind-Related (panicked s) (waiting l) f g r h = absurd r
  bind-Related (panicked s) stuck f g r h = absurd r
  bind-Related (waiting s) (returned b l) f g r h = absurd r
  bind-Related (waiting s) (panicked l) f g r h = absurd r
  bind-Related (waiting s) stuck f g r h = absurd r
  bind-Related stuck (returned b l) f g r h = absurd r
  bind-Related stuck (panicked l) f g r h = absurd r
  bind-Related stuck (waiting l) f g r h = absurd r

  pub or_panic-Related :
      {A : Type 0} (o : Option A) (s : S) → Related (or_panic o s) (or_panic o (line s))
  or_panic-Related none s = refl
  or_panic-Related (some a) s = (refl, refl)

  pub if-Related :
      {A : Type 0} (b : Bool) (m m' : Ending S A) (n n' : Ending Line A)
      → Related m n
      → Related m' n'
      → Related (if b then m else m') (if b then n else n')
  if-Related true m m' n n' h k = h
  if-Related false m m' n n' h k = k

  -- What a call that returns on the line does on the device.
  pub Related-returned :
      {A : Type 0} (m : Ending S A) (b : A) (l : Line)
      → Related m (returned b l)
      → (s : S) × (m ≡ returned b s) × (line s ≡ l)
  Related-returned (returned a s) b l (e, k) = (s, ap (λ x. returned x s) e, k)
  Related-returned (panicked s) b l r = absurd r
  Related-returned (waiting s) b l r = absurd r
  Related-returned stuck b l r = absurd r
