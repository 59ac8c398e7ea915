-- ===== src/Asl/Braces.antt =====
-- The loop of extract_named_block over the tokens, against balanced braces.
use mathlib.Core.List.{append_assoc}
use native.Mathlib.Decide.{ℕ_discrete}
use odp_platform_radxa_orion.Common.{
  ℕ, zero, suc, ◌+◌, ◌-◌, ◌^◌, ◌<◌, ◌≡◌, ◌≢◌, refl, sym, ◌∙◌, ap, Option, none, some, List, [], ◌∷◌,
  ◌++◌, eq→==, ne→==, arith,
}
use odp_platform_radxa_orion.Common.Lists.{length, length-append}
use odp_platform_radxa_orion.Asl.{Item, Brace, opens, closes, neither, brace_of, scan}

-- Sequences of tokens in which each brace that opens is closed behind it.
pub data Balanced : List Item → Type 0 where
  nothing : Balanced []
  skip : (t : Item) (ts : List Item) → brace_of t.0 ≡ neither → Balanced ts → Balanced (t ∷ ts)
  braces :
      (t t' : Item) (inner ts : List Item)
      → brace_of t.0 ≡ opens
      → Balanced inner
      → brace_of t'.0 ≡ closes
      → Balanced ts
      → Balanced (t ∷ (inner ++ (t' ∷ ts)))

none-some : {a : ℕ} → ◌≡◌ {A = Option ℕ} none (some a) → ⊥
none-some e = cc

less_one : (d : ℕ) → suc (suc d) - 1 ≡ suc d
less_one d = omega arith

some_eq : (a b : ℕ) → some a ≡ some b → a ≡ b
some_eq a b e = cc

module _ (start : ℕ) where
  scan_neither :
      (d : ℕ) (t : Item) (ts : List Item)
      → brace_of t.0 ≡ neither
      → scan start d (t ∷ ts) ≡ scan start d ts
  unfolding scan
  scan_neither d t ts e = rw (e, scan) refl

  pub scan_opens :
      (d : ℕ) (t : Item) (ts : List Item)
      → brace_of t.0 ≡ opens
      → suc d ≢ 2 ^ 32
      → scan start d (t ∷ ts) ≡ scan start (suc d) ts
  unfolding scan
  scan_opens d t ts e h =
      rw (e, scan)
        (rw (ne→== (d + 1) (2 ^ 32) (λ f. absurd (h (omega arith))))
          (ap (λ k. scan start k ts) (omega arith)))

  scan_opens_full :
      (d : ℕ) (t : Item) (ts : List Item)
      → brace_of t.0 ≡ opens
      → suc d ≡ 2 ^ 32
      → scan start d (t ∷ ts) ≡ none
  unfolding scan
  scan_opens_full d t ts e h = rw (e, scan) (rw (eq→== (d + 1) (2 ^ 32) (omega arith)) refl)

  scan_closes :
      (d : ℕ) (t : Item) (ts : List Item)
      → brace_of t.0 ≡ closes
      → scan start (suc (suc d)) (t ∷ ts) ≡ scan start (suc d) ts
  unfolding scan
  scan_closes d t ts e =
      rw (e, scan)
        (rw
          (ne→== (suc (suc d)) 0 (λ f. omega arith), less_one d, ne→== (suc d) 0 (λ f. omega arith))
          refl)

  pub scan_last :
      (t : Item) (ts : List Item)
      → brace_of t.0 ≡ closes
      → scan start 1 (t ∷ ts) ≡ some (start + t.1)
  unfolding scan
  scan_last t ts e = rw (e, scan) refl

  -- Behind balanced tokens the depth is as before them.
  pub scan-Balanced :
      (d : ℕ) {inner : List Item} (ts : List Item)
      → Balanced inner
      → suc d + length inner < 2 ^ 32
      → scan start (suc d) (inner ++ ts) ≡ scan start (suc d) ts
  scan-Balanced d ts nothing h = refl
  scan-Balanced d ts (skip t inner e b) h =
      scan_neither (suc d) t (inner ++ ts) e ∙ scan-Balanced d ts b (omega arith)
  scan-Balanced d ts (braces t t' inner rest e b e' b') h =
      let count = length-append inner (t' ∷ rest) in
      ap (λ xs. scan start (suc d) (t ∷ xs)) (append_assoc inner (t' ∷ rest) ts)
      ∙ scan_opens (suc d) t (inner ++ (t' ∷ (rest ++ ts))) e (λ f. omega (arith, count))
      ∙ scan-Balanced (suc d) (t' ∷ (rest ++ ts)) b (omega (arith, count))
      ∙ scan_closes d t' (rest ++ ts) e'
      ∙ scan-Balanced d ts b' (omega (arith, count))

  -- The scan goes on at the next depth, or it has found the end.
  abbrev After : ℕ → Item → List Item → ℕ → Type 0
  After zero t rest end = end ≡ start + t.1
  After (suc d) t rest end = scan start (suc d) rest ≡ some end

  -- The next brace that closes an open one, behind balanced tokens.
  abbrev Closing : ℕ → List Item → ℕ → Type 0
  Closing d items end =
      (inner : List Item) × (t : Item) × (rest : List Item) × (items ≡ inner ++ (t ∷ rest))
      × Balanced inner
      × (brace_of t.0 ≡ closes)
      × After d t rest end

  Closing-skip :
      (d : ℕ) (t : Item) (items : List Item) (end : ℕ)
      → brace_of t.0 ≡ neither
      → Closing d items end
      → Closing d (t ∷ items) end
  Closing-skip d t items end e (inner, t', rest, parts, b, e', after) =
      (t ∷ inner, t', rest, ap (λ xs. t ∷ xs) parts, skip t inner e b, e', after)

  Closing-here :
      (d : ℕ) (t : Item) (items : List Item) (end : ℕ)
      → brace_of t.0 ≡ closes
      → scan start (suc d) (t ∷ items) ≡ some end
      → Closing d (t ∷ items) end
  Closing-here zero t items end e h =
      ([], t, items, refl, nothing, e, some_eq end (start + t.1) (sym h ∙ scan_last t items e))
  Closing-here (suc d) t items end e h =
      ([], t, items, refl, nothing, e, sym (scan_closes d t items e) ∙ h)

  Closing-braces :
      (d : ℕ) (t : Item) (items : List Item) (end : ℕ)
      → brace_of t.0 ≡ opens
      → (first : Closing (suc d) items end) → Closing d first.2 end
      → Closing d (t ∷ items) end
  Closing-braces d t items end e (inner, t', rest, parts, b, e', after)
        (inner', t'', rest', parts', b', e'', after') =
      (
        t ∷ (inner ++ (t' ∷ inner')),
        t'',
        rest',
        ap (λ xs. t ∷ xs)
            (parts
              ∙ ap (λ xs. inner ++ (t' ∷ xs)) parts'
              ∙ sym (append_assoc inner (t' ∷ inner') (t'' ∷ rest'))),
        braces t t' inner inner' e b e' b',
        e'',
        after',
      )

  Closing-from :
      (n d : ℕ) (t : Item) (items : List Item) (end : ℕ)
      → ((d : ℕ) (items : List Item) (end : ℕ)
          → length items < n
          → 0 < end
          → scan start (suc d) items ≡ some end
          → Closing d items end)
      → length items < n
      → 0 < end
      → (b : Brace) → brace_of t.0 ≡ b
      → scan start (suc d) (t ∷ items) ≡ some end
      → Closing d (t ∷ items) end
  Closing-from n d t items end again h pos neither k e =
      Closing-skip d t items end k
        (again d items end h pos (sym (scan_neither (suc d) t items k) ∙ e))
  Closing-from n d t items end again h pos closes k e = Closing-here d t items end k e
  Closing-from n d t items end again h pos opens k e = elim (ℕ_discrete (suc (suc d)) (2 ^ 32)) [
    | yes full ↦ absurd (none-some (sym (scan_opens_full (suc d) t items k full) ∙ e))
    | no room ↦
        let first = again (suc d) items end h pos (sym (scan_opens (suc d) t items k room) ∙ e) in
        Closing-braces d t items end k first (
          again d first.2 end
            (omega (arith, ap length first.3, length-append first.0 (first.1 ∷ first.2))) pos
            first.6)
  ]

  -- A scan that finds an end has come to the brace that closes the open one.
  pub scan-Closing :
      (n d : ℕ) (items : List Item) (end : ℕ)
      → length items < n
      → 0 < end
      → scan start (suc d) items ≡ some end
      → Closing d items end
  unfolding scan
  scan-Closing zero d items end h pos e = absurd (omega arith)
  scan-Closing (suc n) d [] end h pos e = absurd (omega (arith, some_eq 0 end e))
  scan-Closing (suc n) d (t ∷ items) end h pos e =
      Closing-from n d t items end (scan-Closing n) (omega arith) pos (brace_of t.0) refl e
