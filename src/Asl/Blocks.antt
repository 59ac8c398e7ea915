-- ===== src/Asl/Blocks.antt =====
-- The block behind a position of the source, up to the brace that closes it.
use mathlib.Core.Path.{subst}
use odp_platform_radxa_orion.Common.{
  ℕ, zero, suc, ◌+◌, ◌^◌, ◌<◌, ◌≤◌, ◌≡◌, ◌↔◌, refl, sym, ◌∙◌, ap, true, Bool-cases, inl, inr,
  Option, none, some, List, [], ◌∷◌, ◌++◌, ltb, lt→ltb, ltb→lt, arith,
}
use odp_platform_radxa_orion.Common.Lists.{length, length-append, take, drop, All}
use odp_platform_radxa_orion.Asl.{
  Text, Item, Lexer, open_brace, closes, brace_of, is_prefix, str_find, scan, cut, block_at,
}
use odp_platform_radxa_orion.Asl.Find.{IsFirst, Found, str_find-Found, str_find-IsFirst}
use odp_platform_radxa_orion.Asl.Braces.{
  Balanced, scan_opens, scan_last, scan-Balanced, scan-Closing,
}

-- What logos documents of the lexer: where an opening brace stands, it is the token; a span is not
-- empty and ends within the text; and so there are at most as many tokens as bytes.
pub record IsLexer (lexer : Lexer) : Type 0 where
  pub at_brace : (cs : Text) → (ts : List Item) × (lexer (b'{' ∷ cs) ≡ (some open_brace, 1) ∷ ts)
  pub spans : (cs : Text) → All (λ t. (0 < t.1) × (t.1 ≤ length cs)) (lexer cs)
  pub count : (cs : Text) → length (lexer cs) ≤ length cs

-- The text reaches from its start to the end of the brace that closes the first opening one.
pub record IsBlock (lexer : Lexer) (rest block : Text) : Type 0 where
  pub brace : ℕ
  pub first : IsFirst (b'{' ∷ []) brace rest
  pub inner : List Item
  pub close : Item
  pub more : List Item
  pub tokens : lexer (drop brace rest) ≡ (some open_brace, 1) ∷ (inner ++ (close ∷ more))
  pub balanced : Balanced inner
  pub closing : brace_of close.0 ≡ closes
  pub extent : block ≡ take (brace + close.1) rest

pub length-drop : (n : ℕ) (xs : Text) → length (drop n xs) ≤ length xs
length-drop zero xs = omega arith
length-drop (suc n) [] = omega arith
length-drop (suc n) (x ∷ xs) = omega (arith, length-drop n xs)

All-at :
    (P : Item → Type 0) (xs : List Item) (x : Item) (ys : List Item) → All P (xs ++ (x ∷ ys)) → P x
All-at P [] x ys h = h.0
All-at P (z ∷ xs) x ys h = All-at P xs x ys h.1

starts_with : (c : ℕ) (s : Text) → is_prefix (c ∷ []) s ≡ true → (cs : Text) × (s ≡ c ∷ cs)
unfolding is_prefix
starts_with c [] h = cc h
starts_with c (d ∷ s) h = (s, ap (λ x. x ∷ s) (ground arith))

some_text : {a b : Text} → some a ≡ some b → a ≡ b
some_text e = cc

pub none_text : {a : Text} → ◌≡◌ {A = Option Text} none (some a) → ⊥
none_text e = cc

cut-eq-some :
    (rest block : Text) (scanned : Option ℕ)
    → cut rest scanned ≡ some block
    → (end : ℕ) × (scanned ≡ some end) × (0 < end) × (block ≡ take end rest)
cut-eq-some rest block none h = cc h
cut-eq-some rest block (some end) h = elim (Bool-cases (ltb 0 end)) [
  | inl pos ↦ (end, refl, ltb→lt 0 end pos, sym (some_text (rw pos at h)))
  | inr neg ↦ absurd (none_text (rw neg at h))
]

module _ (lexer : Lexer) (laws : IsLexer lexer) where
  -- The scan starts behind the opening brace.
  tokens_at :
      (rest : Text) (brace : ℕ)
      → IsFirst (b'{' ∷ []) brace rest
      → (ts : List Item) × (lexer (drop brace rest) ≡ (some open_brace, 1) ∷ ts)
        × (scan brace 0 (lexer (drop brace rest)) ≡ scan brace 1 ts)
  tokens_at rest brace first =
      let (cs, e) = starts_with b'{' (drop brace rest) first.here in
      let (ts, t) = laws.at_brace cs in
      let all = ap lexer e ∙ t in
      (
        ts,
        all,
        ap (scan brace 0) all
            ∙ scan_opens brace 0 (some open_brace, 1) ts refl (λ f. omega (arith, f)),
      )

  IsBlock-scan :
      (rest block : Text) (brace : ℕ)
      → IsFirst (b'{' ∷ []) brace rest
      → cut rest (scan brace 0 (lexer (drop brace rest))) ≡ some block
      → IsBlock lexer rest block
  IsBlock-scan rest block brace first h =
      let (ts, all, from) = tokens_at rest brace first in
      let (end, e, pos, extent) =
        cut-eq-some rest block (scan brace 0 (lexer (drop brace rest))) h in
      let (inner, close, more, parts, balanced, closing, place) =
        scan-Closing brace (suc (length ts)) 0 ts end (omega arith) pos (sym from ∙ e) in
      record {
        brace = brace;
        first = first;
        inner = inner;
        close = close;
        more = more;
        tokens = all ∙ ap (λ xs. (some open_brace, 1) ∷ xs) parts;
        balanced = balanced;
        closing = closing;
        extent = extent ∙ ap (λ n. take n rest) place;
      }

  scan_of_block :
      (rest block : Text) (b : IsBlock lexer rest block)
      → length rest < 2 ^ 32
      → cut rest (scan b.brace 0 (lexer (drop b.brace rest))) ≡ some block
  scan_of_block rest block b h =
      let shown : length ((some open_brace, 1) ∷ (b.inner ++ (b.close ∷ b.more))) ≤ length rest =
        subst (λ ts. length ts ≤ length rest) b.tokens
          (omega (arith, laws.count (drop b.brace rest), length-drop b.brace rest)) in
      let span =
        All-at (λ t. (0 < t.1) × (t.1 ≤ length (drop b.brace rest)))
          ((some open_brace, 1) ∷ b.inner) b.close b.more
          (subst (All (λ t. (0 < t.1) × (t.1 ≤ length (drop b.brace rest)))) b.tokens
            (laws.spans (drop b.brace rest))) in
      let scanned =
        ap (scan b.brace 0) b.tokens
        ∙ scan_opens b.brace 0 (some open_brace, 1) (b.inner ++ (b.close ∷ b.more)) refl
            (λ f. omega (arith, f))
        ∙ scan-Balanced b.brace 0 (b.close ∷ b.more) b.balanced
            (omega (arith, shown, length-append b.inner (b.close ∷ b.more)))
        ∙ scan_last b.brace b.close b.more b.closing in
      ap (cut rest) scanned
      ∙ rw (lt→ltb 0 (b.brace + b.close.1) (omega (arith, span.0)), sym b.extent) refl

  -- The block that is cut.
  pub block_at_iff :
      (rest block : Text)
      → length rest < 2 ^ 32
      → (block_at lexer rest ≡ some block) ↔ IsBlock lexer rest block
  unfolding block_at
  block_at_iff rest block h = (
    to_block (str_find (b'{' ∷ []) rest) refl,
    λ b.
        rw (str_find-IsFirst (b'{' ∷ []) rest b.brace b.first, block_at)
          (scan_of_block rest block b h),
  )
    where
      to_block :
          (found : Option ℕ)
          → str_find (b'{' ∷ []) rest ≡ found
          → block_at lexer rest ≡ some block
          → IsBlock lexer rest block
      to_block none e k = absurd (none_text (sym (rw (e, block_at) refl) ∙ k))
      to_block (some brace) e k =
          IsBlock-scan rest block brace
            (subst (Found (b'{' ∷ []) rest) e (str_find-Found (b'{' ∷ []) rest))
            (sym (rw (e, block_at) refl) ∙ k)
