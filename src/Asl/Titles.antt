-- ===== src/Asl/Titles.antt =====
-- What the tests may take for granted of a block: it starts with its keyword and its name.
use odp_platform_radxa_orion.Common.{
  ℕ, zero, suc, ◌+◌, ◌^◌, ◌<◌, ◌≤◌, ◌≡◌, ◌≢◌, ◌⊎◌, refl, ◌∙◌, sym, ap, Bool, true, false, ◌&&◌,
  ◌||◌, ◌==◌, inl, inr, some, [], ◌∷◌, ◌++◌, arith, ==→eq,
}
use odp_platform_radxa_orion.Common.Lists.{length, take, drop, All}
use odp_platform_radxa_orion.Asl.{
  Text, Lexer, is_prefix, str_contains, pattern, spaced_pattern, extract_named_block,
}
use odp_platform_radxa_orion.Asl.Find.{str_contains-prefix}
use odp_platform_radxa_orion.Asl.Blocks.{IsLexer, IsBlock}
use odp_platform_radxa_orion.Asl.Named.{IsNamedBlock, extract_named_block_iff}

-- A text without an opening brace.
abbrev pub HasNoBrace : Text → Type 0
HasNoBrace = All (λ c. c ≢ b'{')

HasNoBrace-append : (xs ys : Text) → HasNoBrace xs → HasNoBrace ys → HasNoBrace (xs ++ ys)
HasNoBrace-append [] ys h k = k
HasNoBrace-append (x ∷ xs) ys (h, hs) k = (h, HasNoBrace-append xs ys hs k)

and_true : (a b : Bool) → (a && b) ≡ true → (a ≡ true) × (b ≡ true)
and_true true b e = (refl, e)
and_true false b e = cc e

-- It stands before the first opening brace.
brace_behind :
    (p s : Text) (j : ℕ)
    → HasNoBrace p
    → is_prefix p s ≡ true
    → is_prefix (b'{' ∷ []) (drop j s) ≡ true
    → length p ≤ j
unfolding is_prefix
brace_behind [] s j h e k = omega arith
brace_behind (x ∷ p) [] j h e k = cc e
brace_behind (x ∷ p) (y ∷ s) zero (h, hs) e k =
    absurd (h (==→eq x y (and_true _ _ e).0 ∙ sym (==→eq b'{' y (and_true _ _ k).0)))
brace_behind (x ∷ p) (y ∷ s) (suc j) (h, hs) e k =
    omega (arith, brace_behind p s j hs (and_true _ _ e).1 k)

prefix_take :
    (p s : Text) (n : ℕ) → is_prefix p s ≡ true → length p ≤ n → is_prefix p (take n s) ≡ true
unfolding is_prefix
prefix_take [] s n e h = refl
prefix_take (x ∷ p) [] n e h = cc e
prefix_take (x ∷ p) (y ∷ s) zero e h = absurd (omega arith)
prefix_take (x ∷ p) (y ∷ s) (suc n) e h =
    let (same, rest) = and_true (x == y) (is_prefix p s) e in
    rw same (prefix_take p s n rest (omega arith))

block_prefix :
    (lexer : Lexer) (p rest block : Text)
    → HasNoBrace p
    → IsBlock lexer rest block
    → is_prefix p rest ≡ true
    → is_prefix p block ≡ true
block_prefix lexer p rest block h b e =
    ap (is_prefix p) b.extent
    ∙ prefix_take p rest (b.brace + b.close.1) e
        (omega (arith, brace_behind p rest b.brace h e b.first.here))

module _ (keyword name : Text) (h : HasNoBrace keyword) (k : HasNoBrace name) where
  pattern-HasNoBrace : HasNoBrace (pattern keyword name)
  pattern-HasNoBrace =
      HasNoBrace-append keyword _ h
        (λ e. omega (arith, e), HasNoBrace-append name _ k (λ e. omega (arith, e), tt))

  spaced_pattern-HasNoBrace : HasNoBrace (spaced_pattern keyword name)
  spaced_pattern-HasNoBrace = HasNoBrace-append keyword _ h (
    λ e. omega (arith, e),
    (λ e. omega (arith, e), HasNoBrace-append name _ k (λ e. omega (arith, e), tt)),
  )

-- The block starts with the keyword and the name, and so the tests str_find them in it.
abbrev pub IsTitled : Text → Text → Text → Type 0
IsTitled keyword name block =
    ((is_prefix (pattern keyword name) block ≡ true)
      ⊎ (is_prefix (spaced_pattern keyword name) block ≡ true))
    × ((str_contains block (pattern keyword name)
          || str_contains block (spaced_pattern keyword name))
        ≡ true)

or_left : (a b : Bool) → a ≡ true → (a || b) ≡ true
or_left a b e = rw e refl

or_right : (a b : Bool) → b ≡ true → (a || b) ≡ true
or_right true b e = refl
or_right false b e = e

-- With a lexer that keeps its laws, for a source of less than 2^32 bytes and a keyword and a name
-- without an opening brace: a block that extract_named_block returns starts with the keyword and
-- the name in parentheses, with or without a space before them, so that the search for the one or
-- the other in the block, by which the tests look for the node, succeeds on every source.
pub extract_named_block-IsTitled :
    (lexer : Lexer) (source keyword name block : Text)
    → IsLexer lexer
    → length source < 2 ^ 32
    → HasNoBrace keyword
    → HasNoBrace name
    → extract_named_block lexer source keyword name ≡ some block
    → IsTitled keyword name block
extract_named_block-IsTitled lexer source keyword name block laws small h k e =
    titled ((extract_named_block_iff lexer laws source keyword name block small).0 e)
  where
    titled : IsNamedBlock lexer source keyword name block → IsTitled keyword name block
    titled b = elim b.earliest.here [
      | inl one ↦
          let p =
            block_prefix lexer (pattern keyword name) (drop b.start source) block
              (pattern-HasNoBrace keyword name h k) b.extent one in
          (inl p, or_left _ _ (str_contains-prefix (pattern keyword name) block p))
      | inr two ↦
          let p =
            block_prefix lexer (spaced_pattern keyword name) (drop b.start source) block
              (spaced_pattern-HasNoBrace keyword name h k) b.extent two in
          (inr p, or_right _ _ (str_contains-prefix (spaced_pattern keyword name) block p))
    ]
