-- ===== src/Asl/Named.antt =====
-- extract_named_block: the block of a keyword and a name.
use mathlib.Core.Path.{subst}
use odp_platform_radxa_orion.Common.{
  ℕ, ◌^◌, ◌<◌, ◌≡◌, ◌⊎◌, ◌↔◌, refl, sym, ◌∙◌, ap, true, false, inl, inr, Option, none, some, min,
  arith, dec_lt,
}
use odp_platform_radxa_orion.Common.Lists.{length, drop}
use odp_platform_radxa_orion.Asl.{
  Text, Lexer, is_prefix, str_find, pattern, spaced_pattern, earliest, block_at,
  extract_named_block,
}
use odp_platform_radxa_orion.Asl.Find.{IsFirst, Nowhere, Found, str_find-Found, both}
use odp_platform_radxa_orion.Asl.Blocks.{IsLexer, IsBlock, block_at_iff, none_text, length-drop}

-- The first position where one of two texts stands.
pub record IsEarliest (p q : Text) (i : ℕ) (s : Text) : Type 0 where
  pub here : (is_prefix p (drop i s) ≡ true) ⊎ (is_prefix q (drop i s) ≡ true)
  pub not_before :
      (j : ℕ) → j < i → (is_prefix p (drop j s) ≡ false) × (is_prefix q (drop j s) ≡ false)

abbrev EarliestFound : Text → Text → Text → Option ℕ → Type 0
EarliestFound p q s none = Nowhere p s × Nowhere q s
EarliestFound p q s (some i) = IsEarliest p q i s

module _ (p q s : Text) where
  both_found : (i j : ℕ) → IsFirst p i s → IsFirst q j s → IsEarliest p q (min i j) s
  both_found i j f g = elim (dec_lt i j) [
    | yes k ↦
        subst (λ n. IsEarliest p q n s) (let e : i ≡ min i j = omega arith in e)
          (record {
            here = inl f.here;
            not_before = λ n l. (f.not_before n l, g.not_before n (omega arith));
          })
    | no k ↦
        subst (λ n. IsEarliest p q n s) (let e : j ≡ min i j = omega arith in e)
          (record {
            here = inr g.here;
            not_before = λ n l. (f.not_before n (omega arith), g.not_before n l);
          })
  ]

  earliest-Found : (a b : Option ℕ) → Found p s a → Found q s b → EarliestFound p q s (earliest a b)
  earliest-Found none none f g = (f, g)
  earliest-Found none (some j) f g = record {
    here = inr g.here;
    not_before = λ n l. (f n, g.not_before n l);
  }
  earliest-Found (some i) none f g = record {
    here = inl f.here;
    not_before = λ n l. (f.not_before n l, g n);
  }
  earliest-Found (some i) (some j) f g = both_found i j f g

  -- One of the texts stands at a position, and none does.
  not_here :
      (i : ℕ)
      → (is_prefix p (drop i s) ≡ true) ⊎ (is_prefix q (drop i s) ≡ true)
      → (is_prefix p (drop i s) ≡ false) × (is_prefix q (drop i s) ≡ false)
      → ⊥
  not_here i (inl h) (k, l) = both h k
  not_here i (inr h) (k, l) = both h l

  EarliestFound-some :
      (found : Option ℕ) (i : ℕ) → IsEarliest p q i s → EarliestFound p q s found → found ≡ some i
  EarliestFound-some none i first h = absurd (not_here i first.here (h.0 i, h.1 i))
  EarliestFound-some (some j) i first h = elim (dec_lt i j) [
    | yes k ↦ absurd (not_here i first.here (h.not_before i k))
    | no k ↦ elim (dec_lt j i) [
      | yes l ↦ absurd (not_here j h.here (first.not_before j l))
      | no l ↦ ap some (omega arith)
    ]
  ]

-- A block of the source: it starts at the first position where the keyword with the name in
-- parentheses stands, with or without a space before them.
pub record IsNamedBlock (lexer : Lexer) (source keyword name block : Text) : Type 0 where
  pub start : ℕ
  pub earliest : IsEarliest (pattern keyword name) (spaced_pattern keyword name) start source
  pub extent : IsBlock lexer (drop start source) block

-- Where the source has the keyword with the name, first.
abbrev place : Text → Text → Text → Option ℕ
place source keyword name =
    earliest (str_find (pattern keyword name) source)
      (str_find (spaced_pattern keyword name) source)

place-Found :
    (source keyword name : Text)
    → EarliestFound
        (pattern keyword name)
        (spaced_pattern keyword name)
        source
        (place source keyword name)
place-Found source keyword name =
    earliest-Found (pattern keyword name) (spaced_pattern keyword name) source
      (str_find (pattern keyword name) source) (str_find (spaced_pattern keyword name) source)
      (str_find-Found (pattern keyword name) source)
      (str_find-Found (spaced_pattern keyword name) source)

module _ (lexer : Lexer) (laws : IsLexer lexer) (source keyword name block : Text) where
  extract_at :
      (start : ℕ)
      → place source keyword name ≡ some start
      → extract_named_block lexer source keyword name ≡ block_at lexer (drop start source)
  unfolding extract_named_block
  extract_at start e = rw (e, extract_named_block) refl

  extract_nowhere :
      place source keyword name ≡ none → extract_named_block lexer source keyword name ≡ none
  unfolding extract_named_block
  extract_nowhere e = rw (e, extract_named_block) refl

  -- With a lexer that keeps its laws, for a source of less than 2^32 bytes: extract_named_block
  -- returns a block exactly if, behind the first place where the keyword stands with the name in
  -- parentheses, with or without a space before them, there is an opening brace, and behind the
  -- first one the tokens up to some closing brace are balanced; the block is the text from that
  -- first place to the end of this brace.
  pub extract_named_block_iff :
      length source < 2 ^ 32
      → (extract_named_block lexer source keyword name ≡ some block)
        ↔ IsNamedBlock lexer source keyword name block
  extract_named_block_iff small = (
    to_block (place source keyword name) refl (place-Found source keyword name),
    λ b.
        extract_at b.start (
          EarliestFound-some (pattern keyword name) (spaced_pattern keyword name) source
            (place source keyword name) b.start b.earliest (place-Found source keyword name))
        ∙ (block_at_iff lexer laws (drop b.start source) block (room b.start)).1 b.extent,
  )
    where
      room : (start : ℕ) → length (drop start source) < 2 ^ 32
      room start = omega (arith, small, length-drop start source)

      to_block :
          (found : Option ℕ)
          → place source keyword name ≡ found
          → EarliestFound (pattern keyword name) (spaced_pattern keyword name) source found
          → extract_named_block lexer source keyword name ≡ some block
          → IsNamedBlock lexer source keyword name block
      to_block none e f k = absurd (none_text (sym (extract_nowhere e) ∙ k))
      to_block (some start) e f k = record {
        start = start;
        earliest = f;
        extent =
            (block_at_iff lexer laws (drop start source) block (room start)).0
              (sym (extract_at start e) ∙ k);
      }
