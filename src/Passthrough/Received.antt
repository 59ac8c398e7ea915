-- ===== src/Passthrough/Received.antt =====
-- What a round of the loop of send_cmd takes off the line.

use odp_platform_radxa_orion.Common.{
  ℕ, ◌≤◌, ◌≡◌, ◌∙◌, refl, ap, Bool, Bool-cases, Option, none, some, List, [], ◌∷◌, ◌++◌, arith, inl,
  inr,
}
use odp_platform_radxa_orion.Common.Lists.{length}
use odp_platform_radxa_orion.Passthrough.{
  line_port, Line, Outcome, returned, panicked, waiting, stuck, or_panic, read, accept, read_body,
  round, accepted_len, bufsz,
}
use odp_platform_radxa_orion.Passthrough.Ends.{Ends, bind-Ends}
use odp_platform_radxa_orion.Passthrough.Packets.{ends_message, Packet, IsPacket, packet_bytes}
use odp_platform_radxa_orion.Passthrough.Accepted.{
  Kept, Taken, read-Read, Accepted, accept-Accepted,
}

-- Four bytes, and the bytes behind four.
four_bytes :
    (xs : List ℕ)
    → length xs ≡ 4
    → (a : ℕ) × (b : ℕ) × (c : ℕ) × (d : ℕ) × (xs ≡ a ∷ b ∷ c ∷ d ∷ [])
four_bytes (a ∷ b ∷ c ∷ d ∷ []) h = (a, b, c, d, refl)
four_bytes [] h = absurd (omega arith)
four_bytes (a ∷ []) h = absurd (omega arith)
four_bytes (a ∷ b ∷ []) h = absurd (omega arith)
four_bytes (a ∷ b ∷ c ∷ []) h = absurd (omega arith)
four_bytes (a ∷ b ∷ c ∷ d ∷ e ∷ xs) h = absurd (omega arith)

behind_four :
    (xs : List ℕ)
    → 4 ≤ length xs
    → (a : ℕ) × (b : ℕ) × (c : ℕ) × (d : ℕ) × (rest : List ℕ) × (xs ≡ a ∷ b ∷ c ∷ d ∷ rest)
behind_four (a ∷ b ∷ c ∷ d ∷ rest) h = (a, b, c, d, rest, refl)
behind_four [] h = absurd (omega arith)
behind_four (a ∷ []) h = absurd (omega arith)
behind_four (a ∷ b ∷ []) h = absurd (omega arith)
behind_four (a ∷ b ∷ c ∷ []) h = absurd (omega arith)

-- A round that returns took a packet off the line and put its payload behind `out`.
abbrev pub Round : List ℕ → Line → Bool × List ℕ → Line → Type 0
Round out line (ends, more) left =
    (left.sent ≡ line.sent)
    × (p : Packet) × IsPacket p
    × (ends_message p.flags ≡ ends)
    × (line.incoming ≡ packet_bytes p ++ left.incoming)
    × (more ≡ out ++ p.payload)
    × (length more ≤ bufsz)

module _ (out : List ℕ) (line : Line) where
  -- What is done with bytes that were taken off the line.
  or_panic-Round :
      (bytes : List ℕ) (result : Option (Bool × List ℕ)) (left : Line)
      → left.sent ≡ line.sent
      → line.incoming ≡ bytes ++ left.incoming
      → Accepted out bytes result
      → Ends (Kept line) (Round out line) (or_panic result left)
  or_panic-Round bytes none left s e h = s
  or_panic-Round bytes (some (ends, more)) left s e (p, ok, end, shape, extended, bound) =
      (s, p, ok, end, e ∙ ap (λ t. t ++ left.incoming) shape, extended, bound)

  behind_header :
      (a b c d : ℕ) (body : List ℕ) (left : Line)
      → 4 ≤ c
      → c ≤ 69
      → left.sent ≡ line.sent
      → line.incoming ≡ (a ∷ b ∷ c ∷ d ∷ []) ++ (body ++ left.incoming)
      → length body ≡ c
      → Ends
          (Kept line)
          (Round out line)
          (or_panic (accept out ((a ∷ b ∷ c ∷ d ∷ []) ++ body)) left)
  behind_header a b c d body left low high s e l =
      let (v, t, f, g, rest, shape) = behind_four body (omega arith) in
      or_panic-Round ((a ∷ b ∷ c ∷ d ∷ []) ++ body) (accept out ((a ∷ b ∷ c ∷ d ∷ []) ++ body)) left
        s e
        (rw shape (
          accept-Accepted out a b c d v t f g rest
            (omega (arith, l, ap (λ (t : List ℕ). length t) shape)) high))

  kept :
      {A : Type 0} (given : A → Line → Type 0) (left : Line)
      → left.sent ≡ line.sent
      → (call : Outcome A) → Ends (Kept left) given call
      → Ends (Kept line) given call
  kept given left s (returned a l) h = h
  kept given left s (panicked l) h = h ∙ s
  kept given left s (waiting l) h = h ∙ s
  kept given left s stuck h = h

  read_header :
      (a b c d : ℕ) (left : Line)
      → left.sent ≡ line.sent
      → line.incoming ≡ (a ∷ b ∷ c ∷ d ∷ []) ++ left.incoming
      → Ends (Kept line) (Round out line) (read_body out (a ∷ b ∷ c ∷ d ∷ []) left)
  unfolding read_body accepted_len
  read_header a b c d left s e = elim (Bool-cases (accepted_len c)) [
    | inr refused ↦ rw refused s
    | inl accepted ↦ rw accepted (
        bind-Ends (Kept line) (Taken c left) (Round out line) (read c left)
          (λ body. or_panic (accept out ((a ∷ b ∷ c ∷ d ∷ []) ++ body)))
          (kept (Taken c left) left s (read c left) (read-Read c left))
          (λ body left' h.
            behind_header a b c d body left' (ground arith) (ground arith) (h.0 ∙ s)
              (e ∙ ap (λ t. a ∷ b ∷ c ∷ d ∷ t) h.1) h.2))
  ]

  read_body-Round :
      (header : List ℕ) (left : Line)
      → left.sent ≡ line.sent
      → line.incoming ≡ header ++ left.incoming
      → length header ≡ 4
      → Ends (Kept line) (Round out line) (read_body out header left)
  read_body-Round header left s e l =
      let (a, b, c, d, shape) = four_bytes header l in
      rw shape (read_header a b c d left s (e ∙ ap (λ t. t ++ left.incoming) shape))

  pub round-Round : Ends (Kept line) (Round out line) (round out line)
  unfolding round
  round-Round =
      bind-Ends (Kept line) (Taken 4 line) (Round out line) (read 4 line) (read_body out)
        (read-Read 4 line) (λ header left h. read_body-Round header left h.0 h.1 h.2)
