-- ===== src/Passthrough/Accepted.antt =====
-- What a read of the UART takes off the line, and what is done with the bytes of a packet.

use odp_platform_radxa_orion.Common.{
  ℕ, zero, suc, ◌+◌, ◌≤◌, ◌≡◌, refl, ap, Bool, true, false, Bool-cases, Option, none, some, List,
  [], ◌∷◌, ◌++◌, leb, if◌then◌else◌, arith, inl, inr,
}
use odp_platform_radxa_orion.Common.Lists.{length, length-append}
use odp_platform_radxa_orion.Passthrough.{
  Line, Outcome, returned, waiting, take_bytes, read, accept, packet_payload, skip_bytes, extend,
  bufsz, is_start, is_end,
}
use odp_platform_radxa_orion.Passthrough.Ends.{Ends, Split, take_bytes-Split}
use odp_platform_radxa_orion.Passthrough.Flags.{is_start_lem, is_end_lem}
use odp_platform_radxa_orion.Common.{◌∙◌, sym, ap, Bool}
use odp_platform_radxa_orion.Passthrough.Packets.{ends_message, Packet, IsPacket, packet_bytes}

-- A panic or a wait leaves what was sent.
abbrev pub Kept : Line → Line → Type 0
Kept line left = left.sent ≡ line.sent

-- A read that returns took its bytes off the line.
abbrev pub Taken : ℕ → Line → List ℕ → Line → Type 0
Taken n line bytes left =
    (left.sent ≡ line.sent) × (line.incoming ≡ bytes ++ left.incoming) × (length bytes ≡ n)

abbrev pub Read : ℕ → Line → Outcome (List ℕ) → Type 0
Read n line = Ends (Kept line) (Taken n line)

pub read-Read : (n : ℕ) (line : Line) → Read n line (read n line)
unfolding read
read-Read n line = split (take_bytes n line.incoming) (take_bytes-Split n line.incoming)
  where
    split :
        (result : Option (List ℕ × List ℕ))
        → Split n line.incoming result
        → Read n line (elim result [
          | none ↦ waiting (record line { incoming = [] })
          | some (front, rest) ↦ returned front (record line { incoming = rest })
        ])
    split none h = refl
    split (some (front, rest)) (e, l) = (refl, e, l)

-- The bytes that were skipped, and those behind them.
abbrev Skipped : ℕ → List ℕ → Option (List ℕ) → Type 0
Skipped n bytes none = Unit
Skipped n bytes (some rest) = (front : List ℕ) × (bytes ≡ front ++ rest) × (length front ≡ n)

cons-Skipped :
    (n b : ℕ) (bytes : List ℕ) (result : Option (List ℕ))
    → Skipped n bytes result
    → Skipped (suc n) (b ∷ bytes) result
cons-Skipped n b bytes none h = tt
cons-Skipped n b bytes (some rest) (front, e, l) = (b ∷ front, ap (λ t. b ∷ t) e, ap suc l)

skip_bytes-Skipped : (n : ℕ) (bytes : List ℕ) → Skipped n bytes (skip_bytes n bytes)
unfolding skip_bytes
skip_bytes-Skipped zero bytes = ([], refl, refl)
skip_bytes-Skipped (suc n) [] = tt
skip_bytes-Skipped (suc n) (b ∷ bytes) =
    cons-Skipped n b bytes (skip_bytes n bytes) (skip_bytes-Skipped n bytes)

-- The payload starts behind the message's headers, if there are any.
skip_headers :
    (start : Bool) (a b c d v t f g : ℕ) (body : List ℕ)
    → Skipped
        (if start then 5 else 0)
        body
        (skip_bytes (4 + 4 + (if start then 1 + 4 else 0)) (a ∷ b ∷ c ∷ d ∷ v ∷ t ∷ f ∷ g ∷ body))
unfolding skip_bytes
skip_headers true a b c d v t f g body = skip_bytes-Skipped 5 body
skip_headers false a b c d v t f g body = skip_bytes-Skipped 0 body

abbrev Extended : List ℕ → List ℕ → Option (List ℕ) → Type 0
Extended out slice none = Unit
Extended out slice (some more) = (more ≡ out ++ slice) × (length more ≤ bufsz)

extend-Extended : (out slice : List ℕ) → Extended out slice (extend out slice)
unfolding extend
extend-Extended out slice = elim (Bool-cases (leb (length out + length slice) bufsz)) [
  | inl e ↦ rw e (refl, ground (arith, length-append out slice))
  | inr e ↦ rw e tt
]

-- The bytes that were read are a packet's, and what was put behind `out` is its payload.
abbrev pub Accepted : List ℕ → List ℕ → Option (Bool × List ℕ) → Type 0
Accepted out bytes none = Unit
Accepted out bytes (some (ends, more)) =
    (p : Packet) × IsPacket p
    × (ends_message p.flags ≡ ends)
    × (bytes ≡ packet_bytes p)
    × (more ≡ out ++ p.payload)
    × (length more ≤ bufsz)

pub accept-Accepted :
    (out : List ℕ) (a b c d v t f g : ℕ) (body : List ℕ)
    → 4 + length body ≡ c
    → c ≤ 69
    → Accepted out
        (a ∷ b ∷ c ∷ d ∷ v ∷ t ∷ f ∷ g ∷ body)
        (accept out (a ∷ b ∷ c ∷ d ∷ v ∷ t ∷ f ∷ g ∷ body))
unfolding accept packet_payload
accept-Accepted out a b c d v t f g body count fits =
    payload _ (skip_headers (is_start g) a b c d v t f g body)
  where
    more :
        (headers slice : List ℕ) (result : Option (List ℕ))
        → body ≡ headers ++ slice
        → length headers ≡ (if is_start g then 5 else 0)
        → Extended out slice result
        → Accepted out
            (a ∷ b ∷ c ∷ d ∷ v ∷ t ∷ f ∷ g ∷ body)
            (elim result [ none ↦ none | some extended ↦ some (is_end g, extended) ])
    more headers slice none e l h = tt
    more headers slice (some out') e l (h, bound) = (
      record {
        destination = a;
        command = b;
        source = d;
        version = v;
        destination_eid = t;
        source_eid = f;
        flags = g;
        message_headers = headers;
        payload = slice;
      },
      record {
        headers = l ∙ ap (λ (b : Bool). if b then 5 else 0) (is_start_lem g);
        fits = rw (← e, count) fits;
      },
      sym (is_end_lem g),
      rw (← e, count) refl,
      h,
      bound,
    )

    payload :
        (result : Option (List ℕ))
        → Skipped (if is_start g then 5 else 0) body result
        → Accepted out (a ∷ b ∷ c ∷ d ∷ v ∷ t ∷ f ∷ g ∷ body) (elim result [
          | none ↦ none
          | some slice ↦ elim (extend out slice) [
            | none ↦ none
            | some extended ↦ some (is_end g, extended)
          ]
        ])
    payload none h = tt
    payload (some slice) (headers, e, l) =
        more headers slice (extend out slice) e l (extend-Extended out slice)
