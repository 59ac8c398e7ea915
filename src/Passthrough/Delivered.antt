-- ===== src/Passthrough/Delivered.antt =====
-- The loop of send_cmd on a line with a message of the controller.
use mathlib.Core.Path.{subst}
use mathlib.Core.List.{append-nil, append_assoc}
use odp_platform_radxa_orion.Common.{
  ℕ, zero, suc, ◌+◌, ◌≤◌, ◌≡◌, ◌∙◌, refl, sym, ap, Bool, true, false, some, List, [], ◌∷◌, ◌++◌,
  if◌then◌else◌, arith, le→leb,
}
use odp_platform_radxa_orion.Common.Lists.{length, length-append}
use odp_platform_radxa_orion.Passthrough.{
  line_port, Line, returned, round, next, receive, bufsz, is_start, take_bytes, skip_bytes, read,
  read_body, accept, extend, packet_payload, accepted_len,
}
use odp_platform_radxa_orion.Passthrough.Flags.{is_start_lem, is_end_lem}
use odp_platform_radxa_orion.Passthrough.Packets.{
  ends_message, Packet, IsPacket, IsMessage, packet_bytes, byte_count, wire, payloads,
}

abbrev pub on_line : List ℕ → List ℕ → Line
on_line sent incoming = record { sent = sent; incoming = incoming }

pub take_bytes-append :
    (n : ℕ) (front rest : List ℕ)
    → length front ≡ n
    → take_bytes n (front ++ rest) ≡ some (front, rest)
unfolding take_bytes
take_bytes-append zero [] rest h = refl
take_bytes-append zero (b ∷ front) rest h = absurd (omega arith)
take_bytes-append (suc n) [] rest h = absurd (omega arith)
take_bytes-append (suc n) (b ∷ front) rest h =
    rw (take_bytes-append n front rest (omega arith)) refl

pub take_bytes_all :
    (n : ℕ) (bytes : List ℕ) → length bytes ≡ n → take_bytes n bytes ≡ some (bytes, [])
take_bytes_all n bytes h =
    ap (λ t. take_bytes n t) (sym (append-nil bytes)) ∙ take_bytes-append n bytes [] h

read-append :
    (n : ℕ) (front rest sent : List ℕ)
    → length front ≡ n
    → read n (on_line sent (front ++ rest)) ≡ returned front (on_line sent rest)
unfolding read
read-append n front rest sent h = rw (read, take_bytes-append n front rest h) refl

skip_bytes-append :
    (n : ℕ) (front rest : List ℕ) → length front ≡ n → skip_bytes n (front ++ rest) ≡ some rest
unfolding skip_bytes
skip_bytes-append zero [] rest h = refl
skip_bytes-append zero (b ∷ front) rest h = absurd (omega arith)
skip_bytes-append (suc n) [] rest h = absurd (omega arith)
skip_bytes-append (suc n) (b ∷ front) rest h = skip_bytes-append n front rest (omega arith)

skip_headers :
    (start : Bool) (a b c d v t f g : ℕ) (front rest : List ℕ)
    → length front ≡ (if start then 5 else 0)
    → skip_bytes
        (4 + 4 + (if start then 1 + 4 else 0))
        (a ∷ b ∷ c ∷ d ∷ v ∷ t ∷ f ∷ g ∷ (front ++ rest))
      ≡ some rest
unfolding skip_bytes
skip_headers true a b c d v t f g front rest h = skip_bytes-append 5 front rest h
skip_headers false a b c d v t f g front rest h = skip_bytes-append 0 front rest h

module _ (p : Packet) (ok : IsPacket p) (out : List ℕ) where
  payload-packet : packet_payload (packet_bytes p) ≡ some p.payload
  unfolding packet_payload
  payload-packet =
      skip_headers (is_start p.flags) p.destination p.command (byte_count p) p.source p.version
        p.destination_eid p.source_eid p.flags p.message_headers p.payload
        (ok.headers ∙ ap (λ (b : Bool). if b then 5 else 0) (sym (is_start_lem p.flags)))

  extend-packet : length (out ++ p.payload) ≤ bufsz → extend out p.payload ≡ some (out ++ p.payload)
  unfolding extend
  extend-packet room =
      rw (le→leb (length out + length p.payload) bufsz (omega (arith, length-append out p.payload)))
        refl

  accept-packet :
      length (out ++ p.payload) ≤ bufsz
      → accept out (packet_bytes p) ≡ some (ends_message p.flags, out ++ p.payload)
  unfolding accept
  accept-packet room =
      rw (accept, payload-packet, extend-packet room)
        (ap (λ b. some (b, out ++ p.payload)) (is_end_lem p.flags))

  accepted_len-packet : accepted_len (byte_count p) ≡ true
  unfolding accepted_len
  accepted_len-packet =
      rw (le→leb 4 (byte_count p) (omega arith), le→leb (byte_count p) 69 ok.fits) refl

  read-packet :
      (sent rest : List ℕ)
      → read (byte_count p) (
          on_line sent (
            p.version
            ∷ p.destination_eid
            ∷ p.source_eid
            ∷ p.flags
            ∷ ((p.message_headers ++ p.payload) ++ rest)))
        ≡ returned
            (p.version
              ∷ p.destination_eid
              ∷ p.source_eid
              ∷ p.flags
              ∷ (p.message_headers ++ p.payload))
            (on_line sent rest)
  read-packet sent rest =
      read-append (byte_count p)
        (p.version ∷ p.destination_eid ∷ p.source_eid ∷ p.flags ∷ (p.message_headers ++ p.payload))
        rest sent (omega arith)

  -- A round takes a packet off the line.
  round-packet :
      (sent rest : List ℕ)
      → length (out ++ p.payload) ≤ bufsz
      → round out (on_line sent (packet_bytes p ++ rest))
        ≡ returned (ends_message p.flags, out ++ p.payload) (on_line sent rest)
  unfolding round read_body
  round-packet sent rest room =
      rw
        (
          read-append 4 (p.destination ∷ p.command ∷ byte_count p ∷ p.source ∷ [])
              (p.version
                ∷ p.destination_eid
                ∷ p.source_eid
                ∷ p.flags
                ∷ ((p.message_headers ++ p.payload) ++ rest))
              sent refl,
          read_body,
          accepted_len-packet,
          read-packet sent rest,
          accept-packet room,
        )
        refl

shorter_payload :
    (out front rest : List ℕ)
    → length (out ++ (front ++ rest)) ≤ bufsz
    → length (out ++ front) ≤ bufsz
shorter_payload out front rest h =
    omega (
      arith,
      h,
      length-append out (front ++ rest),
      length-append front rest,
      length-append out front,
    )

-- The loop takes a message off the line and returns its payload behind `out`.
pub receive-wire :
    (fuel : ℕ) (out : List ℕ) (ps : List Packet) (sent rest : List ℕ)
    → IsMessage ps
    → length ps ≤ fuel
    → length (out ++ payloads ps) ≤ bufsz
    → receive fuel out (on_line sent (wire ps ++ rest))
      ≡ returned (out ++ payloads ps) (on_line sent rest)
unfolding receive next
receive-wire fuel out [] sent rest h enough room = absurd h
receive-wire zero out (p ∷ ps) sent rest h enough room = absurd (omega arith)
receive-wire (suc fuel) out (p ∷ []) sent rest (ok, end) enough room =
    ap (λ t. receive (suc fuel) out (on_line sent (t ++ rest))) (append-nil (packet_bytes p))
    ∙ rw
        (
          append-nil p.payload,
          round-packet p ok out sent rest
              (subst (λ t. length (out ++ t) ≤ bufsz) (append-nil p.payload) room),
          end,
        )
        refl
receive-wire (suc fuel) out (p ∷ q ∷ ps) sent rest (ok, more, message) enough room =
    rw
      (
        append_assoc (packet_bytes p) (wire (q ∷ ps)) rest,
        round-packet p ok out sent (wire (q ∷ ps) ++ rest)
            (shorter_payload out p.payload (payloads (q ∷ ps)) room),
        more,
        ← append_assoc out p.payload (payloads (q ∷ ps)),
      )
      (receive-wire fuel (out ++ p.payload) (q ∷ ps) sent rest message (omega arith)
        (subst (λ t. length t ≤ bufsz) (sym (append_assoc out p.payload (payloads (q ∷ ps)))) room))

pub length-wire : (ps : List Packet) → length ps ≤ length (wire ps)
length-wire [] = omega arith
length-wire (p ∷ ps) = omega (arith, length-wire ps, length-append (packet_bytes p) (wire ps))
