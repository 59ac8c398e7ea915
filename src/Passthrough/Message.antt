-- ===== src/Passthrough/Message.antt =====
-- The loop of send_cmd against the controller's messages.
use mathlib.Core.List.{append-nil, append_assoc}
use odp_platform_radxa_orion.Common.{
  ℕ, zero, suc, ◌<◌, ◌≤◌, ◌≡◌, ◌∙◌, sym, ap, Bool, true, false, List, [], ◌∷◌, ◌++◌, arith,
}
use odp_platform_radxa_orion.Common.Lists.{length, length-append}
use odp_platform_radxa_orion.Passthrough.{
  line_port, Line, Outcome, returned, panicked, waiting, stuck, round, next, receive, bufsz,
}
use odp_platform_radxa_orion.Passthrough.Ends.{Ends, bind-Ends}
use odp_platform_radxa_orion.Passthrough.Packets.{Packet, IsMessage, packet_bytes, wire, payloads}
use odp_platform_radxa_orion.Passthrough.Accepted.{Kept}
use odp_platform_radxa_orion.Passthrough.Received.{Round, round-Round}

-- The loop has taken a message off the line and put its payload behind `out`.
abbrev pub Received : List ℕ → Line → List ℕ → Line → Type 0
Received out line out' left =
    (left.sent ≡ line.sent)
    × (ps : List Packet) × IsMessage ps
    × (line.incoming ≡ wire ps ++ left.incoming)
    × (out' ≡ out ++ payloads ps)
    × (length out' ≤ bufsz)

-- A packet takes bytes off the line.
shorter :
    (front rest line : List ℕ) → line ≡ front ++ rest → 0 < length front → length rest < length line
shorter front rest line e h = rw e (omega (arith, length-append front rest))

last_packet :
    (out : List ℕ) (line left : Line) (more : List ℕ)
    → Round out line (true, more) left
    → Received out line more left
last_packet out line left more (s, p, ok, end, e, extended, bound) =
    (s, p ∷ [], (ok, end), rw append-nil e, rw append-nil extended, bound)

-- A packet that does not end the message, and the message behind it.
more_packets :
    (out : List ℕ) (line middle left : Line) (more out' : List ℕ)
    → Round out line (false, more) middle
    → Received more middle out' left
    → Received out line out' left
more_packets out line middle left more out' (s, p, ok, end, e, extended, bound)
      (s', ps, message, e', extended', bound') =
    (
      s' ∙ s,
      p ∷ ps,
      behind ps message,
      e
          ∙ ap (λ t. packet_bytes p ++ t) e'
          ∙ sym (append_assoc (packet_bytes p) (wire ps) left.incoming),
      extended' ∙ ap (λ t. t ++ payloads ps) extended ∙ append_assoc out p.payload (payloads ps),
      bound',
    )
  where
    behind : (ps : List Packet) → IsMessage ps → IsMessage (p ∷ ps)
    behind [] h = absurd h
    behind (q ∷ ps) h = (ok, end, h)

later_packets :
    (out : List ℕ) (line middle : Line) (more : List ℕ) (call : Outcome (List ℕ))
    → Round out line (false, more) middle
    → Ends (Kept middle) (Received more middle) call
    → Ends (Kept line) (Received out line) call
later_packets out line middle more (returned out' left) r k =
    more_packets out line middle left more out' r k
later_packets out line middle more (panicked left) r k = k ∙ r.0
later_packets out line middle more (waiting left) r k = k ∙ r.0
later_packets out line middle more stuck r k = k

-- The loop from a round's result on.
next-Received :
    (fuel : ℕ) (out : List ℕ) (line : Line) (result : Bool × List ℕ) (left : Line)
    → ((more : List ℕ)
        → length left.incoming < length line.incoming
        → Ends (Kept left) (Received more left) (receive fuel more left))
    → Round out line result left
    → Ends (Kept line) (Received out line) (next (receive fuel) result left)
unfolding next
next-Received fuel out line (true, more) left again r = last_packet out line left more r
next-Received fuel out line (false, more) left again r =
    later_packets out line left more (receive fuel more left) r
      (again more (shorter (packet_bytes r.1) left.incoming line.incoming r.4 (omega arith)))

-- With more rounds than the line has bytes, the loop of send_cmd ends: it returns, panics, or
-- waits for a byte. It has sent nothing; if it returns, it has taken a message of well-formed
-- packets off the line, of which the last one alone has the end-of-message flag, and has put their
-- payload behind the bytes it had, at most 256 in all.
pub receive-Received :
    (fuel : ℕ) (out : List ℕ) (line : Line)
    → length line.incoming < fuel
    → Ends (Kept line) (Received out line) (receive fuel out line)
unfolding receive
receive-Received zero out line h = absurd (omega arith)
receive-Received (suc fuel) out line h =
    bind-Ends (Kept line) (Round out line) (Received out line) (round out line)
      (next (receive fuel)) (round-Round out line)
      (λ result left.
        next-Received fuel out line result left
          (λ more less. receive-Received fuel more left (omega arith)))
