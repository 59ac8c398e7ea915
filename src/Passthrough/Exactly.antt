-- ===== src/Passthrough/Exactly.antt =====
-- The loop of send_cmd returns exactly where the line starts with a message.
use mathlib.Core.Path.{subst}
use odp_platform_radxa_orion.Common.{ℕ, ◌<◌, ◌≤◌, ◌≡◌, ◌∙◌, ◌↔◌, sym, ap, ap₂, List, arith}
use odp_platform_radxa_orion.Common.Lists.{length, length-append}
use odp_platform_radxa_orion.Passthrough.{line_port, Line, returned, receive, bufsz}
use odp_platform_radxa_orion.Passthrough.Ends.{Ends}
use odp_platform_radxa_orion.Passthrough.Packets.{wire}
use odp_platform_radxa_orion.Passthrough.Accepted.{Kept}
use odp_platform_radxa_orion.Passthrough.Message.{Received, receive-Received}
use odp_platform_radxa_orion.Passthrough.Delivered.{on_line, receive-wire, length-wire}

module _ (fuel : ℕ) (out : List ℕ) (line : Line) (enough : length line.incoming < fuel) where
  message_returned :
      (out' : List ℕ) (left : Line)
      → Received out line out' left
      → receive fuel out line ≡ returned out' left
  message_returned out' left (s, ps, message, e, extended, bound) =
      ap (receive fuel out) (ap₂ on_line (sym s) e)
      ∙ receive-wire fuel out ps left.sent left.incoming message
          (omega (
            arith,
            enough,
            ap (λ (t : List ℕ). length t) e,
            length-append (wire ps) left.incoming,
            length-wire ps,
          ))
          (subst (λ t. length t ≤ bufsz) extended bound)
      ∙ ap (λ t. returned t left) (sym extended)

  -- With more rounds than the line has bytes, the loop of send_cmd returns bytes and a line
  -- exactly if the line before starts with a message of well-formed packets, of which the last one
  -- alone has the end-of-message flag, the bytes are those it had and the packets' payload behind
  -- them, at most 256 in all, and the line returned has sent nothing more and holds what is behind
  -- the message.
  pub receive_iff :
      (out' : List ℕ) (left : Line)
      → (receive fuel out line ≡ returned out' left) ↔ Received out line out' left
  receive_iff out' left = (
    λ e. subst (Ends (Kept line) (Received out line)) e (receive-Received fuel out line enough),
    message_returned out' left,
  )
