-- ===== src/Tests/Uarts.antt =====
-- A UART that is busy for two reads of its flags behind each byte.
use odp_platform_radxa_orion.Common.{
  ℕ, ◌+◌, ◌%◌, ◌^◌, ◌<◌, ◌≡◌, ◌≢◌, refl, ap, false, true, some, List, [], ◌∷◌, ◌++◌, arith,
}
use odp_platform_radxa_orion.Passthrough.{Line, write}
use odp_platform_radxa_orion.Passthrough.Uart.{
  Registers, is_full, is_empty, poll, write_byte, read_byte, write_bytes, read_bytes,
}
use odp_platform_radxa_orion.Passthrough.Uart.Bytes.{IsUart}

-- The reads of the flags until the device is ready.
pub data Busy : Type 0 where
  idle one_more two_more : Busy

abbrev less : Busy → Busy
less two_more = one_more
less one_more = idle
less idle = idle

abbrev reads_left : Busy → ℕ
reads_left two_more = 2
reads_left one_more = 1
reads_left idle = 0

pub record Pl011 : Type 0 where
  pub sent : List ℕ
  pub incoming : List ℕ
  pub busy : Busy

-- Both flags are set while the device is busy; later the receiver is empty where nothing comes.
abbrev flags : Busy → List ℕ → ℕ
flags idle [] = 0x10
flags idle (b ∷ bs) = 0
flags one_more bs = 0x30
flags two_more bs = 0x30

-- The data register has an error flag above the byte.
abbrev data_register : List ℕ → ℕ
data_register [] = 0
data_register (b ∷ bs) = b % 2 ^ 8 + 2 ^ 8

abbrev behind : List ℕ → List ℕ
behind [] = []
behind (b ∷ bs) = bs

abbrev bytes : List ℕ → List ℕ
bytes [] = []
bytes (b ∷ bs) = b % 2 ^ 8 ∷ bytes bs

abbrev pub pl011 : Registers Pl011
pl011 = record {
  read_fr = λ s. (flags s.busy s.incoming, record s { busy = less s.busy });
  read_dr =
      λ s. (data_register s.incoming, record s { incoming = behind s.incoming; busy = two_more });
  write_dr = λ c s. record s { sent = s.sent ++ c ∷ []; busy = two_more };
}

abbrev pub line : Pl011 → Line
line s = record { sent = s.sent; incoming = bytes s.incoming }

abbrev start : Pl011
start = record { sent = []; incoming = 5 ∷ 6 ∷ 7 ∷ []; busy = one_more }

sent_and_read :
    (read_bytes pl011 3 2 start
      ≡ some (5 ∷ 6 ∷ [], record { sent = []; incoming = 7 ∷ []; busy = two_more }))
    × (write_bytes pl011 3 (1 ∷ 2 ∷ []) start
        ≡ some (record { sent = 1 ∷ 2 ∷ []; incoming = 5 ∷ 6 ∷ 7 ∷ []; busy = two_more }))
unfolding read_bytes read_byte write_bytes write_byte poll
sent_and_read = (refl, refl)

fewer_reads :
    (busy : Busy) (bs : List ℕ)
    → is_full (flags busy bs) ≡ true
    → reads_left (less busy) < reads_left busy
fewer_reads idle [] h = cc h
fewer_reads idle (b ∷ bs) h = cc h
fewer_reads one_more bs h = omega arith
fewer_reads two_more bs h = omega arith

nearer_byte :
    (busy : Busy) (bs : List ℕ)
    → bytes bs ≢ []
    → is_empty (flags busy bs) ≡ true
    → reads_left (less busy) < reads_left busy
nearer_byte idle [] ne h = absurd (ne refl)
nearer_byte idle (b ∷ bs) ne h = cc h
nearer_byte one_more bs ne h = omega arith
nearer_byte two_more bs ne h = omega arith

few_reads : (busy : Busy) → reads_left busy < 3
few_reads idle = omega arith
few_reads one_more = omega arith
few_reads two_more = omega arith

received :
    (busy : Busy) (bs : List ℕ)
    → is_empty (flags busy bs) ≡ false
    → (b : ℕ) × (rest : List ℕ) × (bytes bs ≡ b ∷ rest)
      × (data_register bs % 2 ^ 8 ≡ b)
      × (bytes (behind bs) ≡ rest)
received idle [] h = cc h
received idle (b ∷ bs) h = (b % 2 ^ 8, bytes bs, refl, omega arith, refl)
received one_more bs h = cc h
received two_more bs h = cc h

pub pl011-IsUart : IsUart pl011 line 3
unfolding write
pl011-IsUart = record {
  flags_keep = λ s. refl;
  sends = λ s c room. refl;
  receives = λ s byte.
      let (b, rest, e, value, left) = received s.busy s.incoming byte in
      (b, rest, e, value, ap (λ t. record (line s) { incoming = t }) left);
  until_room = λ s. reads_left s.busy;
  room_bound = λ s. few_reads s.busy;
  drains = λ s full. fewer_reads s.busy s.incoming full;
  until_byte = λ s. reads_left s.busy;
  byte_bound = λ s. few_reads s.busy;
  arrives = λ s more empty. nearer_byte s.busy s.incoming more empty;
}
