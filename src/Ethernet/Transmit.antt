-- ===== src/Ethernet/Transmit.antt =====
-- What the card reads of the packets that `packet_transmit` of drivers/ethernet/intel/x550.c puts on the
-- ring. The card's side, `fetch`, is as its documentation has it: it takes the descriptors from its head
-- on, up to the tail that was written, and the ring is empty where both are equal.
use oscar_kernel.Common.{
  ℕ, zero, suc, ◌+◌, ◌-◌, ◌%◌, ◌≤◌, ◌<◌, ◌≡◌, ◌≢◌, refl, ap, ◌∙◌, sym, List, [], ◌∷◌, map, length,
  ◌==◌, ==_refl, ==_ne, if◌then◌else◌, arith,
}
use oscar_kernel.Ethernet.{TxDesc, Hw, tdt, packet_desc, packet_transmit}

-- Several calls of `packet_transmit`, one after the other.
unfoldable pub transmit_all : Hw → List (ℕ × ℕ) → Hw
transmit_all hw [] = hw
transmit_all hw ((buffer, len) ∷ packets) = transmit_all (packet_transmit hw buffer len) packets

unfoldable pub fetch : ℕ → (ℕ → TxDesc) → ℕ → ℕ → List TxDesc
fetch zero ring head tail = []
fetch (suc rounds) ring head tail =
    let rest = fetch rounds ring ((head + 1) % 256) tail in
    if head == tail then [] else ring head ∷ rest

abbrev pub packet : ℕ × ℕ → TxDesc
packet (buffer, len) = packet_desc buffer len

-- The queue that is used is one of 256 descriptors, and the card knows its tail.
pub record IsReady (hw : Hw) : Type 0 where
  pub size : (hw.tx_queue 63).size ≡ 0x1000
  pub tail : (hw.tx_queue 63).tail < 256
  pub told : hw.written (tdt 63) ≡ (hw.tx_queue 63).tail

transmit-IsReady : (hw : Hw) (buffer len : ℕ) → IsReady hw → IsReady (packet_transmit hw buffer len)
unfolding packet_transmit
transmit-IsReady hw buffer len r = record {
  size = r.size;
  tail = rw r.size (omega arith);
  told = rw r.size (omega arith);
}

transmit_tail :
    (hw : Hw) (buffer len : ℕ)
    → IsReady hw
    → ((packet_transmit hw buffer len).tx_queue 63).tail ≡ ((hw.tx_queue 63).tail + 1) % 256
unfolding packet_transmit
transmit_tail hw buffer len r = rw r.size refl

all-IsReady : (hw : Hw) (packets : List (ℕ × ℕ)) → IsReady hw → IsReady (transmit_all hw packets)
unfolding transmit_all
all-IsReady hw [] r = r
all-IsReady hw ((buffer, len) ∷ packets) r =
    all-IsReady (packet_transmit hw buffer len) packets (transmit-IsReady hw buffer len r)

all_tail :
    (hw : Hw) (packets : List (ℕ × ℕ))
    → IsReady hw
    → ((transmit_all hw packets).tx_queue 63).tail ≡ ((hw.tx_queue 63).tail + length packets) % 256
unfolding transmit_all
all_tail hw [] r = omega (arith, r.tail)
all_tail hw ((buffer, len) ∷ packets) r = omega (
  arith,
  all_tail (packet_transmit hw buffer len) packets (transmit-IsReady hw buffer len r),
  transmit_tail hw buffer len r,
)

-- How far slot `s` is in front of the tail.
ahead : ℕ → ℕ → ℕ
ahead s tail = (s + 256 - tail) % 256

transmit_here :
    (hw : Hw) (buffer len : ℕ)
    → ((packet_transmit hw buffer len).tx_queue 63).tx_desc_ring (hw.tx_queue 63).tail
      ≡ packet_desc buffer len
unfolding packet_transmit
transmit_here hw buffer len = rw (==_refl (hw.tx_queue 63).tail) refl

transmit_elsewhere :
    (hw : Hw) (buffer len s : ℕ)
    → s ≢ (hw.tx_queue 63).tail
    → ((packet_transmit hw buffer len).tx_queue 63).tx_desc_ring s ≡ (hw.tx_queue 63).tx_desc_ring s
unfolding packet_transmit
transmit_elsewhere hw buffer len s ne = rw (==_ne s (hw.tx_queue 63).tail ne) refl

-- A slot that the packets do not reach keeps its descriptor.
all_elsewhere :
    (hw : Hw) (packets : List (ℕ × ℕ)) (s : ℕ)
    → IsReady hw
    → s < 256
    → length packets ≤ ahead s (hw.tx_queue 63).tail
    → ((transmit_all hw packets).tx_queue 63).tx_desc_ring s ≡ (hw.tx_queue 63).tx_desc_ring s
unfolding transmit_all ahead
all_elsewhere hw [] s r lt far = refl
all_elsewhere hw ((buffer, len) ∷ packets) s r lt far =
    all_elsewhere (packet_transmit hw buffer len) packets s (transmit-IsReady hw buffer len r) lt
      (omega (arith, far, lt, r.tail, transmit_tail hw buffer len r))
    ∙ transmit_elsewhere hw buffer len s (omega (arith, far, lt, r.tail))

fetch_stop :
    (rounds : ℕ) (ring : ℕ → TxDesc) (head tail : ℕ)
    → head ≡ tail
    → fetch rounds ring head tail ≡ []
unfolding fetch
fetch_stop zero ring head tail e = refl
fetch_stop (suc rounds) ring head tail e = rw (e, ==_refl tail) refl

fetch_go :
    (rounds : ℕ) (ring : ℕ → TxDesc) (head tail : ℕ)
    → head ≢ tail
    → fetch (suc rounds) ring head tail ≡ ring head ∷ fetch rounds ring ((head + 1) % 256) tail
unfolding fetch
fetch_go rounds ring head tail ne = rw (==_ne head tail ne) refl

-- The tail that the card was told after the packets.
all_told :
    (hw : Hw) (packets : List (ℕ × ℕ))
    → IsReady hw
    → (transmit_all hw packets).written (tdt 63) ≡ ((hw.tx_queue 63).tail + length packets) % 256
all_told hw packets r = (all-IsReady hw packets r).told ∙ all_tail hw packets r

-- The first packet is where the card's head is, whatever is sent after it.
all_first :
    (hw : Hw) (buffer len : ℕ) (packets : List (ℕ × ℕ))
    → IsReady hw
    → length packets < 255
    → ((transmit_all (packet_transmit hw buffer len) packets).tx_queue 63).tx_desc_ring
        (hw.tx_queue 63).tail
      ≡ packet_desc buffer len
unfolding ahead
all_first hw buffer len packets r few =
    all_elsewhere (packet_transmit hw buffer len) packets (hw.tx_queue 63).tail
      (transmit-IsReady hw buffer len r) r.tail
      (omega (arith, few, r.tail, transmit_tail hw buffer len r))
    ∙ transmit_here hw buffer len

-- Where the queue is one of 256 descriptors and the card has fetched all before its tail, up to 255 packets that
-- are then transmitted are what the card fetches, with their addresses and lengths and in their order.
pub transmit-fetched :
    (hw : Hw) (packets : List (ℕ × ℕ)) (rounds : ℕ)
    → IsReady hw
    → length packets < 256
    → length packets ≤ rounds
    → fetch rounds
        ((transmit_all hw packets).tx_queue 63).tx_desc_ring
        (hw.tx_queue 63).tail
        ((transmit_all hw packets).written (tdt 63))
      ≡ map packet packets
unfolding transmit_all
transmit-fetched hw [] rounds r few enough =
    fetch_stop rounds (hw.tx_queue 63).tx_desc_ring (hw.tx_queue 63).tail (hw.written (tdt 63))
      (sym r.told)
transmit-fetched hw (p ∷ packets) zero r few enough = absurd (omega (arith, enough))
transmit-fetched hw ((buffer, len) ∷ packets) (suc rounds) r few enough =
    let next = packet_transmit hw buffer len in
    let next_r = transmit-IsReady hw buffer len r in
    let end = transmit_all next packets in
    let next_tail = transmit_tail hw buffer len r in
    fetch_go rounds (end.tx_queue 63).tx_desc_ring (hw.tx_queue 63).tail (end.written (tdt 63))
      (omega (arith, few, r.tail, all_told next packets next_r, next_tail))
    ∙ ap
        (λ first.
          first
          ∷ fetch rounds (end.tx_queue 63).tx_desc_ring (((hw.tx_queue 63).tail + 1) % 256)
              (end.written (tdt 63)))
        (all_first hw buffer len packets r (omega (arith, few)))
    ∙ ap (λ rest. packet_desc buffer len ∷ rest)
        (ap (λ head. fetch rounds (end.tx_queue 63).tx_desc_ring head (end.written (tdt 63)))
            (sym next_tail)
          ∙ transmit-fetched next packets rounds next_r (omega (arith, few))
              (omega (arith, enough)))

-- From the same state, after exactly 256 packets the card finds the ring empty and fetches none of them.
pub transmit-overrun :
    (hw : Hw) (packets : List (ℕ × ℕ)) (rounds : ℕ)
    → IsReady hw
    → length packets ≡ 256
    → fetch rounds
        ((transmit_all hw packets).tx_queue 63).tx_desc_ring
        (hw.tx_queue 63).tail
        ((transmit_all hw packets).written (tdt 63))
      ≡ []
transmit-overrun hw packets rounds r all =
    fetch_stop rounds ((transmit_all hw packets).tx_queue 63).tx_desc_ring (hw.tx_queue 63).tail
      ((transmit_all hw packets).written (tdt 63))
      (omega (arith, all, r.tail, all_told hw packets r))
