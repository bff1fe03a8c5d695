-- ===== src/Ethernet/Tests.antt =====
-- Runs of the definitions for drivers/ethernet/intel/x550.c, and the theorems at concrete inputs.
use oscar_kernel.Common.{ℕ, zero, suc, ap, ◌+◌, ◌*◌, ◌≡◌, refl, List, [], ◌∷◌, map, arith, length}
use oscar_kernel.Ethernet.Interrupt.{IsFilled, rx_init-IsFilled}
use oscar_kernel.Ethernet.{Hw, new_tx_queue, tdt, packet_transmit, tx_init}
use oscar_kernel.Ethernet.Transmit.{
  fetch, packet, IsReady, transmit_all, transmit-fetched, transmit-overrun,
}
use oscar_kernel.Ethernet.Rings.{IsSetUp, init-AllSetUp}
use oscar_kernel.Ethernet.Receive.{rx_init, new_rx_queue}

-- A card whose queues are all new and whose registers are zero.
abbrev idle : Hw
idle = record {
  tx_queue = λ i. new_tx_queue;
  rx_queue = λ i. new_rx_queue (λ j. 0);
  statistic = record { tx_packets = 0; tx_bytes = 0; rx_packets = 0; rx_bytes = 0 };
  mac_addr = λ i. 0;
  written = λ r. 0;
}

idle-IsReady : IsReady idle
idle-IsReady = record { size = refl; tail = omega arith; told = refl }

-- The same card with one packet left to go before the end of the ring.
abbrev late : Hw
late = record idle { tx_queue = λ i. record new_tx_queue { tail = 255 }; written = λ r. 255 }

late-IsReady : IsReady late
late-IsReady = record { size = refl; tail = omega arith; told = refl }

abbrev two_packets : List (ℕ × ℕ)
two_packets = (0x8000, 60) ∷ (0x9000, 1514) ∷ []

transmit-fetched_example :
    fetch 3
      ((transmit_all late two_packets).tx_queue 63).tx_desc_ring
      255
      ((transmit_all late two_packets).written (tdt 63))
    ≡ map packet two_packets
transmit-fetched_example =
    transmit-fetched late two_packets 3 late-IsReady (omega arith) (omega arith)

-- `count` packets with the same buffer.
copies : ℕ → List (ℕ × ℕ)
copies zero = []
copies (suc count) = (0x8000, 60) ∷ copies count

length-copies : (count : ℕ) → length (copies count) ≡ count
unfolding copies
length-copies zero = refl
length-copies (suc count) = ap suc (length-copies count)

transmit-overrun_example :
    fetch 300
      ((transmit_all late (copies 256)).tx_queue 63).tx_desc_ring
      255
      ((transmit_all late (copies 256)).written (tdt 63))
    ≡ []
transmit-overrun_example = transmit-overrun late (copies 256) 300 late-IsReady (length-copies 256)

init-AllSetUp_example : IsSetUp (tx_init (λ r. r) (λ i. i * 0x1000) late) 63 (63 * 0x1000)
init-AllSetUp_example = init-AllSetUp (λ r. r) (λ i. i * 0x1000) late 63 (omega arith)

rx_init-IsFilled_example :
    IsFilled
      (rx_init (λ r. r) 0x7000 (λ j. 0x10000 + j * 0x1000) idle)
      0x7000
      (λ j. 0x10000 + j * 0x1000)
      17
rx_init-IsFilled_example =
    rx_init-IsFilled (λ r. r) 0x7000 (λ j. 0x10000 + j * 0x1000) idle 17 (omega arith)

-- The tail turns around at the end of the ring.
wraps : ((packet_transmit late 0x8000 60).tx_queue 63).tail ≡ 0
unfolding packet_transmit
wraps = refl
