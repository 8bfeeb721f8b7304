-- ===== src/Tests/Protocol.antt =====
-- Packets at concrete bytes.
use stlink.Base.{
  c_string, ℕ, ◌+◌, ◌-◌, ◌*◌, ◌/◌, ◌%◌, ◌^◌, ◌≡◌, ◌==◌, refl, true, some, [], ◌∷◌, ◌++◌, ltb,
  passes_below, passed, get_or, arith, ==_iff, if◌then◌else◌,
}
use stlink.Gdb.Packet.{
  Os, Socket, Receiver, fresh, received, read_failed, acknowledged, hex, packet_of, recv_byte,
  gdb_send_packet, gdb_recv_packet, store_byte, alloc_step,
}
use stlink.Gdb.Packet.Wire.{HasRoom, recv_byte-HasRoom}
use stlink.Gdb.Packet.Dialogue.{
  Works, copies, gdb_recv_packet-packet_of, gdb_send_packet-nacks, gdb_recv_packet-after_nack,
}

-- The value of a digit.
abbrev digit : ℕ → ℕ
digit c = if ltb c 58 then c - 48 else c - 87

-- An operating system where nothing fails.
abbrev good_os : Os
good_os = record {
  writes = λ before bytes. true;
  allocates = λ n. true;
  strtoul = λ cs. digit (get_or cs 0 48) * 2 ^ 4 + digit (get_or cs 1 48);
}

reads_digits :
    passes_below (λ n. good_os.strtoul (hex (n / 2 ^ 4) ∷ hex (n % 2 ^ 4) ∷ []) == n) 256 ≡ true
unfolding passes_below
reads_digits = refl

good_os-Works : Works ⦃os = good_os⦄
good_os-Works = record {
  digits = λ n h. (==_iff _ n).0 (
      passed (λ m. good_os.strtoul (hex (m / 2 ^ 4) ∷ hex (m % 2 ^ 4) ∷ []) == m) 256 n h
        reads_digits);
  allocates = λ n. refl;
  writes = λ before bytes. refl;
}

-- "m0" behind two stray bytes, and another byte after it.
abbrev sample_socket : Socket
sample_socket = record {
  incoming = 43 ∷ 3 ∷ (packet_of (109 ∷ 48 ∷ []) ++ (7 ∷ []));
  outgoing = [];
}

gdb_recv_packet-packet_of_example :
    gdb_recv_packet ⦃os = good_os⦄ sample_socket
    ≡ (received (109 ∷ 48 ∷ []), record { incoming = 7 ∷ []; outgoing = 43 ∷ [] })
gdb_recv_packet-packet_of_example =
    gdb_recv_packet-packet_of ⦃os = good_os⦄ (43 ∷ 3 ∷ []) (109 ∷ 48 ∷ []) (7 ∷ []) sample_socket
      good_os-Works refl refl refl

-- "OK", refused once.
gdb_send_packet-nacks_example :
    gdb_send_packet ⦃os = good_os⦄
      (79 ∷ 75 ∷ [])
      (record { incoming = 45 ∷ 43 ∷ 36 ∷ []; outgoing = [] })
    ≡ (
      acknowledged,
      record { incoming = 36 ∷ []; outgoing = copies 2 (packet_of (c_string (79 ∷ 75 ∷ []))) },
    )
gdb_send_packet-nacks_example =
    gdb_send_packet-nacks ⦃os = good_os⦄ (79 ∷ 75 ∷ []) (45 ∷ []) (36 ∷ [])
      (record { incoming = 45 ∷ 43 ∷ 36 ∷ []; outgoing = [] }) good_os-Works refl refl

-- "g" with the digits "00", and the correct packet behind it.
abbrev garbled_socket : Socket
garbled_socket = record { incoming = 36 ∷ 103 ∷ 35 ∷ 48 ∷ 48 ∷ packet_of (103 ∷ []); outgoing = [] }

gdb_recv_packet-after_nack_example :
    gdb_recv_packet ⦃os = good_os⦄ garbled_socket
    ≡ (read_failed, record { incoming = []; outgoing = 45 ∷ 45 ∷ [] })
gdb_recv_packet-after_nack_example =
    gdb_recv_packet-after_nack ⦃os = good_os⦄ (103 ∷ []) (103 ∷ []) 48 48 garbled_socket
      good_os-Works refl refl refl refl

-- A receiver with one byte left.
abbrev nearly_full : Receiver
nearly_full = record fresh { state = 1; packet = 103 ∷ []; packet_size = 2 }

abbrev grown : Receiver
grown = record fresh { state = 1; packet = 103 ∷ 48 ∷ []; cksum = 48; packet_size = 2 + alloc_step }

recv_grown : recv_byte ⦃os = good_os⦄ nearly_full 48 ≡ some grown
unfolding recv_byte store_byte
recv_grown = refl

recv_byte-HasRoom_example : HasRoom ⦃os = good_os⦄ grown
recv_byte-HasRoom_example =
    recv_byte-HasRoom ⦃os = good_os⦄ nearly_full grown 48 (omega arith) recv_grown
