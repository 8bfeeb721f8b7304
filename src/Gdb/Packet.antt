-- ===== src/Gdb/Packet.antt =====
-- src/st-util/gdb-remote.c: sending and receiving packets. The peer's bytes are the list
-- `incoming`, whose end is a failing read; what was written is `outgoing`.
pub mod Wire
pub mod Dialogue
use stlink.Base.{
  c_string, ℕ, zero, suc, ◌+◌, ◌*◌, ◌/◌, ◌%◌, ◌^◌, ◌==◌, Bool, true, false, not, ◌&&◌, Option, none,
  some, List, [], ◌∷◌, ◌++◌, length, get_or, if◌then◌else◌,
}

-- The operating system and the C library: whether a write to the socket takes all bytes, which
-- may depend on what was written before, whether an allocation of a size succeeds, and `strtoul`
-- in base 16.
pub record Os : Type 0 where
  pub writes : List ℕ → List ℕ → Bool
  pub allocates : ℕ → Bool
  pub strtoul : List ℕ → ℕ

pub record Socket : Type 0 where
  pub incoming : List ℕ
  pub outgoing : List ℕ

-- "0123456789abcdef"
abbrev pub hex : ℕ → ℕ
hex n =
    get_or (48 ∷ 49 ∷ 50 ∷ 51 ∷ 52 ∷ 53 ∷ 54 ∷ 55 ∷ 56 ∷ 57 ∷ 97 ∷ 98 ∷ 99 ∷ 100 ∷ 101 ∷ 102 ∷ []) n
      0

-- `cksum += data[i]` in a uint8_t.
abbrev pub add_cksum : ℕ → List ℕ → ℕ
add_cksum cksum [] = cksum
add_cksum cksum (c ∷ cs) = add_cksum ((cksum + c) % 2 ^ 8) cs

-- '$', the data, '#' and two digits.
unfoldable pub packet_of : List ℕ → List ℕ
packet_of body =
    let cksum = add_cksum 0 body in
    36 ∷ (body ++ (35 ∷ hex (cksum / 2 ^ 4) ∷ hex (cksum % 2 ^ 4) ∷ []))

-- The return codes 0 and -2.
pub data Sent : Type 0 where
  acknowledged write_failed : Sent

-- The `while (1)` loop, once per byte that is read.
unfoldable pub send_loop : ⦃os : Os⦄ → List ℕ → List ℕ → List ℕ → Sent × Socket
send_loop ⦃os⦄ packet [] outgoing = (
  write_failed,
  record {
    incoming = [];
    outgoing = if os.writes outgoing packet then outgoing ++ packet else outgoing;
  },
)
send_loop ⦃os⦄ packet (ack ∷ rest) outgoing = elim (os.writes outgoing packet) [
  | false ↦ (write_failed, record { incoming = ack ∷ rest; outgoing = outgoing })
  | true ↦ elim (ack == 43) [
    | true ↦ (acknowledged, record { incoming = rest; outgoing = outgoing ++ packet })
    | false ↦ send_loop packet rest (outgoing ++ packet)
  ]
]

unfoldable pub gdb_send_packet : ⦃os : Os⦄ → List ℕ → Socket → Sent × Socket
gdb_send_packet body s = send_loop (packet_of (c_string body)) s.incoming s.outgoing

-- ALLOC_STEP
abbrev pub alloc_step : ℕ
alloc_step = 1024

-- The locals of `gdb_recv_packet`: `packet` is `packet_buffer` up to `packet_idx`.
pub record Receiver : Type 0 where
  pub state : ℕ
  pub packet : List ℕ
  pub packet_size : ℕ
  pub cksum : ℕ
  pub recv_cksum : ℕ × ℕ

abbrev pub fresh : Receiver
fresh = record {
  state = 0;
  packet = [];
  packet_size = alloc_step + 1;
  cksum = 0;
  recv_cksum = (0, 0);
}

-- `start:` sets the state and the index only.
abbrev pub restart : Receiver → Receiver
restart r = record r { state = 0; packet = [] }

-- A byte of the data; `none` where the buffer does not grow.
unfoldable pub store_byte : ⦃os : Os⦄ → Receiver → ℕ → Option Receiver
store_byte ⦃os⦄ r c =
    let packet = r.packet ++ (c ∷ []) in
    let cksum = (r.cksum + c) % 2 ^ 8 in
    if length packet == r.packet_size
    then (let size = r.packet_size + alloc_step in
        if os.allocates size
        then some (record r { packet = packet; cksum = cksum; packet_size = size })
        else none)
    else some (record r { packet = packet; cksum = cksum })

-- The `switch`, for a byte `c` that was read.
unfoldable pub recv_byte : ⦃os : Os⦄ → Receiver → ℕ → Option Receiver
recv_byte r c =
    if r.state == 0
    then some (if c == 36 then record r { state = 1 } else r)
    else if r.state == 1
    then (if c == 35 then some (record r { state = 2 }) else store_byte r c)
    else if r.state == 2
    then some (record r { recv_cksum = (c, r.recv_cksum.1); state = 3 })
    else some (record r { recv_cksum = (r.recv_cksum.0, c); state = 4 })

-- The data, or -2.
pub data Received : Type 0 where
  received : List ℕ → Received
  read_failed : Received

-- `recv_cksum_int != cksum`
abbrev pub mismatch : ⦃os : Os⦄ → Receiver → Bool
mismatch ⦃os⦄ r = not (os.strtoul (r.recv_cksum.0 ∷ r.recv_cksum.1 ∷ []) % 2 ^ 8 == r.cksum)

unfoldable pub recv_loop : ⦃os : Os⦄ → Receiver → List ℕ → List ℕ → Received × Socket
recv_loop ⦃os⦄ r [] outgoing = (read_failed, record { incoming = []; outgoing = outgoing })
recv_loop ⦃os⦄ r (c ∷ rest) outgoing =
    let failed : Received × Socket =
      (read_failed, record { incoming = rest; outgoing = outgoing }) in
    elim (recv_byte r c) [
      | none ↦ failed
      | some r' ↦ elim (r'.state == 4) [
        | false ↦ recv_loop r' rest outgoing
        | true ↦ elim (mismatch r') [
          | true ↦ elim (os.writes outgoing (45 ∷ [])) [
            | false ↦ failed
            | true ↦ recv_loop (restart r') rest (outgoing ++ (45 ∷ []))
          ]
          | false ↦ elim (os.writes outgoing (43 ∷ [])) [
            | false ↦ failed
            | true ↦
                (received r'.packet, record { incoming = rest; outgoing = outgoing ++ (43 ∷ []) })
          ]
        ]
      ]
    ]

unfoldable pub gdb_recv_packet : ⦃os : Os⦄ → Socket → Received × Socket
gdb_recv_packet ⦃os⦄ s = elim (os.allocates (alloc_step + 1)) [
  | false ↦ (read_failed, s)
  | true ↦ recv_loop fresh s.incoming s.outgoing
]
