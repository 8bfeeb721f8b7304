-- ===== src/Gdb/Packet/Wire.antt =====
-- One packet on the wire: what the receiver makes of the bytes of a packet.
use stlink.Base.{
  ℕ, ◌+◌, ◌%◌, ◌^◌, ◌<◌, ◌≡◌, refl, sym, ap, ◌∙◌, ◌==◌, Bool, Bool-cases, true, false, not, ◌&&◌,
  some, List, [], ◌∷◌, ◌++◌, length, length-append, arith, inl, inr,
}
use mathlib.Core.List.{append_assoc, append-nil}
use stlink.Gdb.Packet.{
  Os, Socket, Receiver, Received, received, read_failed, add_cksum, alloc_step, restart, store_byte,
  recv_byte, mismatch, recv_loop,
}

-- No byte of the list is `x`.
abbrev pub lacks : ℕ → List ℕ → Bool
lacks x [] = true
lacks x (c ∷ cs) = not (c == x) && lacks x cs

module _ ⦃os : Os⦄ where
  -- The buffer has room for the byte behind the packet.
  abbrev pub HasRoom : Receiver → Type 0
  HasRoom r = length r.packet < r.packet_size

  -- If there is room for the next byte before a byte is read, then that byte is stored within the
  -- buffer, and there is room again after it: also the closing 0 lies within the buffer.
  pub recv_byte-HasRoom :
      (r r' : Receiver) (c : ℕ) → HasRoom r → recv_byte r c ≡ some r' → HasRoom r'
  unfolding recv_byte store_byte
  recv_byte-HasRoom r r' c h e = ground (arith, length-append r.packet (c ∷ []))

  -- The receiver after all bytes of a packet, `(a, b)` the digits.
  abbrev pub complete : Receiver → List ℕ → ℕ → ℕ → ℕ → Receiver
  complete r body size a b = record {
    state = 4;
    packet = r.packet ++ body;
    packet_size = size;
    cksum = add_cksum r.cksum body;
    recv_cksum = (a, b);
  }

  -- What follows the last digit.
  unfoldable pub judged : Receiver → List ℕ → List ℕ → Received × Socket
  judged r rest outgoing =
      let failed : Received × Socket =
        (read_failed, record { incoming = rest; outgoing = outgoing }) in
      elim (mismatch r) [
        | true ↦ elim (os.writes outgoing (45 ∷ [])) [
          | false ↦ failed
          | true ↦ recv_loop (restart r) rest (outgoing ++ (45 ∷ []))
        ]
        | false ↦ elim (os.writes outgoing (43 ∷ [])) [
          | false ↦ failed
          | true ↦ (received r.packet, record { incoming = rest; outgoing = outgoing ++ (43 ∷ []) })
        ]
      ]

  -- Behind the data: the `#` and two digits.
  recv_loop-end :
      (r : Receiver) (a b : ℕ) (rest outgoing : List ℕ)
      → r.state ≡ 1
      → recv_loop r (35 ∷ a ∷ b ∷ rest) outgoing
        ≡ judged (record r { state = 4; recv_cksum = (a, b) }) rest outgoing
  unfolding recv_loop recv_byte judged
  recv_loop-end r a b rest outgoing e = rw e refl

  -- A byte of the data, where allocation succeeds.
  recv_loop-byte :
      (r : Receiver) (c : ℕ) (rest outgoing : List ℕ)
      → ((n : ℕ) → os.allocates n ≡ true)
      → r.state ≡ 1
      → (c == 35) ≡ false
      → (size : ℕ) × (recv_loop r (c ∷ rest) outgoing
          ≡ recv_loop
              (record r {
                packet = r.packet ++ (c ∷ []);
                cksum = (r.cksum + c) % 2 ^ 8;
                packet_size = size;
              })
              rest
              outgoing)
  unfolding recv_loop recv_byte store_byte
  recv_loop-byte r c rest outgoing grows e n =
      elim (Bool-cases (length (r.packet ++ (c ∷ [])) == r.packet_size)) [
        | inl full ↦ (
          r.packet_size + alloc_step,
          rw (e, n, full, grows (r.packet_size + alloc_step), recv_loop, recv_byte, store_byte)
              refl,
        )
        | inr room ↦ (r.packet_size, rw (e, n, room, recv_loop, recv_byte, store_byte) refl)
      ]

  -- The data, the `#` and the digits.
  pub recv_loop-body :
      (r : Receiver) (body : List ℕ) (a b : ℕ) (rest outgoing : List ℕ)
      → ((n : ℕ) → os.allocates n ≡ true)
      → r.state ≡ 1
      → lacks 35 body ≡ true
      → (size : ℕ) × (recv_loop r (body ++ (35 ∷ a ∷ b ∷ rest)) outgoing
          ≡ judged (complete r body size a b) rest outgoing)
  recv_loop-body r [] a b rest outgoing grows e free = (
    r.packet_size,
    recv_loop-end r a b rest outgoing e
        ∙ ap
            (λ (p : List ℕ).
              judged (record r { state = 4; packet = p; recv_cksum = (a, b) }) rest outgoing)
            (sym (append-nil r.packet)),
  )
  recv_loop-body r (c ∷ body) a b rest outgoing grows e free =
      let (size, one) =
        recv_loop-byte r c (body ++ (35 ∷ a ∷ b ∷ rest)) outgoing grows e (ground arith) in
      let next : Receiver = record r {
        packet = r.packet ++ (c ∷ []);
        cksum = (r.cksum + c) % 2 ^ 8;
        packet_size = size;
      } in
      let (size', all) = recv_loop-body next body a b rest outgoing grows e (ground arith) in
      (
        size',
        one
            ∙ all
            ∙ ap
                (λ (p : List ℕ).
                  judged (record (complete next body size' a b) { packet = p }) rest outgoing)
                (append_assoc r.packet (c ∷ []) body),
      )

  skipped_byte : (r : Receiver) (c : ℕ) → r.state ≡ 0 → (c == 36) ≡ false → recv_byte r c ≡ some r
  unfolding recv_byte
  skipped_byte r c e other = ground arith

  recv_loop-skip :
      (r : Receiver) (c : ℕ) (s outgoing : List ℕ)
      → r.state ≡ 0
      → recv_byte r c ≡ some r
      → recv_loop r (c ∷ s) outgoing ≡ recv_loop r s outgoing
  unfolding recv_loop
  recv_loop-skip r c s outgoing e q =
      let waits : (r.state == 4) ≡ false = ground arith in rw (recv_loop, q, waits) refl

  -- Bytes before the `$` are skipped.
  pub recv_loop-junk :
      (r : Receiver) (junk s outgoing : List ℕ)
      → r.state ≡ 0
      → lacks 36 junk ≡ true
      → recv_loop r (junk ++ s) outgoing ≡ recv_loop r s outgoing
  recv_loop-junk r [] s outgoing e free = refl
  recv_loop-junk r (c ∷ junk) s outgoing e free =
      recv_loop-skip r c (junk ++ s) outgoing e (skipped_byte r c e (ground arith))
      ∙ recv_loop-junk r junk s outgoing e (ground arith)

  pub recv_loop-start :
      (r : Receiver) (s outgoing : List ℕ)
      → r.state ≡ 0
      → recv_loop r (36 ∷ s) outgoing ≡ recv_loop (record r { state = 1 }) s outgoing
  unfolding recv_loop recv_byte
  recv_loop-start r s outgoing e = rw e refl
