-- ===== src/Gdb/Packet/Dialogue.antt =====
-- The two ends of the packet protocol together.
use stlink.Base.{
  c_string, ℕ, zero, suc, ◌+◌, ◌/◌, ◌%◌, ◌^◌, ◌<◌, ◌≡◌, refl, sym, ap, ◌∙◌, ◌==◌, Bool, Bool-cases,
  true, false, List, [], ◌∷◌, ◌++◌, length, arith, if◌then◌else◌, inl, inr,
}
use mathlib.Core.List.{append_assoc, append-nil}
use stlink.Gdb.Packet.{
  Os, Socket, Receiver, received, read_failed, add_cksum, alloc_step, restart, recv_loop, hex,
  packet_of, acknowledged, send_loop, gdb_send_packet, gdb_recv_packet, fresh,
}
use stlink.Gdb.Packet.Wire.{
  lacks, complete, judged, recv_loop-body, recv_loop-junk, recv_loop-start,
}

-- A checksum is a byte.
add_cksum_fits : (k : ℕ) (cs : List ℕ) → k < 2 ^ 8 → add_cksum k cs < 2 ^ 8
add_cksum_fits k [] h = h
add_cksum_fits k (c ∷ cs) h = add_cksum_fits ((k + c) % 2 ^ 8) cs (omega arith)

-- What a checksum starts with is added to it.
add_cksum_from :
    (k j : ℕ) (cs : List ℕ)
    → add_cksum ((k + j) % 2 ^ 8) cs ≡ (k + add_cksum (j % 2 ^ 8) cs) % 2 ^ 8
add_cksum_from k j [] = omega arith
add_cksum_from k j (c ∷ cs) =
    let e : ((k + j) % 2 ^ 8 + c) % 2 ^ 8 ≡ (k + (j + c)) % 2 ^ 8 = omega arith in
    let f : (j % 2 ^ 8 + c) % 2 ^ 8 ≡ (j + c) % 2 ^ 8 = omega arith in
    ap (λ (x : ℕ). add_cksum x cs) e
    ∙ add_cksum_from k (j + c) cs
    ∙ ap (λ (x : ℕ). (k + add_cksum x cs) % 2 ^ 8) (sym f)

abbrev pub copies : ℕ → List ℕ → List ℕ
copies zero packet = []
copies (suc n) packet = packet ++ copies n packet

module _ ⦃os : Os⦄ where
  -- `strtoul` reads two digits, every allocation succeeds, and every write takes all bytes.
  pub record Works : Type 0 where
    pub digits : (n : ℕ) → n < 2 ^ 8 → os.strtoul (hex (n / 2 ^ 4) ∷ hex (n % 2 ^ 4) ∷ []) ≡ n
    pub allocates : (n : ℕ) → os.allocates n ≡ true
    pub writes : (before bytes : List ℕ) → os.writes before bytes ≡ true

  -- The digits that were read are those of the checksum.
  abbrev fits : Receiver → Bool
  fits r = os.strtoul (r.recv_cksum.0 ∷ r.recv_cksum.1 ∷ []) % 2 ^ 8 == r.cksum

  judged-accepts :
      (r : Receiver) (rest outgoing : List ℕ)
      → Works
      → fits r ≡ true
      → judged r rest outgoing
        ≡ (received r.packet, record { incoming = rest; outgoing = outgoing ++ (43 ∷ []) })
  unfolding judged
  judged-accepts r rest outgoing h m = rw (judged, m, h.writes outgoing (43 ∷ [])) refl

  judged-refuses :
      (r : Receiver) (rest outgoing : List ℕ)
      → Works
      → fits r ≡ false
      → judged r rest outgoing ≡ recv_loop (restart r) rest (outgoing ++ (45 ∷ []))
  unfolding judged
  judged-refuses r rest outgoing h m = rw (judged, m, h.writes outgoing (45 ∷ [])) refl

  -- What the receiver makes of the packet that `gdb_send_packet` sends for `body`, if its checksum
  -- stands at `k` before.
  recv_loop-packet_of :
      (r : Receiver) (body rest outgoing : List ℕ)
      → Works
      → r.state ≡ 0
      → lacks 35 body ≡ true
      → (size : ℕ) × (recv_loop r (packet_of body ++ rest) outgoing
          ≡ judged
              (complete r body size
                (hex (add_cksum 0 body / 2 ^ 4))
                (hex (add_cksum 0 body % 2 ^ 4)))
              rest
              outgoing)
  unfolding packet_of
  recv_loop-packet_of r body rest outgoing h e free =
      let a = hex (add_cksum 0 body / 2 ^ 4) in
      let b = hex (add_cksum 0 body % 2 ^ 4) in
      let (size, run) =
        recv_loop-body (record r { state = 1 }) body a b rest outgoing h.allocates refl free in
      (
        size,
        ap (λ (s : List ℕ). recv_loop r (36 ∷ s) outgoing)
              (append_assoc body (35 ∷ a ∷ b ∷ []) rest)
            ∙ recv_loop-start r _ outgoing e
            ∙ run,
      )

  -- Whether the checksum that was started at `k` fits the digits.
  fits_digits :
      (k : ℕ) (body : List ℕ)
      → Works
      → k < 2 ^ 8
      → (os.strtoul (hex (add_cksum 0 body / 2 ^ 4) ∷ hex (add_cksum 0 body % 2 ^ 4) ∷ []) % 2 ^ 8
          == add_cksum k body)
        ≡ (k == 0)
  fits_digits k body h small =
      rw (h.digits (add_cksum 0 body) (add_cksum_fits 0 body (omega arith)))
        (ground (arith, add_cksum_from k 0 body, add_cksum_fits 0 body))

  -- If every write and allocation succeeds and `strtoul` reads two digits, then the packet that is
  -- sent for `body`, which has no `#`, is received as `body` and acknowledged, whatever bytes
  -- other than `$` come before it.
  pub gdb_recv_packet-packet_of :
      (junk body rest : List ℕ) (s : Socket)
      → Works
      → lacks 36 junk ≡ true
      → lacks 35 body ≡ true
      → s.incoming ≡ junk ++ (packet_of body ++ rest)
      → gdb_recv_packet s
        ≡ (received body, record { incoming = rest; outgoing = s.outgoing ++ (43 ∷ []) })
  unfolding gdb_recv_packet
  gdb_recv_packet-packet_of junk body rest s h quiet free e =
      let (size, run) = recv_loop-packet_of fresh body rest s.outgoing h refl free in
      rw (gdb_recv_packet, h.allocates (alloc_step + 1), e)
        (recv_loop-junk fresh junk _ s.outgoing refl quiet
          ∙ run
          ∙ judged-accepts _ rest s.outgoing h (fits_digits 0 body h (omega arith)))

  send_loop-nacks :
      (packet nacks rest outgoing : List ℕ)
      → Works
      → lacks 43 nacks ≡ true
      → send_loop packet (nacks ++ (43 ∷ rest)) outgoing ≡ (
        acknowledged,
        record { incoming = rest; outgoing = outgoing ++ copies (suc (length nacks)) packet },
      )
  unfolding send_loop
  send_loop-nacks packet [] rest outgoing h free = rw (h.writes outgoing packet) (
      ap (λ (o : List ℕ). (acknowledged, record { incoming = rest; outgoing = outgoing ++ o }))
        (sym (append-nil packet)))
  send_loop-nacks packet (n ∷ nacks) rest outgoing h free =
      let other : (n == 43) ≡ false = ground arith in
      rw (h.writes outgoing packet, other, send_loop)
        (send_loop-nacks packet nacks rest (outgoing ++ packet) h (ground arith)
          ∙ ap (λ (o : List ℕ). (acknowledged, record { incoming = rest; outgoing = o }))
              (append_assoc outgoing packet (copies (suc (length nacks)) packet)))

  -- If every write succeeds, then the packet is sent once more for each byte other than `+` that
  -- is read, and the call returns 0 at the first `+`.
  pub gdb_send_packet-nacks :
      (body nacks rest : List ℕ) (s : Socket)
      → Works
      → lacks 43 nacks ≡ true
      → s.incoming ≡ nacks ++ (43 ∷ rest)
      → gdb_send_packet body s ≡ (
        acknowledged,
        record {
          incoming = rest;
          outgoing = s.outgoing ++ copies (suc (length nacks)) (packet_of (c_string body));
        },
      )
  unfolding gdb_send_packet
  gdb_send_packet-nacks body nacks rest s h free e =
      rw e (send_loop-nacks (packet_of (c_string body)) nacks rest s.outgoing h free)

  restarted :
      (r : Receiver) (body outgoing : List ℕ)
      → Works
      → r.state ≡ 0
      → r.packet ≡ []
      → r.cksum < 2 ^ 8
      → lacks 35 body ≡ true
      → recv_loop r (packet_of body) outgoing ≡ (
          if r.cksum == 0
          then (received body, record { incoming = []; outgoing = outgoing ++ (43 ∷ []) })
          else (read_failed, record { incoming = []; outgoing = outgoing ++ (45 ∷ []) }))
  unfolding recv_loop
  restarted r body outgoing h e empty small free =
      let (size, run) = recv_loop-packet_of r body [] outgoing h e free in
      let last =
        complete r body size (hex (add_cksum 0 body / 2 ^ 4)) (hex (add_cksum 0 body % 2 ^ 4)) in
      let fit : fits last ≡ (r.cksum == 0) = fits_digits r.cksum body h small in
      ap (λ (s : List ℕ). recv_loop r s outgoing) (sym (append-nil (packet_of body)))
      ∙ run
      ∙ elim (Bool-cases (r.cksum == 0)) [
        | inl clean ↦ judged-accepts last [] outgoing h (fit ∙ clean) ∙ rw (clean, empty) refl
        | inr dirty ↦ judged-refuses last [] outgoing h (fit ∙ dirty) ∙ rw dirty refl
      ]

  -- The checksum of a refused packet is not dropped: if every write and allocation succeeds, a
  -- packet for `bad` whose digits `a` and `b` do not fit it is refused, and the correct packet for
  -- `body` sent again behind it is received if and only if the checksum of `bad` is 0. It is
  -- refused otherwise. (Neither `bad` nor `body` has a `#`.)
  pub gdb_recv_packet-after_nack :
      (bad body : List ℕ) (a b : ℕ) (s : Socket)
      → Works
      → lacks 35 bad ≡ true
      → lacks 35 body ≡ true
      → (os.strtoul (a ∷ b ∷ []) % 2 ^ 8 == add_cksum 0 bad) ≡ false
      → s.incoming ≡ 36 ∷ (bad ++ (35 ∷ a ∷ b ∷ packet_of body))
      → gdb_recv_packet s ≡ (
          if add_cksum 0 bad == 0
          then (
            received body,
            record { incoming = []; outgoing = (s.outgoing ++ (45 ∷ [])) ++ (43 ∷ []) },
          )
          else (
            read_failed,
            record { incoming = []; outgoing = (s.outgoing ++ (45 ∷ [])) ++ (45 ∷ []) },
          ))
  unfolding gdb_recv_packet
  gdb_recv_packet-after_nack bad body a b s h free1 free2 wrong e =
      let (size, run) =
        recv_loop-body (record fresh { state = 1 }) bad a b (packet_of body) s.outgoing h.allocates
          refl free1 in
      let last = complete (record fresh { state = 1 }) bad size a b in
      rw (gdb_recv_packet, h.allocates (alloc_step + 1), e)
        (recv_loop-start fresh _ s.outgoing refl
          ∙ run
          ∙ judged-refuses last (packet_of body) s.outgoing h wrong
          ∙ restarted (restart last) body (s.outgoing ++ (45 ∷ [])) h refl refl
              (add_cksum_fits 0 bad (omega arith)) free2)
