-- ===== src/Spiffy/Delivers.antt =====
-- spiffy.c: what one node sends by way of the router is what the other receives.
use project_2_congest.Base.{
  ℕ, zero, suc, ◌+◌, ◌^◌, ◌≤◌, ◌<◌, ◌≡◌, refl, ap, ◌∙◌, true, List, [], ◌∷◌, ◌++◌, length, take,
  drop, length-append, arith,
}
use mathlib.Core.List.{append_assoc}
use project_2_congest.Base.Int.{pos, ltb_ℤ, ◌-ℤ◌}
use project_2_congest.Base.Memory.{slice}
use project_2_congest.Base.Word.{swap32}
use project_2_congest.Packet.{Sockaddr}
use project_2_congest.Spiffy.{
  Spiffy, SpiffyHeader, Received, int_bytes, short_bytes, header_bytes, number, read_header,
  spiffy_frame, spiffy_recvfrom, without_header, spiffy_header_size,
}

pub int_back : (n : ℕ) → n < 2 ^ 32 → number (int_bytes n) ≡ n
int_back n h = omega (arith, h)

pub short_back : (n : ℕ) → n < 2 ^ 16 → number (short_bytes n) ≡ n
short_back n h = omega (arith, h)

-- The address that is read from a header, and the bytes behind it.
source_back :
    (h : SpiffyHeader) (rest : List ℕ)
    → ((read_header (header_bytes h ++ rest)).src_addr ≡ number (int_bytes h.src_addr))
      × ((read_header (header_bytes h ++ rest)).src_port ≡ number (short_bytes h.src_port))
      × (drop spiffy_header_size (header_bytes h ++ rest) ≡ rest)
unfolding read_header header_bytes slice
source_back h rest = (refl, refl, refl)

take-take : (m n : ℕ) (xs ys : List ℕ) → m ≡ length xs → m ≤ n → take m (take n (xs ++ ys)) ≡ xs
take-take zero n [] ys h k = refl
take-take zero n (x ∷ xs) ys h k = absurd (omega arith)
take-take (suc m) n [] ys h k = absurd (omega arith)
take-take (suc m) zero (x ∷ xs) ys h k = absurd (omega arith)
take-take (suc m) (suc n) (x ∷ xs) ys h k =
    ap (◌∷◌ x) (take-take m n xs ys (omega arith) (omega arith))

length_lem : (h : SpiffyHeader) → length (header_bytes h) ≡ 16
unfolding header_bytes
length_lem h = refl

positive : (n : ℕ) → ltb_ℤ (pos 0) (pos (16 + n)) ≡ true
positive n = ground arith

rest_of : (n : ℕ) → pos (16 + n) -ℤ pos 16 ≡ pos n
unfolding ◌-ℤ◌
rest_of n = ground arith

abbrev memory : SpiffyHeader → List ℕ → List ℕ → List ℕ
memory h msg stale = (header_bytes h ++ msg) ++ stale

without_header-memory :
    (h : SpiffyHeader) (size n : ℕ) (msg stale : List ℕ) (from : Sockaddr)
    → h.src_addr < 2 ^ 32
    → h.src_port < 2 ^ 16
    → length msg ≤ size
    → n ≡ 16 + length msg
    → let got =
        without_header size
          (record { from = from; buffer = memory h msg stale; ret_val = pos n }) in
      (got.from ≡ record { sin_addr = h.src_addr; sin_port = h.src_port })
      × (take (length msg) got.buffer ≡ msg)
      × (got.ret_val ≡ pos (length msg))
unfolding without_header slice
without_header-memory h size n msg stale from addr port fits e =
    let laid = append_assoc (header_bytes h) msg stale in
    let s = source_back h (msg ++ stale) in
    (
      rw (laid, s.0, s.1, int_back h.src_addr addr, short_back h.src_port port) refl,
      rw (laid, s.2) (take-take (length msg) size msg stale refl fits),
      rw (e) (rest_of (length msg)),
    )

abbrev header_of : Spiffy → Sockaddr → SpiffyHeader
header_of s to = record {
  id = swap32 s.node_id;
  src_addr = s.own_addr;
  dest_addr = to.sin_addr;
  src_port = s.own_port;
  dest_port = to.sin_port;
}

frame_lem :
    (s : Spiffy) (msg : List ℕ) (to : Sockaddr)
    → s.enabled ≡ true
    → spiffy_frame s msg to
      ≡ record { target = s.router; bytes = header_bytes (header_of s to) ++ msg }
unfolding spiffy_frame
frame_lem s msg to on = ground (arith, on)

receive_lem :
    (s : Spiffy) (size : ℕ) (buffer : List ℕ) (from : Sockaddr) (got : Received)
    → s.enabled ≡ true
    → ltb_ℤ (pos 0) got.ret_val ≡ true
    → spiffy_recvfrom s size buffer from got ≡ without_header size got
unfolding spiffy_recvfrom
receive_lem s size buffer from got on came = rw (on, came, spiffy_recvfrom) refl

came_lem :
    (h : SpiffyHeader) (msg : List ℕ)
    → (length (header_bytes h ++ msg) ≡ 16 + length msg)
      × (ltb_ℤ (pos 0) (pos (length (header_bytes h ++ msg))) ≡ true)
came_lem h msg =
    let n : length (header_bytes h ++ msg) ≡ 16 + length msg =
      length-append (header_bytes h) msg ∙ ap (λ (k : ℕ). k + length msg) (length_lem h) in
    (n, ap (λ (k : ℕ). ltb_ℤ (pos 0) (pos k)) n ∙ positive (length msg))

-- What the buffer holds afterwards, and the address.
pub spiffy-receives :
    (sender receiver : Spiffy) (size : ℕ) (msg stale buffer : List ℕ)
    (to from router_addr : Sockaddr)
    → sender.enabled ≡ true
    → receiver.enabled ≡ true
    → sender.own_addr < 2 ^ 32
    → sender.own_port < 2 ^ 16
    → let frame = spiffy_frame sender msg to in
      let got = spiffy_recvfrom receiver size buffer from (record {
        from = router_addr;
        buffer = frame.bytes ++ stale;
        ret_val = pos (length frame.bytes);
      }) in
      (frame.target ≡ sender.router)
      × (got.from ≡ record { sin_addr = sender.own_addr; sin_port = sender.own_port })
      × (got.buffer ≡ take size (msg ++ stale))
unfolding without_header slice
spiffy-receives sender receiver size msg stale buffer to from router_addr on on' addr port =
    let h = header_of sender to in
    let bytes = header_bytes h ++ msg in
    let memory_got : Received = record {
      from = router_addr;
      buffer = bytes ++ stale;
      ret_val = pos (length bytes);
    } in
    let laid = append_assoc (header_bytes h) msg stale in
    let s = source_back h (msg ++ stale) in
    rw
      (
        frame_lem sender msg to on,
        receive_lem receiver size buffer from memory_got on' (came_lem h msg).1,
        laid,
        s.0,
        s.1,
        s.2,
        int_back sender.own_addr addr,
        short_back sender.own_port port,
      )
      (refl, refl, refl)

-- If two nodes use a router, which hands a datagram on as it came, and the first has an address of
-- 32 bits and a port of 16: what it sends with spiffy_sendto goes to the router, and is received
-- by the other, in a buffer that is large enough, with the address and the port of the node that
-- sent it, not of the router; the value is the length of the message.
pub spiffy-delivers :
    (sender receiver : Spiffy) (size : ℕ) (msg stale buffer : List ℕ)
    (to from router_addr : Sockaddr)
    → sender.enabled ≡ true
    → receiver.enabled ≡ true
    → sender.own_addr < 2 ^ 32
    → sender.own_port < 2 ^ 16
    → length msg ≤ size
    → let frame = spiffy_frame sender msg to in
      let got = spiffy_recvfrom receiver size buffer from (record {
        from = router_addr;
        buffer = frame.bytes ++ stale;
        ret_val = pos (length frame.bytes);
      }) in
      (frame.target ≡ sender.router)
      × (got.from ≡ record { sin_addr = sender.own_addr; sin_port = sender.own_port })
      × (take (length msg) got.buffer ≡ msg)
      × (got.ret_val ≡ pos (length msg))
unfolding spiffy_frame spiffy_recvfrom
spiffy-delivers sender receiver size msg stale buffer to from router_addr on on' addr port fits =
    let h = header_of sender to in
    let bytes = header_bytes h ++ msg in
    let (n, came) = came_lem h msg in
    let memory_got : Received = record {
      from = router_addr;
      buffer = bytes ++ stale;
      ret_val = pos (length bytes);
    } in
    let result =
      without_header-memory h size (length bytes) msg stale router_addr addr port fits n in
    rw (frame_lem sender msg to on, receive_lem receiver size buffer from memory_got on' came)
      (refl, result.0, result.1, result.2)
