-- ===== src/Tests/Routed.antt =====
-- spiffy.c: a message of three bytes.
use project_2_congest.Base.{ℕ, ◌++◌, ◌≡◌, refl, true, List, [], ◌∷◌, length, take, arith}
use project_2_congest.Base.Int.{pos}
use project_2_congest.Packet.{Sockaddr}
use project_2_congest.Spiffy.{Spiffy, Frame, Received, spiffy_frame, spiffy_recvfrom}
use project_2_congest.Spiffy.Delivers.{spiffy-delivers}

abbrev pub router : Sockaddr
router = record { sin_addr = 0x0100007f; sin_port = 0x3412 }

abbrev pub first_node : Spiffy
first_node = record {
  enabled = true;
  node_id = 1;
  own_addr = 0x0100007f;
  own_port = 0xae08;
  router = router;
}

abbrev pub second_node : Spiffy
second_node = record first_node { node_id = 2; own_port = 0xb308 }

abbrev pub second_addr : Sockaddr
second_addr = record { sin_addr = 0x0100007f; sin_port = 0xb308 }

abbrev pub nobody : Sockaddr
nobody = record { sin_addr = 0; sin_port = 0 }

abbrev message : List ℕ
message = 60 ∷ 68 ∷ 1 ∷ []

abbrev frame : Frame
frame = spiffy_frame first_node message second_addr

abbrev got : Received
got = spiffy_recvfrom second_node 1500 [] nobody (record {
  from = router;
  buffer = frame.bytes ++ (7 ∷ 7 ∷ []);
  ret_val = pos (length frame.bytes);
})

spiffy-delivers_example :
    (frame.target ≡ router)
    × (got.from ≡ record { sin_addr = 0x0100007f; sin_port = 0xae08 })
    × (take 3 got.buffer ≡ message)
    × (got.ret_val ≡ pos 3)
spiffy-delivers_example =
    spiffy-delivers first_node second_node 1500 message (7 ∷ 7 ∷ []) [] second_addr nobody router
      refl refl (omega arith) (omega arith) (omega arith)
