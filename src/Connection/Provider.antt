-- ===== src/Connection/Provider.antt =====
-- connection.c: the operations on provider connections. A node of the list is known by its `id`,
-- which no two have.
use project_2_congest.Base.{
  ℕ, suc, ◌+◌, ◌-◌, ◌*◌, Bool, true, false, Option, none, some, List, [], ◌∷◌, drop, ◌==◌,
  if◌then◌else◌,
}
use project_2_congest.Base.Int.{pos, sub_ℕ, ltb_ℤ, ◌==ℤ◌}
use project_2_congest.Base.Memory.{slice}
use project_2_congest.Base.Word.{signed32}
use project_2_congest.Clock.{Timeval}
use project_2_congest.Packet.{
  Packet, Datagram, to_peer, send_packet, chunk_data_num, data_packet_payload_size, hash_size,
}
use project_2_congest.Job.{Chunk, Disk, load_chunk, malloc_data_packet}
use project_2_congest.Connection.{ProviderConnection, rtt_not_start}
use project_2_congest.Control.{init_provider_connection}

-- Two pointers to peers are equal.
abbrev pub same_peer : Option ℕ → Option ℕ → Bool
same_peer none none = true
same_peer (some a) (some b) = a == b
same_peer _ _ = false

unfoldable pub search_provider_connection :
    List ProviderConnection → Option ℕ → Option ProviderConnection
search_provider_connection [] receiver = none
search_provider_connection (p ∷ ps) receiver =
    if same_peer p.receiver receiver then some p else search_provider_connection ps receiver

unfoldable pub get_provider_connection_number : List ProviderConnection → ℕ
get_provider_connection_number [] = 0
get_provider_connection_number (p ∷ ps) = suc (get_provider_connection_number ps)

unfoldable pub remove_provider_connection :
    List ProviderConnection → ProviderConnection → List ProviderConnection
remove_provider_connection [] target = []
remove_provider_connection (p ∷ ps) target =
    if p.id == target.id then ps else p ∷ remove_provider_connection ps target

-- What a handler writes into the connection that a pointer names.
unfoldable pub store_provider_connection :
    List ProviderConnection → ProviderConnection → List ProviderConnection
store_provider_connection [] target = []
store_provider_connection (p ∷ ps) target =
    if p.id == target.id then target ∷ ps else p ∷ store_provider_connection ps target

-- The connection that a GET packet opens, with the chunks of this node, of which the requested one
-- is loaded. `fresh` is what the memory of the new connection holds.
unfoldable pub malloc_provider_connection :
    Disk
    → Timeval
    → ProviderConnection
    → List Chunk
    → ℕ
    → Packet
    → Option ℕ
    → Option (ProviderConnection × List Chunk)
malloc_provider_connection disk now fresh has_chunks provider_id get_packet from =
    elim (load_chunk disk has_chunks (slice 0 hash_size get_packet.payload)) [
      | none ↦ none
      | some (k, loaded) ↦
          let opened = record fresh { id = provider_id; receiver = from; chunk = k } in
          some (
            record (init_provider_connection now opened) {
              last_packet_acked = 0;
              last_packet_sent = 0;
            },
            loaded,
          )
    ]

-- The packet number `n` of the chunk.
abbrev pub nth_data_packet : List ℕ → List ℕ → ℕ → Packet
nth_data_packet blank chunk_data n =
    malloc_data_packet blank (drop ((n - 1) * data_packet_payload_size) chunk_data)
      data_packet_payload_size n

-- The connection after one more packet was sent.
unfoldable pub after_send : Timeval → ProviderConnection → Packet → ProviderConnection
after_send now p packet =
    let q = record p { last_packet_sent = p.last_packet_sent + 1; last_data_send_time = now } in
    if p.rtt_ack_num ==ℤ rtt_not_start
    then record q { rtt_data_sent_time = now; rtt_ack_num = signed32 packet.header.seq_number }
    else q

-- What `send_data_packet` does: nothing, as the window is full, the window is too small, or all
-- packets are sent; or it sends a packet.
pub data Sending : Type 0 where
  window_full window_error all_sent : Sending
  sends : Packet → ProviderConnection → Sending

-- `chunk_data` is the data of the chunk that the connection provides.
unfoldable pub send_data_packet : List ℕ → Timeval → List ℕ → ProviderConnection → Sending
send_data_packet blank now chunk_data p =
    let packet_pending_ack_num = sub_ℕ p.last_packet_sent p.last_packet_acked in
    if packet_pending_ack_num ==ℤ pos p.window_size
    then window_full
    else if ltb_ℤ (pos p.window_size) packet_pending_ack_num
    then window_error
    else if p.last_packet_sent == chunk_data_num
    then all_sent
    else let packet = nth_data_packet blank chunk_data (p.last_packet_sent + 1) in
      sends packet (after_send now p packet)

-- The connection afterwards.
abbrev pub sender_after : ProviderConnection → Sending → ProviderConnection
sender_after p (sends packet q) = q
sender_after p _ = p

-- What goes to the network.
abbrev pub data_sent : ProviderConnection → Sending → List Datagram
data_sent p (sends packet q) = send_packet packet (to_peer p.receiver) ∷ []
data_sent p _ = []
