-- ===== src/Peer/Invariant.antt =====
-- peer.c: what holds of the lists of connections of a node between two events.
use project_2_congest.Base.{ℕ, ◌≤◌, List, length, arith}
use project_2_congest.Connection.{ProviderConnection, ReceiverConnection}
use project_2_congest.Connection.Providers.{
  Providers, ProvidersFollow, Providers-Follow, length-ProvidersFollow,
}
use project_2_congest.Connection.Receivers.{
  Receivers, ReceiversFollow, Receivers-Follow, length-ReceiversFollow,
}
use project_2_congest.Peer.{Peer}

-- The two lists, with their bounds and the numbers that the next connections get.
pub record Lists : Type 0 where
  pub provider_id : ℕ
  pub providers : List ProviderConnection
  pub max_provider_connection : ℕ
  pub next_address : ℕ
  pub receivers : List ReceiverConnection
  pub max_receiver_connection : ℕ

pub record ListsInv (s : Lists) : Type 0 where
  pub providers : Providers s.provider_id s.providers
  pub provider_max : length s.providers ≤ s.max_provider_connection
  pub receivers : Receivers s.next_address s.receivers
  pub receiver_max : length s.receivers ≤ s.max_receiver_connection

abbrev pub lists : Peer → Lists
lists s = record {
  provider_id = s.provider_id;
  providers = s.providers;
  max_provider_connection = s.max_provider_connection;
  next_address = s.next_address;
  receivers = s.receivers;
  max_receiver_connection = s.max_receiver_connection;
}

-- Every provider connection has a window that satisfies its invariant, every receiver connection
-- has a chunk to download, no two connections of a kind are with the same peer, and there are no
-- more of them than the node allows.
abbrev pub PeerInv : Peer → Type 0
PeerInv s = ListsInv (lists s)

pub providers_follow :
    {s : Lists} {ps : List ProviderConnection}
    → ListsInv s
    → ProvidersFollow ps s.providers
    → ListsInv (record s { providers = ps })
providers_follow {s} v f = record {
  providers = Providers-Follow s.provider_id s.providers v.providers f;
  provider_max = omega (arith, length-ProvidersFollow f, v.provider_max);
  receivers = v.receivers;
  receiver_max = v.receiver_max;
}

pub receivers_follow :
    {s : Lists} {rs : List ReceiverConnection}
    → ListsInv s
    → ReceiversFollow rs s.receivers
    → ListsInv (record s { receivers = rs })
receivers_follow {s} v f = record {
  providers = v.providers;
  provider_max = v.provider_max;
  receivers = Receivers-Follow s.next_address s.receivers v.receivers f;
  receiver_max = omega (arith, length-ReceiversFollow f, v.receiver_max);
}
