-- ===== src/Proto.antt =====
-- src/proto/mod.rs: the constants of the protocol that the layer has no use for.
use ruknet.Base.{ℕ, List, [], ◌∷◌}

abbrev pub protocol_version : ℕ
protocol_version = 11

abbrev pub max_mtu_size : ℕ
max_mtu_size = 1492

abbrev pub min_mtu_size : ℕ
min_mtu_size = 576

abbrev pub mtu_sizes : List ℕ
mtu_sizes = max_mtu_size ∷ 1200 ∷ min_mtu_size ∷ []

abbrev pub min_online_packet_size : ℕ
min_online_packet_size = 6

abbrev pub min_packet_size : ℕ
min_packet_size = min_online_packet_size

abbrev pub min_offline_packet_size : ℕ
min_offline_packet_size = 25

abbrev pub offline_message_data_id : List ℕ
offline_message_data_id =
    0x00 ∷ 0xff ∷ 0xff ∷ 0x00 ∷ 0xfe ∷ 0xfe ∷ 0xfe ∷ 0xfe ∷ 0xfd ∷ 0xfd ∷ 0xfd ∷ 0xfd ∷ 0x12 ∷ 0x34
    ∷ 0x56 ∷ 0x78 ∷ []
