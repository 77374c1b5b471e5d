-- ===== src/Message/Laws.antt =====
-- The message ids are told apart by their codes.
use ruknet.Base.{ℕ, ◌≡◌, refl, subst, ◌↔◌, some, arith}
use ruknet.Message.{
  OfflineMessageIds, OnlineMessageIds, unconnected_ping, connected_ping, offline_from_u8,
  offline_to_u8, online_from_u8, online_to_u8,
}

offline_from_u8-to_u8 : (m : OfflineMessageIds) → offline_from_u8 (offline_to_u8 m) ≡ some m
unfolding offline_from_u8 offline_to_u8
offline_from_u8-to_u8 unconnected_ping = refl
offline_from_u8-to_u8 _ = refl

online_from_u8-to_u8 : (m : OnlineMessageIds) → online_from_u8 (online_to_u8 m) ≡ some m
unfolding online_from_u8 online_to_u8
online_from_u8-to_u8 connected_ping = refl
online_from_u8-to_u8 _ = refl

-- A byte is read as an offline message exactly when it is that message's code.
pub offline_codes :
    (m : OfflineMessageIds) (id : ℕ) → (offline_from_u8 id ≡ some m) ↔ (offline_to_u8 m ≡ id)
unfolding offline_from_u8 offline_to_u8
offline_codes m id = (
  (λ h. ground arith),
  (λ e. subst (λ i. offline_from_u8 i ≡ some m) e (offline_from_u8-to_u8 m)),
)
