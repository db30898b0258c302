-- ===== src/Bridge/Wire.antt =====
-- What goes over the wire comes back, and nothing else gets in.
use reflect_pytest.Prelude.{
  ℕ, ◌+◌, ◌*◌, ◌/◌, ◌%◌, ◌≡◌, refl, ap, subst, true, false, take, ◌&&◌, ◌==◌, some, List, [], ◌∷◌,
  length, arith, Bool-cases, Option-cases, inl, inr, ◌⊎◌,
}
use mathlib.Core.Option.{some-injective}
use reflect_pytest.Messages.{Msg, MsgId, msg_id, id_value}
use reflect_pytest.World.{
  World, Lock, Platform, IsAbi, Cmd, udp_bridge, Peer, peer_mu, holds, with_lock,
}
use reflect_pytest.Bridge.{
  publishes, is_in_list, matching, wire, publish_as, try_publish_raw, inject, datagram, rx_round,
  max_dgram,
}

-- Distinct identifiers have distinct values.
id_value-inj : (i j : MsgId) → id_value i ≡ id_value j → i ≡ j
unfolding id_value
id_value-inj i j e = ground arith

matching-listed :
    (size_of : MsgId → ℕ) (ids : List MsgId) (i : MsgId)
    → is_in_list i ids ≡ true
    → matching size_of ids (id_value i) (size_of i) ≡ some i
unfolding matching is_in_list
matching-listed size_of [] i h = cc
matching-listed size_of (j ∷ ids) i h = elim (Bool-cases (id_value i == id_value j)) [
  | inl same ↦ let e = id_value-inj i j (ground arith) in let size = ap size_of e in ground arith
  | inr other ↦ ground (arith, matching-listed size_of ids i)
]

list_head : (i : MsgId) (ids : List MsgId) → is_in_list i (i ∷ ids) ≡ true
unfolding is_in_list
list_head i ids = ground arith

list_tail :
    (i j : MsgId) (ids : List MsgId) → is_in_list i ids ≡ true → is_in_list i (j ∷ ids) ≡ true
unfolding is_in_list
list_tail i j ids h = rw h (ground arith)

-- The id that matches has the raw value and the size, and stands in the list.
pub matching-some :
    (size_of : MsgId → ℕ) (ids : List MsgId) (raw size : ℕ) (i : MsgId)
    → matching size_of ids raw size ≡ some i
    → (raw ≡ id_value i) × (size ≡ size_of i) × (is_in_list i ids ≡ true)
unfolding matching
matching-some size_of [] raw size i e = cc
matching-some size_of (j ∷ ids) raw size i e =
    elim (Bool-cases (raw == id_value j && size == size_of j)) [
      | inl here ↦
          let same : j ≡ i = some-injective _ _ (rw here at e) in
          subst (λ k. (raw ≡ id_value k) × (size ≡ size_of k) × (is_in_list k (j ∷ ids) ≡ true))
            same (ground arith, ground arith, list_head j ids)
      | inr there ↦
          let (value, fits, listed) = matching-some size_of ids raw size i (rw there at e) in
          (value, fits, list_tail i j ids listed)
    ]

-- The first two bytes, as memcpy reads them on a little-endian machine.
abbrev pub id_raw : List ℕ → ℕ
id_raw (lo ∷ hi ∷ bytes) = lo + 256 * hi
id_raw bytes = 0

module _ {F : Type 0} ⦃pl : Platform F⦄ (abi : IsAbi F) (publish : Msg F → Cmd F) where
  -- A datagram made of a message that the bridge may publish puts that very message on the bus.
  -- Assumed: the platform's memcpy reads the payload back as it wrote it, and the platform is an
  -- IsAbi.
  pub inject-wire :
      (m : Msg F) (held : List Lock) (w : World F)
      → is_in_list (msg_id m) (publishes udp_bridge) ≡ true
      → pl.of_bytes (msg_id m) (pl.to_bytes m) ≡ m
      → inject publish (wire m) held w ≡ publish m held w
  unfolding inject wire try_publish_raw publish_as
  inject-wire m held w h back =
      let raw : id_value (msg_id m) % 256 + 256 * (id_value (msg_id m) / 256)
          ≡ id_value (msg_id m) =
        omega arith in
      let size = abi.length-to_bytes m in
      let found = matching-listed pl.size_of (publishes udp_bridge) (msg_id m) h in
      rw (raw, size, found, back)

  -- What `inject` does with the bytes of a datagram.
  inject_cases :
      (bytes : List ℕ) (held : List Lock) (w : World F)
      → (inject publish bytes held w ≡ some w)
        ⊎ ((m : Msg F) × (inject publish bytes held w ≡ publish m held w)
            × (is_in_list (msg_id m) (publishes udp_bridge) ≡ true)
            × (id_raw bytes ≡ id_value (msg_id m))
            × (length bytes ≡ 2 + pl.size_of (msg_id m)))
  unfolding inject try_publish_raw publish_as
  inject_cases [] held w = inl refl
  inject_cases (lo ∷ []) held w = inl refl
  inject_cases (lo ∷ hi ∷ bytes) held w =
      let ids = publishes udp_bridge in
      elim (Option-cases (matching pl.size_of ids (lo + 256 * hi) (length bytes))) [
        | inl e ↦ inl (rw e)
        | inr (i, e) ↦
            let (value, size, listed) =
              matching-some pl.size_of ids (lo + 256 * hi) (length bytes) i e in
            let kind = abi.msg_id-of_bytes i bytes in
            inr (pl.of_bytes i bytes, rw e, rw kind listed, rw kind value, rw kind (omega arith))
      ]

  -- A round of the receiver with a datagram first records the sender as the peer, with the peer's mutex held, whatever
  -- the datagram is. Then either nothing else changes, or one message is put on the bus: one of the list that the
  -- bridge may publish, with the value of its id in the first two bytes and its payload's size in
  -- the rest, of the 4096 bytes that are received. Assumed: the thread does not hold the peer's mutex, and the platform is an IsAbi.
  pub rx_round_cases :
      (sender : Peer) (bytes : List ℕ) (held : List Lock) (w : World F)
      → holds peer_mu held ≡ false
      → let buffer = take max_dgram bytes in
        let known = record w {
          bridge = record { peer = sender; peer_valid = true };
          acquired = (peer_mu, held) ∷ w.acquired;
        } in
        (rx_round publish (datagram sender bytes) held w ≡ some known)
        ⊎ ((m : Msg F) × (rx_round publish (datagram sender bytes) held w ≡ publish m held known)
            × (is_in_list (msg_id m) (publishes udp_bridge) ≡ true)
            × (id_raw buffer ≡ id_value (msg_id m))
            × (length buffer ≡ 2 + pl.size_of (msg_id m)))
  unfolding rx_round with_lock
  rx_round_cases sender bytes held w free = rw free (inject_cases (take max_dgram bytes) held _)
