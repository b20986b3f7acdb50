-- ===== src/Omci/EntityId.antt =====
-- Entity ids of managed entities (internal/common/omci/onu_mib_db.go, EntityID).
use g_simulator.Prelude.{
  ℕ, ◌+◌, ◌*◌, ◌/◌, ◌%◌, ◌≡◌, Bool, true, false, ◌&&◌, List, [], ◌∷◌, ◌==◌, u8, arith,
}
use g_simulator.Go.{Result, ok, panics}

-- EntityID, a slice of bytes.
abbrev pub EntityId : Type 0
EntityId = List ℕ

-- ToUint16: `binary.BigEndian.Uint16` panics on fewer than two bytes and ignores what follows them.
unfoldable pub to_uint16 : EntityId → Result ℕ
to_uint16 (a ∷ b ∷ rest) = ok (a * 256 + b)
to_uint16 _ = panics

-- FromUint16.
unfoldable pub from_uint16 : ℕ → EntityId
from_uint16 id = (id / 256) ∷ (id % 256) ∷ []

-- Equals: `bytes.Compare(e, i) == 0`.
unfoldable pub equals : EntityId → EntityId → Bool
equals [] [] = true
equals (a ∷ rest) (b ∷ others) = (a == b) && equals rest others
equals _ _ = false

-- GenerateUniPortEntityId.
unfoldable pub generate_uni_port_entity_id : ℕ → EntityId
generate_uni_port_entity_id id = 1 ∷ u8 id ∷ []

pub to_uint16-from_uint16 : (id : ℕ) → to_uint16 (from_uint16 id) ≡ ok id
unfolding to_uint16 from_uint16
to_uint16-from_uint16 id = ground arith
