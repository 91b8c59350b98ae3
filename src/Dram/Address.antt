-- ===== src/Dram/Address.antt =====
-- include/hbmsim/dram/address.h and `HbmAddress::hierarchical` of include/hbmsim/mapping/address_mapper.h: an
-- address as a list of levels and indices.
use hbmsim.Prelude.{
  ℕ, ◌≡◌, refl, Bool, Option, none, some, List, [], ◌∷◌, Result, ok, out_of_range, or_throw,
  if◌then◌else◌, ◌==◌, arith, Bool-cases, inl, inr,
}
use hbmsim.Dram.Profiles.{AddressLevel}
use hbmsim.Mapping.{HbmAddress}

-- The enumerator's value.
unfoldable pub level_index : AddressLevel → ℕ
level_index AddressLevel.stack = 0
level_index AddressLevel.channel = 1
level_index AddressLevel.pseudo_channel = 2
level_index AddressLevel.sid = 3
level_index AddressLevel.rank = 4
level_index AddressLevel.bank_group = 5
level_index AddressLevel.bank = 6
level_index AddressLevel.row = 7
level_index AddressLevel.column = 8

abbrev pub level_eqb : AddressLevel → AddressLevel → Bool
level_eqb a b = level_index a == level_index b

pub record AddressComponent : Type 0 where
  pub level : AddressLevel
  pub index : ℕ

abbrev pub component : AddressLevel → ℕ → AddressComponent
component level index = record { level = level; index = index }

-- `Address::set`
unfoldable pub set_level : List AddressComponent → AddressLevel → ℕ → List AddressComponent
set_level [] level index = component level index ∷ []
set_level (c ∷ components) level index =
    let rest = set_level components level index in
    if level_eqb c.level level then record c { index = index } ∷ components else c ∷ rest

-- `Address::find`
unfoldable pub find_level : List AddressComponent → AddressLevel → Option ℕ
find_level [] level = none
find_level (c ∷ components) level =
    let rest = find_level components level in if level_eqb c.level level then some c.index else rest

-- `Address::at`
unfoldable pub at_level : List AddressComponent → AddressLevel → Result ℕ
unfolding find_level
at_level components level = or_throw (find_level components level) out_of_range

unfoldable pub hierarchical : HbmAddress → List AddressComponent
hierarchical a =
    component AddressLevel.stack a.stack
    ∷ component AddressLevel.channel a.channel
    ∷ component AddressLevel.pseudo_channel a.pseudo_channel
    ∷ component AddressLevel.sid a.stack
    ∷ component AddressLevel.bank_group a.bank_group
    ∷ component AddressLevel.bank a.bank
    ∷ component AddressLevel.row a.row
    ∷ component AddressLevel.column a.column
    ∷ []

find_level-set_level :
    (components : List AddressComponent) (level other : AddressLevel) (index : ℕ)
    → find_level (set_level components level index) other
      ≡ (if level_eqb level other then some index else find_level components other)
unfolding find_level set_level
find_level-set_level [] level other index = refl
find_level-set_level (c ∷ components) level other index =
    ground (arith, find_level-set_level components level other index)

-- After a level was set, `at` answers with its new index and for any other level as before, also by its
-- exception, whether or not the level was there.
pub at_level-set_level :
    (components : List AddressComponent) (level other : AddressLevel) (index : ℕ)
    → at_level (set_level components level index) other
      ≡ (if level_eqb level other then ok index else at_level components other)
unfolding at_level
at_level-set_level components level other index = elim (Bool-cases (level_eqb level other)) [
  | inl e ↦ ground (arith, find_level-set_level components level other index)
  | inr e ↦ ground (arith, find_level-set_level components level other index)
]
