-- ===== src/Simulation/Dicts.antt =====
-- Python dictionaries with text keys, in insertion order: assignment, deletion, and what a lookup
-- sees afterwards.
use llm_arbitrage_system.Base.{
  String, ◌≡◌, refl, Bool, false, ◌||◌, some, [], ◌∷◌, str_eq, eq_iff, arith,
}
use llm_arbitrage_system.Base.Tests.{if◌then◌else◌}
use llm_arbitrage_system.Base.Lists.{select}
use llm_arbitrage_system.Domain.Contracts.{Dict, get}

module _ {V : Type 0} where
  -- `d[key] = value`
  abbrev pub assign : String → V → Dict V → Dict V
  assign key value [] = (key, value) ∷ []
  assign key value ((k, v) ∷ rest) =
      if str_eq k key then (k, value) ∷ rest else (k, v) ∷ assign key value rest

  -- `d.pop(key, None)`: what is left
  abbrev pub discard : String → Dict V → Dict V
  discard key [] = []
  discard key ((k, v) ∷ rest) = if str_eq k key then rest else (k, v) ∷ discard key rest

  -- `key in d`
  abbrev pub contains : String → Dict V → Bool
  contains key [] = false
  contains key ((k, v) ∷ rest) = str_eq k key || contains key rest

  pub get-assign :
      (key j : String) (value : V) (d : Dict V)
      → get j (assign key value d) ≡ (if str_eq key j then some value else get j d)
  get-assign key j value [] = refl
  get-assign key j value ((k, v) ∷ rest) =
      ground (arith, eq_iff k key, eq_iff k j, eq_iff key j, get-assign key j value rest)

  pub contains-assign :
      (key j : String) (value : V) (d : Dict V)
      → contains j (assign key value d) ≡ (str_eq key j || contains j d)
  contains-assign key j value [] = refl
  contains-assign key j value ((k, v) ∷ rest) =
      ground (arith, eq_iff k key, eq_iff k j, eq_iff key j, contains-assign key j value rest)

  pub contains-select :
      (p : String × V → Bool) (j : String) (d : Dict V)
      → contains j d ≡ false
      → contains j (select p d) ≡ false
  contains-select p j [] h = refl
  contains-select p j (e ∷ rest) h = ground (arith, contains-select p j rest)
