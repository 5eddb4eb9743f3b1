-- ===== src/Simulation/Pipeline/Queues.antt =====
-- One queue: what sending to it and taking from it keep.
use llm_arbitrage_system.Base.{
  ℕ, suc, ◌≤◌, ◌≡◌, refl, subst, ap, Bool, true, false, List, [], ◌∷◌, ◌++◌, arith,
}
use llm_arbitrage_system.Base.Lists.{length, length-append}
use llm_arbitrage_system.Simulation.Pipeline.{Message, item, sentinel, Channel, send}

module _ {A : Type 0} where
  -- how many items stand in a list of messages
  abbrev pub count_items : List (Message A) → ℕ
  count_items [] = 0
  count_items (item _ ∷ rest) = suc (count_items rest)
  count_items (sentinel ∷ rest) = count_items rest

  -- Items only; items and then the sentinel.
  abbrev AllItems : List (Message A) → Type 0
  AllItems [] = Unit
  AllItems (item _ ∷ rest) = AllItems rest
  AllItems (sentinel ∷ rest) = ⊥

  abbrev EndsOnce : List (Message A) → Type 0
  EndsOnce [] = ⊥
  EndsOnce (item _ ∷ rest) = EndsOnce rest
  EndsOnce (sentinel ∷ rest) = rest ≡ []

  -- The messages of a queue, by whether it is ended and drained.
  abbrev pub IsOrdered : Bool → Bool → List (Message A) → Type 0
  IsOrdered false false messages = AllItems messages
  IsOrdered true false messages = EndsOnce messages
  IsOrdered true true messages = messages ≡ []
  IsOrdered false true messages = ⊥

  pub count_items-send :
      (ms : List (Message A)) (a : A) → count_items (ms ++ item a ∷ []) ≡ suc (count_items ms)
  count_items-send [] a = refl
  count_items-send (item b ∷ ms) a = ap suc (count_items-send ms a)
  count_items-send (sentinel ∷ ms) a = count_items-send ms a

  pub count_items-end : (ms : List (Message A)) → count_items (ms ++ sentinel ∷ []) ≡ count_items ms
  count_items-end [] = refl
  count_items-end (item b ∷ ms) = ap suc (count_items-end ms)
  count_items-end (sentinel ∷ ms) = count_items-end ms

  AllItems-send : (ms : List (Message A)) (a : A) → AllItems ms → AllItems (ms ++ item a ∷ [])
  AllItems-send [] a h = tt
  AllItems-send (item b ∷ ms) a h = AllItems-send ms a h
  AllItems-send (sentinel ∷ ms) a h = h

  AllItems-end : (ms : List (Message A)) → AllItems ms → EndsOnce (ms ++ sentinel ∷ [])
  AllItems-end [] h = refl
  AllItems-end (item b ∷ ms) h = AllItems-end ms h
  AllItems-end (sentinel ∷ ms) h = absurd h

  -- sending to a queue that is not ended
  pub IsOrdered-send :
      (ended drained : Bool) (ms : List (Message A)) (a : A)
      → ended ≡ false
      → IsOrdered ended drained ms
      → IsOrdered ended drained (ms ++ item a ∷ [])
  IsOrdered-send false false ms a e h = AllItems-send ms a h
  IsOrdered-send false true ms a e h = h
  IsOrdered-send true drained ms a e h = absurd (cc)

  pub IsOrdered-end :
      (ended drained : Bool) (ms : List (Message A))
      → ended ≡ false
      → IsOrdered ended drained ms
      → IsOrdered true drained (ms ++ sentinel ∷ [])
  IsOrdered-end false false ms e h = AllItems-end ms h
  IsOrdered-end false true ms e h = absurd h
  IsOrdered-end true drained ms e h = absurd (cc)

  -- taking an item: the queue is not drained
  pub IsOrdered-item :
      (ended drained : Bool) (ms : List (Message A)) (a : A)
      → IsOrdered ended drained (item a ∷ ms)
      → (drained ≡ false) × IsOrdered ended drained ms
  IsOrdered-item false false ms a h = (refl, h)
  IsOrdered-item true false ms a h = (refl, h)
  IsOrdered-item true true ms a h = absurd (cc)
  IsOrdered-item false true ms a h = absurd h

  -- taking the sentinel: nothing is behind it
  pub IsOrdered-sentinel :
      (ended drained : Bool) (ms : List (Message A))
      → IsOrdered ended drained (sentinel ∷ ms)
      → (drained ≡ false) × IsOrdered ended true ms
  IsOrdered-sentinel false false ms h = absurd h
  IsOrdered-sentinel true false ms h = (refl, h)
  IsOrdered-sentinel true true ms h = absurd (cc)
  IsOrdered-sentinel false true ms h = absurd h

  -- a drained queue is empty, and ended
  pub IsOrdered-drained :
      (ended drained : Bool) (ms : List (Message A))
      → drained ≡ true
      → IsOrdered ended drained ms
      → (ended ≡ true) × (ms ≡ [])
  IsOrdered-drained true true ms d h = (refl, h)
  IsOrdered-drained false true ms d h = absurd h
  IsOrdered-drained ended false ms d h = absurd (cc)

  pub length-send :
      (ms : List (Message A)) (m : Message A) → length (ms ++ m ∷ []) ≡ suc (length ms)
  length-send ms m = omega (arith, length-append ms (m ∷ []))

  -- a queue that is empty and not drained is not ended
  pub IsOrdered-empty :
      (ended drained : Bool) (ms : List (Message A))
      → drained ≡ false
      → ms ≡ []
      → IsOrdered ended drained ms
      → ended ≡ false
  IsOrdered-empty false drained ms d e h = refl
  IsOrdered-empty true false [] d e h = absurd h
  IsOrdered-empty true false (m ∷ ms) d e h = absurd (cc)
  IsOrdered-empty true true ms d e h = absurd (cc)

  -- What holds of a queue: its messages are in order, and at most one waits for a place.
  pub record IsSound (size : ℕ) (c : Channel A) : Type 0 where
    pub ordered : IsOrdered c.is_ended c.is_drained c.items
    pub room : length c.items ≤ suc size

  pub IsSound-send :
      (size : ℕ) (c : Channel A) (a : A)
      → c.is_ended ≡ false
      → length c.items ≤ size
      → IsSound size c
      → IsSound size (send (item a) c)
  IsSound-send size c a open_queue free h = record {
    ordered = IsOrdered-send c.is_ended c.is_drained c.items a open_queue h.ordered;
    room = omega (arith, length-send c.items (item a), free);
  }

  pub IsSound-end :
      (size : ℕ) (c : Channel A)
      → c.is_ended ≡ false
      → length c.items ≤ size
      → IsSound size c
      → IsSound size (send sentinel c)
  IsSound-end size c open_queue free h = record {
    ordered = IsOrdered-end c.is_ended c.is_drained c.items open_queue h.ordered;
    room = omega (arith, length-send c.items sentinel, free);
  }

  pub IsSound-take :
      (size : ℕ) (c : Channel A) (a : A) (rest : List (Message A))
      → c.items ≡ item a ∷ rest
      → IsSound size c
      → (c.is_drained ≡ false) × IsSound size (record c { items = rest })
  IsSound-take size c a rest q h =
      let taken =
        IsOrdered-item c.is_ended c.is_drained rest a
          (subst (λ ms. IsOrdered c.is_ended c.is_drained ms) q h.ordered) in
      (
        taken.0,
        record {
          ordered = taken.1;
          room = (let was = h.room in let shorter = ap length q in omega arith);
        },
      )

  pub IsSound-stop :
      (size : ℕ) (c : Channel A) (rest : List (Message A))
      → c.items ≡ sentinel ∷ rest
      → IsSound size c
      → (c.is_drained ≡ false) × IsSound size (record c { items = rest; is_drained = true })
  IsSound-stop size c rest q h =
      let taken =
        IsOrdered-sentinel c.is_ended c.is_drained rest
          (subst (λ ms. IsOrdered c.is_ended c.is_drained ms) q h.ordered) in
      (
        taken.0,
        record {
          ordered = taken.1;
          room = (let was = h.room in let shorter = ap length q in omega arith);
        },
      )
