-- ===== src/Journal/Order.antt =====
-- The order of the recorded market events.
use llm_arbitrage_system.Base.{
  ℕ, suc, inl, inr, subst, ◌≤◌, String, ◌≡◌, refl, sym, ap, true, false, List, [], ◌∷◌, ◌++◌, map,
  str_eq, arith,
}
use text.Mathlib.TextPositions.{eq_refl}
use llm_arbitrage_system.Base.Tests.{Bool-cases}
use llm_arbitrage_system.Base.Lists.{select, All}
use llm_arbitrage_system.Base.Result.{ok}
use llm_arbitrage_system.Domain.Numbers.{Numbers}
use llm_arbitrage_system.Domain.Contracts.{MarketEvent}
use llm_arbitrage_system.Journal.Schema.{Journal, Written, EventRow, has_run, has_event}
use llm_arbitrage_system.Journal.Recording.{Texts, record_market_event}
use llm_arbitrage_system.Journal.Reads.{is_event_of, place, by_sequence, load_market_event_payloads}
use llm_arbitrage_system.Journal.Methods.{insert_event}

-- No number of the run's recorded events is above the last one taken.
abbrev pub IsNumbered : Journal → Type 0
IsNumbered j =
    All (λ row. is_event_of j.run_id row ≡ true → row.sequence ≤ j.event_sequence)
      j.database.market_events

has_event-above :
    (id : String) (n : ℕ) (rows : List EventRow)
    → All (λ row. is_event_of id row ≡ true → row.sequence ≤ n) rows
    → has_event id (suc n) rows ≡ false
has_event-above id n [] h = refl
has_event-above id n (row ∷ rows) h = elim (Bool-cases (str_eq row.run_id id)) [
  | inl own ↦ ground (arith, own, h.0 own, has_event-above id n rows h.1)
  | inr other ↦ rw (other, has_event-above id n rows h.1)
]

place-last :
    (row last : EventRow) (rows : List EventRow)
    → row.sequence ≤ last.sequence
    → place row (rows ++ last ∷ []) ≡ place row rows ++ last ∷ []
place-last row last [] h = ground arith
place-last row last (r ∷ rows) h = ground (arith, place-last row last rows h)

by_sequence-last :
    (rows : List EventRow) (last : EventRow)
    → All (λ row. row.sequence ≤ last.sequence) rows
    → by_sequence (rows ++ last ∷ []) ≡ by_sequence rows ++ last ∷ []
by_sequence-last [] last h = refl
by_sequence-last (row ∷ rows) last h =
    rw (by_sequence-last rows last h.1) (place-last row last (by_sequence rows) h.0)

select-last :
    (id : String) (rows : List EventRow) (last : EventRow)
    → is_event_of id last ≡ true
    → select (is_event_of id) (rows ++ last ∷ []) ≡ select (is_event_of id) rows ++ last ∷ []
select-last id [] last h = rw h
select-last id (row ∷ rows) last h = ground (arith, select-last id rows last h)

select-below :
    (id : String) (n m : ℕ) (rows : List EventRow)
    → n ≤ m
    → All (λ row. is_event_of id row ≡ true → row.sequence ≤ n) rows
    → All (λ row. row.sequence ≤ m) (select (is_event_of id) rows)
select-below id n m [] le h = tt
select-below id n m (row ∷ rows) le h = elim (Bool-cases (is_event_of id row)) [
  | inl own ↦ rw own (let le' = h.0 own in omega arith, select-below id n m rows le h.1)
  | inr other ↦ rw other (select-below id n m rows le h.1)
]

map-last :
    {A B : Type 0} (f : A → B) (xs : List A) (x : A) → map f (xs ++ x ∷ []) ≡ map f xs ++ f x ∷ []
map-last f [] x = refl
map-last f (y ∷ ys) x = ap (λ l. f y ∷ l) (map-last f ys x)

numbered-last :
    (id : String) (n : ℕ) (rows : List EventRow) (last : EventRow)
    → last.sequence ≡ suc n
    → All (λ row. is_event_of id row ≡ true → row.sequence ≤ n) rows
    → All (λ row. is_event_of id row ≡ true → row.sequence ≤ suc n) (rows ++ last ∷ [])
numbered-last id n [] last e h = ((λ own. omega arith), tt)
numbered-last id n (row ∷ rows) last e h =
    ((λ own. let le = h.0 own in omega arith), numbered-last id n rows last e h.1)

module _ (N : Numbers) (T : Texts N) where
  abbrev event_row : MarketEvent N → Journal → EventRow
  event_row event j = record {
    run_id = j.run_id;
    sequence = suc j.event_sequence;
    symbol = event.symbol;
    event_timestamp = T.isoformat event.timestamp;
    payload_json = T.event_json event;
  }

  abbrev recorded : MarketEvent N → Journal → Journal
  recorded event j = record j {
    event_sequence = suc j.event_sequence;
    database = record j.database {
      market_events = j.database.market_events ++ event_row event j ∷ [];
    };
  }

  record_market_event-recorded :
      (event : MarketEvent N) (j : Journal)
      → j.is_closed ≡ false
      → has_run j.run_id j.database.replay_runs ≡ true
      → IsNumbered j
      → record_market_event N T event j ≡ (recorded event j, ok tt)
  unfolding record_market_event insert_event
  record_market_event-recorded event j open_now started numbered =
      let above = has_event-above j.run_id j.event_sequence j.database.market_events numbered in
      rw (open_now, started, above) refl

  -- What recording an event in `j` leaves and returns.
  abbrev pub Adds : MarketEvent N → Journal → Written → Type 0
  Adds event j (j', returned) =
      (returned ≡ ok tt)
      × (load_market_event_payloads j' ≡ load_market_event_payloads j ++ T.event_json event ∷ [])
      × IsNumbered j'
      × (j'.is_closed ≡ false)
      × (has_run j'.run_id j'.database.replay_runs ≡ true)

  load-recorded :
      (event : MarketEvent N) (j : Journal)
      → IsNumbered j
      → load_market_event_payloads (recorded event j)
        ≡ load_market_event_payloads j ++ T.event_json event ∷ []
  unfolding load_market_event_payloads
  load-recorded event j numbered =
      let rows = j.database.market_events in
      let last = event_row event j in
      let n = j.event_sequence in
      let own : is_event_of j.run_id last ≡ true = eq_refl j.run_id in
      let below = select-below j.run_id n (suc n) rows (omega arith) numbered in
      rw
        (
          select-last j.run_id rows last own,
          by_sequence-last (select (is_event_of j.run_id) rows) last below,
        )
        (map-last (λ row. row.payload_json) (by_sequence (select (is_event_of j.run_id) rows)) last)

  -- Recording a market event returns in an open journal whose run is in the database, if no recorded
  -- event of the run has a number above the journal's counter. The payload then stands behind all that
  -- are read back in order of their numbers, and the same conditions hold of the journal that is left.
  pub record_market_event-Adds :
      (event : MarketEvent N) (j : Journal)
      → j.is_closed ≡ false
      → has_run j.run_id j.database.replay_runs ≡ true
      → IsNumbered j
      → Adds event j (record_market_event N T event j)
  record_market_event-Adds event j open_now started numbered =
      subst (Adds event j) (sym (record_market_event-recorded event j open_now started numbered)) (
        refl,
        load-recorded event j numbered,
        numbered-last j.run_id j.event_sequence j.database.market_events (event_row event j) refl
            numbered,
        open_now,
        started,
      )
