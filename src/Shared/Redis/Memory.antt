-- ===== src/Shared/Redis/Memory.antt =====
-- A Redis server in memory, for the examples: its keys with their values and deadlines, and its
-- counters. It has the laws that the interface asks for.
use ai_document_analysis.Prelude.{
  ℕ, suc, ◌+◌, ◌*◌, refl, Option, none, some, Text, ◌==◌, text-Eq, ltb, arith, if◌then◌else◌,
}
use ai_document_analysis.Shared.Redis.Server.{Redis, Value, count_at, deadline_at}

pub record Memory : Type 0 where
  pub values : Text → Option (Value × ℕ)
  pub counters : Text → Option (ℕ × Option ℕ)

abbrev value_at : ℕ → Option (Value × ℕ) → Option Value
value_at t none = none
value_at t (some (v, deadline)) = if ltb t deadline then some v else none

abbrev limited : ℕ → Option (ℕ × Option ℕ) → Option (ℕ × Option ℕ)
limited deadline none = none
limited deadline (some (n, d)) = some (n, some deadline)

abbrev pub memory : Redis
memory = record {
  Server = Memory;
  get = λ s t k. value_at t (s.values k);
  set = λ s now k v ttl. record s {
    values = λ j. if k == j then some (v, now + ttl * 1000) else s.values j;
  };
  delete = λ s now k. record s { values = λ j. if k == j then none else s.values j };
  incr = λ s now k.
      let c = s.counters k in
      (
        record s {
          counters =
              λ j. if k == j then some (suc (count_at now c), deadline_at now c) else s.counters j;
        },
        suc (count_at now c),
      );
  expire = λ s now k seconds. record s {
    counters = λ j. if k == j then limited (now + seconds * 1000) (s.counters k) else s.counters j;
  };
  counter = λ s k. s.counters k;
  get-set = λ s now t ttl k j v later positive. ground arith;
  get-delete = λ s now t k j later. ground arith;
  incr-count = λ s now k. refl;
  counter-incr = λ s now k j. refl;
  counter-expire = λ s now n seconds k j e. ground arith;
}

abbrev pub empty : Memory
empty = record { values = λ k. none; counters = λ k. none }
