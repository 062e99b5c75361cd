-- ===== src/Queue/Capacity.antt =====
-- How many handlers the loop of pkg/sqs/sqs.go runs at a time.
use cluster_registry.Prelude.{
  ℕ, suc, ◌+◌, ◌-◌, ◌&&◌, if◌then◌else◌, ◌≤◌, ◌<◌, ◌≡◌, refl, ap, ◌∙◌, Bool, false, Option, none,
  some, Bool-cases, inl, inr, List, ◌∷◌, ◌++◌, length, length-append, ℤ, pos, negsuc, ltb_ℤ,
  pos_part, half_range, arith, add_int_pos, sub_int_pos,
}
use cluster_registry.Events.{Message}
use cluster_registry.Queue.{
  admit, size, take_batch, fail, load, spawn, skip, next_batch, lock, unlock, leave, Config, Phase,
  polling, admitted, receiving, handling, starting, draining, ended, State, first_state,
  max_messages, Step, batch_done,
}

-- The messages that the loop may still hand to handlers in this phase.
abbrev pending : Phase → ℕ
pending (receiving n) = pos_part n
pending (handling messages) = length messages
pending (starting n m messages) = suc (length messages)
pending _ = 0

-- A goroutine within its decrement counts.
abbrev held : Option ℤ → ℕ
held none = 0
held (some n) = 1

-- The loop is not within its increment while a goroutine is within its decrement.
abbrev IsApart : Phase → Option ℤ → Type 0
IsApart (starting n m messages) (some k) = ⊥
IsApart _ _ = Unit

-- What the loop has read within its increment is still the number of handlers.
abbrev IsRead : Phase → ℤ → Type 0
IsRead (starting n m messages) count = n ≡ count
IsRead _ count = Unit

abbrev IsHeld : Option ℤ → ℤ → Type 0
IsHeld none count = Unit
IsHeld (some n) count = n ≡ count

-- The count is that of the handlers that run, with the one within its decrement, and with those
-- that may still start in this batch they are at most `max`.
pub record IsWithin (max : ℕ) (s : State) : Type 0 where
  pub counted : s.handler_count ≡ pos (length s.running + held s.leaving)
  pub within : length s.running + held s.leaving + pending s.phase ≤ max
  pub read : IsRead s.phase s.handler_count
  pub holding : IsHeld s.leaving s.handler_count

-- The states that a loop can reach in runs in which no increment overlaps with a decrement.
pub data ReachableApart (cfg : Config) (has_handler : Bool) : State → Type 0 where
  apart_start : ReachableApart cfg has_handler first_state
  apart_step :
      {s t : State}
      → ReachableApart cfg has_handler s
      → Step cfg has_handler s t
      → IsApart t.phase t.leaving
      → ReachableApart cfg has_handler t

IsRead-IsApart : (phase : Phase) (n count : ℤ) → IsApart phase (some n) → IsRead phase count
IsRead-IsApart polling n count h = tt
IsRead-IsApart admitted n count h = tt
IsRead-IsApart (receiving k) n count h = tt
IsRead-IsApart (handling messages) n count h = tt
IsRead-IsApart (starting k m messages) n count h = absurd h
IsRead-IsApart draining n count h = tt
IsRead-IsApart ended n count h = tt

none_of_apart :
    (n : ℤ) (m : Message) (messages : List Message) (leaving : Option ℤ)
    → IsApart (starting n m messages) leaving
    → leaving ≡ none
none_of_apart n m messages none h = refl
none_of_apart n m messages (some k) h = absurd h

length-middle :
    (before : List Message) (m : Message) (after : List Message)
    → length (before ++ m ∷ after) ≡ suc (length (before ++ after))
length-middle before m after =
    omega (arith, length-append before (m ∷ after), length-append before after)

few_received :
    (n : ℤ) (messages : List Message)
    → ltb_ℤ n (pos (length messages)) ≡ false
    → length messages ≤ pos_part n
few_received (pos k) messages few = ground (arith, few)
few_received (negsuc k) messages few = ground (arith, few)

-- The number of messages that is asked for, where the number of handlers is limited.
taken_lem :
    (max running : ℕ) (batch : ℤ)
    → 0 < max
    → running ≤ max
    → running
        + pos_part (
            if ltb_ℤ (pos 0) (pos max) && ltb_ℤ (pos (max - running)) batch
            then pos (max - running)
            else batch)
      ≤ max
taken_lem max running (pos k) some_handler h = ground (arith, some_handler, h)
taken_lem max running (negsuc k) some_handler h = ground (arith, some_handler, h)

module _ (cfg : Config) (max : ℕ) (limited : cfg.max_handlers ≡ pos max) (some_handler : 0 < max)
    (fits : max < half_range) where
  pos_part-max_messages :
      (running : ℕ) → running ≤ max → running + pos_part (max_messages cfg (pos running)) ≤ max
  unfolding max_messages
  pos_part-max_messages running h =
      rw (limited, sub_int_pos max running fits h)
        (taken_lem max running cfg.batch_size some_handler h)

  pending-batch_done : pending (batch_done cfg) ≡ 0
  pending-batch_done = elim (Bool-cases cfg.run_once) [ inl p ↦ rw p refl | inr p ↦ rw p refl ]

  IsRead-batch_done : (count : ℤ) → IsRead (batch_done cfg) count
  IsRead-batch_done count = elim (Bool-cases cfg.run_once) [ inl p ↦ rw p tt | inr p ↦ rw p tt ]

  Step-IsWithin :
      {s t : State} {has_handler : Bool}
      → Step cfg has_handler s t
      → IsApart s.phase s.leaving
      → IsWithin max s
      → IsWithin max t
  Step-IsWithin (admit free) apart h = record {
    counted = h.counted;
    within = h.within;
    read = tt;
    holding = h.holding;
  }
  Step-IsWithin (size {count} {running} {leaving}) apart h = record {
    counted = h.counted;
    within =
        rw h.counted
          (pos_part-max_messages (length running + held leaving) (omega (arith, h.within)));
    read = tt;
    holding = h.holding;
  }
  Step-IsWithin (take_batch {n} messages few) apart h = record {
    counted = h.counted;
    within = omega (arith, h.within, few_received n messages few);
    read = tt;
    holding = h.holding;
  }
  Step-IsWithin fail apart h = record {
    counted = h.counted;
    within = omega (arith, h.within);
    read = tt;
    holding = h.holding;
  }
  Step-IsWithin (load some_h) apart h = record {
    counted = h.counted;
    within = h.within;
    read = refl;
    holding = h.holding;
  }
  Step-IsWithin (spawn {n} {m} {messages} {count} {running} {leaving}) apart h =
      let free = none_of_apart n m messages leaving apart in
      let alone : held leaving ≡ 0 = rw free refl in
      record {
        counted =
            rw (h.read, h.counted)
              (add_int_pos (length running + held leaving) 1 (omega (arith, h.within, fits))
                ∙ ap pos (omega arith));
        within = omega (arith, h.within);
        read = tt;
        holding = rw free tt;
      }
  Step-IsWithin (skip no_h) apart h = record {
    counted = h.counted;
    within = omega (arith, h.within);
    read = tt;
    holding = h.holding;
  }
  Step-IsWithin (next_batch {count}) apart h = record {
    counted = h.counted;
    within = omega (arith, h.within, pending-batch_done);
    read = IsRead-batch_done count;
    holding = h.holding;
  }
  Step-IsWithin (lock before m after) apart h = record {
    counted = h.counted ∙ ap pos (omega (arith, length-middle before m after));
    within = omega (arith, h.within, length-middle before m after);
    read = h.read;
    holding = refl;
  }
  Step-IsWithin (unlock {phase} {n} {count} {running}) apart h = record {
    counted =
        rw (h.holding, h.counted)
          (sub_int_pos (length running + 1) 1 (omega (arith, h.within, fits)) (omega arith)
            ∙ ap pos (omega arith));
    within = omega (arith, h.within);
    read = IsRead-IsApart phase n _ apart;
    holding = tt;
  }
  Step-IsWithin leave apart h = record {
    counted = h.counted;
    within = h.within;
    read = tt;
    holding = tt;
  }

  ReachableApart-IsApart :
      {has_handler : Bool} {s : State}
      → ReachableApart cfg has_handler s
      → IsApart s.phase s.leaving
  ReachableApart-IsApart apart_start = tt
  ReachableApart-IsApart (apart_step r s apart) = apart

  -- Where the number of handlers is limited, to a positive number below the bound of a 64-bit
  -- integer, in every state of a run of the loop in which no increment of the count overlaps with a
  -- decrement, the count is that of the handlers that run, with the one that is within its
  -- decrement, and with the messages that the batch may still hand over they are at most the limit.
  pub ReachableApart-IsWithin :
      {has_handler : Bool} {s : State} → ReachableApart cfg has_handler s → IsWithin max s
  ReachableApart-IsWithin apart_start = record {
    counted = refl;
    within = omega arith;
    read = tt;
    holding = tt;
  }
  ReachableApart-IsWithin (apart_step r s apart) =
      Step-IsWithin s (ReachableApart-IsApart r) (ReachableApart-IsWithin r)
