-- ===== src/Tests/Queue.antt =====
-- The theorems of `Queue` at concrete inputs.
use cluster_registry.Prelude.{
  String, ◌≡◌, refl, true, false, none, List, [], ◌∷◌, ok, err, pos, negsuc, sub_int, add_int,
  arith,
}
use cluster_registry.Events.{Message}
use cluster_registry.Queue.{
  Config, validate_config, State, handling, max_messages, Reachable, start, step, admit, size,
  take_batch, load, spawn, lock, unlock,
}
use cluster_registry.Queue.Capacity.{
  IsWithin, ReachableApart, apart_start, apart_step, ReachableApart-IsWithin,
}

abbrev config : Config
config = record {
  aws_region = "us-west-2";
  queue_name = "registry";
  endpoint = "http://sqs";
  queue_url = "";
  max_retries = pos 3;
  batch_size = pos 10;
  wait_seconds = pos 20;
  visibility_timeout = pos 0;
  run_once = false;
  run_interval = pos 1;
  max_handlers = pos 2;
  busy_timeout = pos 1;
}

-- Zero is accepted where the message says 1, and a batch of eleven is not.
config_tests :
    (validate_config (record config { batch_size = pos 0 }) ≡ ok tt)
    × (validate_config (record config { batch_size = pos 11 })
        ≡ err "BatchSize should be between 1-10")
    × (validate_config (record config { wait_seconds = negsuc 0 })
        ≡ err "WaitSeconds should be between 1-20")
    × (validate_config (record config { endpoint = "" }) ≡ err "A valid SQS Endpoint is required")
unfolding validate_config
config_tests = (refl, refl, refl, refl)

abbrev message : String → Message
message id = record {
  message_id = id;
  receipt_handle = id;
  body = none;
  attributes = [];
  message_attributes = [];
}

-- Ten messages fit in a batch, but only two handlers are free.
asked : max_messages config (pos 0) ≡ pos 2
unfolding max_messages sub_int
asked = refl

abbrev both : List Message
both = message "a" ∷ message "b" ∷ []

abbrev busy : State
busy = record {
  phase = handling [];
  handler_count = pos 2;
  running = message "b" ∷ message "a" ∷ [];
  leaving = none;
}

busy-ReachableApart : ReachableApart config true busy
unfolding max_messages sub_int add_int
busy-ReachableApart =
    apart_step
      (apart_step
        (apart_step
          (apart_step
            (apart_step (apart_step (apart_step apart_start (admit refl) tt) size tt)
              (take_batch both refl) tt)
            (load refl) tt)
          spawn tt)
        (load refl) tt)
      spawn tt

ReachableApart-IsWithin_example : IsWithin 2 busy
ReachableApart-IsWithin_example =
    ReachableApart-IsWithin config 2 refl (omega arith) (omega arith) busy-ReachableApart

-- The second handler is started and the first one ends at once, so that the increment is lost: one
-- handler runs, and none is counted.
abbrev lost : State
lost = record {
  phase = handling [];
  handler_count = pos 0;
  running = message "b" ∷ [];
  leaving = none;
}

lost-Reachable : Reachable config true lost
unfolding max_messages sub_int add_int
lost-Reachable =
    step
      (step
        (step
          (step
            (step
              (step (step (step (step start (admit refl)) size) (take_batch both refl)) (load refl))
              spawn)
            (load refl))
          (lock [] (message "a") []))
        spawn)
      unlock
