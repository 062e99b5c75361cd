-- ===== src/Queue.antt =====
-- pkg/sqs/sqs.go: the queue's configuration, its loop and its other operations, and
-- pkg/apiserver/web/readyz.go. The log lines and the set-up of the session are left out.
pub mod Settings
pub mod Capacity
use cluster_registry.Prelude.{
  Dict, String, ◌==◌, ◌≡◌, ◌&&◌, ◌||◌, not, Bool, true, false, Option, none, some, List, [], ◌∷◌,
  ◌++◌, length, Result, ok, err, Act, is_ok, ◌>>=◌, ℤ, pos, add_int, sub_int, ltb_ℤ, if◌then◌else◌,
}
use cluster_registry.Events.{Message}
use cluster_registry.Http.{Response, answer, status_body}

-- The exported fields of `Config`; `handlerCount` is in the state of the loop.
pub record Config : Type 0 where
  pub aws_region : String
  pub queue_name : String
  pub endpoint : String
  pub queue_url : String
  pub max_retries : ℤ
  pub batch_size : ℤ
  pub wait_seconds : ℤ
  pub visibility_timeout : ℤ
  pub run_once : Bool
  pub run_interval : ℤ
  pub max_handlers : ℤ
  pub busy_timeout : ℤ

abbrev pub out_of_range : ℤ → ℤ → Bool
out_of_range n hi = ltb_ℤ n (pos 0) || ltb_ℤ hi n

-- `validateConfig`
unfoldable pub validate_config : Config → Result (Unit {0})
validate_config cfg =
    if cfg.aws_region == ""
    then err "AWSRegion is required"
    else if (cfg.endpoint == "") && (cfg.queue_url == "")
    then err "A valid SQS Endpoint is required"
    else if (cfg.queue_name == "") && (cfg.queue_url == "")
    then err "A valid SQS Queue Name is required"
    else if (cfg.queue_url == "") && (cfg.endpoint == "") && (cfg.queue_name == "")
    then err "A valid SQS Queue URL is required"
    else if out_of_range cfg.batch_size (pos 10)
    then err "BatchSize should be between 1-10"
    else if out_of_range cfg.wait_seconds (pos 20)
    then err "WaitSeconds should be between 1-20"
    else if out_of_range cfg.visibility_timeout (pos 43200)
    then err "VisibilityTimeout should be between 1-43200"
    else ok tt

-- Where the loop of `Poll` stands: before the wait for a free handler, behind it, before the
-- receipt of so many messages, in the loop over messages that were received, within the increment
-- for a message, of which it has read this number of handlers, or waiting for the handlers that
-- still run.
pub data Phase : Type 0 where
  polling admitted : Phase
  receiving : ℤ → Phase
  handling : List Message → Phase
  starting : ℤ → Message → List Message → Phase
  draining ended : Phase

-- `running` are the messages whose handlers have started and not returned. `leaving` is the number
-- that the goroutine which holds the mutex has read, within its decrement.
pub record State : Type 0 where
  pub phase : Phase
  pub handler_count : ℤ
  pub running : List Message
  pub leaving : Option ℤ

abbrev first_state : State
first_state = record { phase = polling; handler_count = pos 0; running = []; leaving = none }

-- The condition of the inner loop, which waits.
abbrev is_busy : Config → ℤ → Bool
is_busy cfg count = ltb_ℤ (pos 0) cfg.max_handlers && not (ltb_ℤ count cfg.max_handlers)

-- `maxMsgs`, from a read of the number of handlers.
unfoldable pub max_messages : Config → ℤ → ℤ
max_messages cfg count =
    if ltb_ℤ (pos 0) cfg.max_handlers && ltb_ℤ (sub_int cfg.max_handlers count) cfg.batch_size
    then sub_int cfg.max_handlers count
    else cfg.batch_size

abbrev pub batch_done : Config → Phase
batch_done cfg = if cfg.run_once then draining else polling

-- One step of the loop or of a goroutine; they interleave in any order. `ReceiveMessage` returns at
-- most as many messages as it is asked for. `handlerCount++` is `load` and then `spawn`, without the
-- mutex, and `handlerCount--` is `lock` and then `unlock`, each a read and a write of the number.
pub data Step (cfg : Config) (has_handler : Bool) : State → State → Type 0 where
  admit :
      {count : ℤ} {running : List Message} {leaving : Option ℤ}
      → is_busy cfg count ≡ false
      → Step cfg has_handler
          (record { phase = polling; handler_count = count; running = running; leaving = leaving })
          (record { phase = admitted; handler_count = count; running = running; leaving = leaving })
  size :
      {count : ℤ} {running : List Message} {leaving : Option ℤ}
      → Step cfg has_handler
          (record { phase = admitted; handler_count = count; running = running; leaving = leaving })
          (record {
            phase = receiving (max_messages cfg count);
            handler_count = count;
            running = running;
            leaving = leaving;
          })
  take_batch :
      {n : ℤ} {count : ℤ} {running : List Message} {leaving : Option ℤ} (messages : List Message)
      → ltb_ℤ n (pos (length messages)) ≡ false
      → Step cfg has_handler
          (record {
            phase = receiving n;
            handler_count = count;
            running = running;
            leaving = leaving;
          })
          (record {
            phase = handling messages;
            handler_count = count;
            running = running;
            leaving = leaving;
          })
  fail :
      {n : ℤ} {count : ℤ} {running : List Message} {leaving : Option ℤ}
      → Step cfg has_handler
          (record {
            phase = receiving n;
            handler_count = count;
            running = running;
            leaving = leaving;
          })
          (record { phase = draining; handler_count = count; running = running; leaving = leaving })
  load :
      {m : Message} {messages : List Message} {count : ℤ} {running : List Message}
      {leaving : Option ℤ}
      → has_handler ≡ true
      → Step cfg has_handler
          (record {
            phase = handling (m ∷ messages);
            handler_count = count;
            running = running;
            leaving = leaving;
          })
          (record {
            phase = starting count m messages;
            handler_count = count;
            running = running;
            leaving = leaving;
          })
  spawn :
      {n : ℤ} {m : Message} {messages : List Message} {count : ℤ} {running : List Message}
      {leaving : Option ℤ}
      → Step cfg has_handler
          (record {
            phase = starting n m messages;
            handler_count = count;
            running = running;
            leaving = leaving;
          })
          (record {
            phase = handling messages;
            handler_count = add_int n (pos 1);
            running = m ∷ running;
            leaving = leaving;
          })
  skip :
      {m : Message} {messages : List Message} {count : ℤ} {running : List Message}
      {leaving : Option ℤ}
      → has_handler ≡ false
      → Step cfg has_handler
          (record {
            phase = handling (m ∷ messages);
            handler_count = count;
            running = running;
            leaving = leaving;
          })
          (record {
            phase = handling messages;
            handler_count = count;
            running = running;
            leaving = leaving;
          })
  next_batch :
      {count : ℤ} {running : List Message} {leaving : Option ℤ}
      → Step cfg has_handler
          (record {
            phase = handling [];
            handler_count = count;
            running = running;
            leaving = leaving;
          })
          (record {
            phase = batch_done cfg;
            handler_count = count;
            running = running;
            leaving = leaving;
          })
  lock :
      {phase : Phase} {count : ℤ} (before : List Message) (m : Message) (after : List Message)
      → Step cfg has_handler
          (record {
            phase = phase;
            handler_count = count;
            running = before ++ m ∷ after;
            leaving = none;
          })
          (record {
            phase = phase;
            handler_count = count;
            running = before ++ after;
            leaving = some count;
          })
  unlock :
      {phase : Phase} {n count : ℤ} {running : List Message}
      → Step cfg has_handler
          (record { phase = phase; handler_count = count; running = running; leaving = some n })
          (record {
            phase = phase;
            handler_count = sub_int n (pos 1);
            running = running;
            leaving = none;
          })
  leave :
      {count : ℤ}
      → Step cfg has_handler
          (record { phase = draining; handler_count = count; running = []; leaving = none })
          (record { phase = ended; handler_count = count; running = []; leaving = none })

-- The states that a loop can reach.
pub data Reachable (cfg : Config) (has_handler : Bool) : State → Type 0 where
  start : Reachable cfg has_handler first_state
  step :
      {s t : State}
      → Reachable cfg has_handler s
      → Step cfg has_handler s t
      → Reachable cfg has_handler t

-- `SendMessageBatchRequestEntry`. Every message attribute that the program sends is a string.
pub record Entry : Type 0 where
  pub id : String
  pub delay_seconds : ℤ
  pub message_attributes : Dict String
  pub message_body : String

-- The client of the queue. The URL and the name of the queue are its first arguments.
pub record QueueApi (W : Type 0) : Type 0 where
  pub send_batch : String → List Entry → Act W (Result (Unit {0}))
  pub delete_message : String → String → Act W (Result (Unit {0}))
  pub change_visibility : String → String → ℤ → Act W (Result (Unit {0}))
  pub get_queue_url : String → Act W (Result String)

module _ {W : Type 0} (cfg : Config) (svc : Option (QueueApi W)) where
  -- `Enqueue`. The messages that the queue refuses one by one are only logged.
  unfoldable pub enqueue : List Entry → Act W (Result (Unit {0}))
  enqueue batch w = elim svc [
    | none ↦ (err "no service connection", w)
    | some api ↦ api.send_batch cfg.queue_url batch w
  ]

  -- `ChangeVisibilityTimeout`
  unfoldable pub change_visibility_timeout : Message → ℤ → Act W Bool
  change_visibility_timeout msg seconds w = elim svc [
    | none ↦ (false, w)
    | some api ↦
        let (r, w') = api.change_visibility cfg.queue_url msg.receipt_handle seconds w in
        (is_ok r, w')
  ]

module _ {W : Type 0} (cfg : Config) (api : QueueApi W) where
  -- `Delete`
  unfoldable pub delete : Message → Act W (Result (Unit {0}))
  delete msg w = api.delete_message cfg.queue_url msg.receipt_handle w

  -- `Status`
  unfoldable pub queue_status : Act W (Result (Unit {0}))
  queue_status w = let (r, w') = api.get_queue_url cfg.queue_name w in (r >>= λ url. ok tt, w')

-- `Readyz`, from the status of the database and that of the queue.
unfoldable pub readyz :
    {W : Type 0} → Act W (Result (Unit {0})) → Act W (Result (Unit {0})) → Act W Response
readyz database queue w =
    let (d, w1) = database w in
    let (q, w2) = queue w1 in
    (
      answer (if not (is_ok d) || not (is_ok q) then 500 else 200)
          (status_body (is_ok d) (is_ok q)),
      w2,
    )
