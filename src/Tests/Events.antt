-- ===== src/Tests/Events.antt =====
-- The theorems of `Events` at concrete inputs.
use cluster_registry.Prelude.{
  String, ◌≡◌, ◌≢◌, refl, sym, subst, ◌∙◌, contains, some, [], ◌∷◌, Result, ok, err, returned, pos,
  negsuc, lookup, parse_int, mul_int,
}
use cluster_registry.Registry.Cluster.{Cluster}
use cluster_registry.Database.Store.{get_cluster, put_cluster, decode_item}
use cluster_registry.Events.{
  Message, Event, new_event, receive, handle, handle_message, decode_message, update_decoded,
  update_read, update_cluster,
}
use cluster_registry.Events.Callback.{receive-kept}
use cluster_registry.Events.Freshness.{NotOlder, start, next, Handled-NotOlder}
use cluster_registry.Tests.Memory.{
  Table, memory, memory_laws, memory_IsCurrent, memory_times, parse_unary, format_unary, cluster,
  row,
}

parse_int_tests :
    (parse_int "f" "-12" ≡ ok (negsuc 11))
    × (parse_int "f" "9223372036854775807" ≡ ok (pos 9223372036854775807))
    × (parse_int "f" "9223372036854775808" ≡ err "f: value out of range")
    × (parse_int "f" "" ≡ err "f: invalid syntax")
    × (parse_int "f" "+0" ≡ ok (pos 0))
    × (parse_int "f" "1x" ≡ err "f: invalid syntax")
unfolding parse_int
parse_int_tests = (refl, refl, refl, refl, refl, refl)

-- A body is the name of its cluster.
abbrev body_of : String → Result Cluster
body_of name = ok (cluster name "va6" "Active" "")

abbrev message : Event
message = record {
  type = "cluster-update";
  message = record {
    message_id = "m";
    receipt_handle = "r";
    body = some "one";
    attributes = ("SentTimestamp", "0") ∷ [];
    message_attributes = ("Type", some "cluster-update") ∷ [];
  };
}

-- In the table since one nanosecond before 1970.
abbrev before_epoch : Table
before_epoch = ("one", row (negsuc 0) (cluster "one" "va6" "Active" "-")) ∷ []

handled : (handle memory body_of (some message) before_epoch).0 ≡ returned (ok tt)
unfolding handle handle_message decode_message update_decoded update_cluster update_read parse_int
    get_cluster put_cluster decode_item lookup parse_unary mul_int format_unary
handled = refl

Handled-NotOlder_example :
    NotOlder memory memory_laws memory_times body_of
      (handle memory body_of (some message) before_epoch).1
      "one"
      (negsuc 0)
unfolding decode_item parse_unary lookup
Handled-NotOlder_example =
    Handled-NotOlder memory memory_laws memory_times body_of "one" (negsuc 0) refl
      (next (some message) start (memory_IsCurrent "one" before_epoch) handled refl)

abbrev newer : Cluster
newer = cluster "one" "va6" "Active" "+1"

abbrev ahead : Table
ahead = ("one", row (pos 0) newer) ∷ []

read_newer : (get_cluster memory "one" ahead).0 ≡ ok (some newer)
unfolding get_cluster decode_item lookup
read_newer = refl

-- The time of sending is no number.
abbrev untimed : Message
untimed = record (message.message) { attributes = ("SentTimestamp", "now") ∷ [] }

untimed_refused :
    (handle memory body_of
      (some (record { type = "cluster-update"; message = untimed }))
      before_epoch).0
    ≢ returned (ok tt)
unfolding handle handle_message decode_message update_decoded parse_int lookup
untimed_refused e = cc

untimed_event :
    new_event (some untimed) ≡ returned (ok (record { type = "cluster-update"; message = untimed }))
unfolding new_event lookup contains
untimed_event = refl

event_unique : {a b : Event} → returned (ok a) ≡ returned (ok b) → a ≡ b
event_unique e = cc

never_handled :
    (e : Event)
    → new_event (some untimed) ≡ returned (ok e)
    → (handle memory body_of (some e) before_epoch).0 ≢ returned (ok tt)
never_handled e p h = untimed_refused (
    subst (λ x. (handle memory body_of (some x) before_epoch).0 ≡ returned (ok tt))
      (sym (event_unique (sym untimed_event ∙ p))) h)

receive-kept_example :
    receive memory body_of (λ m w. (ok tt, [])) (λ tag w. (ok tt, [])) untimed before_epoch
    ≡ receive memory body_of (λ m w. (ok tt, w)) (λ tag w. (ok tt, w)) untimed before_epoch
receive-kept_example =
    receive-kept memory body_of (λ m w. (ok tt, [])) (λ m w. (ok tt, w)) (λ tag w. (ok tt, []))
      (λ tag w. (ok tt, w)) untimed before_epoch never_handled
