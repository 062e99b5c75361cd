-- ===== src/Events/Freshness.antt =====
-- When an update replaces a cluster in the database, and when it must not: pkg/apiserver/event/handler.go.
use cluster_registry.Prelude.{
  String, ◌==◌, ◌≡◌, ◌∙◌, Option, none, some, Result, ok, err, Outcome, returned, panicked,
  out_of_fuel, ℤ, wrap_int, ltb_ℤ, ◌≤ℤ◌, ≤ℤ_of_not_ltb, ≤ℤ_refl, ≤ℤ_trans, mul_int-fits, pos,
  lookup, parse_int, arith, Bool-cases, Option-cases, Result-cases, inl, inr, eq_iff,
}
use cluster_registry.Registry.Cluster.{Cluster}
use cluster_registry.Database.Api.{Db}
use cluster_registry.Database.Store.{get_cluster}
use cluster_registry.Database.Store.Table.{TableLaws, IsCurrent}
use cluster_registry.Events.{
  Message, Event, put_at, with_last_updated, update_read, update_cluster, decode_message,
  update_decoded, handle_message, handle, cluster_update_event,
}
use cluster_registry.Events.Stamps.{
  TimeLaws, stamp, stamp-get_cluster, stamp-put_cluster, stamp-put_cluster_ne, stamp_of_read,
  read_time,
}

module _ {W Item Key Condition Expr : Type 0} (d : Db W Item Key Condition Expr) (l : TableLaws d)
    (tl : TimeLaws d) where
  open l use {item_of}

  module _ (unmarshal_cluster : String → Result Cluster) where
    -- A later time, or the same one, stands under the name.
    abbrev pub NotOlder : W → String → ℤ → Type 0
    NotOlder w k told = (t : ℤ) × (stamp d l tl w k ≡ some t) × (told ≤ℤ t)

    put_at-NotOlder :
        (t : ℤ) (c : Cluster) (w : W) (k : String) (told : ℤ)
        → wrap_int t ≡ t
        → (put_at d unmarshal_cluster t c w).0 ≡ ok tt
        → stamp d l tl w k ≡ some told
        → (c.spec.name ≡ k → told ≤ℤ t)
        → NotOlder (put_at d unmarshal_cluster t c w).1 k told
    put_at-NotOlder t c w k told fits e before late = elim (Bool-cases (c.spec.name == k)) [
      | inl same ↦
          let p : c.spec.name ≡ k = (eq_iff c.spec.name k).0 same in
          (
            t,
            rw (← p) (
                stamp-put_cluster d l tl (with_last_updated (d.time.format_nano t) c) w t
                  (tl.format_lem t fits) e),
            late p,
          )
      | inr other ↦ (
        told,
        stamp-put_cluster_ne d l tl (with_last_updated (d.time.format_nano t) c) w k other e
            ∙ before,
        ≤ℤ_refl told,
      )
    ]

    update_read-NotOlder :
        (t : ℤ) (c : Cluster) (r : Option Cluster) (w w1 : W) (k : String) (told : ℤ)
        → wrap_int t ≡ t
        → IsCurrent l k w
        → (get_cluster d c.spec.name w).0 ≡ ok r
        → stamp d l tl w k ≡ some told
        → stamp d l tl w1 k ≡ some told
        → (update_read d unmarshal_cluster t c (ok r) w1).0 ≡ ok tt
        → NotOlder (update_read d unmarshal_cluster t c (ok r) w1).1 k told
    unfolding update_read
    update_read-NotOlder t c none w w1 k told fits current read before before1 e =
        put_at-NotOlder t c w1 k told fits e before1 λ p.
          let (old, found, q) =
            stamp_of_read d l tl c.spec.name w none told (rw (← p) at current) read
              (rw (← p) at before) in
          cc found
    update_read-NotOlder t c (some old) w w1 k told fits current read before before1 e =
        elim (Result-cases (d.time.parse old.spec.last_updated)) [
          | inr (m, p) ↦
              rw (p, update_read)
                (put_at-NotOlder t c w1 k told fits (rw (p, update_read) at e) before1 λ q. cc (
                  p,
                  read_time d l tl c old w told (rw (← q) at current) read (rw (← q) at before),
                ))
          | inl (u, p) ↦ elim (Bool-cases (ltb_ℤ t u)) [
            | inl stale ↦ rw (p, update_read, stale) (told, before1, ≤ℤ_refl told)
            | inr new ↦
                rw (p, update_read, new)
                  (put_at-NotOlder t c w1 k told fits (rw (p, update_read, new) at e) before1 λ q.
                    let same : told ≡ u = ground (
                      arith,
                      p,
                      read_time d l tl c old w told (rw (← q) at current) read (rw (← q) at before),
                    ) in
                    rw same (≤ℤ_of_not_ltb t u new))
          ]
        ]

    -- A successful update never sets the time of the last update of any cluster back.
    update_cluster-NotOlder :
        (t : ℤ) (c : Cluster) (w : W) (k : String) (told : ℤ)
        → wrap_int t ≡ t
        → IsCurrent l k w
        → stamp d l tl w k ≡ some told
        → (update_cluster d unmarshal_cluster t c w).0 ≡ ok tt
        → NotOlder (update_cluster d unmarshal_cluster t c w).1 k told
    unfolding update_cluster
    update_cluster-NotOlder t c w k told fits current before e =
        elim (Result-cases (get_cluster d c.spec.name w).0) [
          | inl (r, p) ↦
              rw (p, update_cluster)
                (update_read-NotOlder t c r w (get_cluster d c.spec.name w).1 k told fits current p
                  before (stamp-get_cluster d l tl c.spec.name k w ∙ before)
                  (rw (p, update_cluster) at e))
          | inr (m, p) ↦ cc (rw (p, update_cluster, update_read) at e)
        ]

    abbrev Fits : Outcome (Result (ℤ × Cluster)) → Type 0
    Fits (returned (ok (t, c))) = wrap_int t ≡ t
    Fits _ = Unit

    decode_message-Fits : (msg : Message) → Fits (decode_message d unmarshal_cluster msg)
    unfolding decode_message
    decode_message-Fits msg = elim (Option-cases msg.body) [
      | inl p ↦ rw (p, decode_message) tt
      | inr (body, p) ↦ elim (Result-cases (unmarshal_cluster body)) [
        | inr (m, q) ↦ rw (p, decode_message, q) tt
        | inl (c, q) ↦ elim (Option-cases (lookup "SentTimestamp" msg.attributes)) [
          | inl r ↦ rw (p, decode_message, q, r) tt
          | inr (s, r) ↦ elim (Result-cases (parse_int "strconv.ParseInt" s)) [
            | inr (m, u) ↦ rw (p, decode_message, q, r, u) tt
            | inl (ms, u) ↦ rw (p, decode_message, q, r, u) (mul_int-fits ms (pos 1000000))
          ]
        ]
      ]
    ]

    returned-injective : (r : Result (Unit {0})) → returned r ≡ returned (ok tt) → r ≡ ok tt
    returned-injective r h = ground (arith, h)

    update_decoded-NotOlder :
        (o : Outcome (Result (ℤ × Cluster))) (w : W) (k : String) (told : ℤ)
        → Fits o
        → IsCurrent l k w
        → stamp d l tl w k ≡ some told
        → (update_decoded d unmarshal_cluster o w).0 ≡ returned (ok tt)
        → NotOlder (update_decoded d unmarshal_cluster o w).1 k told
    unfolding update_decoded
    update_decoded-NotOlder (returned (ok (t, c))) w k told fits current before e =
        update_cluster-NotOlder t c w k told fits current before
          (returned-injective (update_cluster d unmarshal_cluster t c w).0 e)
    update_decoded-NotOlder (returned (err m)) w k told fits current before e = cc e
    update_decoded-NotOlder panicked w k told fits current before e = cc e
    update_decoded-NotOlder out_of_fuel w k told fits current before e = cc e

    handle-NotOlder :
        (msg : Option Event) (w : W) (k : String) (told : ℤ)
        → IsCurrent l k w
        → stamp d l tl w k ≡ some told
        → (handle d unmarshal_cluster msg w).0 ≡ returned (ok tt)
        → NotOlder (handle d unmarshal_cluster msg w).1 k told
    unfolding handle handle_message
    handle-NotOlder none w k told current before e = ground (arith, e)
    handle-NotOlder (some ev) w k told current before e =
        elim (Bool-cases (ev.type == cluster_update_event)) [
          | inl p ↦
              rw (p, handle)
                (update_decoded-NotOlder (decode_message d unmarshal_cluster ev.message) w k told
                  (decode_message-Fits ev.message) current before (rw (p, handle) at e))
          | inr p ↦ let bad = rw (p, handle) at e in ground (arith, bad)
        ]

    -- The worlds that handling messages leads to, where each is handled without an error, and while
    -- each is handled a read of this name sees its last write.
    pub data Handled (k : String) (w : W) : W → Type 0 where
      start : Handled k w w
      next :
          {w1 w2 : W} (msg : Option Event)
          → Handled k w w1
          → IsCurrent l k w1
          → (handle d unmarshal_cluster msg w1).0 ≡ returned (ok tt)
          → w2 ≡ (handle d unmarshal_cluster msg w1).1
          → Handled k w w2

    -- Whatever messages are handled one after the other, in whatever order they were sent: as long
    -- as each is handled without an error, and while it is handled a read of the name sees the last
    -- write of it, the time of the last update of the cluster under a name, where the table holds
    -- one that can be read, never goes back, for a format of times and a marshaller that keep that
    -- time.
    pub Handled-NotOlder :
        (k : String) {w w' : W} (told : ℤ)
        → stamp d l tl w k ≡ some told
        → Handled k w w'
        → NotOlder w' k told
    Handled-NotOlder k told before start = (told, before, ≤ℤ_refl told)
    Handled-NotOlder k told before (next {w1} msg h current e q) =
        let (t, now, le) = Handled-NotOlder k told before h in
        let (t', later, le') = handle-NotOlder msg w1 k t current now e in
        rw q (t', later, ≤ℤ_trans told t t' le le')
