-- ===== src/Common/Bus/Batch.antt =====
-- `read_new` and `claim_stale`: what they hand out was published, and no message is lost by them.
use mathlib.Core.List.{Memᴰ}
use mathlib.Core.List.Memᴰ
use mini_crypto_wallet.Base.{
  ℕ, ◌+◌, ◌≡◌, ◌∙◌, refl, sym, ap, inl, inr, min, List, [], ◌∷◌, ◌++◌, String, str_eq, Bool-cases,
  leb, map,
}
use mini_crypto_wallet.Base.Table.{length, take, drop}
use mini_crypto_wallet.Base.Slices.{mem_of_take, mem_of_drop}
use mini_crypto_wallet.Base.Dict.{get_or}
use mini_crypto_wallet.Common.Events.{EventEnvelope, stream_for}
use mini_crypto_wallet.Common.Bus.{
  InMemoryBus, DeliveredEvent, Pending, Message, Key, key_eq, messages, cursor, entries, set_entry,
  add_pending, set_cursor, first_delivery, read_new, claim_entries, claim_types, redelivered,
  redelivery,
}
use mini_crypto_wallet.Common.Bus.Sound.{Kept, set_entry-Kept}
use mini_crypto_wallet.Common.Bus.Publishing.{Valid}
use mini_crypto_wallet.Common.Bus.Reading.{
  add_pending-Kept, add_pending-Waits, set_cursor_from-Kept,
}

-- Events that were published, as their streams hold them.
abbrev pub AllValid : InMemoryBus → List DeliveredEvent → Type 0
AllValid b ds = (d : DeliveredEvent) → Memᴰ d ds → Valid b d

pub add_pending-streams :
    (key : Key) (now : ℕ) (ms : List Message) (b : InMemoryBus)
    → ((add_pending key now ms b).streams ≡ b.streams)
      × ((add_pending key now ms b).cursors ≡ b.cursors)
add_pending-streams key now [] b = (refl, refl)
add_pending-streams key now ((id, e) ∷ ms) b =
    add_pending-streams key now ms
      (set_entry key id (record { envelope = e; delivered = 1; at = now }) b)

pub moved :
    (b b' : InMemoryBus) → b.streams ≡ b'.streams → (d : DeliveredEvent) → Valid b d → Valid b' d
moved b b' same d m = rw same at m

in_stream :
    {streams : List (String × List Message)} (b : InMemoryBus)
    → b.streams ≡ streams
    → (stream : String) (id : ℕ) (e : EventEnvelope)
    → Memᴰ {A = Message} (id, e) (get_or str_eq [] stream streams)
    → Memᴰ {A = Message} (id, e) (messages stream b)
in_stream b same stream id e m = rw (sym same) at m

first_delivery-Valid :
    (stream : String) (b : InMemoryBus) (ms : List Message)
    → ((m : Message) → Memᴰ m ms → Memᴰ m (messages stream b))
    → AllValid b (map (first_delivery stream) ms)
first_delivery-Valid stream b [] from d m = absurd (Memᴰ.not-nil m)
first_delivery-Valid stream b ((id, e) ∷ ms) from d m = elim (Memᴰ.cases_cons m) [
  | inl is ↦ rw is (from (id, e) (Memᴰ.head refl))
  | inr m' ↦ first_delivery-Valid stream b ms (λ k l. from k (Memᴰ.tail l)) d m'
]

module _ {S : Type 0} (Done : S → EventEnvelope → Type 0) (group : String) (s : S) where
  -- A state of the bus from which nothing is lost, with events that were published.
  pub record Batch (streams : List (String × List Message)) (ds : List DeliveredEvent)
      (b : InMemoryBus) : Type 0 where
    pub kept : Kept Done group b s
    pub same : b.streams ≡ streams
    pub valid : AllValid b ds

  read_new-step :
      (stream : String) (now count : ℕ) (b : InMemoryBus)
      → Kept Done group b s
      → let key : Key = (stream, group) in
        let slice = take count (drop (cursor key b) (messages stream b)) in
        let end = min (cursor key b + count) (length (messages stream b)) in
        Batch b.streams
          (map (first_delivery stream) slice)
          (set_cursor key end (add_pending key now slice b))
  read_new-step stream now count b h =
      let key : Key = (stream, group) in
      let slice = take count (drop (cursor key b) (messages stream b)) in
      let b₁ = add_pending key now slice b in
      let (same_streams, same_cursors) = add_pending-streams key now slice b in
      let from = λ (m : Message) (k : Memᴰ m slice).
        mem_of_drop (cursor key b) (messages stream b) (mem_of_take count _ k) in
      let kept₁ = add_pending-Kept Done group stream now slice b s from h in
      record {
        kept =
            set_cursor_from-Kept Done group stream count (cursor key b) (messages stream b) b₁ s
              (ap (get_or key_eq 0 key) same_cursors) (ap (get_or str_eq [] stream) same_streams)
              kept₁ (λ id e m. add_pending-Waits Done group stream now id slice b (inr (e, m)));
        same = same_streams;
        valid = λ d m. rw same_streams (first_delivery-Valid stream b slice from d m);
      }

  pub append-AllValid :
      (b : InMemoryBus) (ds ds' : List DeliveredEvent)
      → AllValid b ds
      → AllValid b ds'
      → AllValid b (ds ++ ds')
  append-AllValid b ds ds' h h' d m = elim (Memᴰ.append_cases ds m) [
    | inl k ↦ h d k
    | inr k ↦ h' d k
  ]

  pub read_new-Batch :
      (now count : ℕ) (ts : List String) (b : InMemoryBus)
      → Kept Done group b s
      → let r = read_new group now count ts b in Batch b.streams r.0 r.1
  unfolding read_new
  read_new-Batch now count [] b h = record {
    kept = h;
    same = refl;
    valid = λ d m. absurd (Memᴰ.not-nil m);
  }
  read_new-Batch now count (t ∷ ts) b h =
      let stream = stream_for t in
      let key : Key = (stream, group) in
      let slice = take count (drop (cursor key b) (messages stream b)) in
      let end = min (cursor key b + count) (length (messages stream b)) in
      let b₁ = set_cursor key end (add_pending key now slice b) in
      let first = read_new-step stream now count b h in
      let rest = read_new-Batch now count ts b₁ first.kept in
      let r = read_new group now count ts b₁ in
      record {
        kept = rest.kept;
        same = rest.same ∙ first.same;
        valid =
            append-AllValid r.1 (map (first_delivery stream) slice) r.0
              (λ d m. moved b₁ r.1 (sym rest.same) d (first.valid d m)) rest.valid;
      }

  pub claim_entries-Batch :
      (now count min_idle : ℕ) (stream : String) (ps : List (ℕ × Pending))
      (ds : List DeliveredEvent) (b : InMemoryBus) (streams : List (String × List Message))
      → ((id : ℕ) (p : Pending)
          → Memᴰ {A = ℕ × Pending} (id, p) ps
          → Memᴰ {A = Message} (id, p.envelope) (get_or str_eq [] stream streams))
      → Batch streams ds b
      → let r = claim_entries group now count min_idle stream ps ds b in Batch streams r.0 r.1
  unfolding claim_entries
  claim_entries-Batch now count min_idle stream [] ds b streams from h = h
  claim_entries-Batch now count min_idle stream ((id, p) ∷ ps) ds b streams from h =
      elim (Bool-cases (leb (p.at + min_idle) now)) [
        | inr e ↦ rw e (
            claim_entries-Batch now count min_idle stream ps ds b streams
              (λ i q m. from i q (Memᴰ.tail m)) h)
        | inl e ↦
            let ds' = ds ++ redelivery stream id p ∷ [] in
            let b' = set_entry (stream, group) id (redelivered now p) b in
            let next : Batch streams ds' b' = record {
              kept =
                  set_entry-Kept Done group stream id (redelivered now p) b s
                    (in_stream b h.same stream id p.envelope (from id p (Memᴰ.head refl))) h.kept;
              same = h.same;
              valid = append-AllValid b' ds (redelivery stream id p ∷ []) h.valid (λ d m.
                  rw (Memᴰ.eq_of_singleton m)
                    (in_stream b h.same stream id p.envelope (from id p (Memᴰ.head refl))));
            } in
            let rest =
              claim_entries-Batch now count min_idle stream ps ds' b' streams
                (λ i q m. from i q (Memᴰ.tail m)) next in
            elim (Bool-cases (leb count (length ds'))) [
              | inl k ↦ rw (e, k) next
              | inr k ↦ rw (e, k) rest
            ]
      ]

  pub claim_types-Batch :
      (now count min_idle : ℕ) (ts : List String) (ds : List DeliveredEvent) (b : InMemoryBus)
      (streams : List (String × List Message))
      → Batch streams ds b
      → let r = claim_types group now count min_idle ts ds b in Batch streams r.0 r.1
  unfolding claim_types
  claim_types-Batch now count min_idle [] ds b streams h = h
  claim_types-Batch now count min_idle (t ∷ ts) ds b streams h =
      let stream = stream_for t in
      let r = claim_entries group now count min_idle stream (entries (stream, group) b) ds b in
      claim_types-Batch now count min_idle ts r.0 r.1 streams (
        claim_entries-Batch now count min_idle stream (entries (stream, group) b) ds b streams
          (λ id p m. rw h.same at (h.kept.sound stream id p m)) h)
