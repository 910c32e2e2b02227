-- ===== src/AgentWire/Link/Order.antt =====
-- packages/go/agentwire/remote.go: the agent's loop, the connection, the gateway's reader and the
-- gateway's session in any interleaving. The events arrive in the order in which they were sent.
use nova2sonici_osapp.Common.{
  ◌≤◌, ◌<◌, ◌≡◌, refl, sym, ap, ◌∙◌, ◌⊎◌, inl, inr, Bool, true, false, Option, none, some, List, [],
  ◌∷◌, ◌++◌, map, All, All-append, arith, length, length-append, ltb, if◌then◌else◌, Bool-cases,
}
use mathlib.Core.List.{append_assoc, append-nil}
use nova2sonici_osapp.Common.Fallible.{ok, Fallible-cases}
use nova2sonici_osapp.Common.Text.{Text}
use nova2sonici_osapp.AgentWire.Types.{Protocol, Event, Message, agent_error}
use nova2sonici_osapp.AgentWire.Protocol.{Decoder, decode_protocol}
use nova2sonici_osapp.AgentWire.Handshake.{Frame}
use nova2sonici_osapp.AgentWire.Link.Carried.{is_value, read_back}
use nova2sonici_osapp.AgentWire.Link.{
  remote_queue_depth, event_message, read_event, Signal, serve, event, is_valid,
}

-- `emitted` are the events that the agent's end has written, `taken` those that the gateway's handler
-- has received; between them are the frames on the wire and the channel of the remote session.
pub record System : Type 0 where
  pub emitted : List Event
  pub wire : List Text
  pub queue : List Event
  pub taken : List Event
  pub serving : Bool
  pub reading : Bool
  pub closed : Bool

-- An event by which the gateway's end says that the session failed.
abbrev pub IsFailure : Event → Type 0
IsFailure e = e.kind ≡ agent_error

-- A send to the channel that is skipped when the channel is full.
abbrev pub with_room : List Event → Event → List Event
with_room q e = if ltb (length q) remote_queue_depth then q ++ e ∷ [] else q

-- The agent's end is a server in the protocol `p` and writes an event as the text `write e`.
module _ (d : Decoder) (p : Protocol) (write : Event → Text) where
  pub data Step (s : System) : System → Type 0 where
    writes :
        (e : Event) {on : Bool}
        → is_value e ≡ true
        → s.serving ≡ true
        → serve d p (event e true) ≡ (on, some e)
        → Step s (record s {
          emitted = s.emitted ++ e ∷ [];
          wire = s.wire ++ write e ∷ [];
          serving = on;
        })
    stops : (g : Signal) → serve d p g ≡ (false, none) → Step s (record s { serving = false })
    reads :
        (x : Text) (w : List Text) (e : Event)
        → s.reading ≡ true
        → s.wire ≡ x ∷ w
        → length s.queue < remote_queue_depth
        → read_event d p (some (some x)) ≡ inl e
        → Step s (record s { wire = w; queue = s.queue ++ e ∷ [] })
    breaks :
        (x : Text) (w : List Text) (e : Event)
        → s.reading ≡ true
        → s.wire ≡ x ∷ w
        → read_event d p (some (some x)) ≡ inr e
        → Step s (record s { wire = w; queue = with_room s.queue e; reading = false })
    fails :
        (e : Event)
        → s.reading ≡ true
        → read_event d p none ≡ inr e
        → Step s (record s {
          queue = if s.closed then s.queue else with_room s.queue e;
          reading = false;
        })
    shuts : s.closed ≡ true → Step s (record s { reading = false })
    takes :
        (e : Event) (q : List Event)
        → s.queue ≡ e ∷ q
        → Step s (record s { queue = q; taken = s.taken ++ e ∷ [] })
    hangs_up : Step s (record s { closed = true })

  abbrev pub begin : System
  begin = record {
    emitted = [];
    wire = [];
    queue = [];
    taken = [];
    serving = true;
    reading = true;
    closed = false;
  }

  pub data Reach : System → Type 0 where
    here : Reach begin
    next : {s t : System} → Reach s → Step s t → Reach t

  abbrev pub IsSound : Event → Type 0
  IsSound e = (is_valid d p e ≡ true) × (is_value e ≡ true)

-- `compact` is what encoding/json does to raw JSON.
module _ (d : Decoder) (p : Protocol) (write : Event → Text) (compact : Text → Text) where
  -- What the reader got are the first of the events that were written, as they are read back, and at
  -- the end possibly that the session failed. While it reads, the other events are on the wire.
  pub record Kept (s : System) (good rest tail : List Event) : Type 0 where
    pub heard : s.taken ++ s.queue ≡ map (read_back compact) good ++ tail
    pub sent : s.emitted ≡ good ++ rest
    pub bounded : length s.queue ≤ remote_queue_depth
    pub ending : (tail ≡ []) ⊎ ((e : Event) × (tail ≡ e ∷ []) × IsFailure e)
    pub flowing :
        s.reading ≡ true → (tail ≡ []) × (s.wire ≡ map write rest) × All (IsSound d p write) rest

  -- Some events are such a beginning.
  abbrev pub IsOrdered : System → Type 0
  IsOrdered s =
      (good : List Event) × (rest : List Event) × (tail : List Event) × Kept s good rest tail

map-snoc {ℓ κ} :
    {A : Type ℓ} {B : Type κ} (f : A → B) (xs : List A) (x : A)
    → map f (xs ++ x ∷ []) ≡ map f xs ++ f x ∷ []
map-snoc f [] x = refl
map-snoc f (y ∷ xs) x = ap (λ t. f y ∷ t) (map-snoc f xs x)

read_event-IsFailure :
    (d : Decoder) (p : Protocol) (frame : Option Frame) (e : Event)
    → read_event d p frame ≡ inr e
    → IsFailure e
unfolding read_event
read_event-IsFailure d p none e h = ground arith
read_event-IsFailure d p (some none) e h = ground arith
read_event-IsFailure d p (some (some t)) e h = ground arith

module _ (d : Decoder) (p : Protocol) (write : Event → Text) (compact : Text → Text)
    (carries : (e : Event) (m : Message)
      → IsSound d p write e
      → decode_protocol d (write e) p ≡ ok m
      → m ≡ event_message p (read_back compact e)) where
  read_event-write :
      (e e' : Event)
      → IsSound d p write e
      → read_event d p (some (some (write e))) ≡ inl e'
      → read_back compact e ≡ e'
  unfolding read_event
  read_event-write e e' sound read = elim (Fallible-cases (decode_protocol d (write e) p)) [
    | inl (m, bad) ↦ absurd (ground arith)
    | inr (m, decoded) ↦
        let same : m ≡ event_message p (read_back compact e) = carries e m sound decoded in
        ground arith
  ]

  module _ (s : System) (good rest tail : List Event)
      (k : Kept d p write compact s good rest tail) where
    writes-IsOrdered :
        (e : Event) (on : Bool)
        → is_value e ≡ true
        → serve d p (event e true) ≡ (on, some e)
        → IsOrdered d p write compact (record s {
          emitted = s.emitted ++ e ∷ [];
          wire = s.wire ++ write e ∷ [];
          serving = on;
        })
    unfolding serve
    writes-IsOrdered e on value served =
        let sound : IsSound d p write e = (ground arith, value) in
        (
          good,
          rest ++ e ∷ [],
          tail,
          record {
            heard = k.heard;
            sent = rw k.sent (append_assoc good rest (e ∷ []));
            bounded = k.bounded;
            ending = k.ending;
            flowing = λ r.
                let (none_lost, same, sounds) = k.flowing r in
                (
                  none_lost,
                  rw same (sym (map-snoc write rest e)),
                  All-append (IsSound d p write) rest (e ∷ []) sounds (sound, tt),
                );
          },
        )

    -- A frame that is read is the first of the events on the wire.
    first-frame :
        (x : Text) (w : List Text)
        → s.reading ≡ true
        → s.wire ≡ x ∷ w
        → (e : Event) × (r : List Event) × (rest ≡ e ∷ r)
          × (x ≡ write e)
          × IsSound d p write e
          × (w ≡ map write r)
          × All (IsSound d p write) r
    first-frame x w reading wire =
        let (_, same, sounds) = k.flowing reading in go rest (sym wire ∙ same) sounds
      where
        go :
            (r : List Event)
            → x ∷ w ≡ map write r
            → All (IsSound d p write) r
            → (e : Event) × (r' : List Event) × (r ≡ e ∷ r')
              × (x ≡ write e)
              × IsSound d p write e
              × (w ≡ map write r')
              × All (IsSound d p write) r'
        go [] same sounds = absurd (cc same)
        go (e ∷ r) same sounds =
            let text : x ≡ write e = ground arith in
            let others : w ≡ map write r = ground arith in
            (e, r, refl, text, sounds.0, others, sounds.1)

    reads-IsOrdered :
        (x : Text) (w : List Text) (e : Event)
        → s.reading ≡ true
        → s.wire ≡ x ∷ w
        → length s.queue < remote_queue_depth
        → read_event d p (some (some x)) ≡ inl e
        → IsOrdered d p write compact (record s { wire = w; queue = s.queue ++ e ∷ [] })
    reads-IsOrdered x w e reading wire room read =
        let (e', r, same, text, sound, others, sounds) = first-frame x w reading wire in
        let (none_lost, _, _) = k.flowing reading in
        let event : read_back compact e' ≡ e = read_event-write e' e sound (rw (← text) read) in
        let heard : s.taken ++ s.queue ≡ map (read_back compact) good =
          k.heard
          ∙ ap (λ t. map (read_back compact) good ++ t) none_lost
          ∙ append-nil (map (read_back compact) good) in
        (
          good ++ e' ∷ [],
          r,
          [],
          record {
            heard =
                sym (append_assoc s.taken s.queue (e ∷ []))
                ∙ ap (λ t. t ++ e ∷ []) heard
                ∙ ap (λ t. map (read_back compact) good ++ t ∷ []) (sym event)
                ∙ sym (map-snoc (read_back compact) good e')
                ∙ sym (append-nil (map (read_back compact) (good ++ e' ∷ [])));
            sent = k.sent ∙ rw same (sym (append_assoc good (e' ∷ []) r));
            bounded = omega (arith, length-append s.queue (e ∷ []), room);
            ending = inl refl;
            flowing = λ _. (refl, others, sounds);
          },
        )

    -- The reader ends, with at most one event more where it had room.
    ends_as_is :
        (w : List Text) (q : List Event)
        → q ≡ s.queue
        → IsOrdered d p write compact (record s { wire = w; queue = q; reading = false })
    ends_as_is w q same = (
      good,
      rest,
      tail,
      record {
        heard = rw same k.heard;
        sent = k.sent;
        bounded = rw same k.bounded;
        ending = k.ending;
        flowing = λ r. cc;
      },
    )

    ends-IsOrdered :
        (w : List Text) (q : List Event) (e : Event)
        → s.reading ≡ true
        → IsFailure e
        → (q ≡ s.queue) ⊎ (q ≡ with_room s.queue e)
        → IsOrdered d p write compact (record s { wire = w; queue = q; reading = false })
    ends-IsOrdered w q e reading failure (inl same) = ends_as_is w q same
    ends-IsOrdered w q e reading failure (inr more) =
        elim (Bool-cases (ltb (length s.queue) remote_queue_depth)) [
          | inr full ↦ ends_as_is w q (ground arith)
          | inl room ↦
              let (none_lost, _, _) = k.flowing reading in
              let room' : length s.queue < remote_queue_depth = ground arith in
              let longer : q ≡ s.queue ++ e ∷ [] = ground arith in
              (
                good,
                rest,
                e ∷ [],
                record {
                  heard = rw longer (
                      sym (append_assoc s.taken s.queue (e ∷ []))
                      ∙ ap (λ t. t ++ e ∷ []) k.heard
                      ∙ rw (none_lost, append-nil) refl);
                  sent = k.sent;
                  bounded = rw longer (omega (arith, length-append s.queue (e ∷ []), room'));
                  ending = inr (e, refl, failure);
                  flowing = λ r. cc;
                },
              )
        ]

    takes-IsOrdered :
        (e : Event) (q : List Event)
        → s.queue ≡ e ∷ q
        → IsOrdered d p write compact (record s { queue = q; taken = s.taken ++ e ∷ [] })
    takes-IsOrdered e q first = (
      good,
      rest,
      tail,
      record {
        heard = append_assoc s.taken (e ∷ []) q ∙ sym (rw (← first) refl) ∙ k.heard;
        sent = k.sent;
        bounded = ground (arith, k.bounded, first);
        ending = k.ending;
        flowing = k.flowing;
      },
    )

    -- Nothing that the order speaks of changes.
    stays :
        (serving reading closed : Bool)
        → (reading ≡ true → s.reading ≡ true)
        → IsOrdered d p write compact
            (record s { serving = serving; reading = reading; closed = closed })
    stays serving reading closed was = (
      good,
      rest,
      tail,
      record {
        heard = k.heard;
        sent = k.sent;
        bounded = k.bounded;
        ending = k.ending;
        flowing = λ r. k.flowing (was r);
      },
    )

  Step-IsOrdered :
      {s t : System}
      → Step d p write s t
      → IsOrdered d p write compact s
      → IsOrdered d p write compact t
  unfolding read_event
  Step-IsOrdered {s} (writes e {on} value serving served) (g, r, z, k) =
      writes-IsOrdered s g r z k e on value served
  Step-IsOrdered {s} (stops signal ended) (g, r, z, k) =
      stays s g r z k false s.reading s.closed (λ h. h)
  Step-IsOrdered {s} (reads x w e reading wire room read) (g, r, z, k) =
      reads-IsOrdered s g r z k x w e reading wire room read
  Step-IsOrdered {s} (breaks x w e reading wire broken) (g, r, z, k) =
      ends-IsOrdered s g r z k w _ e reading (read_event-IsFailure d p (some (some x)) e broken)
        (inr refl)
  Step-IsOrdered {s} (fails e reading failed) (g, r, z, k) =
      let failure = read_event-IsFailure d p none e failed in
      elim (Bool-cases s.closed) [
        | inl expected ↦
            ends-IsOrdered s g r z k s.wire _ e reading failure (inl (rw expected refl))
        | inr sudden ↦ ends-IsOrdered s g r z k s.wire _ e reading failure (inr (rw sudden refl))
      ]
  Step-IsOrdered {s} (shuts closed) (g, r, z, k) =
      stays s g r z k s.serving false s.closed (λ h. cc)
  Step-IsOrdered {s} (takes e q first) (g, r, z, k) = takes-IsOrdered s g r z k e q first
  Step-IsOrdered {s} hangs_up (g, r, z, k) = stays s g r z k s.serving s.reading true (λ h. h)

  -- Where a text that the agent's end wrote for an event that Go has and ValidateEvent accepts decodes to
  -- nothing or to that event with its raw JSON compacted, in any interleaving of the two ends the
  -- gateway's handler takes, and then finds in its channel of at most eight, the first of the events that
  -- the agent's end wrote, so read back, in their order and none twice, and after them at most one event
  -- of its own, which says that the session failed.
  pub Reach-IsOrdered : {s : System} → Reach d p write s → IsOrdered d p write compact s
  Reach-IsOrdered here = (
    [],
    [],
    [],
    record {
      heard = refl;
      sent = refl;
      bounded = omega arith;
      ending = inl refl;
      flowing = λ _. (refl, refl, tt);
    },
  )
  Reach-IsOrdered (next r st) = Step-IsOrdered st (Reach-IsOrdered r)
