-- ===== src/Recorder.antt =====
-- `ServiceRecorder` of src/service_recorder.hh, connected to its sinks: the messages that it sends
-- about the record, and the packets that it hands to the ring. A failed assertion, and a pointer
-- that is null where it is read, is `none`. The messages are kept oldest first and hold times in
-- JST, before their conversion for JSON. The local time is one value for each packet.
pub mod Handlers
pub mod Messages
pub mod Events
pub mod Protocol
pub mod Feed
use mirakc_arib.Prelude.{
  ℕ, ◌*◌, ◌%◌, Bool, true, false, not, ◌&&◌, Option, none, some, List, [], ◌∷◌, ◌++◌, ℤ, pos, ◌+ℤ◌,
  scale, ltb_ℤ, leb_ℤ, ltb, ◌==◌, if◌then◌else◌, has_value, maybe, ◌>>=◌, ◌>>◌, assert,
}
use mirakc_arib.Clock.{Clock, new_baseline, now}
use mirakc_arib.Tables.{Packet, Event, Eit, DemuxCall, add_pid, pid_pat, pid_eit, pid_tot, pid_null}

pub record ServiceRecorderOption : Type 0 where
  pub sid : ℕ
  pub chunk_size : ℕ
  pub num_chunks : ℕ
  pub start_pos : ℕ

pub data State : Type 0 where
  preparing recording finished : State

-- The `type` of a message about an event.
pub data EventKind : Type 0 where
  event_start event_update event_end : EventKind

pub data Message : Type 0 where
  start_message : Message
  stop_message : Bool → Message
  chunk_message : ℤ → ℕ → Message
  event_message : EventKind → Eit → Event → ℤ → ℕ → Message

-- `PacketRingSink` of src/packet_sink.hh. `handle_packet` also returns the positions with which it
-- calls the observer's `OnEndOfChunk`, in order: the observer only sends messages.
pub record PacketRingSink (S : Type 0) : Type 0 where
  pub ring_size : S → ℕ
  pub position : S → ℕ
  pub set_position : S → ℕ → S × Bool
  pub is_broken : S → Bool
  pub start : S → S × Bool
  pub handle_packet : S → Packet → (S × Bool) × List ℕ
  pub end_ : S → S
  pub exit_code : S → ℕ

pub record ServiceRecorder (S : Type 0) : Type 0 where
  pub option : ServiceRecorderOption
  pub demux : List DemuxCall
  pub sink : S
  pub clock : Clock
  pub event_boundary_time : ℤ
  pub event_boundary_pos : ℕ
  pub eit : Option Eit
  pub new_eit : Option Eit
  pub pmt_pid : ℕ
  pub state : State
  pub event_started : Bool
  pub messages : List Message

unfoldable pub create : {S : Type 0} → ServiceRecorderOption → Clock → S → ServiceRecorder S
create option clock sink = record {
  option = option;
  demux = add_pid pid_tot ∷ add_pid pid_eit ∷ add_pid pid_pat ∷ [];
  sink = sink;
  clock = clock;
  event_boundary_time = pos 0;
  event_boundary_pos = 0;
  eit = none;
  new_eit = none;
  pmt_pid = pid_null;
  state = preparing;
  event_started = false;
  messages = [];
}

-- `FeedDocument`
unfoldable pub feed_document : {S : Type 0} → ServiceRecorder S → Message → ServiceRecorder S
feed_document s message = record s { messages = s.messages ++ message ∷ [] }

abbrev pub first_event : List Event → Option Event
first_event [] = none
first_event (event ∷ events) = some event

abbrev pub get_event : Option Eit → Option Event
get_event none = none
get_event (some eit) = first_event eit.events

abbrev pub is_unspecified_event_end_time : Event → Bool
is_unspecified_event_end_time event = leb_ℤ event.duration (pos 0)

abbrev pub get_event_end_time : Event → ℤ
get_event_end_time event = event.start_time +ℤ scale 1000 event.duration

unfoldable pub send_event_message :
    {S : Type 0} → ServiceRecorder S → EventKind → Option Eit → ℤ → ℕ → Option (ServiceRecorder S)
send_event_message s kind eit time position = maybe eit none λ e. get_event (some e) >>= λ event.
    some (feed_document s (event_message kind e event time position))

unfoldable pub send_event_start_message :
    {S : Type 0} → ServiceRecorder S → Option Eit → Option (ServiceRecorder S)
send_event_start_message s eit =
    send_event_message s event_start eit s.event_boundary_time s.event_boundary_pos

unfoldable pub send_event_update_message :
    {S : Type 0} → ServiceRecorder S → Option Eit → ℤ → ℕ → Option (ServiceRecorder S)
send_event_update_message s eit time position = send_event_message s event_update eit time position

unfoldable pub send_event_end_message :
    {S : Type 0} → ServiceRecorder S → Option Eit → Option (ServiceRecorder S)
send_event_end_message s eit =
    send_event_message s event_end eit s.event_boundary_time s.event_boundary_pos

unfoldable pub update_event_boundary : {S : Type 0} → ServiceRecorder S → ℤ → ℕ → ServiceRecorder S
update_event_boundary s time position = record s {
  event_boundary_time = time;
  event_boundary_pos = position;
}

-- Whether an event that has begun is shown as such: its end is unknown or still to come.
unfoldable pub is_running : Event → ℤ → Bool
is_running event time =
    if is_unspecified_event_end_time event then true else ltb_ℤ time (get_event_end_time event)

-- An event starts: its message, and the flag.
unfoldable pub start_event :
    {S : Type 0} → ServiceRecorder S → Option Eit → Option (ServiceRecorder S)
start_event s eit =
    send_event_start_message s eit >>= λ s'. some (record s' { event_started = true })

-- The EIT that the state holds, the one that the step is about, and whether the event has changed.
unfoldable pub take_eit :
    {S : Type 0} → ServiceRecorder S → Option (ServiceRecorder S × Option Eit × Bool)
take_eit s = maybe s.new_eit (some (s, s.eit, false)) λ new_eit. get_event s.eit >>= λ old.
    get_event (some new_eit) >>= λ new.
    let changed = not (old.event_id == new.event_id) in
    some (
      record s { eit = some new_eit; new_eit = none },
      if changed then s.eit else some new_eit,
      changed,
    )

module _ {S : Type 0} (ring : PacketRingSink S) where
  unfoldable pub on_end_of_chunk : ServiceRecorder S → ℤ → ℕ → Option (ServiceRecorder S)
  on_end_of_chunk s local_time position =
      let p = if position == ring.ring_size s.sink then 0 else position in
      now s.clock local_time >>= λ time. send_event_update_message s s.eit time p >>= λ s'.
      some (feed_document s' (chunk_message time p))

  unfoldable pub end_chunks : ServiceRecorder S → ℤ → List ℕ → Option (ServiceRecorder S)
  end_chunks s local_time [] = some s
  end_chunks s local_time (position ∷ positions) =
      on_end_of_chunk s local_time position >>= λ s'. end_chunks s' local_time positions

  unfoldable pub on_preparing : ServiceRecorder S → ℤ → Bool → Option (ServiceRecorder S × Bool)
  on_preparing s local_time clock_ready =
      let position = ring.position s.sink in
      let s' = record s { eit = s.new_eit; new_eit = none; state = recording } in
      let begun = λ (time : ℤ).
        update_event_boundary (feed_document s' (chunk_message time position)) time position in
      let choose = λ (time : ℤ) (event : Event).
        (if is_running event time
          then start_event (begun time) s.new_eit
          else some (record (begun time) { event_started = false })) in
      let begin = now s.clock local_time >>= λ time.
      assert (ltb position (ring.ring_size s.sink))
      >> (assert (position % s.option.chunk_size == 0) >> (get_event s.new_eit >>= choose time)) in
      if clock_ready && has_value s.new_eit
      then (begin >>= λ s''. some (s'', true))
      else some (s, true)

  -- An event that has started: the next one starts, or its end is reached.
  unfoldable pub update_started :
      ServiceRecorder S → ℤ → Option Eit → Option Eit → Bool → Option (ServiceRecorder S)
  update_started s time eit new_eit changed =
      let position = ring.position s.sink in
      let next = send_event_end_message (update_event_boundary s time position) eit >>= λ s'.
      send_event_start_message s' new_eit in
      let ended = λ (event : Event).
        send_event_end_message (update_event_boundary s (get_event_end_time event) position) eit
        >>= λ s'. some (record s' { event_started = false }) in
      let go_on = get_event eit >>= λ event.
      if is_unspecified_event_end_time event
      then some s
      else if leb_ℤ (get_event_end_time event) time
      then ended event
      else some s in
      if changed then next else go_on

  unfoldable pub update_events :
      ServiceRecorder S → ℤ → Option Eit → Option Eit → Bool → Option (ServiceRecorder S)
  update_events s time eit new_eit changed =
      if s.event_started
      then update_started s time eit new_eit changed
      else if changed
      then start_event s new_eit
      else some s

  unfoldable pub on_recording : ServiceRecorder S → ℤ → Packet → Option (ServiceRecorder S × Bool)
  on_recording s local_time packet = now s.clock local_time >>= λ time.
      take_eit s >>= λ (s', eit, changed). update_events s' time eit s.new_eit changed >>= λ s''.
      let ((sink, ok), chunks) = ring.handle_packet s''.sink packet in
      end_chunks s'' local_time chunks >>= λ s'''. some (record s''' { sink = sink }, ok)
